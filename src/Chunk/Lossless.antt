-- ===== src/Chunk/Lossless.antt =====
-- The chunks of a text: none too long, none empty, nothing lost.
use mathlib.Core.List.{append-nil}
use discord_copilot_sdk.Base.{
  ℕ, zero, suc, ◌≤◌, ◌<◌, ◌≡◌, refl, ap, ◌∙◌, List, [], ◌∷◌, ◌++◌, some, arith, ltb, All, length,
  take, drop, concat, take-append-drop, length-take, length-drop, Bool-cases, Option-cases, inl,
  inr,
}
use discord_copilot_sdk.Chunk.{Text, last_index_of, find_cut, chunks_from, chunk_text, last_chunk}

last_index_of-lt : (c : ℕ) (s : Text) (i : ℕ) → last_index_of c s ≡ some i → i < length s
unfolding last_index_of
last_index_of-lt c [] i h = cc
last_index_of-lt c (x ∷ s) i h = elim (Option-cases (last_index_of c s)) [
  | inl e ↦ ground arith
  | inr (j, e) ↦ ground (arith, last_index_of-lt c s j e)
]

find_cut_bounds : (s : Text) (max : ℕ) → 0 < max → (0 < find_cut s max) × (find_cut s max ≤ max)
unfolding find_cut
find_cut_bounds s max h = elim (Option-cases (last_index_of 0xa (take max s))) [
  | inl e ↦ elim (Option-cases (last_index_of 0x20 (take max s))) [
    | inl f ↦ ground arith
    | inr (j, f) ↦ ground (arith, last_index_of-lt 0x20 (take max s) j f, length-take max s)
  ]
  | inr (i, e) ↦ elim (Option-cases (last_index_of 0x20 (take max s))) [
    | inl f ↦ ground (arith, last_index_of-lt 0xa (take max s) i e, length-take max s)
    | inr (j, f) ↦ ground (
      arith,
      last_index_of-lt 0xa (take max s) i e,
      last_index_of-lt 0x20 (take max s) j f,
      length-take max s,
    )
  ]
]

-- The chunks `cs` of a text under a bound.
pub record AreChunks (text : Text) (max : ℕ) (cs : List Text) : Type 0 where
  pub lossless : concat cs ≡ text
  pub within : All (λ c. (0 < length c) × (length c ≤ max)) cs

last_chunk-AreChunks :
    (max : ℕ) (rest : Text) → length rest ≤ max → AreChunks rest max (last_chunk rest)
last_chunk-AreChunks max [] h = record { lossless = refl; within = tt }
last_chunk-AreChunks max (x ∷ rest) h = record {
  lossless = append-nil (x ∷ rest);
  within = ((omega arith, h), tt);
}

chunks_from-AreChunks :
    (fuel max : ℕ) (rest : Text)
    → 0 < max
    → length rest < fuel
    → (cs : List Text) × (chunks_from fuel max rest ≡ some cs) × AreChunks rest max cs
unfolding chunks_from
chunks_from-AreChunks zero max rest p h = absurd (omega arith)
chunks_from-AreChunks (suc fuel) max rest p h = elim (Bool-cases (ltb max (length rest))) [
  | inr short ↦ rw short (last_chunk rest, refl, last_chunk-AreChunks max rest (ground arith))
  | inl long ↦
      let cut = find_cut rest max in
      let bounds = find_cut_bounds rest max p in
      let longer : max < length rest = ground arith in
      let (cs, run, ok) =
        chunks_from-AreChunks fuel max (drop cut rest) p
          (omega (arith, length-drop cut rest, bounds, longer)) in
      rw (long, run)
        (
          take cut rest ∷ cs,
          refl,
          record {
            lossless = ap (◌++◌ (take cut rest)) ok.lossless ∙ take-append-drop cut rest;
            within = (omega (arith, length-take cut rest, bounds, longer), ok.within);
          },
        )
]

-- For a positive bound the text is cut without an exception into chunks that are not empty, are no
-- longer than the bound, and give the text back when they are joined.
pub chunk_text-AreChunks :
    (text : Text) (max : ℕ)
    → 0 < max
    → (cs : List Text) × (chunk_text text max ≡ some cs) × AreChunks text max cs
unfolding chunk_text
chunk_text-AreChunks text zero h = absurd (omega arith)
chunk_text-AreChunks text (suc n) h =
    chunks_from-AreChunks (suc (length text)) (suc n) text h (omega arith)
