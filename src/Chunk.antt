-- ===== src/Chunk.antt =====
-- core/chunk.ts: long text cut into messages. A text is the list of its UTF-16 code units, and
-- `none` stands for the exception on a bound that is not positive.
pub mod Lossless
use discord_copilot_sdk.Base.{
  ℕ, zero, suc, ◌+◌, ◌*◌, Bool, true, false, List, [], ◌∷◌, Option, none, some, ltb, leb, ◌==◌,
  nat_eq, if◌then◌else◌, length, take, drop, ◌>>=◌,
}

abbrev pub Text : Type 0
Text = List ℕ

-- `s.lastIndexOf(c)`, with `none` for -1.
unfoldable pub last_index_of : ℕ → Text → Option ℕ
last_index_of c [] = none
last_index_of c (x ∷ s) = elim (last_index_of c s) [
  | some i ↦ some (suc i)
  | none ↦ if x == c then some 0 else none
]

-- `i >= max / 2`, where -1 is below every half.
abbrev in_second_half : Option ℕ → ℕ → Bool
in_second_half none max = false
in_second_half (some i) max = leb max (2 * i)

-- `i + 1`
abbrev after : Option ℕ → ℕ
after none = 0
after (some i) = i + 1

unfoldable pub find_cut : Text → ℕ → ℕ
find_cut s max =
    let window = take max s in
    let nl = last_index_of 0xa window in
    let sp = last_index_of 0x20 window in
    if in_second_half nl max then after nl else if in_second_half sp max then after sp else max

abbrev last_chunk : Text → List Text
last_chunk [] = []
last_chunk (x ∷ rest) = (x ∷ rest) ∷ []

abbrev prepend : Text → Option (List Text) → Option (List Text)
prepend c none = none
prepend c (some cs) = some (c ∷ cs)

-- The loop, with fuel; `none` means that the fuel ran out.
unfoldable pub chunks_from : ℕ → ℕ → Text → Option (List Text)
chunks_from zero max rest = none
chunks_from (suc fuel) max rest =
    let cut = find_cut rest max in
    let more = prepend (take cut rest) (chunks_from fuel max (drop cut rest)) in
    if ltb max (length rest) then more else some (last_chunk rest)

unfoldable pub chunk_text : Text → ℕ → Option (List Text)
unfolding chunks_from
chunk_text text zero = none
chunk_text text (suc n) = chunks_from (suc (length text)) (suc n) text
