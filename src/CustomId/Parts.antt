-- ===== src/CustomId/Parts.antt =====
-- The four parts of an id: what is split is what was joined.
use discord_copilot_sdk.Base.{
  ℕ, true, false, List, [], ◌∷◌, ◌++◌, none, some, ◌==◌, nat_eq, ◌≡◌, ◌≢◌, refl, ap, ◌∙◌, arith,
  All, Bool-cases, inl, inr, beq_refl, sym,
}
use mathlib.Core.Path.{subst}
use discord_copilot_sdk.Chunk.{Text}
use discord_copilot_sdk.CustomId.{
  text_eq, text_eqb, text_eqb_iff, colon, push_front, split, namespace, Kind, perm, ask, repo, plan,
  kind_text, is_nonempty, encode_parts, check_parts, decode_parts,
}

-- No colon in the text.
abbrev pub IsPlain : Text → Type 0
IsPlain s = All (λ c. c ≢ colon) s

split-append-colon : (s rest : Text) → IsPlain s → split (s ++ colon ∷ rest) ≡ s ∷ split rest
unfolding split
split-append-colon [] rest h = refl
split-append-colon (c ∷ s) rest (p, h) = ground (arith, split-append-colon s rest h)

split_plain : (s : Text) → IsPlain s → split s ≡ s ∷ []
unfolding split
split_plain [] h = refl
split_plain (c ∷ s) (p, h) = ground (arith, split_plain s h)

-- `parts.join(":")`
abbrev join : List Text → Text
join [] = []
join (p ∷ []) = p
join (p ∷ q ∷ ps) = p ++ colon ∷ join (q ∷ ps)

push_front-ne-nil : (c : ℕ) (ps : List Text) → push_front c ps ≢ []
push_front-ne-nil c [] h = cc
push_front-ne-nil c (p ∷ ps) h = cc

split-ne-nil : (s : Text) → split s ≢ []
unfolding split
split-ne-nil [] h = cc
split-ne-nil (c ∷ s) h = elim (Bool-cases (c == colon)) [
  | inl here ↦ let bad : ◌≡◌ {A = List Text} ([] ∷ split s) [] = rw here at h in cc
  | inr other ↦ push_front-ne-nil c (split s) (rw other at h)
]

join-push_front : (c : ℕ) (ps : List Text) → ps ≢ [] → join (push_front c ps) ≡ c ∷ join ps
join-push_front c [] h = absurd (h refl)
join-push_front c (p ∷ []) h = refl
join-push_front c (p ∷ q ∷ ps) h = refl

join-colon : (ps : List Text) → ps ≢ [] → join ([] ∷ ps) ≡ colon ∷ join ps
join-colon [] h = absurd (h refl)
join-colon (p ∷ ps) h = refl

join-split : (s : Text) → join (split s) ≡ s
unfolding split
join-split [] = refl
join-split (c ∷ s) =
    ground (arith, join-split s, split-ne-nil s, join-push_front c (split s), join-colon (split s))

push_front-IsPlain :
    (c : ℕ) (ps : List Text) → c ≢ colon → All IsPlain ps → All IsPlain (push_front c ps)
push_front-IsPlain c [] h k = ((h, tt), tt)
push_front-IsPlain c (p ∷ ps) h (k, ks) = ((h, k), ks)

split-IsPlain : (s : Text) → All IsPlain (split s)
unfolding split
split-IsPlain [] = (tt, tt)
split-IsPlain (c ∷ s) = elim (Bool-cases (c == colon)) [
  | inl here ↦ rw here (tt, split-IsPlain s)
  | inr other ↦ rw other (push_front-IsPlain c (split s) (ground arith) (split-IsPlain s))
]

-- What the two texts of a decoded id are made of.
abbrev pub AreParts : Text → Text → Type 0
AreParts action nonce = (IsPlain action × (action ≢ [])) × (IsPlain nonce × (nonce ≢ []))

is_nonempty-ne-nil : (s : Text) → s ≢ [] → is_nonempty s ≡ true
is_nonempty-ne-nil [] h = absurd (h refl)
is_nonempty-ne-nil (c ∷ s) h = refl

ne-nil-is_nonempty : (s : Text) → is_nonempty s ≡ true → s ≢ []
ne-nil-is_nonempty [] h k = cc
ne-nil-is_nonempty (c ∷ s) h k = cc

kind_text-IsPlain : (kind : Kind) → IsPlain (kind_text kind)
kind_text-IsPlain perm = omega arith
kind_text-IsPlain ask = omega arith
kind_text-IsPlain repo = omega arith
kind_text-IsPlain plan = omega arith

split-encode_parts :
    (kind : Kind) (action nonce : Text)
    → IsPlain action
    → IsPlain nonce
    → split (encode_parts kind action nonce) ≡ namespace ∷ kind_text kind ∷ action ∷ nonce ∷ []
unfolding encode_parts
split-encode_parts kind action nonce p q =
    split-append-colon namespace (kind_text kind ++ colon ∷ (action ++ colon ∷ nonce)) (omega arith)
    ∙ ap (λ ps. namespace ∷ ps)
        (split-append-colon (kind_text kind) (action ++ colon ∷ nonce) (kind_text-IsPlain kind)
          ∙ ap (λ ps. kind_text kind ∷ ps)
              (split-append-colon action nonce p ∙ ap (λ ps. action ∷ ps) (split_plain nonce q)))

pub decode_parts-encode_parts :
    (kind : Kind) (action nonce : Text)
    → AreParts action nonce
    → decode_parts (encode_parts kind action nonce) kind ≡ some (action, nonce)
unfolding decode_parts
decode_parts-encode_parts kind action nonce h =
    rw
      (
        split-encode_parts kind action nonce h.0.0 h.1.0,
        beq_refl (kind_text kind),
        is_nonempty-ne-nil action h.0.1,
        is_nonempty-ne-nil nonce h.1.1,
      )
      refl

kind_text_other :
    (kind other : Kind) → kind ≢ other → text_eqb (kind_text kind) (kind_text other) ≡ false
kind_text_other kind other h = ground arith

-- The parts of an id of another kind are not taken.
pub decode_parts_other :
    (kind other : Kind) (action nonce : Text)
    → kind ≢ other
    → IsPlain action
    → IsPlain nonce
    → decode_parts (encode_parts kind action nonce) other ≡ none
unfolding decode_parts
decode_parts_other kind other action nonce h p q =
    rw (split-encode_parts kind action nonce p q, kind_text_other kind other h) refl

check_parts-some :
    (kind : Kind) (ps : List Text) (action nonce : Text)
    → check_parts kind ps ≡ some (action, nonce)
    → (ps ≡ namespace ∷ kind_text kind ∷ action ∷ nonce ∷ []) × (action ≢ []) × (nonce ≢ [])
check_parts-some kind [] a n h = cc
check_parts-some kind (p ∷ []) a n h = cc
check_parts-some kind (p ∷ q ∷ []) a n h = cc
check_parts-some kind (p ∷ q ∷ r ∷ []) a n h = cc
check_parts-some kind (p ∷ q ∷ r ∷ s ∷ []) a n h = ground (
  arith,
  text_eqb_iff p namespace,
  text_eqb_iff q (kind_text kind),
  ne-nil-is_nonempty r,
  ne-nil-is_nonempty s,
)
check_parts-some kind (p ∷ q ∷ r ∷ s ∷ t ∷ ps) a n h = cc

pub decode_parts-some :
    (id : Text) (kind : Kind) (action nonce : Text)
    → decode_parts id kind ≡ some (action, nonce)
    → (id ≡ encode_parts kind action nonce) × AreParts action nonce
unfolding decode_parts encode_parts
decode_parts-some id kind action nonce h =
    let (parts, act, non) = check_parts-some kind (split id) action nonce h in
    let plain : All IsPlain (namespace ∷ kind_text kind ∷ action ∷ nonce ∷ []) =
      subst (All IsPlain) parts (split-IsPlain id) in
    (sym (join-split id) ∙ ap join parts, ((plain.1.1.0, act), (plain.1.1.1.0, non)))

-- An id that is taken apart as one kind is not taken as another.
pub decode_parts_exclusive :
    (id : Text) (kind other : Kind) (action nonce : Text)
    → decode_parts id kind ≡ some (action, nonce)
    → kind ≢ other
    → decode_parts id other ≡ none
decode_parts_exclusive id kind other action nonce h differ =
    let (whole, made) = decode_parts-some id kind action nonce h in
    ap (λ s. decode_parts s other) whole
    ∙ decode_parts_other kind other action nonce differ made.0.0 made.1.0
