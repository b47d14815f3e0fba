-- ===== src/ChannelCommand/Spelled.antt =====
-- The values that `channel:` takes.
use discord_copilot_sdk.Base.{
  ℕ, Bool, true, false, ◌&&◌, [], ◌∷◌, ◌++◌, Option, none, some, ◌==◌, nat_eq, if◌then◌else◌, ◌≡◌,
  ◌↔◌, refl, arith, Bool-cases, inl, inr, ◌⊎◌, ap, ◌∙◌, sym, of_some-eq,
}
use mathlib.Core.Path.{subst}
use discord_copilot_sdk.Chunk.{Text}
use discord_copilot_sdk.ChannelCommand.Reference.{
  trimmed, is_id, and_first, before_end, unmention, matched, parse_channel_ref,
}

abbrev pub mentioned : Text → Text
mentioned id = b'<' ∷ b'#' ∷ id ++ (b'>' ∷ [])

before_end-end : (s : Text) → before_end (s ++ (b'>' ∷ [])) ≡ some s
before_end-end [] = refl
before_end-end (c ∷ []) = refl
before_end-end (c ∷ d ∷ s) = ap (and_first c) (before_end-end (d ∷ s))

and_first-some :
    (c : ℕ) (o : Option Text) (s : Text)
    → and_first c o ≡ some s
    → (rest : Text) × (o ≡ some rest) × (s ≡ c ∷ rest)
and_first-some c none s e = cc
and_first-some c (some rest) s e = (rest, refl, cc)

before_end-some : (t s : Text) → before_end t ≡ some s → t ≡ s ++ (b'>' ∷ [])
before_end-some [] s e = cc
before_end-some (c ∷ []) s e = ground arith
before_end-some (c ∷ d ∷ t) s e =
    let (rest, before, whole) = and_first-some c (before_end (d ∷ t)) s e in
    ap (λ u. c ∷ u) (before_end-some (d ∷ t) rest before) ∙ ap (λ u. u ++ (b'>' ∷ [])) (sym whole)

opened_if :
    (a b : ℕ) (t s : Text)
    → (if a == b'<' && b == b'#' then before_end t else none) ≡ some s
    → (a ≡ b'<') × (b ≡ b'#') × (before_end t ≡ some s)
opened_if a b t s e = ground arith

unmention-some : (t s : Text) → unmention t ≡ some s → t ≡ mentioned s
unmention-some [] s e = cc
unmention-some (a ∷ []) s e = cc
unmention-some (a ∷ b ∷ t) s e =
    let (first, second, rest) = opened_if a b t s e in
    rw (first, second, before_end-some t s rest) refl

unmention-is_id : (t : Text) → is_id t ≡ true → unmention t ≡ none
unmention-is_id [] e = refl
unmention-is_id (a ∷ []) e = refl
unmention-is_id (a ∷ b ∷ t) e = ground arith

abbrev Names : Text → Text → Type 0
Names t id = (is_id id ≡ true) × ((t ≡ id) ⊎ (t ≡ mentioned id))

plain_if :
    (test : Bool) (t id : Text)
    → (if test then some t else none) ≡ some id
    → (test ≡ true) × (t ≡ id)
plain_if true t id e = (refl, of_some-eq e)
plain_if false t id e = cc

plain-Names : (t id : Text) → (if is_id t then some t else none) ≡ some id → Names t id
plain-Names t id e =
    let (ok, same) = plain_if (is_id t) t id e in (subst (λ u. is_id u ≡ true) same ok, inl same)

matched-Names :
    (o : Option Text) (t id : Text)
    → ((s : Text) → o ≡ some s → t ≡ mentioned s)
    → matched o t ≡ some id
    → Names t id
matched-Names none t id whole e = plain-Names t id e
matched-Names (some s) t id whole e = elim (Bool-cases (is_id s)) [
  | inr other ↦ plain-Names t id (rw other at e)
  | inl ok ↦
      let same : s ≡ id = of_some-eq (rw ok at e) in
      (subst (λ u. is_id u ≡ true) same ok, inr (whole s refl ∙ ap mentioned same))
]

matched-plain : (t : Text) → is_id t ≡ true → matched (unmention t) t ≡ some t
matched-plain t ok = rw (unmention-is_id t ok, ok) refl

matched-mentioned :
    (id : Text) → is_id id ≡ true → matched (unmention (mentioned id)) (mentioned id) ≡ some id
matched-mentioned id ok = rw (before_end-end id, ok) refl

-- A value names the channel `id` exactly when, without the white space around it, it is that id, or
-- the mention of it; an id is 5 to 25 digits.
pub parse_channel_ref_iff :
    (raw : Option Text) (id : Text)
    → (parse_channel_ref raw ≡ some id)
      ↔ ((is_id id ≡ true) × ((trimmed raw ≡ id) ⊎ (trimmed raw ≡ mentioned id)))
unfolding parse_channel_ref
parse_channel_ref_iff raw id = (
  matched-Names (unmention (trimmed raw)) (trimmed raw) id (unmention-some (trimmed raw)),
  λ (ok, named). elim named [
    | inl plain ↦ rw plain (matched-plain id ok)
    | inr mention ↦ rw mention (matched-mentioned id ok)
  ],
)
