-- ===== src/CustomId/RoundTrip.antt =====
-- What the encoders of ids write, the decoders read.
use discord_copilot_sdk.Base.{
  ℕ, true, false, [], ◌∷◌, Option, none, some, nat_eq, ◌≡◌, ◌≢◌, ◌↔◌, refl, arith, Bool-cases,
  Option-cases, inl, inr, ◌>>=◌, ◌≤◌, ◌∙◌, ap,
}
use mathlib.Core.Path.{subst}
use discord_copilot_sdk.Chunk.{Text}
use discord_copilot_sdk.Decimal.{print_number, is_number_text, all_digits}
use discord_copilot_sdk.Decimal.RoundTrip.{print_number-is_number_text, print_number-value_from}
use discord_copilot_sdk.CustomId.{
  text_eq, text_eqb, text_eqb_iff, perm, ask, repo, plan, encode_parts, decode_parts, PermAction,
  once, session, always, deny, perm_text, perm_action, encode_permission_id, decode_permission_id,
  RebindAction, confirm, cancel, rebind_text, rebind_action, encode_repo_id, decode_repo_id,
  encode_choice_id, PlanAction, index, reject, reject_text, encode_plan_id, parse_index,
  decode_choice_id, decode_plan_id,
}
use discord_copilot_sdk.CustomId.Parts.{
  IsPlain, AreParts, decode_parts-encode_parts, decode_parts-some,
}

-- A nonce is not empty and has no colon.
abbrev pub IsNonce : Text → Type 0
IsNonce nonce = IsPlain nonce × (nonce ≢ [])

perm_action_iff : (s : Text) (a : PermAction) → (perm_action s ≡ some a) ↔ (s ≡ perm_text a)
unfolding perm_action
perm_action_iff s a = ground (
  arith,
  text_eqb_iff s (perm_text once),
  text_eqb_iff s (perm_text session),
  text_eqb_iff s (perm_text always),
  text_eqb_iff s (perm_text deny),
)

rebind_action_iff : (s : Text) (a : RebindAction) → (rebind_action s ≡ some a) ↔ (s ≡ rebind_text a)
unfolding rebind_action
rebind_action_iff s a =
    ground (arith, text_eqb_iff s (rebind_text confirm), text_eqb_iff s (rebind_text cancel))

perm_text-AreParts : (a : PermAction) (nonce : Text) → IsNonce nonce → AreParts (perm_text a) nonce
perm_text-AreParts once nonce h = ((omega arith, λ e. cc), h)
perm_text-AreParts session nonce h = ((omega arith, λ e. cc), h)
perm_text-AreParts always nonce h = ((omega arith, λ e. cc), h)
perm_text-AreParts deny nonce h = ((omega arith, λ e. cc), h)

rebind_text-AreParts :
    (a : RebindAction) (nonce : Text) → IsNonce nonce → AreParts (rebind_text a) nonce
rebind_text-AreParts confirm nonce h = ((omega arith, λ e. cc), h)
rebind_text-AreParts cancel nonce h = ((omega arith, λ e. cc), h)

none-ne-some {ℓ} : {A : Type ℓ} {a : A} → none ≢ some a
none-ne-some h = cc

abbrev named {ℓ} : {A : Type ℓ} → Text → A → Option (Text × A)
named nonce a = some (nonce, a)

-- The shape of the decoders: the parts, and a reading of the action.
read_action {ℓ} :
    {A : Type ℓ} (read : Text → Option A) (parts : Option (Text × Text)) (nonce : Text) (a : A)
    → (parts >>= λ p. read p.0 >>= named p.1) ≡ some (nonce, a)
    → (action : Text) × (parts ≡ some (action, nonce)) × (read action ≡ some a)
read_action read none nonce a h = cc
read_action {A} read (some (action, n)) nonce a h = elim (Option-cases (read action)) [
  | inl e ↦ absurd (none-ne-some (rw e at h))
  | inr (x, e) ↦
      let same : ◌≡◌ {A = Option (Text × A)} (some (n, x)) (some (nonce, a)) = rw e at h in
      (action, ap (λ m. some (action, m)) (cc same), e ∙ cc same)
]

module _ (nonce : Text) where
  -- An id decodes to a permission decision exactly when it is the encoding of that decision under
  -- that nonce, and the nonce is not empty and has no colon.
  pub decode_permission_id_iff :
      (id : Text) (a : PermAction)
      → (decode_permission_id id ≡ some (nonce, a))
        ↔ ((id ≡ encode_permission_id nonce a) × IsNonce nonce)
  unfolding decode_permission_id encode_permission_id
  decode_permission_id_iff id a = (
    λ h.
        let (action, parts, read) = read_action perm_action (decode_parts id perm) nonce a h in
        let (whole, made) = decode_parts-some id perm action nonce parts in
        (whole ∙ ap (λ s. encode_parts perm s nonce) ((perm_action_iff action a).0 read), made.1),
    λ h.
        rw
          (
            h.0,
            decode_parts-encode_parts perm (perm_text a) nonce (perm_text-AreParts a nonce h.1),
            (perm_action_iff (perm_text a) a).1 refl,
          )
          refl,
  )

  -- The same for a decision on a rebind.
  pub decode_repo_id_iff :
      (id : Text) (a : RebindAction)
      → (decode_repo_id id ≡ some (nonce, a)) ↔ ((id ≡ encode_repo_id nonce a) × IsNonce nonce)
  unfolding decode_repo_id encode_repo_id
  decode_repo_id_iff id a = (
    λ h.
        let (action, parts, read) = read_action rebind_action (decode_parts id repo) nonce a h in
        let (whole, made) = decode_parts-some id repo action nonce parts in
        (whole ∙ ap (λ s. encode_parts repo s nonce) ((rebind_action_iff action a).0 read), made.1),
    λ h.
        rw
          (
            h.0,
            decode_parts-encode_parts repo (rebind_text a) nonce (rebind_text-AreParts a nonce h.1),
            (rebind_action_iff (rebind_text a) a).1 refl,
          )
          refl,
  )

is_number_text-parts : (s nonce : Text) → is_number_text s ≡ true → IsNonce nonce → AreParts s nonce
is_number_text-parts [] nonce h k = cc
is_number_text-parts (c ∷ s) nonce h k = ((all_digits-IsPlain (c ∷ s) h, λ e. cc), k)
  where
    all_digits-IsPlain : (t : Text) → all_digits t ≡ true → IsPlain t
    all_digits-IsPlain [] h = tt
    all_digits-IsPlain (d ∷ t) h = (ground arith, all_digits-IsPlain t (ground arith))

print_number-AreParts : (n : ℕ) (nonce : Text) → IsNonce nonce → AreParts (print_number n) nonce
print_number-AreParts n nonce h =
    is_number_text-parts (print_number n) nonce (print_number-is_number_text n) h

print_number-ne-reject : (n : ℕ) → text_eqb (print_number n) reject_text ≡ false
print_number-ne-reject n = elim (Bool-cases (text_eqb (print_number n) reject_text)) [
  | inr other ↦ other
  | inl same ↦
      let number : is_number_text reject_text ≡ true =
        subst (λ s. is_number_text s ≡ true) ((text_eqb_iff (print_number n) reject_text).0 same)
          (print_number-is_number_text n) in
      cc number
]

-- The integers that a double holds exactly.
abbrev pub max_safe_integer : ℕ
max_safe_integer = 9007199254740991

module _ (to_double : ℕ → Option ℕ)
    (exact : (n : ℕ) → n ≤ max_safe_integer → to_double n ≡ some n) where
  parse_index-print_number :
      (n : ℕ) → n ≤ max_safe_integer → parse_index to_double (print_number n) ≡ some n
  parse_index-print_number n h =
      rw (print_number-is_number_text n, print_number-value_from n) (exact n h)

  -- The id of a choice decodes to its nonce and its index, for a nonce that is not empty and has
  -- no colon, and an index that a double holds exactly.
  pub decode_choice_id-encode_choice_id :
      (nonce : Text) (n : ℕ)
      → IsNonce nonce
      → n ≤ max_safe_integer
      → decode_choice_id to_double (encode_choice_id nonce n) ≡ some (nonce, n)
  unfolding decode_choice_id encode_choice_id
  decode_choice_id-encode_choice_id nonce n h k =
      rw
        (
          decode_parts-encode_parts ask (print_number n) nonce (print_number-AreParts n nonce h),
          parse_index-print_number n k,
        )
        refl

  abbrev pub IsExact : PlanAction → Type 0
  IsExact (index n) = n ≤ max_safe_integer
  IsExact reject = Unit

  -- The id of a plan's action decodes to its nonce and that action, an index or a rejection, for a
  -- nonce that is not empty and has no colon, and an index that a double holds exactly.
  pub decode_plan_id-encode_plan_id :
      (nonce : Text) (a : PlanAction)
      → IsNonce nonce
      → IsExact a
      → decode_plan_id to_double (encode_plan_id nonce a) ≡ some (nonce, a)
  unfolding decode_plan_id encode_plan_id
  decode_plan_id-encode_plan_id nonce reject h k =
      rw (decode_parts-encode_parts plan reject_text nonce ((omega arith, λ e. cc), h)) refl
  decode_plan_id-encode_plan_id nonce (index n) h k =
      rw
        (
          decode_parts-encode_parts plan (print_number n) nonce (print_number-AreParts n nonce h),
          print_number-ne-reject n,
          parse_index-print_number n k,
        )
        refl
