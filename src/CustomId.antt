-- ===== src/CustomId.antt =====
-- platforms/discord/custom-id.ts: the ids of Discord buttons. A text is the list of its UTF-16 code
-- units.
pub mod Parts
pub mod RoundTrip
mod Tests
use discord_copilot_sdk.Base.{
  ℕ, Bool, true, false, ◌&&◌, ◌||◌, not, List, [], ◌∷◌, ◌++◌, Option, none, some, ◌==◌, nat_eq, ◌≡◌,
  ◌↔◌, Eq, if◌then◌else◌, ◌>>=◌, ◌>>◌, guard, arith,
}
use discord_copilot_sdk.Chunk.{Text}
use discord_copilot_sdk.Decimal.{print_number, is_number_text, value_from}

abbrev pub text_eqb : Text → Text → Bool
text_eqb [] [] = true
text_eqb (a ∷ s) (b ∷ t) = a == b && text_eqb s t
text_eqb _ _ = false

pub text_eqb_iff : (s t : Text) → (text_eqb s t ≡ true) ↔ (s ≡ t)
text_eqb_iff [] [] = ground arith
text_eqb_iff [] (b ∷ t) = ground arith
text_eqb_iff (a ∷ s) [] = ground arith
text_eqb_iff (a ∷ s) (b ∷ t) = ground (arith, text_eqb_iff s t)

instance abbrev pub text_eq : Eq Text
text_eq = record { beq = text_eqb; beq_iff = text_eqb_iff }

abbrev pub colon : ℕ
colon = b':'

abbrev pub push_front : ℕ → List Text → List Text
push_front c [] = (c ∷ []) ∷ []
push_front c (p ∷ ps) = (c ∷ p) ∷ ps

-- `s.split(":")`
unfoldable pub split : Text → List Text
split [] = [] ∷ []
split (c ∷ s) = let rest = split s in if c == colon then [] ∷ rest else push_front c rest

abbrev pub namespace : Text
namespace = b'd' ∷ b'p' ∷ []

-- "perm", "ask", "repo" and "plan".
pub data Kind : Type 0 where
  perm ask repo plan : Kind

abbrev pub kind_text : Kind → Text
kind_text perm = b'p' ∷ b'e' ∷ b'r' ∷ b'm' ∷ []
kind_text ask = b'a' ∷ b's' ∷ b'k' ∷ []
kind_text repo = b'r' ∷ b'e' ∷ b'p' ∷ b'o' ∷ []
kind_text plan = b'p' ∷ b'l' ∷ b'a' ∷ b'n' ∷ []

abbrev pub is_nonempty : Text → Bool
is_nonempty [] = false
is_nonempty (c ∷ s) = true

-- The template `${NS}:kind:${action}:${nonce}`.
unfoldable pub encode_parts : Kind → Text → Text → Text
encode_parts kind action nonce =
    namespace ++ colon ∷ (kind_text kind ++ colon ∷ (action ++ colon ∷ nonce))

abbrev pub check_parts : Kind → List Text → Option (Text × Text)
check_parts kind (ns ∷ actual ∷ action ∷ nonce ∷ []) =
    if ns == namespace && (actual == kind_text kind && (is_nonempty action && is_nonempty nonce))
    then some (action, nonce)
    else none
check_parts kind _ = none

unfoldable pub decode_parts : Text → Kind → Option (Text × Text)
decode_parts id kind = check_parts kind (split id)

pub data PermAction : Type 0 where
  once session always deny : PermAction

abbrev pub perm_text : PermAction → Text
perm_text once = b'o' ∷ b'n' ∷ b'c' ∷ b'e' ∷ []
perm_text session = b's' ∷ b'e' ∷ b's' ∷ b's' ∷ b'i' ∷ b'o' ∷ b'n' ∷ []
perm_text always = b'a' ∷ b'l' ∷ b'w' ∷ b'a' ∷ b'y' ∷ b's' ∷ []
perm_text deny = b'd' ∷ b'e' ∷ b'n' ∷ b'y' ∷ []

-- `ACTIONS.has(action)`
unfoldable pub perm_action : Text → Option PermAction
perm_action s =
    if s == perm_text once
    then some once
    else if s == perm_text session
    then some session
    else if s == perm_text always
    then some always
    else if s == perm_text deny
    then some deny
    else none

unfoldable pub encode_permission_id : Text → PermAction → Text
encode_permission_id nonce action = encode_parts perm (perm_text action) nonce

unfoldable pub decode_permission_id : Text → Option (Text × PermAction)
decode_permission_id id = do
  (action, nonce) ← decode_parts id perm
  a ← perm_action action
  some (nonce, a)

pub data RebindAction : Type 0 where
  confirm cancel : RebindAction

abbrev pub rebind_text : RebindAction → Text
rebind_text confirm = b'c' ∷ b'o' ∷ b'n' ∷ b'f' ∷ b'i' ∷ b'r' ∷ b'm' ∷ []
rebind_text cancel = b'c' ∷ b'a' ∷ b'n' ∷ b'c' ∷ b'e' ∷ b'l' ∷ []

unfoldable pub rebind_action : Text → Option RebindAction
rebind_action s =
    if s == rebind_text confirm
    then some confirm
    else if s == rebind_text cancel
    then some cancel
    else none

unfoldable pub encode_repo_id : Text → RebindAction → Text
encode_repo_id nonce action = encode_parts repo (rebind_text action) nonce

unfoldable pub decode_repo_id : Text → Option (Text × RebindAction)
decode_repo_id id = do
  (action, nonce) ← decode_parts id repo
  a ← rebind_action action
  some (nonce, a)

unfoldable pub encode_choice_id : Text → ℕ → Text
encode_choice_id nonce index = encode_parts ask (print_number index) nonce

-- An index into the request's actions, or a rejection.
pub data PlanAction : Type 0 where
  index : ℕ → PlanAction
  reject : PlanAction

abbrev pub reject_text : Text
reject_text = b'r' ∷ b'e' ∷ b'j' ∷ b'e' ∷ b'c' ∷ b't' ∷ []

abbrev pub plan_text : PlanAction → Text
plan_text (index n) = print_number n
plan_text reject = reject_text

unfoldable pub encode_plan_id : Text → PlanAction → Text
encode_plan_id nonce action = encode_parts plan (plan_text action) nonce

-- `to_double` rounds an integer to the number that `parseInt` gives; `none` stands for infinity.
module _ (to_double : ℕ → Option ℕ) where
  abbrev pub parse_index : Text → Option ℕ
  parse_index s = if is_number_text s then to_double (value_from 0 s) else none

  unfoldable pub decode_choice_id : Text → Option (Text × ℕ)
  decode_choice_id id = do
    (action, nonce) ← decode_parts id ask
    n ← parse_index action
    some (nonce, n)

  abbrev pub parse_plan : Text → Option PlanAction
  parse_plan action =
      if action == reject_text then some reject else parse_index action >>= λ n. some (index n)

  unfoldable pub decode_plan_id : Text → Option (Text × PlanAction)
  decode_plan_id id = do
    (action, nonce) ← decode_parts id plan
    a ← parse_plan action
    some (nonce, a)
