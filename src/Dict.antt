-- ===== src/Dict.antt =====
-- A JavaScript `Map` in insertion order: `set` of a present key keeps the key's place. The laws of
-- `get` after `set` and `delete` are what the components use.
pub mod Laws
pub mod Entries
use discord_copilot_sdk.Base.{
  Bool, true, false, ◌||◌, List, [], ◌∷◌, Option, none, some, map, Eq, ◌==◌, if◌then◌else◌,
}

abbrev pub Dict {ℓ κ} : Type ℓ → Type κ → Type (ℓ ⊔ κ)
Dict K V = List (K × V)

module _ {ℓ κ} {K : Type ℓ} {V : Type κ} ⦃e : Eq K⦄ where
  unfoldable pub get : K → Dict K V → Option V
  get k [] = none
  get k ((j, v) ∷ m) = if j == k then some v else get k m

  unfoldable pub has : K → Dict K V → Bool
  has k [] = false
  has k ((j, v) ∷ m) = j == k || has k m

  unfoldable pub set : K → V → Dict K V → Dict K V
  set k v [] = (k, v) ∷ []
  set k v ((j, w) ∷ m) = if j == k then (j, v) ∷ m else (j, w) ∷ set k v m

  unfoldable pub delete : K → Dict K V → Dict K V
  delete k [] = []
  delete k ((j, v) ∷ m) = if j == k then delete k m else (j, v) ∷ delete k m

  -- `new Map` of the values under their keys, one `set` after another.
  abbrev pub index_from : (V → K) → Dict K V → List V → Dict K V
  index_from key m [] = m
  index_from key m (v ∷ vs) = index_from key (set (key v) v m) vs

abbrev pub values {ℓ κ} : {K : Type ℓ} {V : Type κ} → Dict K V → List V
values [] = []
values ((k, v) ∷ m) = v ∷ values m

abbrev pub keys {ℓ κ} : {K : Type ℓ} {V : Type κ} → Dict K V → List K
keys [] = []
keys ((k, v) ∷ m) = k ∷ keys m
