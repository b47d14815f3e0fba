-- ===== src/Dict/Entries.antt =====
-- Predicates on the entries of a map, distinct keys, and a map rebuilt from its values.
use discord_copilot_sdk.Base.{
  false, ◌||◌, ◌≡◌, refl, sym, ap, inl, inr, List, [], ◌∷◌, ◌++◌, some, arith, Eq, ◌==◌, Bool-cases,
  All, ◌∙◌, map,
}
use mathlib.Core.Path.{ap₂}
use mathlib.Core.List.{append-nil, append_assoc}
use discord_copilot_sdk.Dict.{index_from, Dict, get, has, set, delete, values}

module _ {ℓ κ μ} {K : Type ℓ} {V : Type κ} (P : K → V → Type μ) where
  abbrev pub Entries : Dict K V → Type μ
  Entries [] = Unit
  Entries ((k, v) ∷ m) = P k v × Entries m

  module _ ⦃e : Eq K⦄ where
    pub Entries-set : (k : K) (v : V) (m : Dict K V) → P k v → Entries m → Entries (set k v m)
    unfolding set
    Entries-set k v [] p h = (p, tt)
    Entries-set k v ((j, w) ∷ m) p (q, h) = elim (Bool-cases (j == k)) [
      | inl same ↦ let at_k : j ≡ k = (e.beq_iff j k).0 same in rw same (rw at_k p, h)
      | inr other ↦ rw other (q, Entries-set k v m p h)
    ]

    pub Entries-delete : (k : K) (m : Dict K V) → Entries m → Entries (delete k m)
    unfolding delete
    Entries-delete k [] h = tt
    Entries-delete k ((j, w) ∷ m) (q, h) = elim (Bool-cases (j == k)) [
      | inl same ↦ rw same (Entries-delete k m h)
      | inr other ↦ rw other (q, Entries-delete k m h)
    ]

    pub Entries-get : (k : K) (v : V) (m : Dict K V) → Entries m → get k m ≡ some v → P k v
    unfolding get
    Entries-get k v [] h found = cc
    Entries-get k v ((j, w) ∷ m) (q, h) found = elim (Bool-cases (j == k)) [
      | inl same ↦
          rw (← (e.beq_iff j k).0 same)
            (rw (← (let p : some w ≡ some v = rw same at found in some_inj p)) q)
      | inr other ↦ Entries-get k v m h (rw other at found)
    ]
      where
        some_inj : {a b : V} → some a ≡ some b → a ≡ b
        some_inj p = cc

module _ {ℓ κ μ ν} {K : Type ℓ} {V : Type κ} {P : K → V → Type μ} {Q : K → V → Type ν} where
  pub Entries-mono : (m : Dict K V) → ((k : K) (v : V) → P k v → Q k v) → Entries P m → Entries Q m
  Entries-mono [] f h = tt
  Entries-mono ((k, v) ∷ m) f (p, h) = (f k v p, Entries-mono m f h)

module _ {ℓ κ} {K : Type ℓ} {V : Type κ} ⦃e : Eq K⦄ where
  -- No key stands twice.
  abbrev pub Distinct : Dict K V → Type 0
  Distinct [] = Unit
  Distinct ((k, v) ∷ m) = (has k m ≡ false) × Distinct m

  has-set : (j k : K) (v : V) (m : Dict K V) → has j (set k v m) ≡ (k == j || has j m)
  unfolding has set
  has-set j k v [] = refl
  has-set j k v ((i, w) ∷ m) =
      ground (arith, e.beq_iff k j, e.beq_iff i k, e.beq_iff i j, has-set j k v m)

  has-delete : (j k : K) (m : Dict K V) → has j m ≡ false → has j (delete k m) ≡ false
  unfolding has delete
  has-delete j k [] h = refl
  has-delete j k ((i, w) ∷ m) h = ground (arith, has-delete j k m)

  pub Distinct-set : (k : K) (v : V) (m : Dict K V) → Distinct m → Distinct (set k v m)
  unfolding has set
  Distinct-set k v [] d = (refl, tt)
  Distinct-set k v ((i, w) ∷ m) d =
      ground (arith, has-set i k v m, e.beq_iff i k, e.beq_iff k i, Distinct-set k v m)

  pub Distinct-delete : (k : K) (m : Dict K V) → Distinct m → Distinct (delete k m)
  unfolding delete
  Distinct-delete k [] d = tt
  Distinct-delete k ((i, w) ∷ m) d = ground (arith, has-delete i k m, Distinct-delete k m)

  pub set-absent : (k : K) (v : V) (m : Dict K V) → has k m ≡ false → set k v m ≡ m ++ (k, v) ∷ []
  unfolding has set
  set-absent k v [] h = refl
  set-absent k v ((i, w) ∷ m) h = ground (arith, set-absent k v m)

  abbrev pub Keyed : (V → K) → Dict K V → Type ℓ
  Keyed key m = Entries (λ k v. k ≡ key v) m

  has-middle :
      (i k : K) (v : V) (pre m : Dict K V) → has i (pre ++ (k, v) ∷ m) ≡ false → (k == i) ≡ false
  unfolding has
  has-middle i k v [] m h = ground arith
  has-middle i k v ((j, w) ∷ pre) m h = has-middle i k v pre m (ground arith)

  Distinct-middle :
      (k : K) (v : V) (pre m : Dict K V) → Distinct (pre ++ (k, v) ∷ m) → has k pre ≡ false
  unfolding has
  Distinct-middle k v [] m d = refl
  Distinct-middle k v ((j, w) ∷ pre) m (new, d) =
      ground (
        arith,
        has-middle j k v pre m new,
        e.beq_iff j k,
        e.beq_iff k j,
        Distinct-middle k v pre m d,
      )

  index_from-values :
      (key : V → K) (pre m : Dict K V)
      → Keyed key m
      → Distinct (pre ++ m)
      → index_from key pre (values m) ≡ pre ++ m
  index_from-values key pre [] h d = sym (append-nil pre)
  index_from-values key pre ((k, v) ∷ m) (at_k, h) d =
      let placed : set (key v) v pre ≡ pre ++ (k, v) ∷ [] =
        rw (← at_k) (set-absent k v pre (Distinct-middle k v pre m d)) in
      let shift : (pre ++ (k, v) ∷ []) ++ m ≡ pre ++ (k, v) ∷ m =
        append_assoc pre ((k, v) ∷ []) m in
      ap (λ p. index_from key p (values m)) placed
      ∙ index_from-values key (pre ++ (k, v) ∷ []) m h (rw shift d)
      ∙ shift

  -- A map with distinct keys is rebuilt from its values.
  pub index-values :
      (key : V → K) (m : Dict K V) → Keyed key m → Distinct m → index_from key [] (values m) ≡ m
  index-values key m = index_from-values key [] m

  pub index_from-Distinct :
      (key : V → K) (m : Dict K V) (vs : List V) → Distinct m → Distinct (index_from key m vs)
  index_from-Distinct key m [] d = d
  index_from-Distinct key m (v ∷ vs) d =
      index_from-Distinct key (set (key v) v m) vs (Distinct-set (key v) v m d)

  pub index_from-Entries {μ} :
      (P : K → V → Type μ) (key : V → K) (m : Dict K V) (vs : List V)
      → All (λ v. P (key v) v) vs
      → Entries P m
      → Entries P (index_from key m vs)
  index_from-Entries P key m [] _ h = h
  index_from-Entries P key m (v ∷ vs) (p, ps) h =
      index_from-Entries P key (set (key v) v m) vs ps (Entries-set P (key v) v m p h)

-- The values changed in place.
abbrev pub map_values {ℓ κ μ} :
    {K : Type ℓ} {V : Type κ} {W : Type μ} → (V → W) → Dict K V → Dict K W
map_values f [] = []
map_values f ((k, v) ∷ m) = (k, f v) ∷ map_values f m

module _ {ℓ κ} {K : Type ℓ} {V : Type κ} ⦃e : Eq K⦄ (f : V → V) where
  has-map_values : (k : K) (m : Dict K V) → has k (map_values f m) ≡ has k m
  unfolding has
  has-map_values k [] = refl
  has-map_values k ((j, v) ∷ m) = rw (has-map_values k m)

  pub Distinct-map_values : (m : Dict K V) → Distinct m → Distinct (map_values f m)
  Distinct-map_values [] d = tt
  Distinct-map_values ((k, v) ∷ m) (new, d) = (has-map_values k m ∙ new, Distinct-map_values m d)

module _ {ℓ κ} {K : Type ℓ} {V : Type κ} (f : V → V) where
  pub values-map_values : (m : Dict K V) → values (map_values f m) ≡ map f (values m)
  values-map_values [] = refl
  values-map_values ((k, v) ∷ m) = ap (◌∷◌ (f v)) (values-map_values m)

  pub Entries-map_values {μ ν} :
      (P : K → V → Type μ) (Q : K → V → Type ν) (m : Dict K V)
      → ((k : K) (v : V) → P k v → Q k (f v))
      → Entries P m
      → Entries Q (map_values f m)
  Entries-map_values P Q [] g h = tt
  Entries-map_values P Q ((k, v) ∷ m) g (p, h) = (g k v p, Entries-map_values P Q m g h)

  pub map_values_fixed {μ} :
      {P : K → V → Type μ} (m : Dict K V)
      → ((k : K) (v : V) → P k v → f v ≡ v)
      → Entries P m
      → map_values f m ≡ m
  map_values_fixed [] g h = refl
  map_values_fixed ((k, v) ∷ m) g (p, h) =
      ap₂ ◌∷◌ (ap (λ w. (k, w)) (g k v p)) (map_values_fixed m g h)

pub All-values {ℓ κ μ ν} :
    {K : Type ℓ} {V : Type κ} {P : K → V → Type μ} (Q : V → Type ν) (m : Dict K V)
    → ((k : K) (v : V) → P k v → Q v)
    → Entries P m
    → All Q (values m)
All-values Q [] f h = tt
All-values Q ((k, v) ∷ m) f (p, h) = (f k v p, All-values Q m f h)

pub All-values-map_values {ℓ κ μ ν} :
    {K : Type ℓ} {V : Type κ} {P : K → V → Type μ} (f : V → V) (Q : V → Type ν) (m : Dict K V)
    → ((k : K) (v : V) → P k v → Q (f v))
    → Entries P m
    → All Q (values (map_values f m))
All-values-map_values f Q [] g h = tt
All-values-map_values f Q ((k, v) ∷ m) g (p, h) = (g k v p, All-values-map_values f Q m g h)

module _ {ℓ κ} {K : Type ℓ} {V : Type κ} ⦃e : Eq K⦄ where
  -- A key that a map lacks is none of its keys.
  pub not_has-Entries :
      (k : K) (m : Dict K V) → has k m ≡ false → Entries (λ j _. (j == k) ≡ false) m
  unfolding has
  not_has-Entries k [] h = tt
  not_has-Entries k ((j, v) ∷ m) h = (ground arith, not_has-Entries k m (ground arith))
