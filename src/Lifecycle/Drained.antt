-- ===== src/Lifecycle/Drained.antt =====
-- The lock is released in the end: the ends of all that is open lead to it.
use discord_copilot_sdk.Base.{
  ℕ, zero, suc, ◌+◌, ◌-◌, ◌<◌, ◌≤◌, Bool, true, false, ◌&&◌, String, List, [], ◌∷◌, Option, none,
  some, or_else, Eq, nat_eq, string_eq, ltb, ◌≡◌, refl, arith, ap, ◌∙◌, sym, Bool-cases,
  Option-cases, inl, inr, ◌⊎◌, All, length, beq_refl, of_some-eq,
}
use mathlib.Core.Bool.{false≢true}
use mathlib.Core.Path.{subst}
use discord_copilot_sdk.Dict.{Dict, get, set, delete}
use discord_copilot_sdk.Lifecycle.{
  Key, key_eq, Ownership, is_empty, evaluate, leave, without, settle_exclusive, unclaim,
  settle_teardown, is_retained, discharge,
}
use discord_copilot_sdk.Lifecycle.Events.{Event, leaves, unclaims, discharges, happen, run}
use discord_copilot_sdk.Lifecycle.Orderly.{IsSettled}
use discord_copilot_sdk.Lifecycle.Settled.{happen-IsSettled}

-- How much is open: scopes, claims and obligations.
abbrev pub scopes_size : Dict String (List ℕ) → ℕ
scopes_size [] = 0
scopes_size ((t, es) ∷ m) = 1 + length es + scopes_size m

abbrev pub claims_size : Dict String ℕ → ℕ
claims_size [] = 0
claims_size ((t, n) ∷ m) = 1 + n + claims_size m

abbrev pub open_size : Ownership → ℕ
open_size o = scopes_size o.exclusive + claims_size o.teardown_claims + length o.obligations

-- The end of the first thing that is open.
abbrev pub first_end : Dict String (List ℕ) → Dict String ℕ → Dict Key ℕ → Option Event
first_end ((t, []) ∷ m) claims obligations = some (leaves t 0)
first_end ((t, e ∷ es) ∷ m) claims obligations = some (leaves t e)
first_end [] ((t, n) ∷ claims) obligations = some (unclaims t)
first_end [] [] ((k, e) ∷ obligations) = some (discharges (record { key = k; entry = e }))
first_end [] [] [] = none

abbrev pub next_end : Ownership → Option Event
next_end o = first_end o.exclusive o.teardown_claims o.obligations

-- The ends of all that is open, one after another.
unfoldable pub ends : ℕ → Ownership → List Event
ends zero o = []
ends (suc n) o = elim (next_end o) [ none ↦ [] | some x ↦ x ∷ ends n (happen x o) ]

module _ {ℓ κ} {K : Type ℓ} {V : Type κ} ⦃e : Eq K⦄ where
  length-delete : (k : K) (m : Dict K V) → length (delete k m) ≤ length m
  unfolding delete
  length-delete k [] = omega arith
  length-delete k ((j, v) ∷ m) = ground (arith, length-delete k m)

scopes_size-delete :
    (t : String) (m : Dict String (List ℕ)) → scopes_size (delete t m) ≤ scopes_size m
unfolding delete
scopes_size-delete t [] = omega arith
scopes_size-delete t ((j, v) ∷ m) = ground (arith, scopes_size-delete t m)

claims_size-delete : (t : String) (m : Dict String ℕ) → claims_size (delete t m) ≤ claims_size m
unfolding delete
claims_size-delete t [] = omega arith
claims_size-delete t ((j, v) ∷ m) = ground (arith, claims_size-delete t m)

length-without : (e : ℕ) (xs : List ℕ) → length (without e xs) ≤ length xs
length-without e [] = omega arith
length-without e (x ∷ xs) = ground (arith, length-without e xs)

open_size-evaluate : (o : Ownership) → open_size (evaluate o) ≡ open_size o
unfolding evaluate
open_size-evaluate o = ground arith

-- The first thread has one scope less, or is gone.
scopes_size-leave :
    (t : String) (e : ℕ) (es : List ℕ) (m : Dict String (List ℕ))
    → (is_empty (without e es) ≡ true) ⊎ (length (without e es) < length es)
    → scopes_size (leave t e (get t ((t, es) ∷ m)) ((t, es) ∷ m)) < scopes_size ((t, es) ∷ m)
unfolding get set delete
scopes_size-leave t e es m h = rw (beq_refl t) (ground (arith, scopes_size-delete t m, beq_refl t))

without-shorter :
    (e : ℕ) (es : List ℕ)
    → (is_empty (without e (e ∷ es)) ≡ true) ⊎ (length (without e (e ∷ es)) < length (e ∷ es))
without-shorter e es = inr (rw (beq_refl e) (omega (arith, length-without e es)))

claims_size-unclaim :
    (t : String) (n : ℕ) (m : Dict String ℕ)
    → claims_size (unclaim t (or_else (get t ((t, n) ∷ m)) 1 - 1) ((t, n) ∷ m))
      < claims_size ((t, n) ∷ m)
unfolding get set delete
claims_size-unclaim t n m = rw (beq_refl t) (elim (Bool-cases (ltb 0 (n - 1))) [
  | inl more ↦ rw more (ground arith)
  | inr last ↦ rw last (omega (arith, claims_size-delete t m))
])

-- Each end leaves less open.
settle_exclusive-open_size :
    (t : String) (es : List ℕ) (e : ℕ) (m : Dict String (List ℕ)) (o : Ownership)
    → o.exclusive ≡ (t, es) ∷ m
    → (is_empty (without e es) ≡ true) ⊎ (length (without e es) < length es)
    → open_size (settle_exclusive t e o) < open_size o
unfolding settle_exclusive
settle_exclusive-open_size t es e m o at h =
    let left = leave t e (get t o.exclusive) o.exclusive in
    let less : scopes_size left < scopes_size o.exclusive =
      subst (λ x. scopes_size (leave t e (get t x) x) < scopes_size x) (sym at)
        (scopes_size-leave t e es m h) in
    omega (arith, open_size-evaluate (record o { exclusive = left }), less)

settle_teardown-open_size :
    (t : String) (n : ℕ) (m : Dict String ℕ) (o : Ownership)
    → o.teardown_claims ≡ (t, n) ∷ m
    → open_size (settle_teardown t o) < open_size o
unfolding settle_teardown
settle_teardown-open_size t n m o at =
    let left = unclaim t (or_else (get t o.teardown_claims) 1 - 1) o.teardown_claims in
    let less : claims_size left < claims_size o.teardown_claims =
      subst (λ x. claims_size (unclaim t (or_else (get t x) 1 - 1) x) < claims_size x) (sym at)
        (claims_size-unclaim t n m) in
    omega (arith, open_size-evaluate (record o { teardown_claims = left }), less)

-- The first registration is retained, so that it can be discharged.
first_retained :
    (k : Key) (e : ℕ) (m : Dict Key ℕ) (o : Ownership)
    → o.obligations ≡ (k, e) ∷ m
    → is_retained (record { key = k; entry = e }) o ≡ true
unfolding is_retained get
first_retained k e m o at =
    let found : get k o.obligations ≡ some e = ap (get k) at ∙ rw (beq_refl k) refl in
    rw (found, is_retained) (beq_refl e)

length-delete_first :
    (k : Key) (e : ℕ) (m : Dict Key ℕ) → length (delete k ((k, e) ∷ m)) < length ((k, e) ∷ m)
unfolding delete
length-delete_first k e m = rw (beq_refl k) (omega (arith, length-delete k m))

discharge-open_size :
    (k : Key) (e : ℕ) (m : Dict Key ℕ) (o : Ownership)
    → o.obligations ≡ (k, e) ∷ m
    → open_size (discharge (record { key = k; entry = e }) o) < open_size o
unfolding discharge
discharge-open_size k e m o at =
    let left = delete k o.obligations in
    let less : length left < length o.obligations =
      subst (λ x. length (delete k x) < length x) (sym at) (length-delete_first k e m) in
    rw (first_retained k e m o at)
      (omega (arith, open_size-evaluate (record o { obligations = left }), less))

happen-first_end :
    (scopes : Dict String (List ℕ)) (claims : Dict String ℕ) (obligations : Dict Key ℕ) (x : Event)
    (o : Ownership)
    → o.exclusive ≡ scopes
    → o.teardown_claims ≡ claims
    → o.obligations ≡ obligations
    → first_end scopes claims obligations ≡ some x
    → open_size (happen x o) < open_size o
unfolding happen
happen-first_end ((t, []) ∷ m) claims obligations x o s c b h =
    subst (λ y. open_size (happen y o) < open_size o) (of_some-eq h)
      (settle_exclusive-open_size t [] 0 m o s (inl refl))
happen-first_end ((t, e ∷ es) ∷ m) claims obligations x o s c b h =
    subst (λ y. open_size (happen y o) < open_size o) (of_some-eq h)
      (settle_exclusive-open_size t (e ∷ es) e m o s (without-shorter e es))
happen-first_end [] ((t, n) ∷ claims) obligations x o s c b h =
    subst (λ y. open_size (happen y o) < open_size o) (of_some-eq h)
      (settle_teardown-open_size t n claims o c)
happen-first_end [] [] ((k, e) ∷ obligations) x o s c b h =
    subst (λ y. open_size (happen y o) < open_size o) (of_some-eq h)
      (discharge-open_size k e obligations o b)
happen-first_end [] [] [] x o s c b h = cc

idle-first_end :
    (scopes : Dict String (List ℕ)) (claims : Dict String ℕ) (obligations : Dict Key ℕ)
    → first_end scopes claims obligations ≡ none
    → (is_empty scopes && (is_empty claims && is_empty obligations)) ≡ true
idle-first_end ((t, []) ∷ m) claims obligations h = cc
idle-first_end ((t, e ∷ es) ∷ m) claims obligations h = cc
idle-first_end [] ((t, n) ∷ claims) obligations h = cc
idle-first_end [] [] ((k, e) ∷ obligations) h = cc
idle-first_end [] [] [] h = refl

abbrev pub is_end : Event → Bool
is_end (leaves t e) = true
is_end (unclaims t) = true
is_end (discharges h) = true
is_end _ = false

first_end-is_end :
    (scopes : Dict String (List ℕ)) (claims : Dict String ℕ) (obligations : Dict Key ℕ) (x : Event)
    → first_end scopes claims obligations ≡ some x
    → is_end x ≡ true
first_end-is_end ((t, []) ∷ m) claims obligations x h = ap is_end (sym (of_some-eq h))
first_end-is_end ((t, e ∷ es) ∷ m) claims obligations x h = ap is_end (sym (of_some-eq h))
first_end-is_end [] ((t, n) ∷ claims) obligations x h = ap is_end (sym (of_some-eq h))
first_end-is_end [] [] ((k, e) ∷ obligations) x h = ap is_end (sym (of_some-eq h))
first_end-is_end [] [] [] x h = cc

-- An end does not undo the end of the teardown.
happen-is_end :
    (x : Event) (o : Ownership)
    → is_end x ≡ true
    → o.teardown_complete ≡ true
    → (happen x o).teardown_complete ≡ true
unfolding happen settle_exclusive settle_teardown discharge evaluate
happen-is_end (leaves t e) o h complete = ground arith
happen-is_end (unclaims t) o h complete = ground arith
happen-is_end (discharges k) o h complete = ground arith
happen-is_end _ o h complete = absurd (false≢true h)

idle-released :
    (o : Ownership)
    → IsSettled o
    → o.teardown_complete ≡ true
    → next_end o ≡ none
    → o.released ≡ true
idle-released o v complete nothing =
    v.prompt complete (idle-first_end o.exclusive o.teardown_claims o.obligations nothing)

ends-none :
    (n : ℕ) (o : Ownership)
    → next_end o ≡ none
    → o.released ≡ true
    → ((run (ends n o) o).released ≡ true) × All (λ x. is_end x ≡ true) (ends n o)
unfolding run ends
ends-none zero o nothing released = (released, tt)
ends-none (suc n) o nothing released = rw (nothing, ends) (released, tt)

-- The lock of a settled ownership whose teardown is complete is released in the end: the schedule
-- `ends`, with at least as many steps as the size of what is open, holds ends of scopes, of claims
-- and of obligations only, and leads to the release.
pub run-ends :
    (n : ℕ) (o : Ownership)
    → IsSettled o
    → o.teardown_complete ≡ true
    → open_size o ≤ n
    → ((run (ends n o) o).released ≡ true) × All (λ x. is_end x ≡ true) (ends n o)
unfolding run ends
run-ends zero o v complete enough = elim (Option-cases (next_end o)) [
  | inl nothing ↦ ends-none zero o nothing (idle-released o v complete nothing)
  | inr (x, e) ↦
      let less =
        happen-first_end o.exclusive o.teardown_claims o.obligations x o refl refl refl e in
      absurd (omega (arith, less))
]
run-ends (suc n) o v complete enough = elim (Option-cases (next_end o)) [
  | inl nothing ↦ ends-none (suc n) o nothing (idle-released o v complete nothing)
  | inr (x, e) ↦
      let less =
        happen-first_end o.exclusive o.teardown_claims o.obligations x o refl refl refl e in
      let ends_it = first_end-is_end o.exclusive o.teardown_claims o.obligations x e in
      let rest =
        run-ends n (happen x o) (happen-IsSettled x o v) (happen-is_end x o ends_it complete)
          (omega (arith, less)) in
      rw (e, ends) (rest.0, (ends_it, rest.1))
]
