-- ===== src/Lifecycle/Holds.antt =====
-- What holds the lock: scopes, claims and obligations, and the calls that open and close them.
use discord_copilot_sdk.Base.{
  some, if◌then◌else◌, suc, ◌<◌, ℕ, ◌+◌, ◌-◌, true, false, ◌&&◌, not, String, List, [], ◌∷◌, ◌==◌,
  or_else, nat_eq, string_eq, ◌≡◌, ◌≢◌, ◌⊎◌, refl, arith, Bool-cases, Option-cases, inl, inr, Eq,
  is_some,
}
use discord_copilot_sdk.Dict.{Dict, get, delete}
use discord_copilot_sdk.Dict.Laws.{get-set, get-delete}
use discord_copilot_sdk.Lifecycle.{
  is_running, Key, key_eq, ObligationHandle, Ownership, is_empty, is_idle, evaluate, run_exclusive,
  leave, without, settle_exclusive, run_teardown, unclaim, settle_teardown, retain, is_retained,
  discharge, scopes_of, contains,
}
use discord_copilot_sdk.Lifecycle.Events.{
  happen, claims, Event, leaves, unclaims, discharges, ends_attempt, settles_gate,
}

-- An open scope, a teardown's claim on a thread, with the number of the other claims on it, or a
-- retained obligation.
pub data Hold : Type 0 where
  scope : String → ℕ → Hold
  claim : String → ℕ → Hold
  obligation : ObligationHandle → Hold

abbrev pub Holds : Hold → Ownership → Type 0
Holds (scope thread e) o = contains e (scopes_of thread o) ≡ true
Holds (claim thread others) o = get thread o.teardown_claims ≡ some (suc others)
Holds (obligation h) o = is_retained h o ≡ true

abbrev pub Differ : ObligationHandle → ObligationHandle → Type 0
Differ h k = (h.key ≢ k.key) ⊎ (h.entry ≢ k.entry)

-- The event is not the end of what holds: the end of that body, the end of a teardown on that thread
-- while no other is left there, or a discharge of that very registration.
abbrev pub Spares : Hold → Event → Type 0
Spares (scope thread e) (leaves thread' e') = (thread ≢ thread') ⊎ (e ≢ e')
Spares (claim thread others) (unclaims thread') = (thread ≢ thread') ⊎ (0 < others)
Spares (obligation h) (discharges k) = Differ h k
Spares (obligation h) (ends_attempt k true) = Differ h k
Spares (obligation h) (settles_gate k true) = Differ h k
Spares _ _ = Unit

-- The number of the other claims on the thread after an event: a teardown that starts claims it too,
-- and one that ends is another's.
abbrev pub others_after : String → Event → Ownership → ℕ → ℕ
others_after thread (claims t) o n = if t == thread && is_running o.phase then suc n else n
others_after thread (unclaims t) o n = if t == thread then n - 1 else n
others_after thread _ o n = n

abbrev pub counted : Event → Ownership → Hold → Hold
counted x o (claim thread n) = claim thread (others_after thread x o n)
counted x o hold = hold

abbrev pub next_hold : Event → Ownership → Hold → Hold
next_hold (claims t) o hold = counted (claims t) o hold
next_hold (unclaims t) o hold = counted (unclaims t) o hold
next_hold _ o hold = hold

pub next_hold-claim :
    (thread : String) (n : ℕ) (x : Event) (o : Ownership)
    → next_hold x o (claim thread n) ≡ claim thread (others_after thread x o n)
next_hold-claim thread n (claims t) o = refl
next_hold-claim thread n (unclaims t) o = refl
next_hold-claim thread n _ o = refl

-- None of the events is the end of what holds.
abbrev pub SparesAll : Hold → List Event → Ownership → Type 0
SparesAll hold [] o = Unit
SparesAll hold (x ∷ xs) o = Spares hold x × SparesAll (next_hold x o hold) xs (happen x o)

abbrev pub hold_after : Hold → List Event → Ownership → Hold
hold_after hold [] o = hold
hold_after hold (x ∷ xs) o = hold_after (next_hold x o hold) xs (happen x o)

-- It holds, and the lock is not released.
abbrev pub Waits : Hold → Ownership → Type 0
Waits hold o = Holds hold o × (o.released ≡ false)

module _ {ℓ κ} {K : Type ℓ} {V : Type κ} ⦃e : Eq K⦄ where
  is_some-get-not_empty : (k : K) (m : Dict K V) → is_some (get k m) ≡ true → is_empty m ≡ false
  unfolding get
  is_some-get-not_empty k [] h = cc
  is_some-get-not_empty k (x ∷ m) h = refl

-- What holds keeps the lock from being released.
Holds-not_idle : (hold : Hold) (o : Ownership) → Holds hold o → is_idle o ≡ false
unfolding is_retained
Holds-not_idle (scope thread e) o h = ground (arith, is_some-get-not_empty thread o.exclusive)
Holds-not_idle (claim thread n) o h = ground (arith, is_some-get-not_empty thread o.teardown_claims)
Holds-not_idle (obligation k) o h = ground (arith, is_some-get-not_empty k.key o.obligations)

pub evaluate-Waits : (hold : Hold) (o : Ownership) → Waits hold o → Waits hold (evaluate o)
unfolding evaluate is_retained
evaluate-Waits (scope thread e) o w = ground (arith, Holds-not_idle (scope thread e) o)
evaluate-Waits (claim thread n) o w = ground (arith, Holds-not_idle (claim thread n) o)
evaluate-Waits (obligation h) o w = ground (arith, Holds-not_idle (obligation h) o)

contains-without :
    (e d : ℕ) (xs : List ℕ) → contains e (without d xs) ≡ (not (d == e) && contains e xs)
contains-without e d [] = ground arith
contains-without e d (x ∷ xs) = ground (arith, contains-without e d xs)

-- The scopes of a thread after one of them has been left.
scopes_of-leave :
    (thread t : String) (e d : ℕ) (o : Ownership)
    → contains e (or_else (get t (leave thread d (get thread o.exclusive) o.exclusive)) [])
      ≡ (contains e (scopes_of t o) && not (thread == t && d == e))
scopes_of-leave thread t e d o = elim (Option-cases (get thread o.exclusive)) [
  | inl none_there ↦ rw none_there (ground (arith, string_eq.beq_iff thread t))
  | inr (live, there) ↦ elim (Bool-cases (is_empty (without d live))) [
    | inl last ↦
        rw (there, last)
          (ground (
            arith,
            get-delete thread t o.exclusive,
            string_eq.beq_iff thread t,
            contains-without e d live,
          ))
    | inr others ↦
        rw (there, others)
          (ground (
            arith,
            get-set thread t (without d live) o.exclusive,
            string_eq.beq_iff thread t,
            contains-without e d live,
          ))
  ]
]

-- Nothing but the end of a scope, of a claim or of an obligation touches a set that the lock
-- depends on otherwise than by adding to it.
pub run_exclusive-Waits :
    (hold : Hold) (thread : String) (o : Ownership)
    → Waits hold o
    → Waits hold (run_exclusive thread o).1
unfolding run_exclusive is_retained
run_exclusive-Waits (scope t e) thread o w = ground (
  arith,
  get-set thread t (o.next_entry ∷ scopes_of thread o) o.exclusive,
  string_eq.beq_iff thread t,
)
run_exclusive-Waits (claim t n) thread o w = ground arith
run_exclusive-Waits (obligation h) thread o w = ground arith

pub settle_exclusive-Waits :
    (hold : Hold) (thread : String) (d : ℕ) (o : Ownership)
    → Waits hold o
    → Spares hold (leaves thread d)
    → Waits hold (settle_exclusive thread d o)
unfolding settle_exclusive is_retained
settle_exclusive-Waits hold thread d o w s = evaluate-Waits hold _ (left hold w s)
  where
    left :
        (hold : Hold)
        → Waits hold o
        → Spares hold (leaves thread d)
        → Waits hold (record o { exclusive = leave thread d (get thread o.exclusive) o.exclusive })
    left (scope t e) w s =
        ground (arith, scopes_of-leave thread t e d o, string_eq.beq_iff thread t)
    left (claim t n) w s = w
    left (obligation h) w s = w

pub run_teardown-Waits :
    (hold : Hold) (thread : String) (o : Ownership)
    → Waits hold o
    → Waits (next_hold (claims thread) o hold) (run_teardown thread o).1
unfolding run_teardown is_retained
run_teardown-Waits (scope t e) thread o w = ground arith
run_teardown-Waits (claim t n) thread o w = ground (
  arith,
  get-set thread t (or_else (get thread o.teardown_claims) 0 + 1) o.teardown_claims,
  string_eq.beq_iff thread t,
)
run_teardown-Waits (obligation h) thread o w = ground arith

pub settle_teardown-Waits :
    (hold : Hold) (thread : String) (o : Ownership)
    → Waits hold o
    → Spares hold (unclaims thread)
    → Waits (next_hold (unclaims thread) o hold) (settle_teardown thread o)
unfolding settle_teardown is_retained
settle_teardown-Waits hold thread o w s =
    evaluate-Waits (next_hold (unclaims thread) o hold) _ (settled hold w s)
  where
    remaining : ℕ
    remaining = or_else (get thread o.teardown_claims) 1 - 1

    settled :
        (hold : Hold)
        → Waits hold o
        → Spares hold (unclaims thread)
        → Waits
            (next_hold (unclaims thread) o hold)
            (record o { teardown_claims = unclaim thread remaining o.teardown_claims })
    settled (scope t e) w s = w
    settled (claim t n) w s = ground (
      arith,
      get-set thread t remaining o.teardown_claims,
      get-delete thread t o.teardown_claims,
      string_eq.beq_iff thread t,
    )
    settled (obligation h) w s = w

pub retain-Waits :
    (hold : Hold) (key : Key) (o : Ownership) → Waits hold o → Waits hold (retain key o).1
unfolding retain is_retained
retain-Waits (scope t e) key o w = ground arith
retain-Waits (claim t n) key o w = ground arith
retain-Waits (obligation h) key o w =
    ground (arith, get-set key h.key o.next_entry o.obligations, key_eq.beq_iff key h.key)

is_retained-delete :
    (h k : ObligationHandle) (o : Ownership)
    → is_retained h o ≡ true
    → is_retained k o ≡ true
    → Differ h k
    → is_retained h (record o { obligations = delete k.key o.obligations }) ≡ true
unfolding is_retained
is_retained-delete h k o p q d =
    ground (arith, get-delete k.key h.key o.obligations, key_eq.beq_iff k.key h.key)

pub discharge-Waits :
    (hold : Hold) (k : ObligationHandle) (o : Ownership)
    → Waits hold o
    → Spares hold (discharges k)
    → Waits hold (discharge k o)
unfolding discharge
discharge-Waits hold k o w s = elim (Bool-cases (is_retained k o)) [
  | inr gone ↦ rw gone w
  | inl there ↦ rw there (evaluate-Waits hold _ (others hold w s there))
]
  where
    others :
        (hold : Hold)
        → Waits hold o
        → Spares hold (discharges k)
        → is_retained k o ≡ true
        → Waits hold (record o { obligations = delete k.key o.obligations })
    others (scope t e) w s there = w
    others (claim t n) w s there = w
    others (obligation h) w s there = (is_retained-delete h k o w.0 there s, w.1)
