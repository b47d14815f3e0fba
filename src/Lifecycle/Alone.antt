-- ===== src/Lifecycle/Alone.antt =====
-- A teardown that has joined a thread's scopes has the thread to itself.
use discord_copilot_sdk.Base.{
  sym, ℕ, ◌+◌, ◌-◌, Bool, true, String, List, [], ◌∷◌, Option, none, some, or_else, nat_eq,
  string_eq, ◌≡◌, arith,
}
use mathlib.Core.Path.{subst}
use discord_copilot_sdk.Dict.{get, delete}
use discord_copilot_sdk.Dict.Laws.{has-get, get-set, get-delete}
use discord_copilot_sdk.Lifecycle.{
  Key, late_arm, key_eq, ObligationHandle, Shutdown, not_begun, joining, tearing_down, done,
  sweeping, awaiting, Ownership, is_empty, evaluate, decline_reason, run_exclusive, leave, without,
  settle_exclusive, run_teardown, settle_teardown, retain, discharge, begin_attempt, end_attempt,
  arm, begin_shutdown, complete, tear_down, continue_shutdown, settle_gate, scopes_of,
  armed_teardown, join_exclusive,
}
use discord_copilot_sdk.Lifecycle.Holds.{
  claim, Holds, Spares, SparesAll, next_hold-claim, hold_after, others_after,
}
use discord_copilot_sdk.Lifecycle.Events.{
  Event, arms, enters, leaves, claims, unclaims, retains, discharges, attempts, ends_attempt,
  shuts_down, goes_on, settles_gate, happen, run,
}

-- The same scopes and the same claims.
record SameOwners (o p : Ownership) : Type 0 where
  scopes : p.exclusive ≡ o.exclusive
  claimed : p.teardown_claims ≡ o.teardown_claims

SameOwners-trans : (o p q : Ownership) → SameOwners o p → SameOwners p q → SameOwners o q
SameOwners-trans o p q a b = ground arith

evaluate-SameOwners : (o : Ownership) → SameOwners o (evaluate o)
unfolding evaluate
evaluate-SameOwners o = ground arith

retain-SameOwners : (key : Key) (o : Ownership) → SameOwners o (retain key o).1
unfolding retain
retain-SameOwners key o = ground arith

discharge-SameOwners : (h : ObligationHandle) (o : Ownership) → SameOwners o (discharge h o)
unfolding discharge
discharge-SameOwners h o =
    ground (arith, evaluate-SameOwners (record o { obligations = delete h.key o.obligations }))

begin_attempt-SameOwners : (h : ObligationHandle) (o : Ownership) → SameOwners o (begin_attempt h o)
unfolding begin_attempt
begin_attempt-SameOwners h o = ground arith

end_attempt-SameOwners :
    (h : ObligationHandle) (ok : Bool) (o : Ownership) → SameOwners o (end_attempt h ok o)
unfolding end_attempt
end_attempt-SameOwners h ok o = ground (arith, discharge-SameOwners h o)

arm-SameOwners : (teardown : ℕ) (o : Ownership) → SameOwners o (arm teardown o).1
unfolding arm
arm-SameOwners teardown o =
    let counted = record o { late_arm_seq = o.late_arm_seq + 1 } in
    let r = retain (late_arm (o.late_arm_seq + 1)) counted in
    ground (
      arith,
      retain-SameOwners (late_arm (o.late_arm_seq + 1)) counted,
      begin_attempt-SameOwners r.0 r.1,
    )

complete-SameOwners : (o : Ownership) → SameOwners o (complete o)
unfolding complete
complete-SameOwners o =
    ground (arith, evaluate-SameOwners (record o { teardown_complete = true; shutdown = done }))

tear_down-SameOwners : (armed : Option ℕ) (o : Ownership) → SameOwners o (tear_down armed o)
unfolding tear_down
tear_down-SameOwners none o = complete-SameOwners o
tear_down-SameOwners (some teardown) o =
    ground (arith, retain-SameOwners armed_teardown (record o { armed = none }))

continue_shutdown-SameOwners : (s : Shutdown) (o : Ownership) → SameOwners o (continue_shutdown s o)
unfolding continue_shutdown
continue_shutdown-SameOwners not_begun o = ground arith
continue_shutdown-SameOwners joining o = ground arith
continue_shutdown-SameOwners tearing_down o = complete-SameOwners o
continue_shutdown-SameOwners done o = ground arith
continue_shutdown-SameOwners (awaiting h hs) o = ground arith
continue_shutdown-SameOwners (sweeping []) o = tear_down-SameOwners o.armed o
continue_shutdown-SameOwners (sweeping (h ∷ hs)) o = ground (arith, begin_attempt-SameOwners h o)

begin_shutdown-SameOwners : (o : Ownership) → SameOwners o (begin_shutdown o)
unfolding begin_shutdown
begin_shutdown-SameOwners o = ground arith

settle_gate-SameOwners :
    (h : ObligationHandle) (ok : Bool) (o : Ownership) → SameOwners o (settle_gate h ok o)
unfolding settle_gate
settle_gate-SameOwners h ok o = ground (arith, discharge-SameOwners h (record o { gate = none }))

-- The claim stands, and no scope is open on its thread.
abbrev IsAlone : String → ℕ → Ownership → Type 0
IsAlone thread n o = Holds (claim thread n) o × (join_exclusive thread o ≡ true)

module _ (thread : String) where
  SameOwners-IsAlone :
      (n : ℕ) (o p : Ownership) → SameOwners o p → IsAlone thread n o → IsAlone thread n p
  SameOwners-IsAlone n o p s a = ground arith

  run_exclusive-IsAlone :
      (t : String) (n : ℕ) (o : Ownership)
      → IsAlone thread n o
      → IsAlone thread n (run_exclusive t o).1
  unfolding run_exclusive decline_reason
  run_exclusive-IsAlone t n o a = ground (
    arith,
    get-set t thread (o.next_entry ∷ scopes_of t o) o.exclusive,
    has-get t o.teardown_claims,
    string_eq.beq_iff t thread,
  )

  leave-alone :
      (t : String) (e n : ℕ) (o : Ownership)
      → IsAlone thread n o
      → is_empty (or_else (get thread (leave t e (get t o.exclusive) o.exclusive)) []) ≡ true
  leave-alone t e n o a = ground (
    arith,
    get-set t thread (without e (scopes_of t o)) o.exclusive,
    get-delete t thread o.exclusive,
    string_eq.beq_iff t thread,
  )

  settle_exclusive-IsAlone :
      (t : String) (e n : ℕ) (o : Ownership)
      → IsAlone thread n o
      → IsAlone thread n (settle_exclusive t e o)
  unfolding settle_exclusive
  settle_exclusive-IsAlone t e n o a =
      SameOwners-IsAlone n _ _ (evaluate-SameOwners _) (a.0, leave-alone t e n o a)

  run_teardown-IsAlone :
      (t : String) (n : ℕ) (o : Ownership)
      → IsAlone thread n o
      → IsAlone thread (others_after thread (claims t) o n) (run_teardown t o).1
  unfolding run_teardown
  run_teardown-IsAlone t n o a = ground (
    arith,
    get-set t thread (or_else (get t o.teardown_claims) 0 + 1) o.teardown_claims,
    string_eq.beq_iff t thread,
  )

  settle_teardown-IsAlone :
      (t : String) (n : ℕ) (o : Ownership)
      → Spares (claim thread n) (unclaims t)
      → IsAlone thread n o
      → IsAlone thread (others_after thread (unclaims t) o n) (settle_teardown t o)
  unfolding settle_teardown
  settle_teardown-IsAlone t n o other a =
      let remaining = or_else (get t o.teardown_claims) 1 - 1 in
      SameOwners-IsAlone (others_after thread (unclaims t) o n) _ _ (evaluate-SameOwners _) (
        ground (
          arith,
          get-set t thread remaining o.teardown_claims,
          get-delete t thread o.teardown_claims,
          string_eq.beq_iff t thread,
        ))

  happen-IsAlone :
      (x : Event) (n : ℕ) (o : Ownership)
      → Spares (claim thread n) x
      → IsAlone thread n o
      → IsAlone thread (others_after thread x o n) (happen x o)
  unfolding happen
  happen-IsAlone (arms teardown) n o k a = SameOwners-IsAlone n o _ (arm-SameOwners teardown o) a
  happen-IsAlone (enters t) n o k a = run_exclusive-IsAlone t n o a
  happen-IsAlone (leaves t e) n o k a = settle_exclusive-IsAlone t e n o a
  happen-IsAlone (claims t) n o k a = run_teardown-IsAlone t n o a
  happen-IsAlone (unclaims t) n o k a = settle_teardown-IsAlone t n o k a
  happen-IsAlone (retains key) n o k a = SameOwners-IsAlone n o _ (retain-SameOwners key o) a
  happen-IsAlone (discharges h) n o k a = SameOwners-IsAlone n o _ (discharge-SameOwners h o) a
  happen-IsAlone (attempts h) n o k a = SameOwners-IsAlone n o _ (begin_attempt-SameOwners h o) a
  happen-IsAlone (ends_attempt h ok) n o k a =
      SameOwners-IsAlone n o _ (end_attempt-SameOwners h ok o) a
  happen-IsAlone shuts_down n o k a = SameOwners-IsAlone n o _ (begin_shutdown-SameOwners o) a
  happen-IsAlone goes_on n o k a =
      SameOwners-IsAlone n o _ (continue_shutdown-SameOwners o.shutdown o) a
  happen-IsAlone (settles_gate h ok) n o k a =
      SameOwners-IsAlone n o _ (settle_gate-SameOwners h ok o) a

  -- As long as a teardown's claim on a thread stands, after its join of the thread's scopes has
  -- answered `true`, no scope is open on the thread, whatever happens but the end of that claim:
  -- the claim stands on, and a join would answer `true` again. Other teardowns may claim the thread
  -- and end; the claims are counted.
  pub run-alone :
      (n : ℕ) (xs : List Event) (o : Ownership)
      → Holds (claim thread n) o
      → join_exclusive thread o ≡ true
      → SparesAll (claim thread n) xs o
      → Holds (hold_after (claim thread n) xs o) (run xs o)
        × (join_exclusive thread (run xs o) ≡ true)
  unfolding run
  run-alone n [] o c j ks = (c, j)
  run-alone n (x ∷ xs) o c j (k, ks) =
      let m = others_after thread x o n in
      let same = next_hold-claim thread n x o in
      let (c', j') = happen-IsAlone x n o k (c, j) in
      let rest =
        run-alone m xs (happen x o) c' j' (subst (λ h. SparesAll h xs (happen x o)) same ks) in
      (
        subst (λ h. Holds (hold_after h xs (happen x o)) (run xs (happen x o))) (sym same) rest.0,
        rest.1,
      )
