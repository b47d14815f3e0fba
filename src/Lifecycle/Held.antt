-- ===== src/Lifecycle/Held.antt =====
-- What keeps the lock, and for how long.
use discord_copilot_sdk.Base.{
  ℕ, ◌+◌, Bool, true, false, List, [], ◌∷◌, Option, none, some, if◌then◌else◌, nat_eq, string_eq,
  ◌≡◌, arith, Bool-cases, inl, inr,
}
use discord_copilot_sdk.Lifecycle.{
  late_arm, key_eq, ObligationHandle, Shutdown, not_begun, joining, tearing_down, done, sweeping,
  awaiting, Ownership, is_running, retain, is_retained, discharge, begin_attempt, end_run,
  end_attempt, arm, begin_shutdown, complete, tear_down, continue_shutdown, settle_gate, contains,
  is_gate, armed_teardown,
}
use discord_copilot_sdk.Lifecycle.Events.{
  Event, arms, enters, leaves, claims, unclaims, retains, discharges, attempts, ends_attempt,
  shuts_down, goes_on, settles_gate, happen, run,
}
use discord_copilot_sdk.Lifecycle.Holds.{
  next_hold, SparesAll, hold_after, Hold, scope, claim, obligation, Holds, Spares, Waits,
  evaluate-Waits, run_exclusive-Waits, settle_exclusive-Waits, run_teardown-Waits,
  settle_teardown-Waits, retain-Waits, discharge-Waits,
}

-- What the three sets and the release do not depend on.
record Alike (o p : Ownership) : Type 0 where
  scopes : p.exclusive ≡ o.exclusive
  claimed : p.teardown_claims ≡ o.teardown_claims
  owed : p.obligations ≡ o.obligations
  same_release : p.released ≡ o.released

Alike-Waits : (hold : Hold) (o p : Ownership) → Alike o p → Waits hold o → Waits hold p
unfolding is_retained
Alike-Waits (scope t e) o p a w = ground arith
Alike-Waits (claim t n) o p a w = ground arith
Alike-Waits (obligation h) o p a w = ground arith

begin_attempt-Alike : (h : ObligationHandle) (o : Ownership) → Alike o (begin_attempt h o)
unfolding begin_attempt
begin_attempt-Alike h o = ground arith

begin_shutdown-Alike : (o : Ownership) → Alike o (begin_shutdown o)
unfolding begin_shutdown
begin_shutdown-Alike o = ground arith

end_attempt-Waits :
    (hold : Hold) (h : ObligationHandle) (ok : Bool) (o : Ownership)
    → Waits hold o
    → Spares hold (ends_attempt h ok)
    → Waits hold (end_attempt h ok o)
unfolding end_attempt
end_attempt-Waits hold h ok o w s = elim (Bool-cases (contains h.entry o.attempting)) [
  | inr idle ↦ rw idle w
  | inl busy ↦
      rw busy
        (Alike-Waits hold _ _ (ended (if ok then discharge h o else o)) (answered hold ok w s))
]
  where
    ended : (p : Ownership) → Alike p (end_run h.entry p)
    ended p = ground arith

    answered :
        (hold : Hold) (b : Bool)
        → Waits hold o
        → Spares hold (ends_attempt h b)
        → Waits hold (if b then discharge h o else o)
    answered hold false w s = w
    answered (scope t e) true w s = discharge-Waits (scope t e) h o w tt
    answered (claim t n) true w s = discharge-Waits (claim t n) h o w tt
    answered (obligation k) true w s = discharge-Waits (obligation k) h o w s

arm-Waits :
    (hold : Hold) (teardown : ℕ) (o : Ownership) → Waits hold o → Waits hold (arm teardown o).1
unfolding arm
arm-Waits hold teardown o w = elim (Bool-cases (is_running o.phase)) [
  | inl early ↦ rw early (Alike-Waits hold o _ (ground arith) w)
  | inr late ↦
      let counted = record o { late_arm_seq = o.late_arm_seq + 1 } in
      let key = late_arm (o.late_arm_seq + 1) in
      let w' = retain-Waits hold key counted (Alike-Waits hold o counted (ground arith) w) in
      rw late (
        Alike-Waits hold _ _ (begin_attempt-Alike (retain key counted).0 (retain key counted).1) w')
]

complete-Waits : (hold : Hold) (o : Ownership) → Waits hold o → Waits hold (complete o)
unfolding complete
complete-Waits hold o w = evaluate-Waits hold _ (Alike-Waits hold o _ (ground arith) w)

tear_down-Waits :
    (hold : Hold) (armed : Option ℕ) (o : Ownership) → Waits hold o → Waits hold (tear_down armed o)
unfolding tear_down
tear_down-Waits hold none o w = complete-Waits hold o w
tear_down-Waits hold (some teardown) o w =
    let disarmed = record o { armed = none } in
    Alike-Waits hold (retain armed_teardown disarmed).1 _ (ground arith)
      (retain-Waits hold armed_teardown disarmed (Alike-Waits hold o disarmed (ground arith) w))

continue_shutdown-Waits :
    (hold : Hold) (s : Shutdown) (o : Ownership) → Waits hold o → Waits hold (continue_shutdown s o)
unfolding continue_shutdown
continue_shutdown-Waits hold not_begun o w = w
continue_shutdown-Waits hold joining o w = Alike-Waits hold o _ (ground arith) w
continue_shutdown-Waits hold tearing_down o w = complete-Waits hold o w
continue_shutdown-Waits hold done o w = w
continue_shutdown-Waits hold (awaiting h hs) o w = w
continue_shutdown-Waits hold (sweeping []) o w = tear_down-Waits hold o.armed o w
continue_shutdown-Waits hold (sweeping (h ∷ hs)) o w = elim (Bool-cases (is_retained h o)) [
  | inr gone ↦ rw gone (Alike-Waits hold o _ (ground arith) w)
  | inl there ↦ rw there (
      Alike-Waits hold (begin_attempt h o) _ (ground arith)
        (Alike-Waits hold o _ (begin_attempt-Alike h o) w))
]

settle_gate-Waits :
    (hold : Hold) (h : ObligationHandle) (ok : Bool) (o : Ownership)
    → Waits hold o
    → Spares hold (settles_gate h ok)
    → Waits hold (settle_gate h ok o)
unfolding settle_gate
settle_gate-Waits hold h ok o w s = elim (Bool-cases (is_gate h o.gate)) [
  | inr other ↦ rw other w
  | inl same ↦ rw same (settled hold ok (Alike-Waits hold o _ (ground arith) w) s)
]
  where
    cleared : Ownership
    cleared = record o { gate = none }

    settled :
        (hold : Hold) (b : Bool)
        → Waits hold cleared
        → Spares hold (settles_gate h b)
        → Waits hold (if b then discharge h cleared else cleared)
    settled hold false w s = w
    settled (scope t e) true w s = discharge-Waits (scope t e) h cleared w tt
    settled (claim t n) true w s = discharge-Waits (claim t n) h cleared w tt
    settled (obligation k) true w s = discharge-Waits (obligation k) h cleared w s

happen-Waits :
    (hold : Hold) (x : Event) (o : Ownership)
    → Waits hold o
    → Spares hold x
    → Waits (next_hold x o hold) (happen x o)
unfolding happen
happen-Waits hold (arms teardown) o w s = arm-Waits hold teardown o w
happen-Waits hold (enters thread) o w s = run_exclusive-Waits hold thread o w
happen-Waits hold (leaves thread e) o w s = settle_exclusive-Waits hold thread e o w s
happen-Waits hold (claims thread) o w s = run_teardown-Waits hold thread o w
happen-Waits hold (unclaims thread) o w s = settle_teardown-Waits hold thread o w s
happen-Waits hold (retains key) o w s = retain-Waits hold key o w
happen-Waits hold (discharges h) o w s = discharge-Waits hold h o w s
happen-Waits hold (attempts h) o w s = Alike-Waits hold o _ (begin_attempt-Alike h o) w
happen-Waits hold (ends_attempt h ok) o w s = end_attempt-Waits hold h ok o w s
happen-Waits hold shuts_down o w s = Alike-Waits hold o _ (begin_shutdown-Alike o) w
happen-Waits hold goes_on o w s = continue_shutdown-Waits hold o.shutdown o w
happen-Waits hold (settles_gate h ok) o w s = settle_gate-Waits hold h ok o w s

-- While a scope is open, a teardown's claim on a thread stands, or an obligation is retained, the
-- lock is not released: what holds when the lock is not released holds on, and the lock stays,
-- after any events that are not its own end. The claims on a thread are counted: other teardowns
-- may claim it and end, as long as there are no more ends than other claims.
pub run-held :
    (hold : Hold) (xs : List Event) (o : Ownership)
    → Holds hold o
    → o.released ≡ false
    → SparesAll hold xs o
    → Holds (hold_after hold xs o) (run xs o) × ((run xs o).released ≡ false)
unfolding run
run-held hold [] o h k s = (h, k)
run-held hold (x ∷ xs) o h k (s, ss) =
    let w = happen-Waits hold x o (h, k) s in
    run-held (next_hold x o hold) xs (happen x o) w.0 w.1 ss
