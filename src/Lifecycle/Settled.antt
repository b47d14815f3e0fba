-- ===== src/Lifecycle/Settled.antt =====
-- What holds of an ownership between two events.
use discord_copilot_sdk.Base.{
  ℕ, ◌+◌, Bool, true, false, List, [], ◌∷◌, Option, none, some, if◌then◌else◌, nat_eq, string_eq,
  ◌≡◌, ◌≢◌, refl, arith, Bool-cases, inl, inr,
}
use discord_copilot_sdk.Lifecycle.{
  Key, late_arm, key_eq, ObligationHandle, Shutdown, not_begun, joining, tearing_down, done,
  sweeping, awaiting, Ownership, is_running, retain, is_retained, discharge, begin_attempt,
  end_attempt, arm, tear_down, continue_shutdown, settle_gate, contains, is_gate, armed_teardown,
}
use discord_copilot_sdk.Lifecycle.Events.{
  Event, arms, enters, leaves, claims, unclaims, retains, discharges, attempts, ends_attempt,
  shuts_down, goes_on, settles_gate, happen, run,
}
use discord_copilot_sdk.Lifecycle.Orderly.{
  IsSettled, run_exclusive-IsSettled, settle_exclusive-IsSettled, run_teardown-IsSettled,
  settle_teardown-IsSettled, retain-IsSettled, discharge-IsSettled, begin_attempt-IsSettled,
  settle_shutdown, end_run-IsSettled, complete-IsSettled, begin_shutdown-IsSettled,
}

end_attempt-IsSettled :
    (h : ObligationHandle) (ok : Bool) (o : Ownership)
    → IsSettled o
    → IsSettled (end_attempt h ok o)
unfolding end_attempt
end_attempt-IsSettled h ok o v = elim (Bool-cases (contains h.entry o.attempting)) [
  | inr idle ↦ rw idle v
  | inl busy ↦ rw busy (end_run-IsSettled _ (answered ok) h.entry)
]
  where
    answered : (b : Bool) → IsSettled (if b then discharge h o else o)
    answered true = discharge-IsSettled o v h
    answered false = v

arm-IsSettled : (teardown : ℕ) (o : Ownership) → IsSettled o → IsSettled (arm teardown o).1
unfolding arm
arm-IsSettled teardown o v = elim (Bool-cases (is_running o.phase)) [
  | inl early ↦ rw early (ground arith)
  | inr late ↦
      let counted = record o { late_arm_seq = o.late_arm_seq + 1 } in
      let key = late_arm (o.late_arm_seq + 1) in
      let v' : IsSettled counted = ground arith in
      rw late (
        begin_attempt-IsSettled (retain key counted).1 (retain-IsSettled counted v' key)
          (retain key counted).0)
]

retain-shutdown : (key : Key) (o : Ownership) → (retain key o).1.shutdown ≡ o.shutdown
unfolding retain
retain-shutdown key o = ground arith

tear_down-IsSettled :
    (armed : Option ℕ) (o : Ownership)
    → IsSettled o
    → o.shutdown ≢ not_begun
    → IsSettled (tear_down armed o)
unfolding tear_down
tear_down-IsSettled none o v h = complete-IsSettled o v h
tear_down-IsSettled (some teardown) o v h =
    let disarmed = record o { armed = none } in
    let v' : IsSettled disarmed = ground arith in
    gated (retain armed_teardown disarmed) (retain-IsSettled disarmed v' armed_teardown)
      (ground (arith, retain-shutdown armed_teardown disarmed))
  where
    gated :
        (r : ObligationHandle × Ownership)
        → IsSettled r.1
        → r.1.shutdown ≢ not_begun
        → IsSettled (record r.1 { gate = some r.0; shutdown = tearing_down })
    gated r w k = ground arith

begin_attempt-shutdown :
    (h : ObligationHandle) (o : Ownership) → (begin_attempt h o).shutdown ≡ o.shutdown
unfolding begin_attempt
begin_attempt-shutdown h o = ground arith

continue_shutdown-IsSettled :
    (o : Ownership) → IsSettled o → IsSettled (continue_shutdown o.shutdown o)
unfolding continue_shutdown
continue_shutdown-IsSettled o v = go_on o.shutdown refl
  where
    go_on : (s : Shutdown) → o.shutdown ≡ s → IsSettled (continue_shutdown s o)
    go_on not_begun e = v
    go_on joining e = settle_shutdown o v _ (ground arith)
    go_on tearing_down e = complete-IsSettled o v (ground arith)
    go_on done e = v
    go_on (awaiting h hs) e = v
    go_on (sweeping []) e = tear_down-IsSettled o.armed o v (ground arith)
    go_on (sweeping (h ∷ hs)) e = elim (Bool-cases (is_retained h o)) [
      | inr gone ↦ rw gone (settle_shutdown o v _ (ground arith))
      | inl held ↦ rw held (
          settle_shutdown (begin_attempt h o) (begin_attempt-IsSettled o v h) _
            (ground (arith, begin_attempt-shutdown h o)))
    ]

settle_gate-IsSettled :
    (h : ObligationHandle) (ok : Bool) (o : Ownership)
    → IsSettled o
    → IsSettled (settle_gate h ok o)
unfolding settle_gate
settle_gate-IsSettled h ok o v = elim (Bool-cases (is_gate h o.gate)) [
  | inr other ↦ rw other v
  | inl same ↦ rw same (settled ok)
]
  where
    cleared : IsSettled (record o { gate = none })
    cleared = ground arith

    settled :
        (b : Bool)
        → IsSettled (if b then discharge h (record o { gate = none }) else record o { gate = none })
    settled true = discharge-IsSettled (record o { gate = none }) cleared h
    settled false = cleared

pub happen-IsSettled : (x : Event) (o : Ownership) → IsSettled o → IsSettled (happen x o)
unfolding happen
happen-IsSettled (arms teardown) o v = arm-IsSettled teardown o v
happen-IsSettled (enters thread) o v = run_exclusive-IsSettled o v thread
happen-IsSettled (leaves thread e) o v = settle_exclusive-IsSettled o v thread e
happen-IsSettled (claims thread) o v = run_teardown-IsSettled o v thread
happen-IsSettled (unclaims thread) o v = settle_teardown-IsSettled o v thread
happen-IsSettled (retains key) o v = retain-IsSettled o v key
happen-IsSettled (discharges h) o v = discharge-IsSettled o v h
happen-IsSettled (attempts h) o v = begin_attempt-IsSettled o v h
happen-IsSettled (ends_attempt h ok) o v = end_attempt-IsSettled h ok o v
happen-IsSettled shuts_down o v = begin_shutdown-IsSettled o v
happen-IsSettled goes_on o v = continue_shutdown-IsSettled o v
happen-IsSettled (settles_gate h ok) o v = settle_gate-IsSettled h ok o v

pub run-IsSettled : (xs : List Event) (o : Ownership) → IsSettled o → IsSettled (run xs o)
unfolding run
run-IsSettled [] o v = v
run-IsSettled (x ∷ xs) o v = run-IsSettled xs (happen x o) (happen-IsSettled x o v)
