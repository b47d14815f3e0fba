-- ===== src/Lifecycle/Released.antt =====
-- When the lock is released.
use discord_copilot_sdk.Base.{
  ℕ, ◌+◌, ◌-◌, Bool, true, List, [], ◌∷◌, Option, none, some, or_else, ◌≡◌, refl, ◌⊎◌, inl, arith,
  string_eq, nat_eq,
}
use discord_copilot_sdk.Dict.{get, delete}
use discord_copilot_sdk.Lifecycle.{
  Key, late_arm, key_eq, ObligationHandle, Shutdown, not_begun, joining, tearing_down, done,
  sweeping, awaiting, Ownership, is_idle, evaluate, run_exclusive, leave, settle_exclusive,
  run_teardown, unclaim, settle_teardown, retain, discharge, begin_attempt, end_attempt, arm,
  begin_shutdown, complete, tear_down, continue_shutdown, settle_gate, armed_teardown,
}
use discord_copilot_sdk.Lifecycle.Events.{
  Event, arms, enters, leaves, claims, unclaims, retains, discharges, attempts, ends_attempt,
  shuts_down, goes_on, settles_gate, happen, run,
}
use discord_copilot_sdk.Lifecycle.Orderly.{IsSettled}
use discord_copilot_sdk.Lifecycle.Settled.{run-IsSettled}

-- From one state to the next the lock is not released, unless the teardown is complete and nothing
-- is held: no scope, no claim, and no obligation.
abbrev pub IsJust : Ownership → Ownership → Type 0
IsJust o p = (p.released ≡ o.released) ⊎ ((p.teardown_complete ≡ true) × (is_idle p ≡ true))

-- Every event of a run is such a step.
abbrev pub AreJust : List Event → Ownership → Type 0
AreJust [] o = Unit
AreJust (x ∷ xs) o = IsJust o (happen x o) × AreJust xs (happen x o)

evaluate-IsJust : (o : Ownership) → IsJust o (evaluate o)
unfolding evaluate
evaluate-IsJust o = ground arith

retain-IsJust : (key : Key) (o : Ownership) → (retain key o).1.released ≡ o.released
unfolding retain
retain-IsJust key o = ground arith

begin_attempt-IsJust :
    (h : ObligationHandle) (o : Ownership) → (begin_attempt h o).released ≡ o.released
unfolding begin_attempt
begin_attempt-IsJust h o = ground arith

discharge-IsJust : (h : ObligationHandle) (o : Ownership) → IsJust o (discharge h o)
unfolding discharge
discharge-IsJust h o =
    ground (arith, evaluate-IsJust (record o { obligations = delete h.key o.obligations }))

end_attempt-IsJust :
    (h : ObligationHandle) (ok : Bool) (o : Ownership) → IsJust o (end_attempt h ok o)
unfolding end_attempt
end_attempt-IsJust h ok o = ground (arith, discharge-IsJust h o)

settle_gate-IsJust :
    (h : ObligationHandle) (ok : Bool) (o : Ownership) → IsJust o (settle_gate h ok o)
unfolding settle_gate
settle_gate-IsJust h ok o = ground (arith, discharge-IsJust h (record o { gate = none }))

complete-IsJust : (o : Ownership) → IsJust o (complete o)
unfolding complete
complete-IsJust o =
    ground (arith, evaluate-IsJust (record o { teardown_complete = true; shutdown = done }))

tear_down-IsJust : (armed : Option ℕ) (o : Ownership) → IsJust o (tear_down armed o)
unfolding tear_down
tear_down-IsJust none o = complete-IsJust o
tear_down-IsJust (some teardown) o = inl (retain-IsJust armed_teardown (record o { armed = none }))

continue_shutdown-IsJust : (s : Shutdown) (o : Ownership) → IsJust o (continue_shutdown s o)
unfolding continue_shutdown
continue_shutdown-IsJust not_begun o = inl refl
continue_shutdown-IsJust joining o = inl refl
continue_shutdown-IsJust tearing_down o = complete-IsJust o
continue_shutdown-IsJust done o = inl refl
continue_shutdown-IsJust (awaiting h hs) o = inl refl
continue_shutdown-IsJust (sweeping []) o = tear_down-IsJust o.armed o
continue_shutdown-IsJust (sweeping (h ∷ hs)) o = ground (arith, begin_attempt-IsJust h o)

arm-IsJust : (teardown : ℕ) (o : Ownership) → IsJust o (arm teardown o).1
unfolding arm
arm-IsJust teardown o =
    let counted = record o { late_arm_seq = o.late_arm_seq + 1 } in
    let r = retain (late_arm (o.late_arm_seq + 1)) counted in
    ground
      (arith, retain-IsJust (late_arm (o.late_arm_seq + 1)) counted, begin_attempt-IsJust r.0 r.1)

happen-IsJust : (x : Event) (o : Ownership) → IsJust o (happen x o)
unfolding happen run_exclusive run_teardown settle_exclusive settle_teardown begin_shutdown
happen-IsJust (arms teardown) o = arm-IsJust teardown o
happen-IsJust (enters thread) o = ground arith
happen-IsJust (leaves thread e) o =
    evaluate-IsJust (record o { exclusive = leave thread e (get thread o.exclusive) o.exclusive })
happen-IsJust (claims thread) o = ground arith
happen-IsJust (unclaims thread) o = evaluate-IsJust (record o {
  teardown_claims = unclaim thread (or_else (get thread o.teardown_claims) 1 - 1) o.teardown_claims;
})
happen-IsJust (retains key) o = inl (retain-IsJust key o)
happen-IsJust (discharges h) o = discharge-IsJust h o
happen-IsJust (attempts h) o = inl (begin_attempt-IsJust h o)
happen-IsJust (ends_attempt h ok) o = end_attempt-IsJust h ok o
happen-IsJust shuts_down o = ground arith
happen-IsJust goes_on o = continue_shutdown-IsJust o.shutdown o
happen-IsJust (settles_gate h ok) o = settle_gate-IsJust h ok o

run-AreJust : (xs : List Event) (o : Ownership) → AreJust xs o
run-AreJust [] o = tt
run-AreJust (x ∷ xs) o = (happen-IsJust x o, run-AreJust xs (happen x o))

-- Any events keep an ownership settled, and each of them is just: once the teardown is complete and
-- no scope, claim or obligation is held, the lock is released at once; an event changes whether the
-- lock is released only where, after it, the teardown is complete and none of the three is held;
-- after the release no scope and no claim is open ever again; and `lock.release` is called once.
pub run-releases :
    (xs : List Event) (o : Ownership) → IsSettled o → IsSettled (run xs o) × AreJust xs o
run-releases xs o v = (run-IsSettled xs o v, run-AreJust xs o)
