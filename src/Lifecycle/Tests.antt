-- ===== src/Lifecycle/Tests.antt =====
-- The theorems on the ownership at concrete events.
use discord_copilot_sdk.Base.{
  inr, true, false, List, [], ◌∷◌, ◌≡◌, refl, string_eq, ◌≤◌, All, arith,
}
use discord_copilot_sdk.Dict.{get, has, set, delete}
use discord_copilot_sdk.Lifecycle.{
  settle_teardown, run_teardown, Ownership, created, run_exclusive, decline_reason, join_exclusive,
  evaluate, settle_exclusive, begin_shutdown, continue_shutdown, tear_down, complete,
}
use discord_copilot_sdk.Lifecycle.Events.{
  claims, unclaims, Event, enters, leaves, shuts_down, goes_on, happen, run,
}
use discord_copilot_sdk.Lifecycle.Orderly.{IsSettled, created-IsSettled}
use discord_copilot_sdk.Lifecycle.Settled.{run-IsSettled}
use discord_copilot_sdk.Lifecycle.Holds.{claim, Holds, SparesAll, hold_after}
use discord_copilot_sdk.Lifecycle.Released.{AreJust, run-releases}
use discord_copilot_sdk.Lifecycle.Held.{run-held}
use discord_copilot_sdk.Lifecycle.Alone.{run-alone}
use discord_copilot_sdk.Lifecycle.Drained.{open_size, ends, is_end, run-ends}

-- A scope is open when the process is told to stop, and outlives the wait for it.
abbrev stop_during_scope : List Event
stop_during_scope = enters "t" ∷ shuts_down ∷ goes_on ∷ goes_on ∷ []

-- Its end is what releases the lock.
released_at_last : (run (leaves "t" 0 ∷ []) (run stop_during_scope created)).released ≡ true
unfolding run happen run_exclusive decline_reason get has set delete begin_shutdown
    continue_shutdown tear_down complete evaluate settle_exclusive
released_at_last = refl

run-releases_example : IsSettled (run stop_during_scope created) × AreJust stop_during_scope created
run-releases_example = run-releases stop_during_scope created created-IsSettled

-- Another teardown of the thread starts and ends while the first goes on.
abbrev claimed : Ownership
claimed = record created { teardown_claims = ("t", 1) ∷ [] }

abbrev nested : List Event
nested = claims "t" ∷ enters "t" ∷ unclaims "t" ∷ shuts_down ∷ []

claim_stands : Holds (claim "t" 0) claimed
unfolding get
claim_stands = refl

joined : join_exclusive "t" claimed ≡ true
unfolding get
joined = refl

spared : SparesAll (claim "t" 0) nested claimed
unfolding happen run_teardown get set
spared = (tt, (tt, (inr (omega arith), (tt, tt))))

stands_alone : hold_after (claim "t" 0) nested claimed ≡ claim "t" 0
unfolding happen run_teardown run_exclusive settle_teardown evaluate decline_reason has get set
stands_alone = refl

run-held_example :
    Holds (hold_after (claim "t" 0) nested claimed) (run nested claimed)
    × ((run nested claimed).released ≡ false)
run-held_example = run-held (claim "t" 0) nested claimed claim_stands refl spared

run-alone_example :
    Holds (hold_after (claim "t" 0) nested claimed) (run nested claimed)
    × (join_exclusive "t" (run nested claimed) ≡ true)
run-alone_example = run-alone "t" 0 nested claimed claim_stands joined spared

abbrev outlived : Ownership
outlived = run stop_during_scope created

outlived_is_complete : outlived.teardown_complete ≡ true
unfolding run happen run_exclusive decline_reason get set begin_shutdown continue_shutdown tear_down
    complete evaluate has
outlived_is_complete = refl

outlived_size : open_size outlived ≤ 2
unfolding run happen run_exclusive decline_reason get set begin_shutdown continue_shutdown tear_down
    complete evaluate has
outlived_size = omega arith

run-ends_example :
    ((run (ends 2 outlived) outlived).released ≡ true)
    × All (λ x. is_end x ≡ true) (ends 2 outlived)
run-ends_example =
    run-ends 2 outlived (run-IsSettled stop_during_scope created created-IsSettled)
      outlived_is_complete outlived_size
