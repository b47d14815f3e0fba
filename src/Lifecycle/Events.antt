-- ===== src/Lifecycle/Events.antt =====
-- What happens to an ownership, in any order: calls, ends of bodies, and answers of foreign promises.
use discord_copilot_sdk.Base.{ℕ, Bool, String, List, [], ◌∷◌}
use discord_copilot_sdk.Lifecycle.{
  Key, ObligationHandle, Ownership, run_exclusive, settle_exclusive, run_teardown, settle_teardown,
  retain, discharge, begin_attempt, end_attempt, arm, begin_shutdown, continue_shutdown,
  settle_gate,
}

pub data Event : Type 0 where
  arms : ℕ → Event
  enters : String → Event
  leaves : String → ℕ → Event
  claims : String → Event
  unclaims : String → Event
  retains : Key → Event
  discharges : ObligationHandle → Event
  attempts : ObligationHandle → Event
  ends_attempt : ObligationHandle → Bool → Event
  shuts_down : Event
  goes_on : Event
  settles_gate : ObligationHandle → Bool → Event

unfoldable pub happen : Event → Ownership → Ownership
happen (arms teardown) o = (arm teardown o).1
happen (enters thread) o = (run_exclusive thread o).1
happen (leaves thread e) o = settle_exclusive thread e o
happen (claims thread) o = (run_teardown thread o).1
happen (unclaims thread) o = settle_teardown thread o
happen (retains key) o = (retain key o).1
happen (discharges h) o = discharge h o
happen (attempts h) o = begin_attempt h o
happen (ends_attempt h ok) o = end_attempt h ok o
happen shuts_down o = begin_shutdown o
happen goes_on o = continue_shutdown o.shutdown o
happen (settles_gate h ok) o = settle_gate h ok o

unfoldable pub run : List Event → Ownership → Ownership
run [] o = o
run (x ∷ xs) o = run xs (happen x o)
