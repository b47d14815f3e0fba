-- ===== src/SingleInstance/Tests.antt =====
-- The theorems on the lock at concrete processes.
use discord_copilot_sdk.Base.{
  ℕ, Bool, true, false, List, [], ◌∷◌, ◌++◌, Option, some, nat_eq, if◌then◌else◌, ◌≡◌, ◌≢◌, refl,
}
use discord_copilot_sdk.SingleInstance.{
  Lock, idle, creates, holds, refused, read_holder_pid, next, put, World, Event, starts, acts,
  releases, dies, happen, run,
}
use discord_copilot_sdk.SingleInstance.Alone.{go_on, is_free, go_on-acquires}
use discord_copilot_sdk.SingleInstance.Exclusive.{IsKept, run-holds}

abbrev nobody : ℕ → Bool
nobody p = false

-- The file of a process 9 that has died.
abbrev stale : Option Lock
stale = some (record { creator = 9; content = some 9 })

go_on-acquires_example : go_on 7 3 nobody (creates 2, stale) ≡ (
    if is_free 3 nobody stale
    then (holds, some (record { creator = 3; content = some 3 }))
    else (refused, stale))
go_on-acquires_example = go_on-acquires 3 nobody stale

abbrev after_crash : World
after_crash = record { file = stale; stage = λ p. idle; alive = nobody }

-- The process 1 has the lock.
abbrev owned : World
owned = record {
  file = some (record { creator = 1; content = some 1 });
  stage = put 1 holds (λ p. idle);
  alive = λ p. true;
}

owned-IsKept : IsKept 1 owned
owned-IsKept = record { holder = refl; held = refl; lives = refl; late = λ q h. rw h refl }

abbrev newcomer : List Event
newcomer =
    starts 2 ∷ acts 2 true ∷ acts 2 false ∷ acts 2 true ∷ acts 2 true ∷ releases 2 ∷ dies 2 ∷ []

run-holds_example :
    (read_holder_pid (run newcomer owned).file ≡ some 1)
    × (((run newcomer owned).stage 1 ≡ holds) × ((run newcomer owned).stage 2 ≢ holds))
run-holds_example =
    run-holds 1 2 newcomer owned refl (tt, (tt, (tt, (tt, (tt, (refl, (refl, tt))))))) owned-IsKept

abbrev step_twice : ℕ → List Event
step_twice p = acts p true ∷ acts p true ∷ []

-- Both processes read the pid of the dead holder; the first takes the lock, and the second then
-- removes the lock of the first.
abbrev race : List Event
race =
    starts 1 ∷ starts 2 ∷ step_twice 1
    ++ step_twice 2
    ++ acts 1 true ∷ acts 2 true ∷ acts 1 true ∷ step_twice 1
    ++ acts 2 true ∷ step_twice 2

both_hold : ((run race after_crash).stage 1 ≡ holds) × ((run race after_crash).stage 2 ≡ holds)
unfolding run happen next
both_hold = (refl, refl)
