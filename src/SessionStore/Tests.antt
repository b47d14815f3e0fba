-- ===== src/SessionStore/Tests.antt =====
-- Runs of the store on concrete data, and the theorems at concrete inputs.
use discord_copilot_sdk.Base.{
  IsSafe, ℕ, zero, suc, pos, true, false, none, some, ◌≡◌, refl, ◌≤ℤ◌, ◌<ℤ◌, ◌≢◌, arith, inr, max_ℤ,
  int_eq, string_eq,
}
use mathlib.Core.Bool.{false≢true}
use discord_copilot_sdk.Dict.{get, set}
use discord_copilot_sdk.Dict.Entries.{Entries}
use discord_copilot_sdk.Json.{missing}
use discord_copilot_sdk.Disk.{
  Io, RenameOutcome, renamed, failed, written, rename_with_retry, rename_from, is_transient,
}
use discord_copilot_sdk.SessionStore.Record.{
  SessionBinding, local, stale_rebind_key, is_file_delivery_bytes, to_record, creating,
}
use discord_copilot_sdk.SessionStore.State.{World, load, open_store, mutate}
use discord_copilot_sdk.SessionStore.Ops.{
  next_generation, reserve, reserve_file_delivery_bytes, update_record, is_current,
  can_reserve_bytes,
}
use discord_copilot_sdk.SessionStore.Commands.{
  perform, step, Reach, here, call, reserves, commits, removes, clears, removes_if_current,
}
use discord_copilot_sdk.SessionStore.Invariant.{canonical_store}
use discord_copilot_sdk.SessionStore.Restart.{restart-Reach, open_store-IsRestartable}
use discord_copilot_sdk.SessionStore.Preserved.{reserve-IsRestartable}
use discord_copilot_sdk.SessionStore.Generations.{reserve-next_generation, next_generation-fresh}
use discord_copilot_sdk.SessionStore.Quota.{reserve_file_delivery_bytes_exclusive}
use discord_copilot_sdk.SessionStore.Durable.{perform-false}
use discord_copilot_sdk.SessionStore.Fences.{perform-fenced}

-- A rename that is busy twice and then succeeds.
abbrev busy_twice : ℕ → RenameOutcome
busy_twice zero = failed "EBUSY"
busy_twice (suc zero) = failed "EPERM"
busy_twice (suc (suc i)) = renamed

abbrev io : Io
io = record { now = pos 100; mkdir_ok = true; temp_ok = true; rename = busy_twice }

-- A file system on which the target cannot be replaced.
abbrev io_lost : Io
io_lost = record io { rename = λ i. failed "EROFS" }

abbrev binding : SessionBinding
binding = record {
  thread_id = "t1";
  session_id = "s1";
  generation = pos 4;
  repo_path = "/repo";
  guild_id = "g";
  parent_channel_id = "c";
  work_dir = "/repo";
  dev_mode = local;
  file_delivery_bytes = none;
  branch = none;
}

abbrev start : World
start = open_store missing

-- The store after `reserve`.
abbrev w1 : World
w1 = (reserve io binding start).1

natural : pos 0 ≤ℤ (load missing).high_water
unfolding load
natural = omega arith

reserved_first : (reserve io binding start).0 ≡ true
unfolding reserve mutate is_file_delivery_bytes written rename_with_retry rename_from is_transient
reserved_first = refl

lost_write : (perform io_lost (reserves binding) start).0 ≡ false
unfolding perform reserve mutate is_file_delivery_bytes written rename_with_retry rename_from
    is_transient
lost_write = refl

-- A history with a commit and a removal whose write is lost.
history :
    Reach start
      (step io_lost (removes "t1") (step io (commits "t1") (step io (reserves binding) start)))
history =
    call (call (call here io (reserves binding) tt) io (commits "t1") tt) io_lost (removes "t1") tt

restart-Reach_example :
    load
      (step io_lost (removes "t1") (step io (commits "t1") (step io (reserves binding) start))).disk
    ≡ canonical_store
        (step io_lost
          (removes "t1")
          (step io (commits "t1") (step io (reserves binding) start))).store
restart-Reach_example = restart-Reach missing _ natural history

reserve-next_generation_example : pos 4 <ℤ next_generation (step io clears w1).store
reserve-next_generation_example =
    reserve-next_generation io binding start (step io clears w1) (omega arith) reserved_first
      (call here io clears tt)

-- A store that holds the record of the fourth generation.
w1-IsSafe : IsSafe w1.store.high_water
unfolding reserve mutate is_file_delivery_bytes written rename_with_retry rename_from is_transient
    max_ℤ load
w1-IsSafe = omega arith

-- The record is removed before the next number is asked for.
next_generation-fresh_example :
    Entries (λ t r. r.generation <ℤ next_generation (step io clears w1).store) w1.store.sessions
    × Entries (λ k r. r.generation <ℤ next_generation (step io clears w1).store) w1.store.stale
next_generation-fresh_example =
    next_generation-fresh w1 (step io clears w1)
      (reserve-IsRestartable io start (open_store-IsRestartable missing natural) binding) w1-IsSafe
      (call here io clears tt)

won : (reserve_file_delivery_bytes io "t1" "s1" (pos 4) (pos 0) (pos 10) w1).0 ≡ true
unfolding reserve_file_delivery_bytes update_record is_current can_reserve_bytes reserve mutate get
    set to_record is_file_delivery_bytes max_ℤ written rename_with_retry rename_from is_transient
    load
won = refl

reserve_file_delivery_bytes_exclusive_example :
    (reserve_file_delivery_bytes io "t1" "s1"
      (pos 4)
      (pos 0)
      (pos 7)
      (reserve_file_delivery_bytes io "t1" "s1" (pos 4) (pos 0) (pos 10) w1).1).0
    ≡ false
reserve_file_delivery_bytes_exclusive_example =
    reserve_file_delivery_bytes_exclusive io "t1" "s1" (pos 4) (pos 0) (pos 10) w1 io "s1" (pos 4)
      (pos 7) won

perform-false_example : (perform io_lost (reserves binding) start).1 ≡ start
perform-false_example = perform-false io_lost (reserves binding) start lost_write

found_other :
    get "t1" w1.store.sessions ≡ some (record (to_record (pos 100) binding) { state = creating })
unfolding reserve mutate get set to_record is_file_delivery_bytes written rename_with_retry
    rename_from is_transient load
found_other = refl

later : pos 4 ≢ pos 3
later h = false≢true ((int_eq.beq_iff (pos 4) (pos 3)).1 h)

-- The record of a later generation is not removed for an earlier one.
perform-fenced_example : perform io (removes_if_current "t1" "s1" (pos 3)) w1 ≡ (false, w1)
unfolding to_record
perform-fenced_example =
    perform-fenced io w1 (removes_if_current "t1" "s1" (pos 3)) (stale_rebind_key "t1" "s1" (pos 3))
      refl (record (to_record (pos 100) binding) { state = creating }, found_other, inr later)
