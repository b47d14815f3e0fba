-- ===== src/SingleInstance.antt =====
-- core/single-instance.ts: the lock file that lets one process of an instance run. Processes are
-- named by their pids and interleave at every call of the system.
pub mod Alone
pub mod Exclusive
mod Tests
use discord_copilot_sdk.Base.{
  ℕ, zero, suc, Bool, true, false, ◌&&◌, not, List, [], ◌∷◌, Option, none, some, ◌==◌, nat_eq,
  if◌then◌else◌,
}

-- A lock file: who created it, and the pid that `readHolderPid` reads in it, if any.
pub record Lock : Type 0 where
  pub creator : ℕ
  pub content : Option ℕ

-- Where a process is in the code of the lock, with the attempts and the readings that are left.
pub data Stage : Type 0 where
  idle : Stage
  creates : ℕ → Stage
  writes : Stage
  reads : ℕ → ℕ → Stage
  judges : ℕ → ℕ → Stage
  removes : ℕ → Stage
  holds : Stage
  refused : Stage
  checks : Stage
  unlinks : Stage

abbrev pub read_holder_pid : Option Lock → Option ℕ
read_holder_pid none = none
read_holder_pid (some l) = l.content

-- `tryCreateLock` up to the creation of the file; `ok` is false when a call fails otherwise than
-- by the file's being there.
abbrev pub create : ℕ → ℕ → Option Lock → Stage × Option Lock
create p a none = (writes, some (record { creator = p; content = none }))
create p a (some l) = (reads a 4, some l)

-- The write of the pid, which goes to the file that the process created.
abbrev pub write_pid : ℕ → Option Lock → Option Lock
write_pid p none = none
write_pid p (some l) = if l.creator == p then some (record l { content = some p }) else some l

-- One reading of `readHolderPidWithRetry`.
abbrev pub read_again : ℕ → ℕ → Option ℕ → Stage
read_again a r none = reads a r
read_again a r (some h) = judges a h

-- The check of `releaseIfOwner`.
abbrev pub check_owner : ℕ → Option ℕ → Stage
check_owner p none = idle
check_owner p (some h) = if h == p then unlinks else idle

-- The next call of the system of a process, with whether the call works.
unfoldable pub next : ℕ → (ℕ → Bool) → Bool → Stage → Option Lock → Stage × Option Lock
next p alive ok idle f = (idle, f)
next p alive ok (creates zero) f = (refused, f)
next p alive ok (creates (suc a)) f = if ok then create p a f else (refused, f)
next p alive ok writes f = if ok then (holds, write_pid p f) else (refused, f)
next p alive ok (reads a zero) f = (refused, f)
next p alive ok (reads a (suc r)) f = (read_again a r (if ok then read_holder_pid f else none), f)
next p alive ok (judges a h) f = (if not (h == p) && alive h then refused else removes a, f)
next p alive ok (removes a) f = (creates a, if ok then none else f)
next p alive ok holds f = (holds, f)
next p alive ok refused f = (refused, f)
next p alive ok checks f = (check_owner p (if ok then read_holder_pid f else none), f)
next p alive ok unlinks f = (idle, if ok then none else f)

abbrev pub put {ℓ} : {A : Type ℓ} → ℕ → A → (ℕ → A) → ℕ → A
put p x f q = if p == q then x else f q

pub record World : Type 0 where
  pub file : Option Lock
  pub stage : ℕ → Stage
  pub alive : ℕ → Bool

pub data Event : Type 0 where
  starts : ℕ → Event
  acts : ℕ → Bool → Event
  releases : ℕ → Event
  dies : ℕ → Event

-- `acquireSingleInstanceLock` is called by a process that is not in the code of the lock.
abbrev pub called : Stage → Stage
called idle = creates 2
called refused = creates 2
called s = s

-- `release` is called.
abbrev pub let_go : Stage → Stage
let_go holds = checks
let_go s = s

abbrev pub moved : ℕ → Stage × Option Lock → World → World
moved p (s, f) w = record w { file = f; stage = put p s w.stage }

unfoldable pub happen : Event → World → World
happen (starts p) w = record w {
  stage = put p (called (w.stage p)) w.stage;
  alive = put p true w.alive;
}
happen (acts p ok) w = moved p (next p w.alive ok (w.stage p) w.file) w
happen (releases p) w = record w { stage = put p (let_go (w.stage p)) w.stage }
happen (dies p) w = record w { stage = put p idle w.stage; alive = put p false w.alive }

unfoldable pub run : List Event → World → World
run [] w = w
run (e ∷ es) w = run es (happen e w)
