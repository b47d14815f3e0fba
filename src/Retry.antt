-- ===== src/Retry.antt =====
-- core/reconciliation-engine.ts: the loop that wakes up to resume what had no access. A tick in
-- flight has a part up to its first await, and an end.
pub mod Wakeful
pub mod Refines
mod Tests
use discord_copilot_sdk.Base.{
  ℕ, zero, suc, ◌+◌, Bool, true, false, ◌&&◌, ◌||◌, not, List, [], ◌∷◌, Option, none, some, or_else,
  ◌==◌, nat_eq, leb, if◌then◌else◌,
}

abbrev pub access_retry_delays_ms : List ℕ
access_retry_delays_ms = 15000 ∷ 30000 ∷ 60000 ∷ 120000 ∷ 300000 ∷ []

-- `scheduled` is what the scheduler has: the timers that are set, each with its wait.
pub record Loop : Type 0 where
  pub armed : Bool
  pub idle : Bool
  pub backoff : ℕ
  pub timer : Option ℕ
  pub tick : Option Bool
  pub next_timer : ℕ
  pub scheduled : List (ℕ × ℕ)
  pub shutting_down : Bool

abbrev pub new_loop : Loop
new_loop = record {
  armed = false;
  idle = false;
  backoff = 0;
  timer = none;
  tick = none;
  next_timer = 0;
  scheduled = [];
  shutting_down = false;
}

-- `ACCESS_RETRY_DELAYS_MS[i]`
abbrev pub at_index : ℕ → List ℕ → Option ℕ
at_index i [] = none
at_index zero (d ∷ ds) = some d
at_index (suc i) (d ∷ ds) = at_index i ds

abbrev pub delay_of : Bool → ℕ → ℕ
delay_of true backoff = or_else (at_index 4 access_retry_delays_ms) 15000
delay_of false backoff = or_else (at_index backoff access_retry_delays_ms) 15000

abbrev pub unscheduled : ℕ → List (ℕ × ℕ) → List (ℕ × ℕ)
unscheduled n [] = []
unscheduled n ((m, ms) ∷ ts) = if m == n then ts else (m, ms) ∷ unscheduled n ts

abbrev pub is_scheduled : ℕ → List (ℕ × ℕ) → Bool
is_scheduled n [] = false
is_scheduled n ((m, ms) ∷ ts) = m == n || is_scheduled n ts

abbrev pub clear_at : Option ℕ → Loop → Loop
clear_at none r = r
clear_at (some n) r = record r { timer = none; scheduled = unscheduled n r.scheduled }

unfoldable pub clear_access_retry_timer : Loop → Loop
clear_access_retry_timer r = clear_at r.timer r

abbrev pub set_timer : Loop → Loop
set_timer r = record r {
  timer = some r.next_timer;
  scheduled = (r.next_timer, delay_of r.idle r.backoff) ∷ r.scheduled;
  next_timer = r.next_timer + 1;
}

unfoldable pub schedule_access_retry : Loop → Loop
schedule_access_retry r =
    let c = clear_access_retry_timer r in if not c.armed || c.shutting_down then c else set_timer c

unfoldable pub arm : Loop → Loop
arm r = schedule_access_retry (record r { armed = true; backoff = 0; idle = false })

unfoldable pub disarm : Loop → Loop
disarm r = clear_access_retry_timer (record r { armed = false })

-- What a tick finds: the phase is not ready, no candidate, or some.
pub data Scan : Type 0 where
  not_ready nothing candidates : Scan

abbrev pub no_longer_idle : Loop → Loop
no_longer_idle r = if r.idle then record r { idle = false; backoff = 0 } else r

-- A tick up to its first await; whether it goes on to the candidates.
abbrev pub tick_at : Scan → Loop → Loop
tick_at not_ready r = record r { tick = some false }
tick_at nothing r = record r { idle = true; tick = some false }
tick_at candidates r = record (no_longer_idle r) { tick = some true }

abbrev pub started : Scan → Loop → Loop
started scan r = if r.shutting_down then tick_at not_ready r else tick_at scan r

abbrev pub run_at : Option Bool → Scan → Loop → Loop
run_at none scan r = started scan r
run_at (some scanning) scan r = r

unfoldable pub run_access_retry_tick : Scan → Loop → Loop
run_access_retry_tick scan r = run_at r.tick scan r

unfoldable pub nudge : Scan → Loop → Loop
nudge scan r = if r.armed then run_access_retry_tick scan r else r

-- The end of a tick: whether it resumed a session, or `none` where it returned early or threw.
abbrev pub scored : Bool → Option Bool → Loop → Loop
scored true (some true) r = record r { backoff = 0 }
scored true (some false) r = record r {
  backoff = if leb (r.backoff + 1) 4 then r.backoff + 1 else 4;
}
scored _ _ r = r

abbrev pub settle_at : Option Bool → Option Bool → Loop → Loop
settle_at none resumed r = r
settle_at (some scanning) resumed r =
    schedule_access_retry (record (scored scanning resumed r) { tick = none })

unfoldable pub settle : Option Bool → Loop → Loop
settle resumed r = settle_at r.tick resumed r

-- A timer that is set fires.
unfoldable pub fire : ℕ → Scan → Loop → Loop
fire n scan r =
    if is_scheduled n r.scheduled
    then run_access_retry_tick scan
        (record r { timer = none; scheduled = unscheduled n r.scheduled })
    else r

pub data Event : Type 0 where
  arms disarms stops : Event
  nudges : Scan → Event
  fires : ℕ → Scan → Event
  settles : Option Bool → Event

unfoldable pub happen : Event → Loop → Loop
happen arms r = arm r
happen disarms r = disarm r
happen stops r = record r { shutting_down = true }
happen (nudges scan) r = nudge scan r
happen (fires n scan) r = fire n scan r
happen (settles resumed) r = settle resumed r

unfoldable pub run : List Event → Loop → Loop
run [] r = r
run (e ∷ es) r = run es (happen e r)
