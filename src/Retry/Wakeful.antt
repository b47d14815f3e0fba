-- ===== src/Retry/Wakeful.antt =====
-- The loop never falls silent while it is armed, and never has two wake-ups.
use discord_copilot_sdk.Base.{
  ℕ, zero, suc, ◌+◌, ◌≤◌, Bool, true, false, ◌||◌, not, List, [], ◌∷◌, Option, none, some, ◌==◌,
  nat_eq, if◌then◌else◌, is_some, ◌≡◌, refl, arith, Bool-cases, inl, inr, beq_refl, ap, ◌∙◌, sym,
}
use mathlib.Core.Path.{subst}
use mathlib.Core.Bool.{false≢true}
use discord_copilot_sdk.Retry.{
  Loop, new_loop, delay_of, clear_at, clear_access_retry_timer, set_timer, schedule_access_retry,
  arm, disarm, Scan, not_ready, nothing, candidates, tick_at, started, run_at,
  run_access_retry_tick, nudge, scored, settle_at, settle, fire, unscheduled, is_scheduled, Event,
  arms, disarms, stops, nudges, fires, settles, happen, run,
}

abbrev pub is_delay : ℕ → Bool
is_delay d = d == 15000 || (d == 30000 || (d == 60000 || (d == 120000 || d == 300000)))

-- The scheduler has the one timer that the loop knows of, with a wait of the five, and no other.
abbrev pub Pends : Option ℕ → List (ℕ × ℕ) → Type 0
Pends none ts = ts ≡ []
Pends (some n) ts = (ms : ℕ) × (ts ≡ (n, ms) ∷ []) × (is_delay ms ≡ true)

pub record IsWakeful (r : Loop) : Type 0 where
  pub pending : Pends r.timer r.scheduled
  pub bounded : r.backoff ≤ 4
  pub awake : r.armed ≡ true → r.shutting_down ≡ false → (is_some r.timer || is_some r.tick) ≡ true
  pub asleep : r.armed ≡ false → r.timer ≡ none

pub new_loop-IsWakeful : IsWakeful new_loop
new_loop-IsWakeful = record {
  pending = refl;
  bounded = omega arith;
  awake = λ h k. cc;
  asleep = λ h. refl;
}

pub delay_of-is_delay : (idle : Bool) (backoff : ℕ) → is_delay (delay_of idle backoff) ≡ true
delay_of-is_delay true backoff = refl
delay_of-is_delay false zero = refl
delay_of-is_delay false (suc zero) = refl
delay_of-is_delay false (suc (suc zero)) = refl
delay_of-is_delay false (suc (suc (suc zero))) = refl
delay_of-is_delay false (suc (suc (suc (suc zero)))) = refl
delay_of-is_delay false (suc (suc (suc (suc (suc n))))) = refl

pub clear_at-lem :
    (o : Option ℕ) (r : Loop)
    → r.timer ≡ o
    → Pends o r.scheduled
    → clear_at o r ≡ record r { timer = none; scheduled = [] }
clear_at-lem none r e p = ground (arith, e, p)
clear_at-lem (some n) r e (ms, p, d) =
    let gone : unscheduled n r.scheduled ≡ [] = ap (unscheduled n) p ∙ rw (beq_refl n) refl in
    ap (λ ts. record r { timer = none; scheduled = ts }) gone

-- The timers after a call of `schedule_access_retry`: one, or none.
abbrev pub timed : Loop → Loop
timed r =
    if not r.armed || r.shutting_down then record r { timer = none; scheduled = [] } else record r {
      timer = some r.next_timer;
      scheduled = (r.next_timer, delay_of r.idle r.backoff) ∷ [];
      next_timer = r.next_timer + 1;
    }

pub schedule_access_retry-timed :
    (r : Loop) → Pends r.timer r.scheduled → schedule_access_retry r ≡ timed r
unfolding schedule_access_retry clear_access_retry_timer
schedule_access_retry-timed r p =
    ap (λ c. if not c.armed || c.shutting_down then c else set_timer c)
      (clear_at-lem r.timer r refl p)

timed-IsWakeful : (r : Loop) → r.backoff ≤ 4 → IsWakeful (timed r)
timed-IsWakeful r b = elim (Bool-cases (not r.armed || r.shutting_down)) [
  | inl quiet ↦
      rw quiet
        (record { pending = refl; bounded = b; awake = λ h k. ground arith; asleep = λ h. refl })
  | inr live ↦ rw live (record {
    pending = (delay_of r.idle r.backoff, refl, delay_of-is_delay r.idle r.backoff);
    bounded = b;
    awake = λ h k. refl;
    asleep = λ h. ground arith;
  })
]

schedule_access_retry-IsWakeful :
    (r : Loop) → Pends r.timer r.scheduled → r.backoff ≤ 4 → IsWakeful (schedule_access_retry r)
schedule_access_retry-IsWakeful r p b =
    subst IsWakeful (sym (schedule_access_retry-timed r p)) (timed-IsWakeful r b)

if_IsWakeful : (c : Bool) {x y : Loop} → IsWakeful x → IsWakeful y → IsWakeful (if c then x else y)
if_IsWakeful true v w = v
if_IsWakeful false v w = w

or_some : (b : Bool) (t : Bool) → (b || is_some (some t)) ≡ true
or_some true t = refl
or_some false t = refl

-- What is well formed while a tick starts.
module _ (r : Loop) (p : Pends r.timer r.scheduled) (b : r.backoff ≤ 4)
    (a : r.armed ≡ false → r.timer ≡ none) where
  tick_at-IsWakeful : (scan : Scan) → IsWakeful (tick_at scan r)
  tick_at-IsWakeful not_ready = record {
    pending = p;
    bounded = b;
    awake = λ h k. or_some (is_some r.timer) false;
    asleep = a;
  }
  tick_at-IsWakeful nothing = record {
    pending = p;
    bounded = b;
    awake = λ h k. or_some (is_some r.timer) false;
    asleep = a;
  }
  tick_at-IsWakeful candidates = from_idle r.idle
    where
      from_idle :
          (idle : Bool)
          → IsWakeful (record (if idle then record r { idle = false; backoff = 0 } else r) {
            tick = some true;
          })
      from_idle true = record {
        pending = p;
        bounded = omega arith;
        awake = λ h k. or_some (is_some r.timer) true;
        asleep = a;
      }
      from_idle false = record {
        pending = p;
        bounded = b;
        awake = λ h k. or_some (is_some r.timer) true;
        asleep = a;
      }

  started-IsWakeful : (scan : Scan) → IsWakeful (started scan r)
  started-IsWakeful scan =
      if_IsWakeful r.shutting_down (tick_at-IsWakeful not_ready) (tick_at-IsWakeful scan)

run_at-IsWakeful :
    (o : Option Bool) (scan : Scan) (r : Loop)
    → r.tick ≡ o
    → Pends r.timer r.scheduled
    → r.backoff ≤ 4
    → (r.armed ≡ false → r.timer ≡ none)
    → IsWakeful (run_at o scan r)
run_at-IsWakeful none scan r e p b a = started-IsWakeful r p b a scan
run_at-IsWakeful (some scanning) scan r e p b a = record {
  pending = p;
  bounded = b;
  awake = λ h k. ap (λ o. is_some r.timer || is_some o) e ∙ or_some (is_some r.timer) scanning;
  asleep = a;
}

-- A timer that fires is the one that the loop knows of.
pub fired_lem :
    (n : ℕ) (o : Option ℕ) (ts : List (ℕ × ℕ))
    → Pends o ts
    → is_scheduled n ts ≡ true
    → (o ≡ some n) × (unscheduled n ts ≡ [])
fired_lem n none ts p h = absurd (false≢true (sym (ap (is_scheduled n) p) ∙ h))
fired_lem n (some m) ts (ms, p, d) h =
    let same : m ≡ n = ground (arith, ap (is_scheduled n) p) in
    (ap some same, ap (unscheduled n) p ∙ rw ((nat_eq.beq_iff m n).1 same) refl)

scored-bounded :
    (scanning : Bool) (resumed : Option Bool) (r : Loop)
    → r.backoff ≤ 4
    → (scored scanning resumed r).backoff ≤ 4
scored-bounded true (some true) r b = omega arith
scored-bounded true (some false) r b = ground arith
scored-bounded true none r b = b
scored-bounded false resumed r b = b

pub scored-Pends :
    (scanning : Bool) (resumed : Option Bool) (r : Loop)
    → Pends r.timer r.scheduled
    → Pends (scored scanning resumed r).timer (scored scanning resumed r).scheduled
scored-Pends true (some true) r p = p
scored-Pends true (some false) r p = p
scored-Pends true none r p = p
scored-Pends false resumed r p = p

settle_at-IsWakeful :
    (o resumed : Option Bool) (r : Loop) → IsWakeful r → IsWakeful (settle_at o resumed r)
settle_at-IsWakeful none resumed r v = v
settle_at-IsWakeful (some scanning) resumed r v =
    schedule_access_retry-IsWakeful (record (scored scanning resumed r) { tick = none })
      (scored-Pends scanning resumed r v.pending) (scored-bounded scanning resumed r v.bounded)

pub happen-IsWakeful : (e : Event) (r : Loop) → IsWakeful r → IsWakeful (happen e r)
unfolding happen arm disarm nudge run_access_retry_tick fire settle clear_access_retry_timer
happen-IsWakeful arms r v =
    schedule_access_retry-IsWakeful (record r { armed = true; backoff = 0; idle = false }) v.pending
      (omega arith)
happen-IsWakeful disarms r v =
    subst IsWakeful (sym (clear_at-lem r.timer (record r { armed = false }) refl v.pending))
      (record { pending = refl; bounded = v.bounded; awake = λ h k. cc; asleep = λ h. refl })
happen-IsWakeful stops r v = record {
  pending = v.pending;
  bounded = v.bounded;
  awake = λ h k. cc;
  asleep = v.asleep;
}
happen-IsWakeful (nudges scan) r v =
    if_IsWakeful r.armed (run_at-IsWakeful r.tick scan r refl v.pending v.bounded v.asleep) v
happen-IsWakeful (fires n scan) r v = elim (Bool-cases (is_scheduled n r.scheduled)) [
  | inr other ↦ rw other v
  | inl set ↦ rw set (
      run_at-IsWakeful r.tick scan
        (record r { timer = none; scheduled = unscheduled n r.scheduled }) refl
        (fired_lem n r.timer r.scheduled v.pending set).1 v.bounded (λ h. refl))
]
happen-IsWakeful (settles resumed) r v = settle_at-IsWakeful r.tick resumed r v

-- Whatever happens, and in whatever order: the scheduler has at most one timer, the one that the loop
-- knows of, with one of the five waits; while the loop is armed and the process is not shutting
-- down, that timer is set or a tick is in flight, so that the loop always wakes up again; a loop
-- that is not armed has no timer; and the index of the wait stays in the table.
pub run-IsWakeful : (es : List Event) (r : Loop) → IsWakeful r → IsWakeful (run es r)
unfolding run
run-IsWakeful [] r v = v
run-IsWakeful (e ∷ es) r v = run-IsWakeful es (happen e r) (happen-IsWakeful e r v)
