-- ===== src/Retry/Refines.antt =====
-- The abstract view of the loop: whether it is on, works, and sleeps, and for how long.
use discord_copilot_sdk.Base.{
  ℕ, Bool, true, false, ◌||◌, not, List, [], ◌∷◌, Option, none, some, nat_eq, if◌then◌else◌,
  is_some, ◌≡◌, refl, Bool-cases, inl, inr, ap, ◌∙◌, sym,
}
use mathlib.Core.Path.{subst}
use discord_copilot_sdk.Retry.{
  Loop, delay_of, clear_access_retry_timer, arm, disarm, Scan, not_ready, nothing, candidates,
  tick_at, run_at, run_access_retry_tick, nudge, scored, settle_at, settle, fire,
  schedule_access_retry, unscheduled, is_scheduled, Event, arms, disarms, stops, nudges, fires,
  settles, happen, run,
}
use discord_copilot_sdk.Retry.Wakeful.{
  is_delay, Pends, IsWakeful, delay_of-is_delay, clear_at-lem, timed, schedule_access_retry-timed,
  fired_lem, scored-Pends, happen-IsWakeful,
}

-- No timers, no indices, no idling: only what a caller may rely on.
pub record Wake : Type 0 where
  pub on : Bool
  pub down : Bool
  pub working : Bool
  pub sleeps : Option ℕ

-- A rest, for one of the five waits, unless the loop is off or the process goes down.
abbrev pub rested : ℕ → Wake → Wake
rested d w = if not w.on || w.down then record w { sleeps = none } else record w { sleeps = some d }

-- What is done to the machine: a caller turns it on or off, takes it down or pokes it, its rest is
-- over, a timer of the past fires, or the work ends.
pub data Label : Type 0 where
  turned_on turned_off went_down poked woken stale finished : Label

pub data Step : Label → Wake → Wake → Type 0 where
  turn_on :
      {w : Wake} (d : ℕ) → is_delay d ≡ true → Step turned_on w (rested d (record w { on = true }))
  turn_off : {w : Wake} → Step turned_off w (record w { on = false; sleeps = none })
  go_down : {w : Wake} → Step went_down w (record w { down = true })
  poke : {w : Wake} → w.on ≡ true → Step poked w (record w { working = true })
  poke_off : {w : Wake} → w.on ≡ false → Step poked w w
  wake_up :
      {w : Wake} (d : ℕ)
      → w.sleeps ≡ some d
      → Step woken w (record w { sleeps = none; working = true })
  ignore : {w : Wake} → Step stale w w
  finish :
      {w : Wake} (d : ℕ)
      → is_delay d ≡ true
      → w.working ≡ true
      → Step finished w (rested d (record w { working = false }))
  finish_idle : {w : Wake} → w.working ≡ false → Step finished w w

-- One step for each label.
pub data Steps : List Label → Wake → Wake → Type 0 where
  here : {w : Wake} → Steps [] w w
  and_then :
      {l : Label} {ls : List Label} {w u v : Wake} → Step l w u → Steps ls u v → Steps (l ∷ ls) w v

-- What an event is to the machine.
abbrev pub label_of : Event → Loop → Label
label_of arms r = turned_on
label_of disarms r = turned_off
label_of stops r = went_down
label_of (nudges scan) r = poked
label_of (fires n scan) r = if is_scheduled n r.scheduled then woken else stale
label_of (settles resumed) r = finished

abbrev pub labels : List Event → Loop → List Label
labels [] r = []
labels (e ∷ es) r = label_of e r ∷ labels es (happen e r)

abbrev pub wait_of : Option ℕ → List (ℕ × ℕ) → Option ℕ
wait_of (some n) ((m, ms) ∷ ts) = some ms
wait_of _ _ = none

abbrev pub view : Loop → Wake
view r = record {
  on = r.armed;
  down = r.shutting_down;
  working = is_some r.tick;
  sleeps = wait_of r.timer r.scheduled;
}

view_if : (c : Bool) (x y : Loop) → view (if c then x else y) ≡ (if c then view x else view y)
view_if true x y = refl
view_if false x y = refl

-- The view of a rest.
view-timed : (r : Loop) → view (timed r) ≡ rested (delay_of r.idle r.backoff) (view r)
view-timed r = view_if (not r.armed || r.shutting_down) _ _

view-schedule_access_retry :
    (r : Loop)
    → Pends r.timer r.scheduled
    → view (schedule_access_retry r) ≡ rested (delay_of r.idle r.backoff) (view r)
view-schedule_access_retry r p = ap view (schedule_access_retry-timed r p) ∙ view-timed r

-- The view of a tick that starts, or goes on.
view_either :
    (c : Bool) (x y : Loop) (w : Wake) → view x ≡ w → view y ≡ w → view (if c then x else y) ≡ w
view_either true x y w p q = p
view_either false x y w p q = q

view-tick_at : (scan : Scan) (r : Loop) → view (tick_at scan r) ≡ record (view r) { working = true }
view-tick_at not_ready r = refl
view-tick_at nothing r = refl
view-tick_at candidates r = from_idle r.idle
  where
    from_idle :
        (idle : Bool)
        → view (record (if idle then record r { idle = false; backoff = 0 } else r) {
          tick = some true;
        })
          ≡ record (view r) { working = true }
    from_idle true = refl
    from_idle false = refl

view-run_at :
    (o : Option Bool) (scan : Scan) (r : Loop)
    → r.tick ≡ o
    → view (run_at o scan r) ≡ record (view r) { working = true }
view-run_at none scan r e =
    view_either r.shutting_down _ _ _ (view-tick_at not_ready r) (view-tick_at scan r)
view-run_at (some scanning) scan r e = ap (λ o. record (view r) { working = is_some o }) e

view-scored :
    (scanning : Bool) (resumed : Option Bool) (r : Loop)
    → view (record (scored scanning resumed r) { tick = none })
      ≡ record (view r) { working = false }
view-scored true (some true) r = refl
view-scored true (some false) r = refl
view-scored true none r = refl
view-scored false resumed r = refl

-- The wait of a timer that is set.
wait_of_set :
    (o : Option ℕ) (n : ℕ) (ts : List (ℕ × ℕ))
    → o ≡ some n
    → Pends o ts
    → (d : ℕ) × (wait_of o ts ≡ some d)
wait_of_set none n ts e p = cc
wait_of_set (some m) n ts e (ms, p, d) = (ms, ap (wait_of (some m)) p)

settle_at-Step :
    (o resumed : Option Bool) (r : Loop)
    → r.tick ≡ o
    → IsWakeful r
    → Step finished (view r) (view (settle_at o resumed r))
settle_at-Step none resumed r e v = finish_idle (ap is_some e)
settle_at-Step (some scanning) resumed r e v =
    let q = record (scored scanning resumed r) { tick = none } in
    subst (Step finished (view r))
      (sym (
        view-schedule_access_retry q (scored-Pends scanning resumed r v.pending)
        ∙ ap (rested (delay_of q.idle q.backoff)) (view-scored scanning resumed r)))
      (finish (delay_of q.idle q.backoff) (delay_of-is_delay q.idle q.backoff) (ap is_some e))

poke_if :
    (on : Bool) (scan : Scan) (r : Loop)
    → r.armed ≡ on
    → Step poked (view r) (view (if on then run_at r.tick scan r else r))
poke_if true scan r e = subst (Step poked (view r)) (sym (view-run_at r.tick scan r refl)) (poke e)
poke_if false scan r e = poke_off e

happen-Step :
    (e : Event) (r : Loop) → IsWakeful r → Step (label_of e r) (view r) (view (happen e r))
unfolding happen arm disarm nudge run_access_retry_tick fire settle clear_access_retry_timer
happen-Step arms r v =
    subst (Step turned_on (view r))
      (sym (
        view-schedule_access_retry (record r { armed = true; backoff = 0; idle = false })
          v.pending))
      (turn_on (delay_of false 0) (delay_of-is_delay false 0))
happen-Step disarms r v =
    subst (Step turned_off (view r))
      (sym (ap view (clear_at-lem r.timer (record r { armed = false }) refl v.pending))) turn_off
happen-Step stops r v = go_down
happen-Step (nudges scan) r v = poke_if r.armed scan r refl
happen-Step (fires n scan) r v = elim (Bool-cases (is_scheduled n r.scheduled)) [
  | inr other ↦ rw other ignore
  | inl set ↦
      let q = record r { timer = none; scheduled = unscheduled n r.scheduled } in
      let (known, gone) = fired_lem n r.timer r.scheduled v.pending set in
      let (d, sleeping) = wait_of_set r.timer n r.scheduled known v.pending in
      rw set
        (subst (Step woken (view r)) (sym (view-run_at r.tick scan q refl)) (wake_up d sleeping))
]
happen-Step (settles resumed) r v = settle_at-Step r.tick resumed r refl v

-- From a well-formed loop, any events, in any order, are steps of the abstract machine, one for each
-- event, of its kind. The machine knows no timer, no index and no idling: a caller turns it on and
-- off and takes it down; a poke makes it work when it is on, and does nothing when it is off; it
-- wakes up only out of a sleep, and a timer that is not set does nothing; and at the end of a piece
-- of work it rests, for one of the five waits, unless it is off or goes down.
pub run-Steps :
    (es : List Event) (r : Loop) → IsWakeful r → Steps (labels es r) (view r) (view (run es r))
unfolding run
run-Steps [] r v = here
run-Steps (e ∷ es) r v =
    and_then (happen-Step e r v) (run-Steps es (happen e r) (happen-IsWakeful e r v))
