-- ===== src/SingleInstance/Exclusive.antt =====
-- A process that holds the lock keeps it against all that ask for it later.
use discord_copilot_sdk.Base.{
  ℕ, zero, suc, Bool, true, false, List, [], ◌∷◌, Option, none, some, ◌==◌, nat_eq, ◌≡◌, ◌≢◌, refl,
  arith, All, ap, ◌∙◌, Bool-cases, inl, inr, sym, beq_refl,
}
use mathlib.Core.Bool.{false≢true}
use mathlib.Core.Path.{subst}
use discord_copilot_sdk.SingleInstance.{
  Lock, Stage, idle, creates, writes, reads, judges, removes, holds, refused, checks, unlinks,
  read_holder_pid, next, World, Event, starts, acts, releases, dies, put, called, let_go, moved,
  check_owner, happen, run,
}

-- A process has not seen another holder than `p`, or has given up, or is about to check whether
-- it is the owner.
abbrev pub is_late : ℕ → Stage → Bool
is_late p idle = true
is_late p (creates a) = true
is_late p (reads a r) = true
is_late p (judges a h) = h == p
is_late p refused = true
is_late p checks = true
is_late p _ = false

pub record IsKept (p : ℕ) (w : World) : Type 0 where
  pub holder : read_holder_pid w.file ≡ some p
  pub held : w.stage p ≡ holds
  pub lives : w.alive p ≡ true
  pub late : (q : ℕ) → (p == q) ≡ false → is_late p (w.stage q) ≡ true

-- Anything but the holder's release and death.
abbrev pub IsOther : ℕ → Event → Type 0
IsOther p (releases q) = (p == q) ≡ false
IsOther p (dies q) = (p == q) ≡ false
IsOther p _ = Unit

check_owner-late : (p q : ℕ) → (p == q) ≡ false → is_late p (check_owner q (some p)) ≡ true
check_owner-late p q other = rw other refl

-- What another process does that is late.
next-late :
    (p q : ℕ) (alive : ℕ → Bool) (ok : Bool) (s : Stage) (f : Option Lock)
    → (p == q) ≡ false
    → alive p ≡ true
    → read_holder_pid f ≡ some p
    → is_late p s ≡ true
    → (is_late p (next q alive ok s f).0 ≡ true) × ((next q alive ok s f).1 ≡ f)
unfolding next
next-late p q alive ok idle f other lives held late = (refl, refl)
next-late p q alive ok (creates zero) f other lives held late = (refl, refl)
next-late p q alive ok (creates (suc a)) none other lives held late = cc
next-late p q alive true (creates (suc a)) (some l) other lives held late = (refl, refl)
next-late p q alive false (creates (suc a)) (some l) other lives held late = (refl, refl)
next-late p q alive ok (reads a zero) f other lives held late = (refl, refl)
next-late p q alive false (reads a (suc r)) f other lives held late = (refl, refl)
next-late p q alive true (reads a (suc r)) f other lives held late = (rw held (beq_refl p), refl)
next-late p q alive ok (judges a h) f other lives held late = (ground arith, refl)
next-late p q alive ok refused f other lives held late = (refl, refl)
next-late p q alive false checks f other lives held late = (refl, refl)
next-late p q alive true checks f other lives held late =
    (rw held (check_owner-late p q other), refl)
next-late p q alive ok writes f other lives held late = absurd (false≢true late)
next-late p q alive ok (removes a) f other lives held late = absurd (false≢true late)
next-late p q alive ok holds f other lives held late = absurd (false≢true late)
next-late p q alive ok unlinks f other lives held late = absurd (false≢true late)

called-late : (p : ℕ) (s : Stage) → is_late p s ≡ true → is_late p (called s) ≡ true
called-late p s h = ground arith

let_go-late : (p : ℕ) (s : Stage) → is_late p s ≡ true → is_late p (let_go s) ≡ true
let_go-late p s h = ground arith

module _ (p : ℕ) (w : World) (k : IsKept p w) where
  -- Another process is at a late stage.
  put-IsKept :
      (q : ℕ) (s : Stage) (alive : ℕ → Bool)
      → (p == q) ≡ false
      → is_late p s ≡ true
      → alive p ≡ true
      → IsKept p (record w { stage = put q s w.stage; alive = alive })
  put-IsKept q s alive other late lives =
      let apart : (q == p) ≡ false = ground arith in
      record {
        holder = k.holder;
        held = rw apart k.held;
        lives = lives;
        late = λ r h. elim (Bool-cases (q == r)) [
          | inl same ↦ rw same late
          | inr differs ↦ rw differs (k.late r h)
        ];
      }

  -- The holder stays where it is.
  put_own-IsKept :
      (alive : ℕ → Bool)
      → alive p ≡ true
      → IsKept p (record w { stage = put p holds w.stage; alive = alive })
  put_own-IsKept alive lives = record {
    holder = k.holder;
    held = rw (beq_refl p) refl;
    lives = lives;
    late = λ r h. rw h (k.late r h);
  }

  -- A step of another process that leaves the file as it is.
  moved-IsKept :
      (q : ℕ) (n : Stage × Option Lock)
      → (p == q) ≡ false
      → (is_late p n.0 ≡ true) × (n.1 ≡ w.file)
      → IsKept p (moved q n w)
  moved-IsKept q (s, f) other (late, same) =
      subst (λ g. IsKept p (record w { file = g; stage = put q s w.stage })) (sym same)
        (put-IsKept q s w.alive other late k.lives)

  -- The holder's own events, but for its release and death.
  starts_own-IsKept : IsKept p (happen (starts p) w)
  unfolding happen
  starts_own-IsKept =
      subst
        (λ s. IsKept p (record w { stage = put p (called s) w.stage; alive = put p true w.alive }))
        (sym k.held) (put_own-IsKept (put p true w.alive) (rw (beq_refl p) refl))

  acts_own-IsKept : (ok : Bool) → IsKept p (happen (acts p ok) w)
  unfolding happen next
  acts_own-IsKept ok =
      subst (λ s. IsKept p (moved p (next p w.alive ok s w.file) w)) (sym k.held)
        (put_own-IsKept w.alive k.lives)

  put-apart : (q : ℕ) (b : Bool) → (p == q) ≡ false → put q b w.alive p ≡ true
  put-apart q b other = let apart : (q == p) ≡ false = ground arith in rw apart k.lives

happen-IsKept : (p : ℕ) (e : Event) (w : World) → IsOther p e → IsKept p w → IsKept p (happen e w)
unfolding happen
happen-IsKept p (starts q) w other k = elim (Bool-cases (p == q)) [
  | inl same ↦
      subst (λ r. IsKept p (happen (starts r) w)) ((nat_eq.beq_iff p q).0 same)
        (starts_own-IsKept p w k)
  | inr apart ↦
      put-IsKept p w k q (called (w.stage q)) (put q true w.alive) apart
        (called-late p (w.stage q) (k.late q apart)) (put-apart p w k q true apart)
]
happen-IsKept p (acts q ok) w other k = elim (Bool-cases (p == q)) [
  | inl same ↦
      subst (λ r. IsKept p (happen (acts r ok) w)) ((nat_eq.beq_iff p q).0 same)
        (acts_own-IsKept p w k ok)
  | inr apart ↦
      moved-IsKept p w k q (next q w.alive ok (w.stage q) w.file) apart
        (next-late p q w.alive ok (w.stage q) w.file apart k.lives k.holder (k.late q apart))
]
happen-IsKept p (releases q) w other k =
    put-IsKept p w k q (let_go (w.stage q)) w.alive other
      (let_go-late p (w.stage q) (k.late q other)) k.lives
happen-IsKept p (dies q) w other k =
    put-IsKept p w k q idle (put q false w.alive) other refl (put-apart p w k q false other)

run-IsKept :
    (p : ℕ) (es : List Event) (w : World) → All (IsOther p) es → IsKept p w → IsKept p (run es w)
unfolding run
run-IsKept p [] w h k = k
run-IsKept p (e ∷ es) w (other, h) k = run-IsKept p es (happen e w) h (happen-IsKept p e w other k)

-- A live process that holds the lock keeps it, its pid stays in the file, and no other process
-- holds the lock, whatever the processes do that ask for it from then on, check whether they own
-- it, fail or die, in any order, until the holder releases it or dies. None of the others has, at
-- the start, created the file, judged another holder, or begun to remove the file.
pub run-holds :
    (p q : ℕ) (es : List Event) (w : World)
    → (p == q) ≡ false
    → All (IsOther p) es
    → IsKept p w
    → (read_holder_pid (run es w).file ≡ some p)
      × (((run es w).stage p ≡ holds) × ((run es w).stage q ≢ holds))
run-holds p q es w other h k =
    let kept = run-IsKept p es w h k in
    (kept.holder, (kept.held, λ at. false≢true (sym (ap (is_late p) at) ∙ kept.late q other)))
