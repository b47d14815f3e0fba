-- ===== src/Lifecycle.antt =====
-- core/lifecycle-ownership.ts: who may let go of the instance lock, and when. A call is cut at its
-- awaits; each part between two awaits runs without interruption and is one function on the state
-- of `Ownership`. What a foreign promise answers, and when, is told by events.
pub mod Events
pub mod Orderly
pub mod Settled
pub mod Released
pub mod Holds
pub mod Held
pub mod Alone
pub mod Drained
mod Tests
use discord_copilot_sdk.Base.{
  ℕ, zero, suc, ◌+◌, ◌-◌, Bool, true, false, ◌&&◌, ◌||◌, not, String, List, [], ◌∷◌, Option, none,
  some, Eq, ◌==◌, or_else, if◌then◌else◌, nat_eq, string_eq, ltb, ◌≡◌, ◌↔◌, arith,
}
use discord_copilot_sdk.Dict.{Dict, get, has, set, delete}

pub data Phase : Type 0 where
  running shutting_down : Phase

-- The keys of obligations; `late_arm n` stands for the text `late-arm:n`, `runtime t` for the text
-- `runtime:t`, and `superseded t n` for `runtime:t#superseded-n`.
pub data Key : Type 0 where
  named : String → Key
  late_arm : ℕ → Key
  runtime : String → Key
  superseded : String → ℕ → Key

abbrev pub key_eqb : Key → Key → Bool
key_eqb (named a) (named b) = a == b
key_eqb (late_arm a) (late_arm b) = a == b
key_eqb (runtime a) (runtime b) = a == b
key_eqb (superseded a m) (superseded b n) = a == b && m == n
key_eqb _ _ = false

pub key_eqb_iff : (a b : Key) → (key_eqb a b ≡ true) ↔ (a ≡ b)
key_eqb_iff (named a) (named b) = ground (arith, string_eq.beq_iff a b)
key_eqb_iff (late_arm a) (late_arm b) = ground arith
key_eqb_iff (runtime a) (runtime b) = ground (arith, string_eq.beq_iff a b)
key_eqb_iff (superseded a m) (superseded b n) = ground (arith, string_eq.beq_iff a b)
key_eqb_iff a b = ground arith

instance abbrev pub key_eq : Eq Key
key_eq = record { beq = key_eqb; beq_iff = key_eqb_iff }

-- A registration of an obligation: its key, and the identity of its entry.
pub record ObligationHandle : Type 0 where
  pub key : Key
  pub entry : ℕ

-- Where `beginShutdown` stands: waiting for the exclusive scopes, before the next obligation of the
-- sweep or waiting for its attempt, or waiting for the armed teardown.
pub data Shutdown : Type 0 where
  not_begun joining tearing_down done : Shutdown
  sweeping : List ObligationHandle → Shutdown
  awaiting : ObligationHandle → List ObligationHandle → Shutdown

-- Entries are named by numbers, which `next_entry` gives. `releases` counts the calls of
-- `lock.release`; `gate` is the handle that a teardown in flight will discharge.
pub record Ownership : Type 0 where
  pub phase : Phase
  pub armed : Option ℕ
  pub exclusive : Dict String (List ℕ)
  pub teardown_claims : Dict String ℕ
  pub obligations : Dict Key ℕ
  pub attempting : List ℕ
  pub teardown_complete : Bool
  pub released : Bool
  pub releases : ℕ
  pub late_arm_seq : ℕ
  pub next_entry : ℕ
  pub shutdown : Shutdown
  pub gate : Option ObligationHandle

abbrev pub created : Ownership
created = record {
  phase = running;
  armed = none;
  exclusive = [];
  teardown_claims = [];
  obligations = [];
  attempting = [];
  teardown_complete = false;
  released = false;
  releases = 0;
  late_arm_seq = 0;
  next_entry = 0;
  shutdown = not_begun;
  gate = none;
}

abbrev pub is_running : Phase → Bool
is_running running = true
is_running shutting_down = false

abbrev pub is_empty {ℓ} : {A : Type ℓ} → List A → Bool
is_empty [] = true
is_empty (x ∷ xs) = false

-- `size === 0` of the three sets that the release depends on.
abbrev pub is_idle : Ownership → Bool
is_idle o = is_empty o.exclusive && (is_empty o.teardown_claims && is_empty o.obligations)

unfoldable pub evaluate : Ownership → Ownership
evaluate o =
    if o.released
    then o
    else if is_running o.phase || not o.teardown_complete
    then o
    else if is_idle o
    then record o { released = true; releases = o.releases + 1 }
    else o

pub data Refusal : Type 0 where
  shutdown_started claimed_by_teardown : Refusal

-- `declineReason`, and `lostReason` of a scope, which differ in their wording only.
unfoldable pub decline_reason : String → Ownership → Option Refusal
decline_reason thread o =
    if not (is_running o.phase)
    then some shutdown_started
    else if has thread o.teardown_claims
    then some claimed_by_teardown
    else none

abbrev pub scopes_of : String → Ownership → List ℕ
scopes_of thread o = or_else (get thread o.exclusive) []

-- The start of `runExclusive`, up to the body; the entry of the scope, unless it is declined.
unfoldable pub run_exclusive : String → Ownership → Option ℕ × Ownership
run_exclusive thread o = elim (decline_reason thread o) [
  | some reason ↦ (none, o)
  | none ↦ (
    some o.next_entry,
    record o {
      exclusive = set thread (o.next_entry ∷ scopes_of thread o) o.exclusive;
      next_entry = o.next_entry + 1;
    },
  )
]

abbrev pub without : ℕ → List ℕ → List ℕ
without e [] = []
without e (x ∷ xs) = if x == e then without e xs else x ∷ without e xs

-- `live?.delete(entry); if (live && live.size === 0) this.exclusive.delete(threadId)`
abbrev pub leave : String → ℕ → Option (List ℕ) → Dict String (List ℕ) → Dict String (List ℕ)
leave thread e none m = m
leave thread e (some live) m =
    if is_empty (without e live) then delete thread m else set thread (without e live) m

-- The `finally` of `runExclusive`.
unfoldable pub settle_exclusive : String → ℕ → Ownership → Ownership
settle_exclusive thread e o =
    evaluate (record o { exclusive = leave thread e (get thread o.exclusive) o.exclusive })

-- The start of `runTeardown`; whether the body runs.
unfoldable pub run_teardown : String → Ownership → Bool × Ownership
run_teardown thread o =
    if is_running o.phase
    then (
      true,
      record o {
        teardown_claims =
            set thread (or_else (get thread o.teardown_claims) 0 + 1) o.teardown_claims;
      },
    )
    else (false, o)

-- The counted release of a claim, with what is left of the count.
abbrev pub unclaim : String → ℕ → Dict String ℕ → Dict String ℕ
unclaim thread remaining m = if ltb 0 remaining then set thread remaining m else delete thread m

-- The `finally` of `runTeardown`.
unfoldable pub settle_teardown : String → Ownership → Ownership
settle_teardown thread o = evaluate (record o {
  teardown_claims = unclaim thread (or_else (get thread o.teardown_claims) 1 - 1) o.teardown_claims;
})

-- The answer of `joinExclusive`, when its wait is over.
abbrev pub join_exclusive : String → Ownership → Bool
join_exclusive thread o = is_empty (scopes_of thread o)

-- The first registration for a key wins.
unfoldable pub retain : Key → Ownership → ObligationHandle × Ownership
retain key o = elim (get key o.obligations) [
  | some entry ↦ (record { key = key; entry = entry }, o)
  | none ↦ (
    record { key = key; entry = o.next_entry },
    record o { obligations = set key o.next_entry o.obligations; next_entry = o.next_entry + 1 },
  )
]

unfoldable pub is_retained : ObligationHandle → Ownership → Bool
is_retained h o = elim (get h.key o.obligations) [ none ↦ false | some e ↦ e == h.entry ]

unfoldable pub discharge : ObligationHandle → Ownership → Ownership
discharge h o =
    if is_retained h o then evaluate (record o { obligations = delete h.key o.obligations }) else o

-- The start of `attemptObligation`: nothing to do for an obligation that is discharged, or that is
-- being attempted.
unfoldable pub begin_attempt : ObligationHandle → Ownership → Ownership
begin_attempt h o =
    if is_retained h o then record o { attempting = h.entry ∷ without h.entry o.attempting } else o

abbrev pub contains : ℕ → List ℕ → Bool
contains e [] = false
contains e (x ∷ xs) = x == e || contains e xs

-- `beginShutdown` waits for the attempt of this entry, or goes on.
abbrev pub resumed : ℕ → Shutdown → Shutdown
resumed e (awaiting h hs) = if h.entry == e then sweeping hs else awaiting h hs
resumed e s = s

abbrev pub end_run : ℕ → Ownership → Ownership
end_run e o = record o { attempting = without e o.attempting; shutdown = resumed e o.shutdown }

-- The end of an attempt that is under way. It is bounded: `false` stands for the answer `false`, for
-- a rejection and for a timeout.
unfoldable pub end_attempt : ObligationHandle → Bool → Ownership → Ownership
end_attempt h ok o =
    if contains h.entry o.attempting then end_run h.entry (if ok then discharge h o else o) else o

unfoldable pub arm : ℕ → Ownership → Bool × Ownership
arm teardown o =
    if is_running o.phase
    then (true, record o { armed = some teardown })
    else let (h, o') =
        retain (late_arm (o.late_arm_seq + 1)) (record o { late_arm_seq = o.late_arm_seq + 1 }) in
      (false, begin_attempt h o')

-- `shutdown`, which is single-flight, up to its first wait.
unfoldable pub begin_shutdown : Ownership → Ownership
begin_shutdown o = elim o.shutdown [
  | not_begun ↦ record o { phase = shutting_down; shutdown = joining }
  | _ ↦ o
]

unfoldable pub complete : Ownership → Ownership
complete o = evaluate (record o { teardown_complete = true; shutdown = done })

abbrev pub armed_teardown : Key
armed_teardown = named "armed-teardown"

-- The armed teardown starts behind its gate.
unfoldable pub tear_down : Option ℕ → Ownership → Ownership
tear_down none o = complete o
tear_down (some teardown) o =
    let (h, o') = retain armed_teardown (record o { armed = none }) in
    record o' { gate = some h; shutdown = tearing_down }

abbrev pub handles : Dict Key ℕ → List ObligationHandle
handles [] = []
handles ((k, e) ∷ m) = record { key = k; entry = e } ∷ handles m

-- The next part of `beginShutdown`. Each of its waits may be over at any time, since it is bounded.
unfoldable pub continue_shutdown : Shutdown → Ownership → Ownership
continue_shutdown joining o = record o { shutdown = sweeping (handles o.obligations) }
continue_shutdown (sweeping (h ∷ hs)) o =
    if is_retained h o
    then record (begin_attempt h o) { shutdown = awaiting h hs }
    else record o { shutdown = sweeping hs }
continue_shutdown (sweeping []) o = tear_down o.armed o
continue_shutdown tearing_down o = complete o
continue_shutdown _ o = o

abbrev pub is_gate : ObligationHandle → Option ObligationHandle → Bool
is_gate h none = false
is_gate h (some g) = g.key == h.key && g.entry == h.entry

-- The armed teardown has settled, in time or late: a success discharges its gate.
unfoldable pub settle_gate : ObligationHandle → Bool → Ownership → Ownership
settle_gate h ok o =
    if is_gate h o.gate
    then if ok then discharge h (record o { gate = none }) else record o { gate = none }
    else o
