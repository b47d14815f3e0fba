-- ===== src/Broker/Once.antt =====
-- Every prompt is resolved exactly once, whichever of a decision, a timeout and an abort is first.
use discord_copilot_sdk.Base.{
  ℕ, ◌+◌, Bool, true, false, String, List, [], ◌∷◌, Option, some, ◌≡◌, refl, ◌∙◌, arith, ◌==◌, ◌&&◌,
  not, string_eq, if◌then◌else◌, Bool-cases, Option-cases, inl, inr, beq_sym, beq_refl, All, ◌≢◌,
  ◌||◌,
}
use discord_copilot_sdk.Dict.{Dict, get, has, values}
use discord_copilot_sdk.Dict.Laws.{has-set, has-delete, has-get}
use discord_copilot_sdk.Dict.Entries.{
  Entries, Distinct, Entries-set, Entries-delete, Entries-get, Entries-mono, Distinct-set,
  Distinct-delete, not_has-Entries,
}
use discord_copilot_sdk.Broker.{
  PendingView, Entry, RegisterOpts, Broker, entry_of, register, pending, finalize, is_outdated,
  settle, abort_each, abort, abort_session, fire,
}

or-right : (a b : Bool) → b ≡ true → (a || b) ≡ true
or-right true b h = refl
or-right false b h = h

abbrev pub one_if : Bool → ℕ
one_if true = 1
one_if false = 0

-- What happens to a broker.
pub data Event (R : Type 0) : Type 0 where
  registers : String → ℕ → RegisterOpts R → Event R
  settles : String → R → Option ℕ → Event R
  fires : String → Event R
  aborts : (PendingView → Bool) → Event R
  aborts_session : String → Event R

module _ {R : Type 0} where
  -- How often the promise of a nonce has been resolved.
  abbrev pub times : String → List (String × R) → ℕ
  times n [] = 0
  times n ((m, r) ∷ l) = (if m == n then 1 else 0) + times n l

  -- Resolutions, and one more for an entry that waits.
  abbrev pub tally : String → Broker R → ℕ
  tally n b = times n b.resolved + one_if (has n b.entries)

  abbrev IsWaiting : String → Entry R → Type 0
  IsWaiting n e = (n ≡ e.view.nonce) × (e.settled ≡ false)

  pub record IsTidy (b : Broker R) : Type 0 where
    pub waiting : Entries IsWaiting b.entries
    pub distinct : Distinct b.entries

  finalize-tally :
      (n : String) (e : Entry R) (r : R) (b : Broker R)
      → has e.view.nonce b.entries ≡ true
      → tally n (finalize e r b) ≡ tally n b
  unfolding finalize
  finalize-tally n e r b h =
      ground (arith, has-delete e.view.nonce n b.entries, string_eq.beq_iff e.view.nonce n)

  finalize-IsTidy : (e : Entry R) (r : R) (b : Broker R) → IsTidy b → IsTidy (finalize e r b)
  unfolding finalize
  finalize-IsTidy e r b t = record {
    waiting = Entries-delete IsWaiting e.view.nonce b.entries t.waiting;
    distinct = Distinct-delete e.view.nonce b.entries t.distinct;
  }

  pending-get :
      (n : String) (e : Entry R) (b : Broker R) → pending n b ≡ some e → get n b.entries ≡ some e
  unfolding pending
  pending-get n e b found = ground arith

  pending-has :
      (n : String) (e : Entry R) (b : Broker R)
      → IsTidy b
      → pending n b ≡ some e
      → has e.view.nonce b.entries ≡ true
  pending-has n e b t found =
      let here = pending-get n e b found in
      let (at_n, _) = Entries-get IsWaiting n e b.entries t.waiting here in
      rw (← at_n, has-get n b.entries, here) refl

  -- The entries of the copy that `abort` goes through are still there when it comes to them.
  abbrev IsListed : Broker R → String → Entry R → Type 0
  IsListed b k e = IsWaiting k e × (has k b.entries ≡ true)

  still-IsListed :
      (k : String) (e : Entry R) (r : R) (b : Broker R) (m : Dict String (Entry R))
      → k ≡ e.view.nonce
      → Entries (λ j _. (j == k) ≡ false) m
      → Entries (IsListed b) m
      → Entries (IsListed (finalize e r b)) m
  unfolding finalize
  still-IsListed k e r b [] at_k new h = tt
  still-IsListed k e r b ((j, f) ∷ m) at_k (p, new) ((w, there), h) = (
    (w, rw (← at_k) (rw (has-delete k j b.entries, beq_sym j k p) there)),
    still-IsListed k e r b m at_k new h,
  )

  abort_each-tally :
      (filter : PendingView → Bool) (m : Dict String (Entry R)) (c : ℕ) (b : Broker R)
      → Entries (IsListed b) m
      → Distinct m
      → (n : String) → tally n (abort_each filter (values m) (c, b)).1 ≡ tally n b
  unfolding abort_each
  abort_each-tally filter [] c b h d n = refl
  abort_each-tally filter ((k, e) ∷ m) c b ((w, there), h) (new, d) n =
      elim (Bool-cases (not e.settled && filter e.view)) [
        | inr skip ↦ rw (skip, abort_each) (abort_each-tally filter m c b h d n)
        | inl hit ↦
            rw (hit, abort_each)
              (abort_each-tally filter m (c + 1) (finalize e e.on_default b)
                  (still-IsListed k e e.on_default b m w.0 (not_has-Entries k m new) h) d n
                ∙ finalize-tally n e e.on_default b (rw w.0 at there))
      ]

  abort_each-IsTidy :
      (filter : PendingView → Bool) (es : List (Entry R)) (c : ℕ) (b : Broker R)
      → IsTidy b
      → IsTidy (abort_each filter es (c, b)).1
  unfolding abort_each
  abort_each-IsTidy filter [] c b t = t
  abort_each-IsTidy filter (e ∷ es) c b t = elim (Bool-cases (not e.settled && filter e.view)) [
    | inr skip ↦ rw (skip, abort_each) (abort_each-IsTidy filter es c b t)
    | inl hit ↦
        rw (hit, abort_each)
          (abort_each-IsTidy filter es (c + 1) (finalize e e.on_default b)
            (finalize-IsTidy e e.on_default b t))
  ]

  all-IsListed :
      (b : Broker R) (m : Dict String (Entry R))
      → Entries IsWaiting m
      → Entries (λ k _. has k b.entries ≡ true) m
      → Entries (IsListed b) m
  all-IsListed b [] h k = tt
  all-IsListed b ((j, e) ∷ m) (w, h) (t, k) = ((w, t), all-IsListed b m h k)

  has_self : (m : Dict String (Entry R)) → Entries (λ k _. has k m ≡ true) m
  unfolding has
  has_self [] = tt
  has_self ((k, e) ∷ m) =
      (rw (beq_refl k) refl, Entries-mono m (λ j f p. or-right (k == j) _ p) (has_self m))

  abort-tally :
      (filter : PendingView → Bool) (b : Broker R)
      → IsTidy b
      → (n : String) → tally n (abort filter b).1 ≡ tally n b
  unfolding abort
  abort-tally filter b t =
      abort_each-tally filter b.entries 0 b
        (all-IsListed b b.entries t.waiting (has_self b.entries)) t.distinct

  unfoldable pub happen : Event R → Broker R → Broker R
  happen (registers nonce now opts) b = register nonce now opts b
  happen (settles nonce result expect) b = (settle nonce result expect b).1
  happen (fires nonce) b = fire nonce b
  happen (aborts filter) b = (abort filter b).1
  happen (aborts_session key) b = (abort_session key b).1

  unfoldable pub run : List (Event R) → Broker R → Broker R
  unfolding happen
  run [] b = b
  run (x ∷ xs) b = run xs (happen x b)

  settle-tally :
      (m : String) (r : R) (expect : Option ℕ) (b : Broker R)
      → IsTidy b
      → (n : String) → tally n (settle m r expect b).1 ≡ tally n b
  unfolding settle
  settle-tally m r expect b t n = elim (Option-cases (pending m b)) [
    | inl e ↦ rw (e, settle) refl
    | inr (e, found) ↦
        rw (found, settle)
          (elim (Bool-cases (is_outdated expect e)) [
            | inl old ↦ rw old refl
            | inr current ↦ rw current (finalize-tally n e r b (pending-has m e b t found))
          ])
  ]

  settle-IsTidy :
      (m : String) (r : R) (expect : Option ℕ) (b : Broker R)
      → IsTidy b
      → IsTidy (settle m r expect b).1
  unfolding settle
  settle-IsTidy m r expect b t = elim (Option-cases (pending m b)) [
    | inl e ↦ rw (e, settle) t
    | inr (e, found) ↦
        rw (found, settle)
          (elim (Bool-cases (is_outdated expect e)) [
            | inl old ↦ rw old t
            | inr current ↦ rw current (finalize-IsTidy e r b t)
          ])
  ]

  fire-tally :
      (m : String) (b : Broker R) → IsTidy b → (n : String) → tally n (fire m b) ≡ tally n b
  unfolding fire
  fire-tally m b t n = elim (Option-cases (pending m b)) [
    | inl e ↦ rw (e, fire) refl
    | inr (e, found) ↦
        rw (found, fire) (finalize-tally n e e.on_default b (pending-has m e b t found))
  ]

  fire-IsTidy : (m : String) (b : Broker R) → IsTidy b → IsTidy (fire m b)
  unfolding fire
  fire-IsTidy m b t = elim (Option-cases (pending m b)) [
    | inl e ↦ rw (e, fire) t
    | inr (e, found) ↦ rw (found, fire) (finalize-IsTidy e e.on_default b t)
  ]

  register-IsTidy :
      (m : String) (now : ℕ) (opts : RegisterOpts R) (b : Broker R)
      → IsTidy b
      → IsTidy (register m now opts b)
  unfolding register
  register-IsTidy m now opts b t = record {
    waiting = Entries-set IsWaiting m (entry_of m now opts) b.entries (refl, refl) t.waiting;
    distinct = Distinct-set m (entry_of m now opts) b.entries t.distinct;
  }

  happen-IsTidy : (x : Event R) (b : Broker R) → IsTidy b → IsTidy (happen x b)
  unfolding happen abort abort_session
  happen-IsTidy (registers m now opts) b t = register-IsTidy m now opts b t
  happen-IsTidy (settles m r expect) b t = settle-IsTidy m r expect b t
  happen-IsTidy (fires m) b t = fire-IsTidy m b t
  happen-IsTidy (aborts filter) b t = abort_each-IsTidy filter (values b.entries) 0 b t
  happen-IsTidy (aborts_session key) b t = abort_each-IsTidy _ (values b.entries) 0 b t

  -- The event does not register the nonce (random nonces are not drawn twice).
  abbrev pub Spares : String → Event R → Type 0
  Spares n (registers m now opts) = m ≢ n
  Spares n _ = Unit

  happen-tally :
      (n : String) (x : Event R) (b : Broker R)
      → IsTidy b
      → Spares n x
      → tally n (happen x b) ≡ tally n b
  unfolding happen register abort_session
  happen-tally n (registers m now opts) b t fresh =
      ground (arith, has-set m n (entry_of m now opts) b.entries, string_eq.beq_iff m n)
  happen-tally n (settles m r expect) b t fresh = settle-tally m r expect b t n
  happen-tally n (fires m) b t fresh = fire-tally m b t n
  happen-tally n (aborts filter) b t fresh = abort-tally filter b t n
  happen-tally n (aborts_session key) b t fresh = abort-tally _ b t n

  run-tally :
      (n : String) (xs : List (Event R)) (b : Broker R)
      → IsTidy b
      → All (Spares n) xs
      → tally n (run xs b) ≡ tally n b
  unfolding run
  run-tally n [] b t h = refl
  run-tally n (x ∷ xs) b t (p, h) =
      run-tally n xs (happen x b) (happen-IsTidy x b t) h ∙ happen-tally n x b t p

  register-tally :
      (n : String) (now : ℕ) (opts : RegisterOpts R) (b : Broker R)
      → tally n b ≡ 0
      → tally n (register n now opts b) ≡ 1
  unfolding register
  register-tally n now opts b h =
      ground (arith, has-set n n (entry_of n now opts) b.entries, beq_refl n)

  -- With a tidy broker, a prompt under a nonce that is new is resolved exactly once or is still pending, never both
  -- and never neither, after any sequence of decisions, timeouts, aborts and other registrations.
  pub register-run_once :
      (n : String) (now : ℕ) (opts : RegisterOpts R) (xs : List (Event R)) (b : Broker R)
      → IsTidy b
      → tally n b ≡ 0
      → All (Spares n) xs
      → times n (run xs (register n now opts b)).resolved
          + one_if (has n (run xs (register n now opts b)).entries)
        ≡ 1
  register-run_once n now opts xs b t new h =
      run-tally n xs (register n now opts b) (register-IsTidy n now opts b t) h
      ∙ register-tally n now opts b new
