-- ===== src/Lifecycle/Orderly.antt =====
-- An ownership whose fields agree, and the calls that open and close what it holds.
use discord_copilot_sdk.Base.{
  ℕ, ◌-◌, ◌<◌, true, false, String, List, [], ◌∷◌, Option, none, some, or_else, if◌then◌else◌,
  nat_eq, string_eq, ltb, ◌≡◌, ◌≢◌, refl, arith, Bool-cases, Option-cases, inl, inr,
}
use discord_copilot_sdk.Dict.{Dict, get, set, delete}
use discord_copilot_sdk.Dict.Entries.{Entries, Entries-set, Entries-delete}
use discord_copilot_sdk.Lifecycle.{
  Key, key_eq, ObligationHandle, running, shutting_down, Shutdown, not_begun, Ownership, created,
  is_running, is_empty, is_idle, evaluate, decline_reason, run_exclusive, leave, without,
  settle_exclusive, run_teardown, unclaim, settle_teardown, retain, is_retained, discharge,
  begin_attempt, end_run, begin_shutdown, complete,
}

abbrev IsFilled : String → List ℕ → Type 0
IsFilled thread es = is_empty es ≡ false

abbrev IsCounted : String → ℕ → Type 0
IsCounted thread n = 0 < n

-- What holds also while the question of the release has not been asked yet.
pub record IsOrderly (o : Ownership) : Type 0 where
  pub filled : Entries IsFilled o.exclusive
  pub counted : Entries IsCounted o.teardown_claims
  pub late : o.teardown_complete ≡ true → o.phase ≡ shutting_down
  pub begun : o.phase ≡ running → o.shutdown ≡ not_begun
  pub over :
      o.released ≡ true
      → (o.teardown_complete ≡ true) × (o.exclusive ≡ []) × (o.teardown_claims ≡ [])
  pub once : o.releases ≡ (if o.released then 1 else 0)

-- The release is never missed.
abbrev pub IsPrompt : Ownership → Type 0
IsPrompt o = o.teardown_complete ≡ true → is_idle o ≡ true → o.released ≡ true

pub record IsSettled (o : Ownership) : Type 0 where
  pub orderly : IsOrderly o
  pub prompt : IsPrompt o

pub created-IsSettled : IsSettled created
created-IsSettled = record {
  orderly = record {
    filled = tt;
    counted = tt;
    late = λ h. cc;
    begun = λ h. refl;
    over = λ h. cc;
    once = refl;
  };
  prompt = λ h k. cc;
}

evaluate-IsOrderly : (o : Ownership) → IsOrderly o → IsOrderly (evaluate o)
unfolding evaluate
evaluate-IsOrderly o v = ground arith

evaluate-IsPrompt : (o : Ownership) → IsOrderly o → IsPrompt (evaluate o)
unfolding evaluate
evaluate-IsPrompt o v = ground arith

evaluate-IsSettled : (o : Ownership) → IsOrderly o → IsSettled (evaluate o)
evaluate-IsSettled o v = record { orderly = evaluate-IsOrderly o v; prompt = evaluate-IsPrompt o v }

leave-IsFilled :
    (thread : String) (e : ℕ) (live : Option (List ℕ)) (m : Dict String (List ℕ))
    → Entries IsFilled m
    → Entries IsFilled (leave thread e live m)
leave-IsFilled thread e none m h = h
leave-IsFilled thread e (some live) m h = elim (Bool-cases (is_empty (without e live))) [
  | inl last ↦ rw last (Entries-delete IsFilled thread m h)
  | inr others ↦ rw others (Entries-set IsFilled thread (without e live) m others h)
]

unclaim-IsCounted :
    (thread : String) (n : ℕ) (m : Dict String ℕ)
    → Entries IsCounted m
    → Entries IsCounted (unclaim thread n m)
unclaim-IsCounted thread n m h = elim (Bool-cases (ltb 0 n)) [
  | inl more ↦ rw more (Entries-set IsCounted thread n m (ground arith) h)
  | inr last ↦ rw last (Entries-delete IsCounted thread m h)
]

leave-nil :
    (thread : String) (e : ℕ) (m : Dict String (List ℕ))
    → m ≡ []
    → leave thread e (get thread m) m ≡ []
unfolding get
leave-nil thread e m h = rw h refl

unclaim-nil :
    (thread : String) (m : Dict String ℕ)
    → m ≡ []
    → unclaim thread (or_else (get thread m) 1 - 1) m ≡ []
unfolding get delete
unclaim-nil thread m h = rw h refl

is_empty-set : (k : Key) (e : ℕ) (m : Dict Key ℕ) → is_empty (set k e m) ≡ false
unfolding set
is_empty-set k e [] = refl
is_empty-set k e ((j, d) ∷ m) = ground arith

module _ (o : Ownership) (v : IsSettled o) where
  pub run_exclusive-IsSettled : (thread : String) → IsSettled (run_exclusive thread o).1
  unfolding run_exclusive decline_reason
  run_exclusive-IsSettled thread = elim (Option-cases (decline_reason thread o)) [
    | inr (reason, e) ↦ rw (e, run_exclusive) v
    | inl e ↦
        let open_phase : o.phase ≡ running = ground arith in
        rw (e, run_exclusive)
          (record {
            orderly = record {
              filled = Entries-set IsFilled thread _ o.exclusive refl v.orderly.filled;
              counted = v.orderly.counted;
              late = v.orderly.late;
              begun = v.orderly.begun;
              over = λ h. ground (arith, v.orderly.over h, v.orderly.late);
              once = v.orderly.once;
            };
            prompt = λ h k. ground (arith, v.orderly.late h);
          })
  ]

  pub settle_exclusive-IsSettled :
      (thread : String) (e : ℕ) → IsSettled (settle_exclusive thread e o)
  unfolding settle_exclusive
  settle_exclusive-IsSettled thread e = evaluate-IsSettled _ (record {
    filled = leave-IsFilled thread e (get thread o.exclusive) o.exclusive v.orderly.filled;
    counted = v.orderly.counted;
    late = v.orderly.late;
    begun = v.orderly.begun;
    over = λ h.
        let (finished, scopes, claimed) = v.orderly.over h in
        (finished, leave-nil thread e o.exclusive scopes, claimed);
    once = v.orderly.once;
  })

  pub run_teardown-IsSettled : (thread : String) → IsSettled (run_teardown thread o).1
  unfolding run_teardown
  run_teardown-IsSettled thread = elim (Bool-cases (is_running o.phase)) [
    | inr late ↦ rw late v
    | inl early ↦
        let open_phase : o.phase ≡ running = ground arith in
        rw early (record {
          orderly = record {
            filled = v.orderly.filled;
            counted =
                Entries-set IsCounted thread _ o.teardown_claims (omega arith) v.orderly.counted;
            late = v.orderly.late;
            begun = v.orderly.begun;
            over = λ h. ground (arith, v.orderly.over h, v.orderly.late);
            once = v.orderly.once;
          };
          prompt = λ h k. ground (arith, v.orderly.late h);
        })
  ]

  pub settle_teardown-IsSettled : (thread : String) → IsSettled (settle_teardown thread o)
  unfolding settle_teardown
  settle_teardown-IsSettled thread = evaluate-IsSettled _ (record {
    filled = v.orderly.filled;
    counted = unclaim-IsCounted thread _ o.teardown_claims v.orderly.counted;
    late = v.orderly.late;
    begun = v.orderly.begun;
    over = λ h.
        let (finished, scopes, claimed) = v.orderly.over h in
        (finished, scopes, unclaim-nil thread o.teardown_claims claimed);
    once = v.orderly.once;
  })

  pub retain-IsSettled : (key : Key) → IsSettled (retain key o).1
  unfolding retain
  retain-IsSettled key = elim (Option-cases (get key o.obligations)) [
    | inr (entry, e) ↦ rw (e, retain) v
    | inl e ↦
        rw (e, retain)
          (record {
            orderly = ground arith;
            prompt = λ h k. ground (arith, is_empty-set key o.next_entry o.obligations);
          })
  ]

  pub discharge-IsSettled : (h : ObligationHandle) → IsSettled (discharge h o)
  unfolding discharge
  discharge-IsSettled h = elim (Bool-cases (is_retained h o)) [
    | inr gone ↦ rw gone v
    | inl held ↦ rw held (evaluate-IsSettled _ (ground arith))
  ]

  pub begin_attempt-IsSettled : (h : ObligationHandle) → IsSettled (begin_attempt h o)
  unfolding begin_attempt
  begin_attempt-IsSettled h = ground arith

  pub settle_shutdown :
      (s : Shutdown) → o.shutdown ≢ not_begun → IsSettled (record o { shutdown = s })
  settle_shutdown s h = ground arith

  pub end_run-IsSettled : (e : ℕ) → IsSettled (end_run e o)
  end_run-IsSettled e = ground arith

  pub complete-IsSettled : o.shutdown ≢ not_begun → IsSettled (complete o)
  unfolding complete
  complete-IsSettled h = evaluate-IsSettled _ (ground arith)

  pub begin_shutdown-IsSettled : IsSettled (begin_shutdown o)
  unfolding begin_shutdown
  begin_shutdown-IsSettled = ground arith
