-- ===== src/Leases/Scan.antt =====
-- After the pre-scan no two threads may be resumed on one checkout.
use discord_copilot_sdk.Base.{
  Bool, true, false, String, List, [], ◌∷◌, Option, none, some, ◌==◌, if◌then◌else◌, string_eq, ◌≡◌,
  refl, ◌⊎◌, inl, inr, arith, ap, ◌∙◌, sym, Bool-cases, Option-cases, of_some-eq, All, All-Memᴰ,
}
use mathlib.Core.List.{Memᴰ}
use mathlib.Core.Option.{none-ne-some}
use mathlib.Core.Bool.{false≢true}
use mathlib.Core.Path.{subst}
use discord_copilot_sdk.SessionStore.Reads.{update_record-cases}
use discord_copilot_sdk.Dict.{get}
use discord_copilot_sdk.Dict.Laws.{get-set}
use discord_copilot_sdk.Disk.{Io}
use discord_copilot_sdk.SessionStore.Record.{SessionRecord, blocked}
use discord_copilot_sdk.SessionStore.State.{World}
use discord_copilot_sdk.SessionStore.Ops.{set_state}
use discord_copilot_sdk.Leases.{
  Leases, holds_not, acquire_local_lease, claims_checkout, scan_record, scan,
}

abbrev pub is_blocked_record : Option SessionRecord → Bool
is_blocked_record none = false
is_blocked_record (some r) = elim r.state [ blocked ↦ true | _ ↦ false ]

abbrev pub is_blocked : String → World → Bool
is_blocked t w = is_blocked_record (get t w.store.sessions)

acquire_local_lease-true :
    (k t : String) (m : Leases)
    → (acquire_local_lease k t m).0 ≡ true
    → get k (acquire_local_lease k t m).1 ≡ some t
unfolding acquire_local_lease
acquire_local_lease-true k t m h = elim (Bool-cases (holds_not t (get k m))) [
  | inl other ↦ absurd (false≢true (rw other at h))
  | inr free ↦ rw free (get-set k k t m ∙ rw ((string_eq.beq_iff k k).1 refl) refl)
]

own_lease : (t u : String) → holds_not t (some u) ≡ false → t ≡ u
own_lease t u h = ground (arith, string_eq.beq_iff u t)

-- A lease that is held stays held.
acquire_local_lease-get :
    (k t j u : String) (m : Leases)
    → get j m ≡ some u
    → get j (acquire_local_lease k t m).1 ≡ some u
unfolding acquire_local_lease
acquire_local_lease-get k t j u m h = elim (Bool-cases (holds_not t (get k m))) [
  | inl other ↦ rw other h
  | inr free ↦ rw free (get-set k j t m ∙ kept free)
]
  where
    kept : holds_not t (get k m) ≡ false → (if k == j then some t else get j m) ≡ some u
    kept free = elim (Bool-cases (k == j)) [
      | inr apart ↦ rw apart h
      | inl same ↦ rw same (
          ap some (
            own_lease t u (
              subst (λ o. holds_not t o ≡ false)
                (ap (λ i. get i m) ((string_eq.beq_iff k j).0 same) ∙ h) free)))
    ]

abbrev blocked_as : Io → Option String → SessionRecord → SessionRecord
blocked_as io reason r = record r { state = blocked; reason = reason; updated_at = io.now }

-- A state that is written reads back, and no other record changes.
set_state-blocked :
    (io : Io) (t : String) (reason : Option String) (w : World) (j : String)
    → is_blocked j w ≡ true
    → is_blocked j (set_state io t blocked reason w).1 ≡ true
unfolding set_state
set_state-blocked io t reason w j h = elim (update_record-cases io t (blocked_as io reason) w) [
  | inl same ↦ rw same h
  | inr u ↦ elim (Bool-cases (t == j)) [
    | inl here ↦ rw (u.reads j) (rw here refl)
    | inr apart ↦ rw (u.reads j) (rw apart h)
  ]
]

set_state-true :
    (io : Io) (t : String) (reason : Option String) (w : World)
    → (set_state io t blocked reason w).0 ≡ true
    → is_blocked t (set_state io t blocked reason w).1 ≡ true
unfolding set_state
set_state-true io t reason w h = elim (update_record-cases io t (blocked_as io reason) w) [
  | inl same ↦ absurd (false≢true (rw same at h))
  | inr u ↦ rw (u.reads t) (rw ((string_eq.beq_iff t t).1 refl) refl)
]

module _ (lease_key : String → String) (binding_ok : SessionRecord → Bool) where
  -- The record's thread has the lease of its checkout, or is blocked.
  abbrev IsDecided : SessionRecord → Leases × World → Type 0
  IsDecided r (m, w) =
      (get (lease_key r.repo_path) m ≡ some r.thread_id) ⊎ (is_blocked r.thread_id w ≡ true)

  abbrev Decides : SessionRecord → Leases × World → Leases × World → Type 0
  Decides r s s' =
      (claims_checkout binding_ok r ≡ true → IsDecided r s')
      × ((q : SessionRecord) → IsDecided q s → IsDecided q s')

  leased :
      (io : Io) (r : SessionRecord) (m : Leases) (w : World)
      → (acquire_local_lease (lease_key r.repo_path) r.thread_id m).0 ≡ true
      → Decides r (m, w) ((acquire_local_lease (lease_key r.repo_path) r.thread_id m).1, w)
  leased io r m w ok = (
    λ claims. inl (acquire_local_lease-true (lease_key r.repo_path) r.thread_id m ok),
    λ q d. elim d [
      | inl has ↦ inl (
          acquire_local_lease-get (lease_key r.repo_path) r.thread_id (lease_key q.repo_path)
            q.thread_id m has)
      | inr is ↦ inr is
    ],
  )

  stopped :
      (io : Io) (r : SessionRecord) (m : Leases) (w : World)
      → (set_state io r.thread_id blocked (some "local-conflict") w).0 ≡ true
      → Decides r (m, w) (m, (set_state io r.thread_id blocked (some "local-conflict") w).1)
  stopped io r m w kept = (
    λ claims. inr (set_state-true io r.thread_id (some "local-conflict") w kept),
    λ q d. elim d [
      | inl has ↦ inl has
      | inr is ↦ inr (set_state-blocked io r.thread_id (some "local-conflict") w q.thread_id is)
    ],
  )

  scan_record-Decides :
      (io : Io) (r : SessionRecord) (s s' : Leases × World)
      → scan_record lease_key binding_ok io r s ≡ some s'
      → Decides r s s'
  unfolding scan_record
  scan_record-Decides io r (m, w) s' h = elim (Bool-cases (claims_checkout binding_ok r)) [
    | inr no_claim ↦
        subst (Decides r (m, w)) (of_some-eq (rw no_claim at h))
          (λ claims. absurd (false≢true (sym no_claim ∙ claims)), λ q d. d)
    | inl claims ↦ elim (Bool-cases (acquire_local_lease (lease_key r.repo_path) r.thread_id m).0) [
      | inl ok ↦
          subst (Decides r (m, w)) (of_some-eq (rw ok at (rw claims at h))) (leased io r m w ok)
      | inr taken ↦
          elim (Bool-cases (set_state io r.thread_id blocked (some "local-conflict") w).0) [
            | inl kept ↦
                subst (Decides r (m, w)) (of_some-eq (rw kept at (rw taken at (rw claims at h))))
                  (stopped io r m w kept)
            | inr failed ↦ absurd (none-ne-some _ (rw failed at (rw taken at (rw claims at h))))
          ]
    ]
  ]

  scan-Decides :
      (rs : List (Io × SessionRecord)) (s s' : Leases × World)
      → scan lease_key binding_ok rs s ≡ some s'
      → All (λ x. claims_checkout binding_ok x.1 ≡ true → IsDecided x.1 s') rs
        × ((q : SessionRecord) → IsDecided q s → IsDecided q s')
  unfolding scan
  scan-Decides [] s s' h = (tt, λ q d. subst (IsDecided q) (of_some-eq h) d)
  scan-Decides ((io, r) ∷ rs) s s' h =
      elim (Option-cases (scan_record lease_key binding_ok io r s)) [
        | inl failed ↦ absurd (none-ne-some _ (rw (failed, scan) at h))
        | inr (t, e) ↦
            let (here, keeps) = scan_record-Decides io r s t e in
            let (rest, later) = scan-Decides rs t s' (rw (e, scan) at h) in
            ((λ claims. later r (here claims), rest), λ q d. later q (keeps q d))
      ]

-- When the start goes on after the pre-scan, two records of it that are local, active and proven to
-- be of one checkout, and whose threads are not blocked now, are of the same thread: no two threads
-- are resumed on one checkout.
pub scan-exclusive :
    (lease_key : String → String) (binding_ok : SessionRecord → Bool)
    (rs : List (Io × SessionRecord)) (s s' : Leases × World) (x y : Io × SessionRecord)
    → scan lease_key binding_ok rs s ≡ some s'
    → Memᴰ x rs
    → Memᴰ y rs
    → (claims_checkout binding_ok x.1 ≡ true) × (claims_checkout binding_ok y.1 ≡ true)
    → lease_key x.1.repo_path ≡ lease_key y.1.repo_path
    → (is_blocked x.1.thread_id s'.1 ≡ false) × (is_blocked y.1.thread_id s'.1 ≡ false)
    → x.1.thread_id ≡ y.1.thread_id
scan-exclusive lease_key binding_ok rs s s' x y h mx my (cx, cy) same (fx, fy) =
    let (all, keeps) = scan-Decides lease_key binding_ok rs s s' h in
    of_some-eq (
      sym (decided_lease x s' (All-Memᴰ _ rs x all mx cx) fx)
      ∙ ap (λ k. get k s'.0) same
      ∙ decided_lease y s' (All-Memᴰ _ rs y all my cy) fy)
  where
    decided_lease :
        (z : Io × SessionRecord) (t : Leases × World)
        → IsDecided lease_key binding_ok z.1 t
        → is_blocked z.1.thread_id t.1 ≡ false
        → get (lease_key z.1.repo_path) t.0 ≡ some z.1.thread_id
    decided_lease z t (inl has) free = has
    decided_lease z t (inr is) free = absurd (false≢true (sym free ∙ is))
