-- ===== src/Approval/Stored.antt =====
-- What a restart reads of the approvals of the repositories.
use discord_copilot_sdk.Base.{
  Bool, true, String, List, [], ◌∷◌, map, ◌==◌, or_else, if◌then◌else◌, string_eq, ◌≡◌, refl, ap,
  ◌∙◌, arith, All, All-append, Bool-cases, inl, inr, Option-cases,
}
use mathlib.Core.Path.{ap₂}
use mathlib.Core.Bool.{false≢true}
use discord_copilot_sdk.Dict.{Dict, get, has, set}
use discord_copilot_sdk.Dict.Laws.{get-set, has-get}
use discord_copilot_sdk.Dict.Entries.{
  Entries, Distinct, Entries-set, Entries-delete, Entries-get, Distinct-set, Distinct-delete,
}
use discord_copilot_sdk.Json.{
  null, bool, num, str, arr, obj, Items, nil, cons, Fields, end, field, items_of, Content, parsed,
  missing, unreadable, malformed,
}
use discord_copilot_sdk.Effort.{includes}
use discord_copilot_sdk.Approval.{
  World, PersistIo, persist, add_name, names_of, clear_session, clear_repo, clear_all_repos,
  approve_for_session, approve_for_repo, render_rules, strings, read_rules, load, open_policy,
  repo_approvals,
}

-- A revision of the approvals of the repositories.
pub data Revision : Type 0 where
  approves : String → String → Revision
  clears : String → Revision
  clears_all : Revision

-- A call on the policy.
pub data Act : Type 0 where
  for_session : String → String → Act
  ends_session : String → Act
  revises : PersistIo → Revision → Act

unfoldable pub revise : (String → String) → PersistIo → Revision → World → Bool × World
revise norm io (approves path e) w = approve_for_repo norm io path e w
revise norm io (clears path) w = clear_repo io path w
revise norm io clears_all w = clear_all_repos io w

unfoldable pub happen : (String → String) → Act → World → World
happen norm (for_session key e) w = record w { policy = approve_for_session norm key e w.policy }
happen norm (ends_session key) w = record w { policy = clear_session key w.policy }
happen norm (revises io r) w = (revise norm io r w).1

unfoldable pub run : (String → String) → List Act → World → World
run norm [] w = w
run norm (x ∷ xs) w = run norm xs (happen norm x w)

module _ (norm : String → String) (idem : (s : String) → norm (norm s) ≡ norm s) where
  abbrev IsNormal : String → List String → Type 0
  IsNormal path names = All (λ n. norm n ≡ n) names

  -- One list for a repository, and every name in it is normal.
  pub record IsRules (m : Dict String (List String)) : Type 0 where
    pub normal : Entries IsNormal m
    pub distinct : Distinct m

  strings-render :
      (names : List String)
      → All (λ n. norm n ≡ n) names
      → strings norm (items_of (map str names)) ≡ names
  strings-render [] h = refl
  strings-render (n ∷ names) (p, h) = ap₂ ◌∷◌ p (strings-render names h)

  read_rules-get :
      (d m : Dict String (List String)) (j : String)
      → IsRules d
      → get j (read_rules norm (render_rules d) m) ≡ (if has j d then get j d else get j m)
  unfolding has get
  read_rules-get [] m j h = refl
  read_rules-get ((k, names) ∷ d) m j h =
      let (p, ps) = h.normal in
      let (new, ds) = h.distinct in
      let later = read_rules-get d (set k names m) j (record { normal = ps; distinct = ds }) in
      ap (λ ns. get j (read_rules norm (render_rules d) (set k ns m))) (strings-render names p)
      ∙ ground (arith, later, get-set k j names m, string_eq.beq_iff k j)

  load-get :
      (d : Dict String (List String)) (j : String)
      → IsRules d
      → get j (load norm (parsed (obj (render_rules d)))) ≡ get j d
  unfolding load get has
  load-get d j h = ground (arith, read_rules-get d [] j h, has-get j d)

  add_name-IsNormal :
      (n : String) (names : List String)
      → norm n ≡ n
      → All (λ n. norm n ≡ n) names
      → All (λ n. norm n ≡ n) (add_name n names)
  unfolding add_name
  add_name-IsNormal n names p h = elim (Bool-cases (includes names n)) [
    | inl there ↦ rw there h
    | inr new ↦ rw new (All-append (λ n. norm n ≡ n) names (n ∷ []) h (p, tt))
  ]

  names_of-IsNormal :
      (path : String) (m : Dict String (List String))
      → IsRules m
      → All (λ n. norm n ≡ n) (names_of path m)
  names_of-IsNormal path m h = elim (Option-cases (get path m)) [
    | inl e ↦ rw e tt
    | inr (names, e) ↦ rw e (Entries-get IsNormal path names m h.normal e)
  ]

  set-IsRules :
      (path : String) (names : List String) (m : Dict String (List String))
      → All (λ n. norm n ≡ n) names
      → IsRules m
      → IsRules (set path names m)
  set-IsRules path names m p h = record {
    normal = Entries-set IsNormal path names m p h.normal;
    distinct = Distinct-set path names m h.distinct;
  }

  strings-IsNormal : (vs : Items) → All (λ n. norm n ≡ n) (strings norm vs)
  strings-IsNormal nil = tt
  strings-IsNormal (cons (str s) vs) = (idem s, strings-IsNormal vs)
  strings-IsNormal (cons null vs) = strings-IsNormal vs
  strings-IsNormal (cons (bool b) vs) = strings-IsNormal vs
  strings-IsNormal (cons (num n) vs) = strings-IsNormal vs
  strings-IsNormal (cons (arr ws) vs) = strings-IsNormal vs
  strings-IsNormal (cons (obj fs) vs) = strings-IsNormal vs

  read_rules-IsRules :
      (fs : Fields) (m : Dict String (List String)) → IsRules m → IsRules (read_rules norm fs m)
  read_rules-IsRules end m h = h
  read_rules-IsRules (field k (arr vs) fs) m h =
      read_rules-IsRules fs _ (set-IsRules k (strings norm vs) m (strings-IsNormal vs) h)
  read_rules-IsRules (field k null fs) m h = read_rules-IsRules fs m h
  read_rules-IsRules (field k (bool b) fs) m h = read_rules-IsRules fs m h
  read_rules-IsRules (field k (num n) fs) m h = read_rules-IsRules fs m h
  read_rules-IsRules (field k (str s) fs) m h = read_rules-IsRules fs m h
  read_rules-IsRules (field k (obj gs) fs) m h = read_rules-IsRules fs m h

  none-IsRules : IsRules []
  none-IsRules = record { normal = tt; distinct = tt }

  load-IsRules : (disk : Content) → IsRules (load norm disk)
  unfolding load
  load-IsRules missing = none-IsRules
  load-IsRules unreadable = none-IsRules
  load-IsRules malformed = none-IsRules
  load-IsRules (parsed (obj fs)) = read_rules-IsRules fs [] none-IsRules
  load-IsRules (parsed null) = none-IsRules
  load-IsRules (parsed (bool b)) = none-IsRules
  load-IsRules (parsed (num n)) = none-IsRules
  load-IsRules (parsed (str s)) = none-IsRules
  load-IsRules (parsed (arr vs)) = none-IsRules

  persist-IsRules :
      (io : PersistIo) (w : World) → IsRules w.policy.repo → IsRules (persist io w).1.policy.repo
  unfolding persist
  persist-IsRules io w h = elim (Bool-cases io.mkdir_ok) [
    | inr lost ↦ rw lost h
    | inl made ↦
        rw made (elim (Bool-cases io.write_ok) [ inl done ↦ rw done h | inr failed ↦ rw failed h ])
  ]

  revise-IsRules :
      (io : PersistIo) (r : Revision) (w : World)
      → IsRules w.policy.repo
      → IsRules (revise norm io r w).1.policy.repo
  unfolding revise approve_for_repo clear_repo clear_all_repos
  revise-IsRules io (approves path e) w h = elim (Bool-cases (norm e == "")) [
    | inl empty ↦ rw empty h
    | inr named ↦ rw named (
        persist-IsRules io _ (
          set-IsRules path (add_name (norm e) (names_of path w.policy.repo)) w.policy.repo
            (add_name-IsNormal (norm e) (names_of path w.policy.repo) (idem e)
              (names_of-IsNormal path w.policy.repo h))
            h))
  ]
  revise-IsRules io (clears path) w h = persist-IsRules io _ (record {
    normal = Entries-delete IsNormal path w.policy.repo h.normal;
    distinct = Distinct-delete path w.policy.repo h.distinct;
  })
  revise-IsRules io clears_all w h = persist-IsRules io _ none-IsRules

  happen-IsRules :
      (x : Act) (w : World) → IsRules w.policy.repo → IsRules (happen norm x w).policy.repo
  unfolding happen approve_for_session clear_session
  happen-IsRules (for_session key e) w h = elim (Bool-cases (norm e == "")) [
    | inl empty ↦ rw empty h
    | inr named ↦ rw named h
  ]
  happen-IsRules (ends_session key) w h = elim (Bool-cases (has key w.policy.session)) [
    | inl live ↦ rw live h
    | inr gone ↦ rw gone h
  ]
  happen-IsRules (revises io r) w h = revise-IsRules io r w h

  run-IsRules :
      (xs : List Act) (w : World) → IsRules w.policy.repo → IsRules (run norm xs w).policy.repo
  unfolding run
  run-IsRules [] w h = h
  run-IsRules (x ∷ xs) w h = run-IsRules xs (happen norm x w) (happen-IsRules x w h)

  persist-stored :
      (io : PersistIo) (w : World)
      → (persist io w).0 ≡ true
      → (persist io w).1.disk ≡ parsed (obj (render_rules (persist io w).1.policy.repo))
  unfolding persist
  persist-stored io w h = elim (Bool-cases io.mkdir_ok) [
    | inr lost ↦ absurd (false≢true (rw lost at h))
    | inl made ↦ rw made (elim (Bool-cases io.write_ok) [
      | inl done ↦ rw done refl
      | inr failed ↦ absurd (false≢true (rw (made, failed) at h))
    ])
  ]

  revise-stored :
      (io : PersistIo) (r : Revision) (w : World)
      → (revise norm io r w).0 ≡ true
      → (revise norm io r w).1.disk ≡ parsed (obj (render_rules (revise norm io r w).1.policy.repo))
  unfolding revise approve_for_repo clear_repo clear_all_repos
  revise-stored io (approves path e) w h = elim (Bool-cases (norm e == "")) [
    | inl empty ↦ absurd (false≢true (rw empty at h))
    | inr named ↦ rw named (persist-stored io _ (rw named at h))
  ]
  revise-stored io (clears path) w h = persist-stored io _ h
  revise-stored io clears_all w h = persist-stored io _ h

  -- Whatever the file held at the start and whatever has happened to the policy, the answer `true`
  -- of an approval for a repository or of a revocation means that a restart reads for every
  -- repository the names that are in memory. A name that is normalized twice must be the same.
  pub repo_approvals-reopened :
      (disk : Content) (xs : List Act) (io : PersistIo) (r : Revision) (path : String)
      → (revise norm io r (run norm xs (open_policy norm disk))).0 ≡ true
      → repo_approvals path
          (open_policy norm (revise norm io r (run norm xs (open_policy norm disk))).1.disk).policy
        ≡ repo_approvals path (revise norm io r (run norm xs (open_policy norm disk))).1.policy
  repo_approvals-reopened disk xs io r path ok =
      let before = run norm xs (open_policy norm disk) in
      let after = (revise norm io r before).1 in
      let rules : IsRules after.policy.repo =
        revise-IsRules io r before (run-IsRules xs (open_policy norm disk) (load-IsRules disk)) in
      ap (λ d. names_of path (load norm d)) (revise-stored io r before ok)
      ∙ ap (λ o. or_else o []) (load-get after.policy.repo path rules)
