-- ===== src/Approval/Laws.antt =====
-- What an approval allows, and what a revocation takes back.
use discord_copilot_sdk.Base.{
  ◌+◌, ◌<◌, Bool, true, ◌&&◌, ◌||◌, not, String, List, [], ◌∷◌, ◌++◌, ◌==◌, if◌then◌else◌,
  string_eq, every, ◌≡◌, refl, ◌≢◌, ◌↔◌, arith, All,
}
use discord_copilot_sdk.Dict.{Dict, set, delete}
use discord_copilot_sdk.Dict.Laws.{get-set, get-delete}
use discord_copilot_sdk.Effort.{includes}
use discord_copilot_sdk.Approval.{
  ApprovalPolicy, World, PersistIo, persist, add_name, names_of, clear_repo, allows, is_approved,
  approve_for_session, approve_for_repo,
}

includes_snoc :
    (xs : List String) (n j : String) → includes (xs ++ n ∷ []) j ≡ (includes xs j || n == j)
includes_snoc [] n j = ground arith
includes_snoc (x ∷ xs) n j = ground (arith, includes_snoc xs n j)

includes-add_name :
    (n j : String) (xs : List String) → includes (add_name n xs) j ≡ (includes xs j || n == j)
unfolding add_name
includes-add_name n j xs = ground (arith, includes_snoc xs n j, string_eq.beq_iff n j)

persist-policy : (io : PersistIo) (w : World) → (persist io w).1.policy ≡ w.policy
unfolding persist
persist-policy io w = ground arith

names_of-set :
    (k j : String) (v : List String) (m : Dict String (List String))
    → names_of j (set k v m) ≡ (if k == j then v else names_of j m)
names_of-set k j v m = ground (arith, get-set k j v m)

names_of-delete :
    (k j : String) (m : Dict String (List String))
    → names_of j (delete k m) ≡ (if k == j then [] else names_of j m)
names_of-delete k j m = ground (arith, get-delete k j m)

module _ (norm : String → String) where
  -- After an approval for a session, an executable is allowed exactly when it was allowed before,
  -- or when the request is of that session and the executable has the approved name, which is not
  -- empty.
  pub allows-approve_for_session :
      (key key' path e e' : String) (p : ApprovalPolicy)
      → allows norm key' path (approve_for_session norm key e p) e'
        ≡ (allows norm key' path p e' || (key == key' && (not (norm e == "") && norm e == norm e')))
  unfolding allows approve_for_session
  allows-approve_for_session key key' path e e' p = ground (
    arith,
    names_of-set key key' (add_name (norm e) (names_of key p.session)) p.session,
    includes-add_name (norm e) (norm e') (names_of key p.session),
    string_eq.beq_iff key key',
    string_eq.beq_iff (norm e) (norm e'),
  )

  -- After an approval for a repository, whether or not it was stored, an executable is allowed
  -- exactly when it was allowed before, or when the request is of that repository and the
  -- executable has the approved name, which is not empty.
  pub allows-approve_for_repo :
      (io : PersistIo) (key path path' e e' : String) (w : World)
      → allows norm key path' (approve_for_repo norm io path e w).1.policy e' ≡ (
          allows norm key path' w.policy e'
          || (path == path' && (not (norm e == "") && norm e == norm e')))
  unfolding allows approve_for_repo
  allows-approve_for_repo io key path path' e e' w = ground (
    arith,
    persist-policy io (record w {
      policy = record w.policy {
        repo = set path (add_name (norm e) (names_of path w.policy.repo)) w.policy.repo;
      };
    }),
    names_of-set path path' (add_name (norm e) (names_of path w.policy.repo)) w.policy.repo,
    includes-add_name (norm e) (norm e') (names_of path w.policy.repo),
    string_eq.beq_iff path path',
    string_eq.beq_iff (norm e) (norm e'),
  )

  -- A revocation of a repository's approvals, whether or not it was stored, leaves for a request
  -- of that repository only what the session allows, and leaves the requests of every other
  -- repository as they were; it is counted.
  pub allows-clear_repo :
      (io : PersistIo) (key path path' e : String) (w : World)
      → (allows norm key path' (clear_repo io path w).1.policy e ≡ (
          if path == path'
          then not (norm e == "") && includes (names_of key w.policy.session) (norm e)
          else allows norm key path' w.policy e))
        × (w.policy.epoch < (clear_repo io path w).1.policy.epoch)
  unfolding allows clear_repo
  allows-clear_repo io key path path' e w =
      let cleared = persist-policy io (record w {
        policy = record w.policy { repo = delete path w.policy.repo; epoch = w.policy.epoch + 1 };
      }) in
      (
        rw cleared (ground (arith, names_of-delete path path' w.policy.repo)),
        rw cleared (omega arith),
      )

  every-All :
      (p : String → Bool) (es : List String) → (every p es ≡ true) ↔ All (λ e. p e ≡ true) es
  every-All p [] = ground arith
  every-All p (e ∷ es) = ground (arith, every-All p es)

  -- A request is approved without a prompt exactly when it has executables and every one of them
  -- is allowed; a request without executables never is.
  pub is_approved_iff :
      (key path : String) (es : List String) (p : ApprovalPolicy)
      → (is_approved norm key path es p ≡ true)
        ↔ ((es ≢ []) × All (λ e. allows norm key path p e ≡ true) es)
  unfolding is_approved
  is_approved_iff key path [] p = ((λ h. cc), λ h. absurd (h.0 refl))
  is_approved_iff key path (e ∷ es) p = (
    λ h. ((λ bad. cc), (every-All (allows norm key path p) (e ∷ es)).0 h),
    λ h. (every-All (allows norm key path p) (e ∷ es)).1 h.1,
  )
