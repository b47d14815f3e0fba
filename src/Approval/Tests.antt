-- ===== src/Approval/Tests.antt =====
-- The theorems on approvals at concrete inputs. The parameter `norm` knows one name in upper case.
use discord_copilot_sdk.Base.{
  ◌<◌, true, false, ◌&&◌, ◌||◌, not, String, List, [], ◌∷◌, ◌==◌, string_eq, if◌then◌else◌, ◌≡◌,
  ◌≢◌, ◌↔◌, All, refl, inl, inr, Bool-cases,
}
use discord_copilot_sdk.Json.{missing}
use discord_copilot_sdk.Effort.{includes}
use discord_copilot_sdk.Approval.{
  ApprovalPolicy, World, PersistIo, names_of, clear_repo, allows, is_approved, approve_for_repo,
}
use discord_copilot_sdk.Approval.{persist, repo_approvals, open_policy}
use discord_copilot_sdk.Approval.Stored.{
  approves, Act, for_session, ends_session, revises, revise, run, repo_approvals-reopened,
}
use discord_copilot_sdk.Approval.Laws.{allows-approve_for_repo, allows-clear_repo, is_approved_iff}

abbrev norm : String → String
norm s = if s == "GIT" then "git" else s

abbrev repo : String
repo = "/repo"

abbrev other : String
other = "/other"

abbrev thread : String
thread = "thread"

abbrev policy : ApprovalPolicy
policy = record { session = (thread, "npm" ∷ []) ∷ []; repo = (repo, "git" ∷ []) ∷ []; epoch = 0 }

abbrev world : World
world = record { policy = policy; disk = missing }

abbrev io : PersistIo
io = record { mkdir_ok = true; write_ok = false; left = missing }

allows-approve_for_repo_example :
    allows norm thread other (approve_for_repo norm io other "GIT" world).1.policy "git" ≡ (
      allows norm thread other world.policy "git"
      || (other == other && (not (norm "GIT" == "") && norm "GIT" == norm "git")))
allows-approve_for_repo_example =
    allows-approve_for_repo norm io thread other other "GIT" "git" world

allows-clear_repo_example :
    (allows norm thread repo (clear_repo io repo world).1.policy "git" ≡ (
      if repo == repo
      then not (norm "git" == "") && includes (names_of thread world.policy.session) (norm "git")
      else allows norm thread repo world.policy "git"))
    × (world.policy.epoch < (clear_repo io repo world).1.policy.epoch)
allows-clear_repo_example = allows-clear_repo norm io thread repo repo "git" world

is_approved_iff_example : (is_approved norm thread repo ("GIT" ∷ "npm" ∷ []) policy ≡ true) ↔ (
    (◌≢◌ {A = List String} ("GIT" ∷ "npm" ∷ []) [])
    × All (λ e. allows norm thread repo policy e ≡ true) ("GIT" ∷ "npm" ∷ []))
is_approved_iff_example = is_approved_iff norm thread repo ("GIT" ∷ "npm" ∷ []) policy

-- A grant whose write is lost, then a session's, then a revocation that is stored.
abbrev acts : List Act
acts = revises io (approves repo "GIT") ∷ for_session thread "npm" ∷ ends_session thread ∷ []

abbrev io_stored : PersistIo
io_stored = record io { write_ok = true }

norm_idem : (s : String) → norm (norm s) ≡ norm s
norm_idem s = elim (Bool-cases (s == "GIT")) [
  | inl upper ↦ rw upper refl
  | inr other ↦ rw other (rw other refl)
]

stored_now :
    (revise norm io_stored (approves other "GIT") (run norm acts (open_policy norm missing))).0
    ≡ true
unfolding revise approve_for_repo persist
stored_now = refl

repo_approvals-reopened_example :
    repo_approvals repo
      (open_policy norm
        (revise norm io_stored
          (approves other "GIT")
          (run norm acts (open_policy norm missing))).1.disk).policy
    ≡ repo_approvals repo
        (revise norm io_stored
          (approves other "GIT")
          (run norm acts (open_policy norm missing))).1.policy
repo_approvals-reopened_example =
    repo_approvals-reopened norm norm_idem missing acts io_stored (approves other "GIT") repo
      stored_now
