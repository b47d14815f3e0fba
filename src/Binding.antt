-- ===== src/Binding.antt =====
-- core/binding.ts: the proof that a working directory belongs to the repository that it claims.
-- What core/repo.ts and core/worktree.ts find out of the file system and of git is an argument.
pub mod Laws
mod Tests
use discord_copilot_sdk.Base.{
  Bool, true, false, not, String, Option, none, some, ◌==◌, string_eq, if◌then◌else◌,
}
use discord_copilot_sdk.SessionStore.Record.{DevMode, local, worktree}

pub record Binding : Type 0 where
  pub repo_path : String
  pub work_dir : String
  pub dev_mode : DevMode
  pub branch : Option String

-- The answers of the host: `canonicalPathOr`, `isStrictlyInside`, `isGitWorkTreeRoot`,
-- `pathRelation(a, b) === "same"`, and the two questions to git, where `none` is a rejection.
pub record BindingDeps : Type 0 where
  pub repos_root : String
  pub worktree_root : String
  pub canon : String → String
  pub is_strictly_inside : String → String → Bool
  pub is_git_work_tree_root : String → Bool
  pub is_same_path : String → String → Bool
  pub owner_of : String → Option String
  pub top_level_of : String → Option String

pub data BindingProblem : Type 0 where
  repo_outside_root repo_not_git local_workdir_mismatch local_has_branch : BindingProblem
  worktree_outside_root worktree_no_branch worktree_owner_mismatch : BindingProblem
  worktree_owner_unknown : BindingProblem

-- The detail of a refusal, a text for people, is left out.
pub data BindingVerdict : Type 0 where
  ok : BindingVerdict
  refused : BindingProblem → BindingVerdict

-- `if (b.branch)`
abbrev pub has_branch : Option String → Bool
has_branch none = false
has_branch (some s) = not (s == "")

-- An answer of git, compared with the repository.
abbrev check_owner : BindingDeps → String → Option String → BindingVerdict → BindingVerdict
check_owner deps repo none rest = refused worktree_owner_unknown
check_owner deps repo (some actual) rest =
    if deps.is_same_path actual repo then rest else refused worktree_owner_mismatch

abbrev validate_local : BindingDeps → Binding → String → String → BindingVerdict
validate_local deps b repo work =
    if not (deps.is_same_path work repo)
    then refused local_workdir_mismatch
    else check_owner deps repo (deps.top_level_of b.work_dir)
        (if has_branch b.branch then refused local_has_branch else ok)

abbrev validate_worktree : BindingDeps → Binding → String → String → BindingVerdict
validate_worktree deps b repo work =
    if not (deps.is_strictly_inside work (deps.canon deps.worktree_root))
    then refused worktree_outside_root
    else if not (has_branch b.branch)
    then refused worktree_no_branch
    else check_owner deps repo (deps.owner_of b.work_dir) ok

abbrev by_mode : BindingDeps → Binding → DevMode → String → String → BindingVerdict
by_mode deps b local repo work = validate_local deps b repo work
by_mode deps b worktree repo work = validate_worktree deps b repo work

unfoldable pub validate_binding : BindingDeps → Binding → BindingVerdict
validate_binding deps b =
    let repo = deps.canon b.repo_path in
    if not (deps.is_strictly_inside repo (deps.canon deps.repos_root))
    then refused repo_outside_root
    else if not (deps.is_git_work_tree_root repo)
    then refused repo_not_git
    else by_mode deps b b.dev_mode repo (deps.canon b.work_dir)
