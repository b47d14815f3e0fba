-- ===== src/Binding/Laws.antt =====
-- What a binding that is accepted has proved.
use discord_copilot_sdk.Base.{true, false, String, Option, some, string_eq, ◌≡◌, ◌↔◌, arith}
use discord_copilot_sdk.SessionStore.Record.{DevMode, local, worktree}
use discord_copilot_sdk.Binding.{Binding, BindingDeps, ok, has_branch, validate_binding}

-- Git has answered, and has named the repository.
abbrev pub Confirms : BindingDeps → String → Option String → Type 0
Confirms deps repo answer = (at : String) × (answer ≡ some at) × (deps.is_same_path at repo ≡ true)

-- What the mode asks of the working directory.
abbrev pub Fits : BindingDeps → Binding → DevMode → String → String → Type 0
Fits deps b local repo work =
    (deps.is_same_path work repo ≡ true)
    × (has_branch b.branch ≡ false)
    × Confirms deps repo (deps.top_level_of b.work_dir)
Fits deps b worktree repo work =
    (deps.is_strictly_inside work (deps.canon deps.worktree_root) ≡ true)
    × (has_branch b.branch ≡ true)
    × Confirms deps repo (deps.owner_of b.work_dir)

module _ (deps : BindingDeps) (b : Binding) where
  -- A binding is accepted exactly when its repository is a git repository inside the root and its
  -- directory fits its mode: in local mode the repository itself, without a branch, and its own
  -- top level by git; as a worktree inside the worktree root, with a branch, and owned by the
  -- repository by git. A failure of git is never a pass.
  pub validate_binding-ok_iff : (validate_binding deps b ≡ ok) ↔ (
      (deps.is_strictly_inside (deps.canon b.repo_path) (deps.canon deps.repos_root) ≡ true)
      × (deps.is_git_work_tree_root (deps.canon b.repo_path) ≡ true)
      × Fits deps b b.dev_mode (deps.canon b.repo_path) (deps.canon b.work_dir))
  unfolding validate_binding
  validate_binding-ok_iff = ground arith
