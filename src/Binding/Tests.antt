-- ===== src/Binding/Tests.antt =====
-- The theorem on bindings at a worktree that git confirms.
use discord_copilot_sdk.Base.{true, ◌||◌, none, some, ◌==◌, string_eq, ◌≡◌, ◌↔◌}
use discord_copilot_sdk.SessionStore.Record.{worktree}
use discord_copilot_sdk.Binding.{Binding, BindingDeps, ok, validate_binding}
use discord_copilot_sdk.Binding.Laws.{Fits, validate_binding-ok_iff}

abbrev deps : BindingDeps
deps = record {
  repos_root = "/repos";
  worktree_root = "/trees";
  canon = λ s. s;
  is_strictly_inside = λ a b. a == "/repos/a" || a == "/trees/t";
  is_git_work_tree_root = λ a. a == "/repos/a";
  is_same_path = λ a b. a == b;
  owner_of = λ a. some "/repos/a";
  top_level_of = λ a. none;
}

abbrev binding : Binding
binding = record {
  repo_path = "/repos/a";
  work_dir = "/trees/t";
  dev_mode = worktree;
  branch = some "session";
}

validate_binding-ok_iff_example : (validate_binding deps binding ≡ ok) ↔ (
    (deps.is_strictly_inside (deps.canon binding.repo_path) (deps.canon deps.repos_root) ≡ true)
    × (deps.is_git_work_tree_root (deps.canon binding.repo_path) ≡ true)
    × Fits deps binding binding.dev_mode
        (deps.canon binding.repo_path)
        (deps.canon binding.work_dir))
validate_binding-ok_iff_example = validate_binding-ok_iff deps binding
