-- ===== src/Disk.antt =====
-- The atomic write that core/session-store.ts and core/channel-registry.ts share: a temporary file,
-- then a rename over the target that is retried through a transient failure. What the file system
-- answers is an argument of each write.
use discord_copilot_sdk.Base.{
  ℕ, suc, ℤ, Bool, true, false, ◌&&◌, ◌||◌, String, List, [], ◌∷◌, ◌==◌, if◌then◌else◌, string_eq,
}
use discord_copilot_sdk.Json.{Json, Content, parsed}

pub data RenameOutcome : Type 0 where
  renamed : RenameOutcome
  failed : String → RenameOutcome

-- The answers of the file system to one write, and the clock's.
pub record Io : Type 0 where
  pub now : ℤ
  pub mkdir_ok : Bool
  pub temp_ok : Bool
  pub rename : ℕ → RenameOutcome

unfoldable pub is_transient : String → Bool
is_transient code = code == "EPERM" || (code == "EACCES" || code == "EBUSY")

-- The waits in milliseconds between the attempts.
abbrev pub delays : List ℕ
delays = 5 ∷ 15 ∷ 30 ∷ 40 ∷ []

-- The loop of `renameWithRetry` from attempt `i` on; `false` stands for the exception.
unfoldable pub rename_from : (ℕ → RenameOutcome) → ℕ → List ℕ → Bool
rename_from rename i [] = elim (rename i) [ renamed ↦ true | failed code ↦ false ]
rename_from rename i (d ∷ ds) =
    let again = rename_from rename (suc i) ds in
    elim (rename i) [ renamed ↦ true | failed code ↦ if is_transient code then again else false ]

unfoldable pub rename_with_retry : (ℕ → RenameOutcome) → Bool
unfolding rename_from
rename_with_retry rename = rename_from rename 0 delays

-- `write`: the file holds the candidate, or what it held before.
unfoldable pub written : Io → Bool
unfolding rename_with_retry
written io = io.mkdir_ok && (io.temp_ok && rename_with_retry io.rename)

abbrev pub write : Io → Json → Content → Bool × Content
write io candidate disk = if written io then (true, parsed candidate) else (false, disk)
