-- ===== src/Approval.antt =====
-- core/approval-policy.ts: the commands that are approved without a prompt, for a session in memory
-- or for a repository in a file. Sets and arrays of names are lists without repetition. The
-- normalization of a name, `s.trim().toLowerCase()`, goes by the tables of Unicode and is a
-- parameter.
pub mod Laws
pub mod Stored
mod Tests
use discord_copilot_sdk.Base.{
  ℕ, ◌+◌, Bool, true, false, ◌&&◌, ◌||◌, not, String, List, [], ◌∷◌, ◌++◌, Option, none, some, map,
  ◌==◌, or_else, if◌then◌else◌, string_eq, every,
}
use discord_copilot_sdk.Dict.{Dict, get, has, set, delete, keys}
use discord_copilot_sdk.Json.{
  Json, str, arr, obj, Items, nil, cons, Fields, end, field, items_of, Content, missing, unreadable,
  malformed, parsed,
}
use discord_copilot_sdk.Effort.{includes}

pub record ApprovalPolicy : Type 0 where
  pub session : Dict String (List String)
  pub repo : Dict String (List String)
  pub epoch : ℕ

-- The policy in memory, and its file.
pub record World : Type 0 where
  pub policy : ApprovalPolicy
  pub disk : Content

-- The answers of the file system to `persist`. The write is not atomic: `left` is what the file
-- holds when it has failed.
pub record PersistIo : Type 0 where
  pub mkdir_ok : Bool
  pub write_ok : Bool
  pub left : Content

abbrev pub render_rules : Dict String (List String) → Fields
render_rules [] = end
render_rules ((k, names) ∷ m) = field k (arr (items_of (map str names))) (render_rules m)

unfoldable pub persist : PersistIo → World → Bool × World
persist io w =
    if not io.mkdir_ok
    then (false, w)
    else if io.write_ok
    then (true, record w { disk = parsed (obj (render_rules w.policy.repo)) })
    else (false, record w { disk = io.left })

-- `if (!list.includes(n)) list.push(n)`, and `set.add(n)`.
unfoldable pub add_name : String → List String → List String
add_name n names = if includes names n then names else names ++ n ∷ []

-- `this.repo[repoPath] ?? []`
abbrev pub names_of : String → Dict String (List String) → List String
names_of key m = or_else (get key m) []

unfoldable pub clear_session : String → ApprovalPolicy → ApprovalPolicy
clear_session key p =
    if has key p.session
    then record p { session = delete key p.session; epoch = p.epoch + 1 }
    else p

abbrev pub session_approvals : String → ApprovalPolicy → List String
session_approvals key p = names_of key p.session

abbrev pub repo_approvals : String → ApprovalPolicy → List String
repo_approvals path p = names_of path p.repo

abbrev pub repo_keys : ApprovalPolicy → List String
repo_keys p = keys p.repo

unfoldable pub clear_repo : PersistIo → String → World → Bool × World
clear_repo io path w = persist io (record w {
  policy = record w.policy { repo = delete path w.policy.repo; epoch = w.policy.epoch + 1 };
})

unfoldable pub clear_all_repos : PersistIo → World → Bool × World
clear_all_repos io w =
    persist io (record w { policy = record w.policy { repo = []; epoch = w.policy.epoch + 1 } })

module _ (norm : String → String) where
  -- The test of one executable.
  unfoldable pub allows : String → String → ApprovalPolicy → String → Bool
  allows key path p e =
      not (norm e == "")
      && (includes (names_of key p.session) (norm e) || includes (names_of path p.repo) (norm e))

  unfoldable pub is_approved : String → String → List String → ApprovalPolicy → Bool
  is_approved key path [] p = false
  is_approved key path (e ∷ es) p = every (allows key path p) (e ∷ es)

  unfoldable pub approve_for_session : String → String → ApprovalPolicy → ApprovalPolicy
  approve_for_session key e p =
      if norm e == ""
      then p
      else record p { session = set key (add_name (norm e) (names_of key p.session)) p.session }

  unfoldable pub approve_for_repo : PersistIo → String → String → World → Bool × World
  approve_for_repo io path e w =
      if norm e == ""
      then (false, w)
      else persist io (record w {
        policy = record w.policy {
          repo = set path (add_name (norm e) (names_of path w.policy.repo)) w.policy.repo;
        };
      })

  abbrev pub strings : Items → List String
  strings nil = []
  strings (cons (str s) vs) = norm s ∷ strings vs
  strings (cons _ vs) = strings vs

  abbrev pub read_rules : Fields → Dict String (List String) → Dict String (List String)
  read_rules end m = m
  read_rules (field k (arr vs) fs) m = read_rules fs (set k (strings vs) m)
  read_rules (field k _ fs) m = read_rules fs m

  unfoldable pub load : Content → Dict String (List String)
  load (parsed (obj fs)) = read_rules fs []
  load _ = []

  -- The constructor.
  abbrev pub open_policy : Content → World
  open_policy disk = record {
    policy = record { session = []; repo = load disk; epoch = 0 };
    disk = disk;
  }
