-- ===== src/BranchApply.antt =====
-- src/branch/apply.ts: the commits of a patchlab's branch brought onto the current branch, with
-- list_session_commits of src/branch/session_metadata.ts and detect_submodules of
-- src/branch/predicates.ts. `Repository` is what git answers; a command that changes the repository is
-- answered by what ran before it. A run gives what is returned or thrown, with these commands in order.
pub mod Candidates
pub mod Choice
pub mod Pick
pub mod Merge
pub mod Parted
pub mod Reported
pub mod Sessions
mod Tests
use patchlab.Common.{
  ℕ, zero, suc, Text, codes, text_eq, has, starts_with, split, trim, trim_start, drop, lower, Bool,
  true, false, not, ◌&&◌, ◌||◌, List, [], ◌∷◌, ◌++◌, map, Option, none, some, or_else, Result, ok,
  err, ◌>>=◌, Assoc, get, leb, ◌==◌, if◌then◌else◌, filterb, anyb, allb, find_first,
}
use patchlab.PathContainment.{ends_with_slash, slash, unify_separator}
use patchlab.Manifest.{SandboxManifest, manifest_repositories}
use patchlab.BranchDelete.{add, parse_unapplied_shas}

pub data ApplyMode : Type 0 where
  cherry_pick merge_commit merge_squash : ApplyMode

pub record ApplyOptions : Type 0 where
  pub session_number : Option ℕ
  pub mode : ApplyMode
  pub include_baseline : Bool

-- Skipped items are of the same type: their reason is always "already-applied".
pub record AppliedItem : Type 0 where
  pub session_number : Option ℕ
  pub commit_sha : Text

pub record ApplyConflict : Type 0 where
  pub session_number : Option ℕ
  pub commit_sha : Text
  pub submodule_paths : List Text
  pub message : Text

pub record ApplyResult : Type 0 where
  pub mode : ApplyMode
  pub applied : List AppliedItem
  pub skipped : List AppliedItem
  pub conflict : Option ApplyConflict
  pub merge_commit_sha : Option Text
  pub nothing_to_apply : Bool

-- The commands that change the repository
pub data Command : Type 0 where
  pick : (sha : Text) → Command
  apply_index : (diff : Text) → Command
  commit : (message : Text) → Command
  merge : (flag branch : Text) → Command

pub record Failure : Type 0 where
  pub stderr : Text
  pub stdout : Text

pub record Repository : Type 0 where
  pub branch_exists : Bool
  -- `git diff --cached --quiet` exits with another status than 0
  pub is_staged : Bool
  pub symbolic_ref : Option Text
  pub cherry : (upstream branch : Text) → Option Text
  pub diff : (range : Text) → Result Text Text
  -- none where the command succeeds
  pub run : List Command → Command → Option Failure
  pub head : List Command → Result Text Text
  pub gitmodules : List Command → Option Text
  pub diff_tree : List Command → (sha : Text) → Option Text

abbrev pub Traced : Type 0
Traced = Result Text ApplyResult × List Command

pub record Session : Type 0 where
  pub session_number : ℕ
  pub commit_shas : Assoc (Option Text)

abbrev pub nonempty_sha : Option (Option Text) → Option Text
nonempty_sha (some (some (c ∷ cs))) = some (c ∷ cs)
nonempty_sha _ = none

abbrev pub with_commit : ℕ → Option Text → List AppliedItem → List AppliedItem
with_commit session_number none rest = rest
with_commit session_number (some sha) rest =
    record { session_number = some session_number; commit_sha = sha } ∷ rest

-- Over the sessions of the archive
unfoldable pub list_session_commits : List Session → (repository_root : Text) → List AppliedItem
list_session_commits [] root = []
list_session_commits (session ∷ sessions) root =
    with_commit session.session_number (nonempty_sha (get session.commit_shas root))
      (list_session_commits sessions root)

abbrev is_line_terminator : ℕ → Bool
is_line_terminator c = c == 10 || c == 13 || c == 8232 || c == 8233

-- `\s*(.+)$` behind the equals sign; white space alone counts up to its last character.
abbrev last_of : Text → Text
last_of [] = []
last_of (c ∷ []) = c ∷ []
last_of (c ∷ d ∷ cs) = last_of (d ∷ cs)

abbrev submodule_value : Text → Text → Option Text
submodule_value rest [] =
    if anyb (λ c. not (is_line_terminator c)) (last_of rest) then some [] else none
submodule_value rest (c ∷ cs) =
    if allb (λ d. not (is_line_terminator d)) (c ∷ cs) then some (trim (c ∷ cs)) else none

abbrev after_equals : Text → Option Text
after_equals [] = none
after_equals (c ∷ cs) = if c == b'=' then submodule_value cs (trim_start cs) else none

-- `/^\s*path\s*=\s*(.+)$/`
unfoldable pub submodule_path : Text → Option Text
submodule_path line =
    let behind = trim_start line in
    if starts_with behind (codes "path") then after_equals (trim_start (drop 4 behind)) else none

abbrev with_path : Option Text → List Text → List Text
with_path none paths = paths
with_path (some path) paths = path ∷ paths

unfoldable pub submodule_paths_of : List Text → List Text
submodule_paths_of [] = []
submodule_paths_of (line ∷ lines) = with_path (submodule_path line) (submodule_paths_of lines)

-- none is that there is no .gitmodules.
unfoldable pub detect_submodules : Option Text → List Text
unfolding submodule_paths_of
detect_submodules none = []
detect_submodules (some content) = submodule_paths_of (split 10 content)

abbrev under_submodule : Text → Text → Bool
under_submodule changed_path submodule =
    text_eq changed_path submodule
    || starts_with changed_path
        (if ends_with_slash submodule then submodule else submodule ++ slash ∷ [])

-- `matched.add(submodule)` where the path lies in it
abbrev match_submodule : Text → List Text → Text → List Text
match_submodule changed_path matched submodule =
    if under_submodule changed_path submodule then add matched submodule else matched

unfoldable pub match_submodules : Text → List Text → List Text → List Text
match_submodules changed_path matched [] = matched
match_submodules changed_path matched (submodule ∷ submodules) =
    match_submodules changed_path (match_submodule changed_path matched submodule) submodules

unfoldable pub match_changed : List Text → List Text → List Text → List Text
match_changed known matched [] = matched
match_changed known matched (line ∷ lines) =
    match_changed known
      (if text_eq (trim line) [] then matched else match_submodules (trim line) matched known) lines

abbrev pub changed_submodules : List Text → Option Text → List Text
changed_submodules [] stdout = []
changed_submodules (known ∷ knowns) none = []
changed_submodules (known ∷ knowns) (some stdout) =
    match_changed (known ∷ knowns) [] (split 10 stdout)

-- `ran` is what ran before.
unfoldable pub detect_submodule_paths_in_commit :
    Repository → (ran : List Command) → (sha : Text) → List Text
unfolding detect_submodules match_changed match_submodules
detect_submodule_paths_in_commit repository ran sha =
    changed_submodules (detect_submodules (repository.gitmodules ran))
      (repository.diff_tree ran sha)

-- `stderr.trim() || stdout.trim()`
abbrev pub failure_message : Failure → Text
failure_message failure =
    if text_eq (trim failure.stderr) [] then trim failure.stdout else trim failure.stderr

unfoldable pub read_current_branch : Repository → Text
read_current_branch repository = elim repository.symbolic_ref [
  | none ↦ codes "HEAD"
  | some stdout ↦ trim stdout
]

-- The unapplied commits where `git cherry` succeeded; else `succeeded` is false.
unfoldable pub compute_cherry_summary :
    Repository → (upstream_ref branch_ref : Text) → Option (List Text)
compute_cherry_summary repository upstream_ref branch_ref =
    elim (repository.cherry upstream_ref branch_ref) [
      | none ↦ none
      | some stdout ↦ some (parse_unapplied_shas stdout)
    ]

abbrev pub finished :
    ApplyMode → (applied skipped : List AppliedItem) → (nothing : Bool) → ApplyResult
finished mode applied skipped nothing = record {
  mode = mode;
  applied = applied;
  skipped = skipped;
  conflict = none;
  merge_commit_sha = none;
  nothing_to_apply = nothing;
}

abbrev pub stopped_at :
    ApplyMode → (applied skipped : List AppliedItem) → ApplyConflict → ApplyResult
stopped_at mode applied skipped conflict = record {
  mode = mode;
  applied = applied;
  skipped = skipped;
  conflict = some conflict;
  merge_commit_sha = none;
  nothing_to_apply = false;
}

-- A command with `allow_failure`: what follows takes the commands that ran, this one too.
abbrev pub attempted :
    Option Failure
    → List Command
    → (failed : Failure → List Command → Traced) → (next : List Command → Traced) → Traced
attempted none ran failed next = next ran
attempted (some failure) ran failed next = failed failure ran

abbrev pub attempt :
    Repository
    → Command
    → List Command
    → (failed : Failure → List Command → Traced) → (next : List Command → Traced) → Traced
attempt repository command ran = attempted (repository.run ran command) (ran ++ command ∷ [])
