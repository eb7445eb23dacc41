-- ===== src/BranchApply/Merge.antt =====
-- The merges of src/branch/apply.ts, and the whole of apply_patchlab_branch.
use patchlab.Common.{
  ℕ, Text, codes, Bool, true, false, not, ◌&&◌, List, [], ◌∷◌, ◌++◌, Option, none, some, or_else,
  Result, ok, err, get, ◌==◌, if◌then◌else◌, find_first,
}
use patchlab.Manifest.{SandboxManifest}
use patchlab.BranchApply.{
  ApplyMode, cherry_pick, merge_commit, merge_squash, ApplyOptions, AppliedItem, ApplyResult,
  Command, apply_index, commit, merge, Repository, Traced, Session, list_session_commits,
  failure_message, finished, stopped_at, attempt,
}
use patchlab.BranchApply.Pick.{cherry_pick_candidates}

-- A conflict of the branch as a whole, after the commands
abbrev pub branch_conflict : ApplyMode → (branch message : Text) → List Command → Traced
branch_conflict mode branch message ran = (
  ok (
      stopped_at mode [] [] (record {
        session_number = none;
        commit_sha = branch;
        submodule_paths = [];
        message = message;
      })),
  ran,
)

-- The last command, `rev_parse`
abbrev pub merged_at : ApplyMode → List AppliedItem → Result Text Text → Result Text ApplyResult
merged_at mode candidates (err message) = err message
merged_at mode candidates (ok sha) = ok (record {
  mode = mode;
  applied = candidates;
  skipped = [];
  conflict = none;
  merge_commit_sha = some sha;
  nothing_to_apply = false;
})

abbrev pub report_merge : Repository → ApplyMode → List AppliedItem → List Command → Traced
report_merge repository mode candidates ran = (merged_at mode candidates (repository.head ran), ran)

abbrev pub commit_failed : Text
commit_failed = codes "git commit failed (commit hook, GPG, or identity not set): "

-- The commit of what is staged
abbrev pub commit_staged :
    Repository
    → ApplyMode
    → (branch : Text) → List AppliedItem
    → (prefix message : Text) → List Command
    → Traced
commit_staged repository mode branch candidates prefix message ran =
    attempt repository (commit message) ran
      (λ failure. branch_conflict mode branch (prefix ++ commit_failed ++ failure_message failure))
      (report_merge repository mode candidates)

-- Behind the diff
abbrev pub squash_diff : Repository → (branch : Text) → List AppliedItem → (diff : Text) → Traced
squash_diff repository branch candidates [] = (ok (finished merge_squash [] [] true), [])
squash_diff repository branch candidates (c ∷ cs) =
    attempt repository (apply_index (c ∷ cs)) []
      (λ failure. branch_conflict merge_squash branch (failure_message failure))
      (commit_staged repository merge_squash branch candidates (codes "Squash is staged but ")
        (codes "Squash merge of " ++ branch ++ codes " (sessions only)"))

abbrev pub staged_changes : Text
staged_changes = codes "Refusing to squash-merge"

abbrev pub with_diff : Repository → (branch : Text) → List AppliedItem → Result Text Text → Traced
with_diff repository branch candidates (err message) = (err message, [])
with_diff repository branch candidates (ok diff) = squash_diff repository branch candidates diff

unfoldable pub squash_excluding_baseline :
    Repository → (branch baseline_commit_sha : Text) → List AppliedItem → Traced
squash_excluding_baseline repository branch baseline candidates =
    if repository.is_staged
    then (err staged_changes, [])
    else with_diff repository branch candidates (repository.diff (baseline ++ codes ".." ++ branch))

abbrev pub merge_flag : ApplyMode → Text
merge_flag merge_commit = codes "--no-ff"
merge_flag _ = codes "--squash"

-- Behind a merge that succeeded
abbrev pub after_merge :
    Repository → (branch : Text) → ApplyMode → List AppliedItem → List Command → Traced
after_merge repository branch merge_squash candidates ran =
    commit_staged repository merge_squash branch candidates (codes "Merge is staged but ")
      (codes "Squash merge of " ++ branch) ran
after_merge repository branch mode candidates ran = report_merge repository mode candidates ran

unfoldable pub merge_patchlab_branch :
    Repository → (branch : Text) → ApplyMode → List AppliedItem → Traced
merge_patchlab_branch repository branch mode candidates =
    attempt repository (merge (merge_flag mode) branch) []
      (λ failure. branch_conflict mode branch (failure_message failure))
      (after_merge repository branch mode candidates)

-- `if (baseline_commit_sha)`
abbrev pub present : Option Text → Option Text
present (some (c ∷ cs)) = some (c ∷ cs)
present _ = none

abbrev pub is_present : Option Text → Bool
is_present (some (c ∷ cs)) = true
is_present _ = false

abbrev pub session_in_merge : Text
session_in_merge = codes "--session N is only supported in cherry-pick mode"

abbrev pub needs_include_baseline : Text
needs_include_baseline = codes "--merge=commit requires --include-baseline"

abbrev pub no_branch : Text
no_branch = codes "Patchlab branch does not exist"

-- What is thrown, if anything is
unfoldable pub reject_unsupported_merge_combinations :
    ApplyMode → Option ℕ → Option Text → (include_baseline : Bool) → Option Text
reject_unsupported_merge_combinations cherry_pick session_number baseline include_baseline = none
reject_unsupported_merge_combinations mode (some n) baseline include_baseline =
    some session_in_merge
reject_unsupported_merge_combinations merge_commit none baseline include_baseline =
    if not include_baseline && is_present baseline then some needs_include_baseline else none
reject_unsupported_merge_combinations merge_squash none baseline include_baseline = none

abbrev pub baseline_candidate : Bool → Option Text → List AppliedItem
baseline_candidate true (some (c ∷ cs)) = record { session_number = none; commit_sha = c ∷ cs } ∷ []
baseline_candidate _ baseline = []

abbrev pub is_session : ℕ → AppliedItem → Bool
is_session n item = elim item.session_number [ none ↦ false | some m ↦ m == n ]

abbrev pub found_session : Option AppliedItem → List AppliedItem
found_session none = []
found_session (some target) = target ∷ []

unfoldable pub collect_apply_candidates :
    List Session
    → (repository_root : Text) → Option Text
    → (include_baseline : Bool) → Option ℕ
    → List AppliedItem
unfolding list_session_commits
collect_apply_candidates sessions root baseline include_baseline none =
    baseline_candidate include_baseline baseline ++ list_session_commits sessions root
collect_apply_candidates sessions root baseline include_baseline (some n) =
    baseline_candidate include_baseline baseline
    ++ found_session (find_first (is_session n) (list_session_commits sessions root))

abbrev pub by_mode :
    Repository
    → (branch : Text) → ApplyMode
    → Option Text
    → (include_baseline : Bool) → List AppliedItem
    → Traced
by_mode repository branch mode baseline include_baseline [] = (ok (finished mode [] [] true), [])
by_mode repository branch cherry_pick baseline include_baseline candidates =
    cherry_pick_candidates repository branch candidates
by_mode repository branch merge_commit baseline include_baseline candidates =
    merge_patchlab_branch repository branch merge_commit candidates
by_mode repository branch merge_squash (some (c ∷ cs)) false candidates =
    squash_excluding_baseline repository branch (c ∷ cs) candidates
by_mode repository branch merge_squash baseline include_baseline candidates =
    merge_patchlab_branch repository branch merge_squash candidates

abbrev pub apply_sessions :
    Repository
    → (root branch : Text) → ApplyOptions
    → Option Text
    → Result Text (List Session)
    → Traced
apply_sessions repository root branch options baseline (err message) = (err message, [])
apply_sessions repository root branch options baseline (ok sessions) =
    by_mode repository branch options.mode baseline options.include_baseline (
      collect_apply_candidates sessions root baseline options.include_baseline
        options.session_number)

abbrev pub unless_rejected :
    Repository
    → (root branch : Text) → ApplyOptions
    → Option Text
    → Result Text (List Session)
    → (rejection : Option Text) → Traced
unless_rejected repository root branch options baseline sessions (some message) = (err message, [])
unless_rejected repository root branch options baseline sessions none =
    apply_sessions repository root branch options baseline sessions

abbrev pub apply_of :
    Repository
    → (root branch : Text) → ApplyOptions
    → Result Text (List Session)
    → Result Text SandboxManifest
    → Traced
apply_of repository root branch options sessions (err message) = (err message, [])
apply_of repository root branch options sessions (ok manifest) =
    let baseline = or_else (get manifest.baseline_commit_shas root) none in
    unless_rejected repository root branch options baseline sessions (
      reject_unsupported_merge_combinations options.mode options.session_number baseline
        options.include_baseline)

-- `manifest` and `sessions` are what read_manifest and read_archive return or throw.
unfoldable pub apply_patchlab_branch :
    Repository
    → (manifest : Result Text SandboxManifest) → (sessions : Result Text (List Session))
    → (root branch : Text) → ApplyOptions
    → Traced
apply_patchlab_branch repository manifest sessions root branch options =
    if repository.branch_exists
    then apply_of repository root branch options sessions manifest
    else (err no_branch, [])
