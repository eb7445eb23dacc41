-- ===== src/BranchDelete.antt =====
-- src/branch/delete.ts: the deletion of a patchlab's branches, and the commits that stand against it.
-- `Git` is what git answers in one repository. A run gives what is returned or thrown, with the
-- actions in their order; a message is the text of what was thrown. The answers of a repository stay
-- the same during a run, so a list of repositories is taken to name none twice.
pub mod Gate
pub mod Outcomes
mod Tests
pub mod Unapplied
use patchlab.Common.{
  ℕ, Text, codes, text_eq, has, split, trim, trim_start, is_digit, is_space, Bool, true, false, not,
  ◌&&◌, ◌||◌, List, [], ◌∷◌, ◌++◌, Option, none, some, or_else, Result, ok, err, Assoc, get, put,
  leb, ◌==◌, if◌then◌else◌, length, filterb,
}
use patchlab.Manifest.{SandboxManifest, manifest_repositories}

-- Where a command may exit with another status than 0, its output is there on status 0 only.
pub record Git : Type 0 where
  -- the path exists and `get_repository_root` does not throw
  pub is_reachable : Bool
  pub branch_exists : Bool
  pub log : Option Text
  pub refs : Result Text Text
  pub cherry : (other : Text) → Option Text
  -- none where `git branch -D` succeeds
  pub delete_failure : Option Text

pub data DeleteBranchOutcome : Type 0 where
  deleted skipped missing error : DeleteBranchOutcome

-- Absent options are those without force and without a hook.
pub record DeleteBranchOptions : Type 0 where
  pub force : Bool
  pub confirm : Option ((repository_root : Text) → (unapplied_count : ℕ) → Result Text Bool)

pub data Action : Type 0 where
  branch_deleted : (repository_root : Text) → Action
  warned_unverified : (repository_root message : Text) → Action
  warned_failed : (repository_root message : Text) → Action

abbrev newline : ℕ
newline = 10

-- `set.add(sha)`
abbrev pub add : List Text → Text → List Text
add shas sha = if has shas sha then shas else shas ++ sha ∷ []

abbrev is_hex : ℕ → Bool
is_hex c = is_digit c || (leb b'a' c && leb c b'f')

-- `[0-9a-f]+`, as far as it goes
unfoldable pub hex_prefix : Text → Text
hex_prefix [] = []
hex_prefix (c ∷ cs) = let rest = hex_prefix cs in if is_hex c then c ∷ rest else []

-- Behind the plus sign: `\s+([0-9a-f]+)`
unfoldable pub spaced_sha : Text → Text
unfolding hex_prefix
spaced_sha [] = []
spaced_sha (c ∷ cs) = if is_space c then hex_prefix (trim_start cs) else []

-- The sha of a line with a plus sign, empty where the pattern does not match
unfoldable pub unapplied_sha : Text → Text
unfolding spaced_sha
unapplied_sha [] = []
unapplied_sha (c ∷ cs) = if c == b'+' then spaced_sha cs else []

abbrev pub add_nonempty : List Text → Text → List Text
add_nonempty shas [] = shas
add_nonempty shas (c ∷ cs) = add shas (c ∷ cs)

-- The loop over the lines, where `sha_of` is the sha on a line
unfoldable pub add_lines : (Text → Text) → List Text → List Text → List Text
add_lines sha_of shas [] = shas
add_lines sha_of shas (line ∷ lines) = add_lines sha_of (add_nonempty shas (sha_of line)) lines

unfoldable pub parse_unapplied_shas : Text → List Text
unfolding add_lines
parse_unapplied_shas cherry_output = add_lines unapplied_sha [] (split newline cherry_output)

unfoldable pub parse_branch_commit_list : Text → List Text
unfolding add_lines
parse_branch_commit_list log_output = add_lines trim [] (split newline log_output)

-- The names behind `filter(Boolean)`, without the excluded one
unfoldable pub other_branches : Text → List Text → List Text
other_branches exclude [] = []
other_branches exclude (line ∷ lines) =
    let rest = other_branches exclude lines in
    let name = trim line in
    if text_eq name [] then rest else if text_eq name exclude then rest else name ∷ rest

unfoldable pub list_other_local_branches : Git → Text → Result Text (List Text)
unfolding other_branches
list_other_local_branches git exclude = elim git.refs [
  | err message ↦ err message
  | ok stdout ↦ ok (other_branches exclude (split newline stdout))
]

-- `intersection` after one comparison, which counts where it succeeded
abbrev pub intersect : Option (List Text) → Option Text → Option (List Text)
intersect intersection none = intersection
intersect none (some stdout) = some (parse_unapplied_shas stdout)
intersect (some shas) (some stdout) = some (filterb (has (parse_unapplied_shas stdout)) shas)

unfoldable pub intersect_all :
    (Text → Option Text) → Option (List Text) → List Text → Option (List Text)
intersect_all cherry intersection [] = intersection
intersect_all cherry intersection (other ∷ others) =
    intersect_all cherry (intersect intersection (cherry other)) others

unfoldable pub compute_unapplied_intersection : Git → List Text → Option (List Text)
unfolding intersect_all
compute_unapplied_intersection git others = intersect_all git.cherry none others

-- `if (baseline_commit_sha) { unapplied.delete(baseline_commit_sha) }`
abbrev pub is_baseline : Option Text → Text → Bool
is_baseline none sha = false
is_baseline (some []) sha = false
is_baseline (some (c ∷ cs)) sha = text_eq sha (c ∷ cs)

abbrev pub log_failed : Text
log_failed = codes "Cannot enumerate commits"

abbrev pub without_baseline : Option Text → List Text → List Text
without_baseline baseline shas = filterb (λ sha. not (is_baseline baseline sha)) shas

abbrev pub exclusive_commits : Git → Text → List Text → List Text
exclusive_commits git log_output others =
    or_else (compute_unapplied_intersection git others) (parse_branch_commit_list log_output)

abbrev pub commits_beyond :
    Git → Text → Option Text → Result Text (List Text) → Result Text (List Text)
commits_beyond git log_output baseline (err message) = err message
commits_beyond git log_output baseline (ok others) =
    ok (without_baseline baseline (exclusive_commits git log_output others))

abbrev pub commits_of : Git → Text → Option Text → Option Text → Result Text (List Text)
commits_of git branch baseline none = err log_failed
commits_of git branch baseline (some log_output) =
    commits_beyond git log_output baseline (list_other_local_branches git branch)

unfoldable pub unapplied_session_commits : Git → Text → Option Text → Result Text (List Text)
unapplied_session_commits git branch baseline =
    if git.branch_exists then commits_of git branch baseline git.log else ok []

abbrev pub Traced : Type 0 → Type 0
Traced A = Result Text A × List Action

abbrev pub then_run : {A B : Type 0} → (A → Traced B) → Traced A → Traced B
then_run next (err message, actions) = (err message, actions)
then_run next (ok value, actions) = ((next value).0, actions ++ (next value).1)

abbrev pub opposite : Result Text Bool → Result Text Bool
opposite (ok proceed) = ok (not proceed)
opposite (err message) = err message

-- Past the check of `force`
abbrev pub gate_on :
    Option (Text → ℕ → Result Text Bool) → Text → Result Text (List Text) → Traced Bool
gate_on confirm root (err message) = (ok true, warned_unverified root message ∷ [])
gate_on confirm root (ok []) = (ok false, [])
gate_on none root (ok (sha ∷ shas)) = (ok true, [])
gate_on (some ask) root (ok (sha ∷ shas)) = (opposite (ask root (length (sha ∷ shas))), [])

unfoldable pub unapplied_gate_skips_with_baseline :
    Git → (root branch : Text) → Option Text → DeleteBranchOptions → Traced Bool
unapplied_gate_skips_with_baseline git root branch baseline options =
    if options.force
    then (ok false, [])
    else gate_on options.confirm root (unapplied_session_commits git branch baseline)

unfoldable pub unapplied_gate_skips :
    SandboxManifest → Git → (root branch : Text) → DeleteBranchOptions → Traced Bool
unfolding unapplied_gate_skips_with_baseline
unapplied_gate_skips manifest git root branch options =
    unapplied_gate_skips_with_baseline git root branch
      (or_else (get manifest.baseline_commit_shas root) none) options

-- `git branch -D`
abbrev pub delete_with : Option Text → Text → Traced DeleteBranchOutcome
delete_with none root = (ok deleted, branch_deleted root ∷ [])
delete_with (some message) root = (err message, [])

abbrev pub delete_branch : Git → Text → Traced DeleteBranchOutcome
delete_branch git root = delete_with git.delete_failure root

abbrev pub unless_skipped : Git → Text → Bool → Traced DeleteBranchOutcome
unless_skipped git root true = (ok skipped, [])
unless_skipped git root false = delete_branch git root

unfoldable pub delete_branch_in_one_repository :
    SandboxManifest → Git → (root branch : Text) → DeleteBranchOptions → Traced DeleteBranchOutcome
unfolding unapplied_gate_skips
delete_branch_in_one_repository manifest git root branch options =
    if not git.is_reachable
    then (ok error, [])
    else if not git.branch_exists
    then (ok missing, [])
    else then_run (unless_skipped git root) (unapplied_gate_skips manifest git root branch options)

unfoldable pub delete_branch_in_one_repository_without_manifest :
    Git → (root branch : Text) → DeleteBranchOptions → Traced DeleteBranchOutcome
unfolding unapplied_gate_skips_with_baseline
delete_branch_in_one_repository_without_manifest git root branch options =
    if not git.is_reachable
    then (ok error, [])
    else if not git.branch_exists
    then (ok missing, [])
    else then_run (unless_skipped git root)
        (unapplied_gate_skips_with_baseline git root branch none options)

pub record Deletion : Type 0 where
  pub outcomes : Assoc DeleteBranchOutcome
  pub actions : List Action

-- What is entered for a repository, and the warning where something was thrown
abbrev pub outcome_of : Result Text DeleteBranchOutcome → DeleteBranchOutcome
outcome_of (ok outcome) = outcome
outcome_of (err message) = skipped

abbrev pub failure_of : Text → Result Text DeleteBranchOutcome → List Action
failure_of root (ok outcome) = []
failure_of root (err message) = warned_failed root message ∷ []

abbrev pub record_outcome : Deletion → Text → Traced DeleteBranchOutcome → Deletion
record_outcome so_far root (result, actions) = record {
  outcomes = put so_far.outcomes root (outcome_of result);
  actions = so_far.actions ++ (actions ++ failure_of root result);
}

-- The loop over the repositories, with what one iteration runs
unfoldable pub delete_in_each :
    (Text → Traced DeleteBranchOutcome) → Deletion → List Text → Deletion
delete_in_each delete so_far [] = so_far
delete_in_each delete so_far (root ∷ repositories) =
    delete_in_each delete (record_outcome so_far root (delete root)) repositories

abbrev pub nothing_deleted : Deletion
nothing_deleted = record { outcomes = []; actions = [] }

-- `git` gives the answers in each repository.
unfoldable pub delete_patchlab_branch :
    (git : Text → Git) → SandboxManifest → (branch : Text) → DeleteBranchOptions → Deletion
unfolding delete_in_each
delete_patchlab_branch git manifest branch options =
    delete_in_each (λ root. delete_branch_in_one_repository manifest (git root) root branch options)
      nothing_deleted (manifest_repositories manifest)

unfoldable pub delete_patchlab_branch_in_repositories :
    (git : Text → Git) → (branch : Text) → List Text → DeleteBranchOptions → Deletion
unfolding delete_in_each
delete_patchlab_branch_in_repositories git branch repository_roots options =
    delete_in_each
      (λ root. delete_branch_in_one_repository_without_manifest (git root) root branch options)
      nothing_deleted repository_roots
