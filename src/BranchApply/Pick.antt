-- ===== src/BranchApply/Pick.antt =====
-- The cherry-picks of src/branch/apply.ts.
use patchlab.Common.{Text, has, Bool, true, false, not, List, [], ◌∷◌, ◌++◌, Option, none, some, ok}
use patchlab.BranchApply.{
  cherry_pick, AppliedItem, Command, pick, Failure, Repository, Traced,
  detect_submodule_paths_in_commit, failure_message, read_current_branch, compute_cherry_summary,
  finished, stopped_at, attempt,
}

abbrev pub is_applied : Option (List Text) → AppliedItem → Bool
is_applied none candidate = false
is_applied (some unapplied) candidate = not (has unapplied candidate.commit_sha)

-- The variables of the loop over the candidates, and the commands so far
pub record Progress : Type 0 where
  pub applied : List AppliedItem
  pub skipped : List AppliedItem
  pub ran : List Command

abbrev pub skipped_next : AppliedItem → Progress → Progress
skipped_next candidate so_far = record so_far { skipped = so_far.skipped ++ candidate ∷ [] }

abbrev pub picked : AppliedItem → Progress → List Command → Progress
picked candidate so_far ran = record {
  applied = so_far.applied ++ candidate ∷ [];
  skipped = so_far.skipped;
  ran = ran;
}

abbrev pub pick_failed : Repository → AppliedItem → Progress → Failure → List Command → Traced
pick_failed repository candidate so_far failure ran = (
  ok (
      stopped_at cherry_pick so_far.applied so_far.skipped (record {
        session_number = candidate.session_number;
        commit_sha = candidate.commit_sha;
        submodule_paths = detect_submodule_paths_in_commit repository ran candidate.commit_sha;
        message = failure_message failure;
      })),
  ran,
)

unfoldable pub pick_each : Repository → Option (List Text) → Progress → List AppliedItem → Traced
pick_each repository summary so_far [] =
    (ok (finished cherry_pick so_far.applied so_far.skipped false), so_far.ran)
pick_each repository summary so_far (candidate ∷ candidates) = elim (is_applied summary candidate) [
  | true ↦ pick_each repository summary (skipped_next candidate so_far) candidates
  | false ↦
      attempt repository (pick candidate.commit_sha) so_far.ran
        (pick_failed repository candidate so_far)
        (λ ran. pick_each repository summary (picked candidate so_far ran) candidates)
]

abbrev pub nothing_yet : Progress
nothing_yet = record { applied = []; skipped = []; ran = [] }

unfoldable pub cherry_pick_candidates : Repository → (branch : Text) → List AppliedItem → Traced
unfolding pick_each
cherry_pick_candidates repository branch candidates =
    pick_each repository (compute_cherry_summary repository (read_current_branch repository) branch)
      nothing_yet candidates
