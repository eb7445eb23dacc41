-- ===== src/BranchDelete/Outcomes.antt =====
-- What src/branch/delete.ts reports for the repositories of a patchlab.
use patchlab.Common.{
  ◌≡◌, refl, ap, ◌∙◌, Text, text_eq_iff, has, List, [], ◌∷◌, anyb, none, some, or_else, get,
  get-put, if◌then◌else◌, arith, not, ok,
}
use patchlab.Manifest.{SandboxManifest, manifest_repositories}
use patchlab.Manifest.Repositories.{lies_in, distinct_repositories_from_sources_lem}
use patchlab.BranchDelete.{
  error, missing, then_run, unless_skipped, Git, DeleteBranchOutcome, DeleteBranchOptions, Traced,
  unapplied_gate_skips_with_baseline, unapplied_gate_skips, delete_branch_in_one_repository,
  delete_branch_in_one_repository_without_manifest, Deletion, outcome_of, record_outcome,
  delete_in_each, nothing_deleted, delete_patchlab_branch, delete_patchlab_branch_in_repositories,
}

get-delete_in_each :
    (delete : Text → Traced DeleteBranchOutcome) (so_far : Deletion) (roots : List Text) (k : Text)
    → get (delete_in_each delete so_far roots).outcomes k
      ≡ (if has roots k then some (outcome_of (delete k).0) else get so_far.outcomes k)
unfolding delete_in_each has
get-delete_in_each delete so_far [] k = refl
get-delete_in_each delete so_far (root ∷ roots) k =
    get-delete_in_each delete (record_outcome so_far root (delete root)) roots k
    ∙ ground (
      arith,
      get-put so_far.outcomes root k (outcome_of (delete root).0),
      text_eq_iff root k,
      λ (e : root ≡ k). ap (λ t. outcome_of (delete t).0) e,
    )

-- Every repository in which a source lies gets an outcome, and no other: the one that its own deletion
-- ends with, or "skipped" where that throws. So no repository's failure loses another's outcome.
pub delete_patchlab_branch_outcomes :
    (git : Text → Git) (manifest : SandboxManifest) (branch : Text) (options : DeleteBranchOptions)
    (root : Text)
    → get (delete_patchlab_branch git manifest branch options).outcomes root ≡ (
        if anyb (lies_in root) manifest.sources
        then some
            (outcome_of (delete_branch_in_one_repository manifest (git root) root branch options).0)
        else none)
unfolding delete_patchlab_branch manifest_repositories get
delete_patchlab_branch_outcomes git manifest branch options root =
    get-delete_in_each
      (λ root. delete_branch_in_one_repository manifest (git root) root branch options)
      nothing_deleted (manifest_repositories manifest) root
    ∙ ap
        (λ t.
          if t
          then some (
              outcome_of
                (delete_branch_in_one_repository manifest (git root) root branch options).0)
          else none)
        ((distinct_repositories_from_sources_lem manifest.sources).1 root)

-- Where no repository has a baseline, the deletion by the manifest does what the deletion in an explicit
-- list does on the manifest's repositories.
pub delete_patchlab_branch-eq-in_repositories :
    (git : Text → Git) (manifest : SandboxManifest) (branch : Text) (options : DeleteBranchOptions)
    → ((root : Text) → or_else (get manifest.baseline_commit_shas root) none ≡ none)
    → delete_patchlab_branch git manifest branch options
      ≡ delete_patchlab_branch_in_repositories git branch (manifest_repositories manifest) options
unfolding delete_patchlab_branch delete_patchlab_branch_in_repositories
    delete_branch_in_one_repository delete_branch_in_one_repository_without_manifest
    unapplied_gate_skips
delete_patchlab_branch-eq-in_repositories git manifest branch options no_baseline = λ i.
    delete_in_each
      (λ root.
        if not (git root).is_reachable
        then (ok error, [])
        else if not (git root).branch_exists
        then (ok missing, [])
        else then_run (unless_skipped (git root) root) (
            unapplied_gate_skips_with_baseline (git root) root branch (no_baseline root i) options))
      nothing_deleted (manifest_repositories manifest)
