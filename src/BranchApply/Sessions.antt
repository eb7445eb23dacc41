-- ===== src/BranchApply/Sessions.antt =====
-- What a run of src/branch/apply.ts without the baseline can bring onto the current branch.
use patchlab.Common.{
  ◌≡◌, refl, sym, ap, ℕ, Text, codes, Bool, true, false, List, [], ◌∷◌, ◌++◌, Option, none, some,
  Result, ok, err, get, if◌then◌else◌, All, All-append, All-left, All-right, filterb-All, or_else,
}
use mathlib.Core.Path.{subst}
use patchlab.Manifest.{SandboxManifest}
use patchlab.BranchApply.{
  ApplyMode, cherry_pick, merge_commit, merge_squash, ApplyOptions, AppliedItem, ApplyConflict,
  Command, pick, apply_index, commit, Failure, Repository, Traced, Session, attempted, attempt,
  failure_message, compute_cherry_summary, read_current_branch,
}
use patchlab.BranchApply.Pick.{cherry_pick_candidates}
use patchlab.BranchApply.Merge.{
  branch_conflict, commit_failed, report_merge, commit_staged, with_diff, squash_excluding_baseline,
  collect_apply_candidates, by_mode, unless_rejected, apply_of, apply_patchlab_branch,
  staged_changes, no_branch, reject_unsupported_merge_combinations,
}
use patchlab.BranchApply.Parted.{
  picks, is_pending, EndsWith, all_done, stopped_on, Parts, cherry_pick_candidates-Parts,
}
use patchlab.BranchApply.Candidates.{IsSessionItem, collect_apply_candidates-IsSessionItem}

-- A command that brings nothing but the work of sessions
pub data IsSessionCommand (repository : Repository) (root branch baseline : Text)
    (sessions : List Session) (wanted : Option ℕ) : Command → Type 0 where
  picks_session :
      (item : AppliedItem)
      → IsSessionItem root sessions wanted item
      → IsSessionCommand repository root branch baseline sessions wanted (pick item.commit_sha)
  applies_diff :
      (diff : Text)
      → wanted ≡ none
      → repository.diff (baseline ++ codes ".." ++ branch) ≡ ok diff
      → IsSessionCommand repository root branch baseline sessions wanted (apply_index diff)
  commits_diff :
      (message : Text)
      → wanted ≡ none
      → IsSessionCommand repository root branch baseline sessions wanted (commit message)

module _ (repository : Repository) (root branch baseline : Text) (sessions : List Session)
    (wanted : Option ℕ) where
  -- All that ran is of the sessions.
  abbrev pub IsWithinSessions : List Command → Type 0
  IsWithinSessions = All (IsSessionCommand repository root branch baseline sessions wanted)

  picks-IsWithinSessions :
      (items : List AppliedItem)
      → All (IsSessionItem root sessions wanted) items
      → IsWithinSessions (picks items)
  picks-IsWithinSessions [] all = tt
  picks-IsWithinSessions (item ∷ items) (h, all) =
      (picks_session item h, picks-IsWithinSessions items all)

  failing-IsWithinSessions :
      (summary : Option (List Text)) (conflict : Option ApplyConflict) (left : List AppliedItem)
      (failing : List Command)
      → EndsWith summary conflict left failing
      → All (IsSessionItem root sessions wanted) left
      → IsWithinSessions failing
  failing-IsWithinSessions summary conflict left failing all_done all = tt
  failing-IsWithinSessions summary conflict left failing (stopped_on next others _ _ _) (h, all) =
      (picks_session next h, tt)

  Parts-IsWithinSessions :
      (summary : Option (List Text)) (candidates : List AppliedItem) (traced : Traced)
      → All (IsSessionItem root sessions wanted) candidates
      → Parts summary candidates traced
      → IsWithinSessions traced.1
  Parts-IsWithinSessions summary candidates (ok result, ran) all h =
      let split_all = subst (All (IsSessionItem root sessions wanted)) h.parted all in
      let applied_all = subst (All (IsSessionItem root sessions wanted)) (sym h.applied) (
        filterb-All (IsSessionItem root sessions wanted) (is_pending summary) h.dealt_with
          (All-left (IsSessionItem root sessions wanted) h.dealt_with h.left split_all)) in
      subst IsWithinSessions (sym h.commands) (
        All-append (IsSessionCommand repository root branch baseline sessions wanted)
          (picks result.applied) h.failing (picks-IsWithinSessions result.applied applied_all)
          (failing-IsWithinSessions summary result.conflict h.left h.failing h.ending
            (All-right (IsSessionItem root sessions wanted) h.dealt_with h.left split_all)))
  Parts-IsWithinSessions summary candidates (err message, ran) all h = absurd h

  attempt-IsWithinSessions :
      (command : Command) (ran : List Command) (failed : Failure → List Command → Traced)
      (next : List Command → Traced)
      → IsWithinSessions (ran ++ command ∷ [])
      → ((failure : Failure) → IsWithinSessions (failed failure (ran ++ command ∷ [])).1)
      → IsWithinSessions (next (ran ++ command ∷ [])).1
      → IsWithinSessions (attempt repository command ran failed next).1
  attempt-IsWithinSessions command ran failed next all stop go =
      elim (repository.run ran command)
        as (λ answer. IsWithinSessions (attempted answer (ran ++ command ∷ []) failed next).1) [
          | none ↦ go
          | some failure ↦ stop failure
        ]

  with_diff-IsWithinSessions :
      (candidates : List AppliedItem) (diff : Result Text Text)
      → wanted ≡ none
      → repository.diff (baseline ++ codes ".." ++ branch) ≡ diff
      → IsWithinSessions (with_diff repository branch candidates diff).1
  with_diff-IsWithinSessions candidates (err message) none_wanted h = tt
  with_diff-IsWithinSessions candidates (ok []) none_wanted h = tt
  with_diff-IsWithinSessions candidates (ok (c ∷ cs)) none_wanted h =
      let message = codes "Squash merge of " ++ branch ++ codes " (sessions only)" in
      let commands : IsWithinSessions (apply_index (c ∷ cs) ∷ commit message ∷ []) =
        (applies_diff (c ∷ cs) none_wanted h, (commits_diff message none_wanted, tt)) in
      attempt-IsWithinSessions (apply_index (c ∷ cs)) []
        (λ failure. branch_conflict merge_squash branch (failure_message failure))
        (commit_staged repository merge_squash branch candidates (codes "Squash is staged but ")
          message)
        (commands.0, tt) (λ failure. (commands.0, tt))
        (attempt-IsWithinSessions (commit message) (apply_index (c ∷ cs) ∷ [])
          (λ failure.
            branch_conflict merge_squash branch
              (codes "Squash is staged but " ++ commit_failed ++ failure_message failure))
          (report_merge repository merge_squash candidates) commands (λ failure. commands) commands)

  squash_excluding_baseline-IsWithinSessions :
      (candidates : List AppliedItem)
      → wanted ≡ none
      → IsWithinSessions (squash_excluding_baseline repository branch baseline candidates).1
  unfolding squash_excluding_baseline
  squash_excluding_baseline-IsWithinSessions candidates none_wanted =
      elim repository.is_staged
        as (λ staged.
          IsWithinSessions
            (if staged
              then (err staged_changes, [])
              else with_diff repository branch candidates
                  (repository.diff (baseline ++ codes ".." ++ branch))).1) [
                    | true ↦ tt
                    | false ↦
                        with_diff-IsWithinSessions candidates
                          (repository.diff (baseline ++ codes ".." ++ branch)) none_wanted refl
                  ]

-- Behind a combination that is not rejected, with a baseline that is not included
by_mode-IsWithinSessions :
    (repository : Repository) (root branch : Text) (c : ℕ) (cs : Text) (sessions : List Session)
    (wanted : Option ℕ) (mode : ApplyMode) (candidates : List AppliedItem)
    → reject_unsupported_merge_combinations mode wanted (some (c ∷ cs)) false ≡ none
    → All (IsSessionItem root sessions wanted) candidates
    → IsWithinSessions repository root branch
        (c ∷ cs)
        sessions
        wanted
        (by_mode repository branch mode (some (c ∷ cs)) false candidates).1
unfolding reject_unsupported_merge_combinations
by_mode-IsWithinSessions repository root branch c cs sessions wanted mode [] h all = tt
by_mode-IsWithinSessions repository root branch c cs sessions wanted cherry_pick (first ∷ rest) h
      all =
    Parts-IsWithinSessions repository root branch (c ∷ cs) sessions wanted
      (compute_cherry_summary repository (read_current_branch repository) branch) (first ∷ rest)
      (cherry_pick_candidates repository branch (first ∷ rest)) all
      (cherry_pick_candidates-Parts repository branch (first ∷ rest))
by_mode-IsWithinSessions repository root branch c cs sessions none merge_commit (first ∷ rest) h
      all =
    cc
by_mode-IsWithinSessions repository root branch c cs sessions (some n) merge_commit (first ∷ rest) h
      all =
    cc
by_mode-IsWithinSessions repository root branch c cs sessions none merge_squash (first ∷ rest) h
      all =
    squash_excluding_baseline-IsWithinSessions repository root branch (c ∷ cs) sessions none
      (first ∷ rest) refl
by_mode-IsWithinSessions repository root branch c cs sessions (some n) merge_squash (first ∷ rest) h
      all =
    cc

-- The baseline stays out unless it is asked for: on a patchlab with a baseline, a run of
-- `apply_patchlab_branch` without `include_baseline` never merges the branch. In every mode each command
-- that it runs picks a commit of one of the repository's sessions, of the session that was asked for
-- where one was, or applies the difference between baseline and branch and commits it, and the latter
-- only where no single session was asked for.
pub apply_patchlab_branch-IsWithinSessions :
    (repository : Repository) (manifest : SandboxManifest) (sessions : List Session)
    (root branch : Text) (options : ApplyOptions) (c : ℕ) (cs : Text)
    → get manifest.baseline_commit_shas root ≡ some (some (c ∷ cs))
    → options.include_baseline ≡ false
    → IsWithinSessions repository root branch
        (c ∷ cs)
        sessions
        options.session_number
        (apply_patchlab_branch repository (ok manifest) (ok sessions) root branch options).1
unfolding apply_patchlab_branch
apply_patchlab_branch-IsWithinSessions repository manifest sessions root branch options c cs
      has_baseline excluded =
    there repository.branch_exists
  where
    unrejected :
        (rejection : Option Text)
        → reject_unsupported_merge_combinations options.mode options.session_number
            (some (c ∷ cs))
            false
          ≡ rejection
        → IsWithinSessions repository root branch
            (c ∷ cs)
            sessions
            options.session_number
            (unless_rejected repository root branch
              (record options { include_baseline = false })
              (some (c ∷ cs))
              (ok sessions)
              rejection).1
    unrejected (some message) h = tt
    unrejected none h =
        by_mode-IsWithinSessions repository root branch c cs sessions options.session_number
          options.mode
          (collect_apply_candidates sessions root (some (c ∷ cs)) false options.session_number) h
          (collect_apply_candidates-IsSessionItem sessions root (some (c ∷ cs))
            options.session_number)

    there :
        (exists : Bool)
        → IsWithinSessions repository root branch
            (c ∷ cs)
            sessions
            options.session_number
            (if exists
              then apply_of repository root branch options (ok sessions) (ok manifest)
              else (err no_branch, [])).1
    there false = tt
    there true =
        subst
          (λ baseline.
            IsWithinSessions repository root branch (c ∷ cs) sessions options.session_number
              (unless_rejected repository root branch options baseline (ok sessions) (
                reject_unsupported_merge_combinations options.mode options.session_number baseline
                  options.include_baseline)).1)
          (sym (ap (λ t. or_else t none) has_baseline))
          (subst
            (λ include.
              IsWithinSessions repository root branch (c ∷ cs) sessions options.session_number
                (unless_rejected repository root branch
                  (record options { include_baseline = include }) (some (c ∷ cs)) (ok sessions)
                  (reject_unsupported_merge_combinations options.mode options.session_number
                    (some (c ∷ cs)) include)).1)
            (sym excluded)
            (unrejected
              (reject_unsupported_merge_combinations options.mode options.session_number
                (some (c ∷ cs)) false)
              refl))
