-- ===== src/BranchDelete/Gate.antt =====
-- When src/branch/delete.ts deletes the branch of a repository.
use patchlab.Common.{
  ◌≡◌, ◌≢◌, refl, sym, ap, ◌∙◌, ℕ, Text, Bool, true, false, not, List, [], ◌∷◌, ◌++◌, Option, none,
  some, or_else, Result, ok, err, get, length, if◌then◌else◌, arith, append-nil,
}
use mathlib.Core.Path.{subst}
use patchlab.Manifest.{SandboxManifest}
use patchlab.BranchDelete.{
  Git, DeleteBranchOutcome, deleted, skipped, missing, error, DeleteBranchOptions, Action,
  branch_deleted, warned_unverified, warned_failed, Traced, then_run, opposite, gate_on,
  unapplied_session_commits, unapplied_gate_skips_with_baseline, unapplied_gate_skips, delete_with,
  delete_branch, unless_skipped, delete_branch_in_one_repository,
}

-- Whether the branch was deleted among the actions
abbrev pub deletes : List Action → Bool
deletes [] = false
deletes (branch_deleted _ ∷ actions) = true
deletes (warned_unverified _ _ ∷ actions) = deletes actions
deletes (warned_failed _ _ ∷ actions) = deletes actions

-- What entitles a run to delete a branch: it is forced, or all commits were found to be applied, or the
-- user was asked about the commits that are not, in that number, and agreed.
pub data IsEntitled (options : DeleteBranchOptions) (root : Text) (found : Result Text (List Text))
    : Type 0 where
  forced : options.force ≡ true → IsEntitled options root found
  all_applied : found ≡ ok [] → IsEntitled options root found
  agreed :
      (ask : Text → ℕ → Result Text Bool) (shas : List Text)
      → options.confirm ≡ some ask
      → found ≡ ok shas
      → ask root (length shas) ≡ ok true
      → IsEntitled options root found

gate_on-IsEntitled :
    (options : DeleteBranchOptions) (root : Text) (confirm : Option (Text → ℕ → Result Text Bool))
    (found : Result Text (List Text)) (actions : List Action)
    → options.confirm ≡ confirm
    → gate_on confirm root found ≡ (ok false, actions)
    → IsEntitled options root found × (actions ≡ [])
gate_on-IsEntitled options root confirm (err message) actions e h = cc
gate_on-IsEntitled options root confirm (ok []) actions e h = (all_applied refl, ground (arith, h))
gate_on-IsEntitled options root none (ok (sha ∷ shas)) actions e h = cc
gate_on-IsEntitled options root (some ask) (ok (sha ∷ shas)) actions e h =
    answered (ask root (length (sha ∷ shas))) refl h
  where
    answered :
        (answer : Result Text Bool)
        → ask root (length (sha ∷ shas)) ≡ answer
        → ◌≡◌ {A = Traced Bool} (opposite answer, []) (ok false, actions)
        → IsEntitled options root (ok (sha ∷ shas)) × (actions ≡ [])
    answered (err message) q h = cc
    answered (ok true) q h =
        (agreed ask (sha ∷ shas) e refl q, sym (ap (λ (t : Traced Bool). t.1) h))
    answered (ok false) q h = cc

gate-IsEntitled :
    (git : Git) (root branch : Text) (baseline : Option Text) (options : DeleteBranchOptions)
    (actions : List Action)
    → unapplied_gate_skips_with_baseline git root branch baseline options ≡ (ok false, actions)
    → IsEntitled options root (unapplied_session_commits git branch baseline) × (actions ≡ [])
unfolding unapplied_gate_skips_with_baseline
gate-IsEntitled git root branch baseline options actions h = decide options.force refl h
  where
    found : Result Text (List Text)
    found = unapplied_session_commits git branch baseline

    decide :
        (force : Bool)
        → options.force ≡ force
        → ◌≡◌ {A = Traced Bool}
            (if force then (ok false, []) else gate_on options.confirm root found)
            (ok false, actions)
        → IsEntitled options root found × (actions ≡ [])
    decide true e h = (forced e, sym (ap (λ (t : Traced Bool). t.1) h))
    decide false e h = gate_on-IsEntitled options root options.confirm found actions refl h

gate_on_silent :
    (confirm : Option (Text → ℕ → Result Text Bool)) (root : Text) (found : Result Text (List Text))
    → deletes (gate_on confirm root found).1 ≡ false
gate_on_silent confirm root (err message) = refl
gate_on_silent confirm root (ok []) = refl
gate_on_silent none root (ok (sha ∷ shas)) = refl
gate_on_silent (some ask) root (ok (sha ∷ shas)) = refl

-- The gate itself deletes nothing.
gate_silent :
    (git : Git) (root branch : Text) (baseline : Option Text) (options : DeleteBranchOptions)
    → deletes (unapplied_gate_skips_with_baseline git root branch baseline options).1 ≡ false
unfolding unapplied_gate_skips_with_baseline
gate_silent git root branch baseline options = decide options.force
  where
    decide :
        (force : Bool)
        → deletes
            (if force
              then (ok false, [])
              else gate_on options.confirm root (unapplied_session_commits git branch baseline)).1
          ≡ false
    decide true = refl
    decide false =
        gate_on_silent options.confirm root (unapplied_session_commits git branch baseline)

-- What a deletion of one repository's branch amounts to: the branch is deleted exactly where that is
-- the outcome, and only with title to it.
pub record IsGuarded (git : Git) (options : DeleteBranchOptions) (root : Text)
    (found : Result Text (List Text)) (run : Traced DeleteBranchOutcome) : Type 0 where
  pub sound : deletes run.1 ≡ true → run.0 ≡ ok deleted
  pub complete : run.0 ≡ ok deleted → deletes run.1 ≡ true
  pub entitled :
      deletes run.1 ≡ true
      → (git.is_reachable ≡ true) × ((git.branch_exists ≡ true) × IsEntitled options root found)

module _ (git : Git) (options : DeleteBranchOptions) (root : Text)
    (found : Result Text (List Text)) where
  -- A run that does not come to the deletion
  undeleted-IsGuarded :
      (run : Traced DeleteBranchOutcome)
      → deletes run.1 ≡ false
      → run.0 ≢ ok deleted
      → IsGuarded git options root found run
  undeleted-IsGuarded run none_deleted other = record {
    sound = λ h. absurd (clash h);
    complete = λ e. absurd (other e);
    entitled = λ h. absurd (clash h);
  }
    where
      clash : deletes run.1 ≡ true → ⊥
      clash h = let bad = sym h ∙ none_deleted in cc

  gated-IsGuarded :
      (gate : Traced Bool)
      → deletes gate.1 ≡ false
      → ((actions : List Action)
          → gate ≡ (ok false, actions)
          → IsEntitled options root found × (actions ≡ []))
      → git.is_reachable ≡ true
      → git.branch_exists ≡ true
      → IsGuarded git options root found (then_run (unless_skipped git root) gate)
  gated-IsGuarded (err message, actions) silent title reach exists =
      undeleted-IsGuarded (err message, actions) silent (λ e. cc)
  gated-IsGuarded (ok true, actions) silent title reach exists =
      undeleted-IsGuarded (ok skipped, actions ++ []) (ap deletes (append-nil actions) ∙ silent)
        (λ e. cc)
  gated-IsGuarded (ok false, actions) silent title reach exists =
      let (entitled, none_before) = title actions refl in
      subst
        (λ (before : List Action).
          IsGuarded git options root found
            ((delete_branch git root).0, before ++ (delete_branch git root).1))
        (sym none_before) (performed git.delete_failure entitled)
    where
      performed :
          (failure : Option Text)
          → IsEntitled options root found
          → IsGuarded git options root found
              ((delete_with failure root).0, (delete_with failure root).1)
      performed none entitled = record {
        sound = λ _. refl;
        complete = λ _. refl;
        entitled = λ _. (reach, (exists, entitled));
      }
      performed (some message) entitled = undeleted-IsGuarded (err message, []) refl (λ e. cc)

-- The branch of a repository is deleted exactly where that is reported, and only where the repository
-- is reachable, the branch exists, and the run is forced, or git showed every commit but the baseline
-- to be applied elsewhere, or the user agreed when asked about the number of those that are not. Where
-- git could not tell, the branch stays.
pub delete_branch_in_one_repository-IsGuarded :
    (manifest : SandboxManifest) (git : Git) (root branch : Text) (options : DeleteBranchOptions)
    → IsGuarded git options root
        (unapplied_session_commits git branch
          (or_else (get manifest.baseline_commit_shas root) none))
        (delete_branch_in_one_repository manifest git root branch options)
unfolding delete_branch_in_one_repository unapplied_gate_skips
delete_branch_in_one_repository-IsGuarded manifest git root branch options =
    decide git.is_reachable refl git.branch_exists refl
  where
    baseline : Option Text
    baseline = or_else (get manifest.baseline_commit_shas root) none

    found : Result Text (List Text)
    found = unapplied_session_commits git branch baseline

    gate : Traced Bool
    gate = unapplied_gate_skips_with_baseline git root branch baseline options

    decide :
        (reach : Bool)
        → git.is_reachable ≡ reach
        → (exists : Bool) → git.branch_exists ≡ exists
        → IsGuarded git options root found (
            if not reach
            then (ok error, [])
            else if not exists
            then (ok missing, [])
            else then_run (unless_skipped git root) gate)
    decide false p exists q =
        undeleted-IsGuarded git options root found (ok error, []) refl (λ e. cc)
    decide true p false q =
        undeleted-IsGuarded git options root found (ok missing, []) refl (λ e. cc)
    decide true p true q =
        gated-IsGuarded git options root found gate (gate_silent git root branch baseline options)
          (gate-IsEntitled git root branch baseline options) p q
