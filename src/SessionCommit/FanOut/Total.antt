-- ===== src/SessionCommit/FanOut/Total.antt =====
-- The fan-out of src/branch/session_commit.ts goes on after a failure in one repository.
use Prim.Native.Nat.{ℕ}
use patchlab.Common.{
  ◌≡◌, refl, Text, Bool, true, false, List, Option, none, some, Result, ok, leb, ◌==◌, inl, inr,
  Bool-cases,
}
use patchlab.Manifest.{SourceSpecification}
use patchlab.DiffRewrite.{PathRewriteEntry}
use patchlab.SessionCommit.FanOut.Effects.{Call, M}
use patchlab.SessionCommit.FanOut.Effects.Returns.{
  Returns, Returns-bind, Returns-pure, Returns-call, Returns-finally, Returns-try_catch,
  Returns-note,
}
use patchlab.SessionCommit.FanOut.{
  RepositoryHost, RepositorySliceResult, save_fallback, confirmed, proceed_or_save,
  handle_oversized_slice, handle_missing_branch, apply_and_commit_repository_slice, unless_done,
  commit_slice, fan_out_to_one_repository,
}
use patchlab.SessionCommit.FanOut.Laws.{slice_pathspecs}

-- The calls of a repository that stand outside every `try` with a handler.
pub record IsReachable (host : RepositoryHost) (sources : List SourceSpecification) : Type 0 where
  pub size : ℕ
  pub sliced : host.slice (slice_pathspecs sources) ≡ ok size
  pub path : Text
  pub copied : host.copy_to_fallback ≡ ok path
  pub tip : Text
  pub resolved : host.branch_tip ≡ ok tip
  pub answers :
      (confirm : ℕ → Result Text Bool)
      → host.confirm_oversized ≡ some confirm
      → (n : ℕ) → (b : Bool) × (confirm n ≡ ok b)

module _ (host : RepositoryHost) (sources : List SourceSpecification)
    (w : IsReachable host sources) where
  save_fallback-Returns : Returns (save_fallback host)
  unfolding save_fallback
  save_fallback-Returns =
      Returns-bind _ _ (Returns-call _ _ w.path w.copied)
        (λ p. Returns-bind _ _ (Returns-note _) (λ _. Returns-pure _))

  proceed_or_save-Returns : (b : Bool) → Returns (proceed_or_save host b)
  proceed_or_save-Returns true = Returns-pure none
  proceed_or_save-Returns false =
      Returns-bind _ _ save_fallback-Returns (λ r. Returns-pure (some r))

  confirmed-Returns :
      (n : ℕ) (hook : Option (ℕ → Result Text Bool))
      → host.confirm_oversized ≡ hook
      → Returns (confirmed host n hook)
  confirmed-Returns n none e = Returns-pure false
  confirmed-Returns n (some confirm) e = let (b, k) = w.answers confirm e n in Returns-call _ _ b k

  handle_oversized_slice-Returns : (size cap : ℕ) → Returns (handle_oversized_slice host size cap)
  unfolding handle_oversized_slice
  handle_oversized_slice-Returns size cap = elim (Bool-cases (leb size cap)) [
    | inl e ↦ rw e (Returns-pure none)
    | inr e ↦ rw e (
        Returns-bind _ _ (confirmed-Returns size host.confirm_oversized refl)
          (λ b. proceed_or_save-Returns b))
  ]

  handle_missing_branch-Returns : Returns (handle_missing_branch host)
  unfolding handle_missing_branch
  handle_missing_branch-Returns =
      Returns-bind _ _ (Returns-call _ _ host.branch_exists refl) (λ b. proceed_or_save-Returns b)

  apply-Returns :
      (rewriter : Option (List PathRewriteEntry))
      → Returns (apply_and_commit_repository_slice host rewriter)
  unfolding apply_and_commit_repository_slice
  apply-Returns rewriter =
      Returns-bind _ _ (Returns-call _ _ w.tip w.resolved)
        (λ tip. Returns-finally _ _ (Returns-try_catch _ _ (λ error. save_fallback-Returns)))

  unless_done-Returns :
      (done : Option RepositorySliceResult) (next : M RepositorySliceResult)
      → Returns next
      → Returns (unless_done host done next)
  unless_done-Returns none next h = h
  unless_done-Returns (some r) next h = Returns-pure r

  commit_slice-Returns : (size cap : ℕ) → Returns (commit_slice host size cap sources)
  unfolding commit_slice
  commit_slice-Returns size cap = elim (Bool-cases (size == 0)) [
    | inl e ↦ rw e (Returns-pure _)
    | inr e ↦ rw e (
        Returns-bind _ _ (handle_oversized_slice-Returns size cap) (λ oversized.
          unless_done-Returns oversized _ (
            Returns-bind _ _ handle_missing_branch-Returns
              (λ missing. unless_done-Returns missing _ (apply-Returns _)))))
  ]

-- Where the slice can be taken, the fallback written, the branch's tip read and the user asked, the
-- fan-out returns a result for the repository, whatever becomes of reading the tree, applying the
-- diff, writing the tree, committing and moving the branch.
pub fan_out_to_one_repository_total :
    (host : RepositoryHost) (cap : ℕ) (sources : List SourceSpecification) (log : List Call)
    → IsReachable host sources
    → (r : RepositorySliceResult) × (log' : List Call) × (fan_out_to_one_repository host cap sources
          log
        ≡ (ok r, log'))
unfolding fan_out_to_one_repository
fan_out_to_one_repository_total host cap sources log w =
    (Returns-bind _ _ (Returns-call _ _ w.size w.sliced)
        (λ size. Returns-finally _ _ (commit_slice-Returns host sources w size cap))).at
      log
