-- ===== src/SessionCommit/FanOut/Laws.antt =====
-- What becomes of a session's work in one repository of the fan-out of
-- src/branch/session_commit.ts.
use Prim.Native.Nat.{ℕ}
use patchlab.Common.{
  ◌≡◌, ◌⊎◌, inl, inr, refl, ap, ◌∙◌, Text, text_eq, text_eq_iff, Bool, true, false, List, map,
  Option, none, some, Result, ok, arith, leb, ◌==◌, Bool-cases,
}
use patchlab.Manifest.{SourceSpecification}
use patchlab.DiffRewrite.{PathRewriteEntry}
use patchlab.SessionCommit.FanOut.Effects.{Call, M}
use patchlab.SessionCommit.FanOut.Effects.Ensures.{
  Ensures, Ensures-pure, Ensures-call, Ensures-bind, Ensures-finally, Ensures-try_catch,
  Ensures-weaken,
}
use patchlab.SessionCommit.FanOut.{
  RepositoryHost, RepositorySliceResult, pathspecs, build_repository_path_rewriter, save_fallback,
  confirmed, proceed_or_save, handle_oversized_slice, handle_missing_branch, commit_changed_tree,
  apply_and_commit, apply_and_commit_repository_slice, unless_done, commit_slice,
  fan_out_to_one_repository,
}

-- A tree with the slice applied to the branch's tip: the index is read from the tip, the slice is
-- applied to that index, and the tree is written of the index that this leaves.
pub record IsApplied (host : RepositoryHost) (rewriter : Option (List PathRewriteEntry))
    (tip tree : Text) : Type 0 where
  pub is_tip : host.branch_tip ≡ ok tip
  pub index : Text
  pub index_read : host.read_tree tip ≡ ok index
  pub applied_index : Text
  pub slice_applied : host.stream_apply rewriter index ≡ ok applied_index
  pub tree_written : host.write_tree applied_index ≡ ok tree

-- Where the work of one repository is once its part of the fan-out has returned.
pub data Kept (host : RepositoryHost) (rewriter : Option (List PathRewriteEntry))
    : RepositorySliceResult → Type 0 where
  -- in the commit of the applied tree on top of the tip, to which the branch was moved
  on_branch :
      {r : RepositorySliceResult} (tip tree sha : Text)
      → IsApplied host rewriter tip tree
      → host.commit_tree tree tip ≡ ok sha
      → host.update_ref sha ≡ ok tt
      → r ≡ record { commit_sha = some sha; fallback_path = none }
      → Kept host rewriter r
  -- in the fallback patch
  saved :
      {r : RepositorySliceResult} (path : Text)
      → host.copy_to_fallback ≡ ok path
      → r ≡ record { commit_sha = none; fallback_path = some path }
      → Kept host rewriter r
  -- on the branch already: the applied tree is the tree of the tip
  unchanged :
      {r : RepositorySliceResult} (tip tree : Text)
      → IsApplied host rewriter tip tree
      → host.parent_tree tip ≡ ok tree
      → r ≡ record { commit_sha = none; fallback_path = none }
      → Kept host rewriter r

module _ (host : RepositoryHost) (rewriter : Option (List PathRewriteEntry)) where
  save_fallback-Kept : Ensures (Kept host rewriter) (save_fallback host)
  unfolding save_fallback
  save_fallback-Kept = Ensures-bind _ _ (Ensures-call _ _ (λ path e. e)) (λ path e.
      Ensures-bind {Q = λ _. Unit {0}} _ _ (record { at = λ _ _ _ _. tt })
        (λ _ _. Ensures-pure _ (saved path e refl)))

  commit_changed_tree-Kept :
      (tree parent_tree branch_tip : Text)
      → IsApplied host rewriter branch_tip tree
      → host.parent_tree branch_tip ≡ ok parent_tree
      → Ensures (Kept host rewriter) (commit_changed_tree host tree parent_tree branch_tip)
  commit_changed_tree-Kept tree parent_tree branch_tip a p =
      elim (Bool-cases (text_eq tree parent_tree)) [
        | inl e ↦ rw e (
            Ensures-pure _
              (unchanged branch_tip tree a (rw ((text_eq_iff tree parent_tree).0 e) p) refl))
        | inr e ↦ rw e (
            Ensures-bind _ _ (Ensures-call _ _ (λ sha c. c)) (λ sha c.
              Ensures-bind _ _ (Ensures-call _ _ (λ u d. d))
                (λ u d. Ensures-pure _ (on_branch branch_tip tree sha a c d refl))))
      ]

  apply_and_commit-Kept :
      (branch_tip : Text)
      → host.branch_tip ≡ ok branch_tip
      → Ensures (Kept host rewriter) (apply_and_commit host rewriter branch_tip)
  unfolding apply_and_commit
  apply_and_commit-Kept branch_tip is_tip =
      Ensures-bind _ _ (Ensures-call _ _ (λ i e. e)) (λ index i.
        Ensures-bind _ _ (Ensures-call _ _ (λ i e. e)) (λ applied_index a.
          Ensures-bind _ _ (Ensures-call _ _ (λ t e. e)) (λ tree w.
            Ensures-bind _ _ (Ensures-call _ _ (λ t e. e)) (λ parent_tree p.
              commit_changed_tree-Kept tree parent_tree branch_tip
                (record {
                  is_tip = is_tip;
                  index = index;
                  index_read = i;
                  applied_index = applied_index;
                  slice_applied = a;
                  tree_written = w;
                })
                p))))

  apply_and_commit_repository_slice-Kept :
      Ensures (Kept host rewriter) (apply_and_commit_repository_slice host rewriter)
  unfolding apply_and_commit_repository_slice
  apply_and_commit_repository_slice-Kept =
      Ensures-bind _ _ (Ensures-call _ _ (λ t e. e)) (λ branch_tip is_tip. Ensures-finally _ _ (
        Ensures-try_catch _ _ (apply_and_commit-Kept branch_tip is_tip)
          (λ error. save_fallback-Kept)))

  -- A result, if there is one already, keeps the work.
  abbrev KeptIfDone : Option RepositorySliceResult → Type 0
  KeptIfDone none = Unit
  KeptIfDone (some r) = Kept host rewriter r

  proceed_or_save-Kept : (proceed : Bool) → Ensures KeptIfDone (proceed_or_save host proceed)
  proceed_or_save-Kept true = Ensures-pure none tt
  proceed_or_save-Kept false = Ensures-bind _ _ save_fallback-Kept (λ r k. Ensures-pure (some r) k)

  confirmed_any :
      (size : ℕ) (hook : Option (ℕ → Result Text Bool))
      → Ensures (λ _. Unit {0}) (confirmed host size hook)
  confirmed_any size none = record { at = λ _ _ _ _. tt }
  confirmed_any size (some f) = record { at = λ _ _ _ _. tt }

  handle_oversized_slice-Kept :
      (size cap : ℕ) → Ensures KeptIfDone (handle_oversized_slice host size cap)
  unfolding handle_oversized_slice
  handle_oversized_slice-Kept size cap = elim (Bool-cases (leb size cap)) [
    | inl e ↦ rw e (Ensures-pure none tt)
    | inr e ↦ rw e (
        Ensures-bind _ _ (confirmed_any size host.confirm_oversized)
          (λ proceed _. proceed_or_save-Kept proceed))
  ]

  handle_missing_branch-Kept : Ensures KeptIfDone (handle_missing_branch host)
  unfolding handle_missing_branch
  handle_missing_branch-Kept =
      Ensures-bind {Q = λ _. Unit {0}} _ _ (record { at = λ _ _ _ _. tt })
        (λ exists _. proceed_or_save-Kept exists)

  unless_done-Kept :
      (done : Option RepositorySliceResult) (next : M RepositorySliceResult)
      → KeptIfDone done
      → Ensures (Kept host rewriter) next
      → Ensures (Kept host rewriter) (unless_done host done next)
  unless_done-Kept none next h k = k
  unless_done-Kept (some r) next h k = Ensures-pure r h

  -- The slice is empty, or the work is kept.
  abbrev KeptUnlessEmpty : ℕ → RepositorySliceResult → Type 0
  KeptUnlessEmpty size r = (size ≡ 0) ⊎ Kept host rewriter r

  commit_slice-Kept :
      (size cap : ℕ) (sources : List SourceSpecification)
      → build_repository_path_rewriter sources ≡ rewriter
      → Ensures (KeptUnlessEmpty size) (commit_slice host size cap sources)
  unfolding commit_slice
  commit_slice-Kept size cap sources same = elim (Bool-cases (size == 0)) [
    | inl e ↦ rw e (Ensures-pure _ (inl (ground (arith, e))))
    | inr e ↦
        rw (e, same)
          (Ensures-weaken _ (λ r k. inr k)
            (Ensures-bind _ _ (handle_oversized_slice-Kept size cap) (λ oversized k.
              unless_done-Kept oversized _ k (
                Ensures-bind _ _ handle_missing_branch-Kept (λ missing k'.
                  unless_done-Kept missing _ k' apply_and_commit_repository_slice-Kept)))))
  ]

abbrev pub slice_pathspecs : List SourceSpecification → List Text
slice_pathspecs sources = pathspecs (map (λ source. source.mount_name) sources)

-- When the fan-out has returned for a repository, then either its slice was empty, or its work is
-- kept: in a commit on top of the branch's tip, whose tree is the tip's with the slice applied, and to
-- which the branch was moved; or in the fallback patch; or, where the tip's tree with the slice
-- applied is the tip's tree, on the branch already. The result tells which.
pub fan_out_to_one_repository-Kept :
    (host : RepositoryHost) (cap : ℕ) (sources : List SourceSpecification) (log log' : List Call)
    (r : RepositorySliceResult)
    → fan_out_to_one_repository host cap sources log ≡ (ok r, log')
    → (host.slice (slice_pathspecs sources) ≡ ok 0)
      ⊎ Kept host (build_repository_path_rewriter sources) r
unfolding fan_out_to_one_repository
fan_out_to_one_repository-Kept host cap sources log log' r h =
    (Ensures-bind
        {P = λ r.
          (host.slice (slice_pathspecs sources) ≡ ok 0)
          ⊎ Kept host (build_repository_path_rewriter sources) r}
        _ _ (Ensures-call _ _ (λ size e. e))
        (λ size e. Ensures-finally _ _ (
          Ensures-weaken _ (λ r k. empty_or_kept r size e k)
            (commit_slice-Kept host (build_repository_path_rewriter sources) size cap sources
              refl)))).at
      log r log' h
  where
    empty_or_kept :
        (r : RepositorySliceResult) (size : ℕ)
        → host.slice (slice_pathspecs sources) ≡ ok size
        → KeptUnlessEmpty host (build_repository_path_rewriter sources) size r
        → (host.slice (slice_pathspecs sources) ≡ ok 0)
          ⊎ Kept host (build_repository_path_rewriter sources) r
    empty_or_kept r size e (inl z) = inl (e ∙ ap ok z)
    empty_or_kept r size e (inr k) = inr k
