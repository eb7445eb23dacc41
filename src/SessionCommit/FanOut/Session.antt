-- ===== src/SessionCommit/FanOut/Session.antt =====
-- The loop over the repositories in `commit_session_to_branch` of src/branch/session_commit.ts.
use patchlab.Common.{
  ℕ, ◌≡◌, ◌⊎◌, refl, ◌∙◌, inl, inr, Text, text_eq, text_eq_iff, text_eq_refl, has, true, false,
  ◌||◌, List, [], ◌∷◌, Option, some, ok, anyb, or_else, get, put, get-put, arith, Bool-cases,
}
use patchlab.Manifest.{SourceSpecification, distinct_repositories_from_sources}
use patchlab.Manifest.Repositories.{lies_in, distinct_repositories_from_sources_lem}
use patchlab.SessionCommit.FanOut.Effects.{Call}
use patchlab.SessionCommit.FanOut.Effects.Ensures.{
  Ensures, Ensures-bind, Ensures-pure, Ensures-call, Ensures-weaken,
}
use patchlab.SessionCommit.FanOut.Effects.Returns.{
  Returns, Returns-bind, Returns-pure, Returns-call, Returns-try_catch, Returns-note,
}
use patchlab.SessionCommit.FanOut.Total.{IsReachable, fan_out_to_one_repository_total}
use patchlab.SessionCommit.FanOut.Laws.{Kept, slice_pathspecs, fan_out_to_one_repository-Kept}
use patchlab.SessionCommit.FanOut.{
  RepositorySliceResult, CommitSessionResult, SessionHost, sources_of,
  build_repository_path_rewriter, fan_out, commit_session_to_branch, default_max_diff_bytes,
}

module _ (host : SessionHost) (sources : List SourceSpecification) where
  -- The slice of the repository was empty, or its work is kept as the result says.
  abbrev pub Safe : Text → RepositorySliceResult → Type 0
  Safe root r =
      ((host.repository root).slice (slice_pathspecs (sources_of root sources)) ≡ ok 0)
      ⊎ Kept (host.repository root) (build_repository_path_rewriter (sources_of root sources)) r

  -- The maps hold a safe result for the repository.
  pub record Reported (root : Text) (maps : CommitSessionResult) : Type 0 where
    result : RepositorySliceResult
    commit_recorded : get maps.commit_shas root ≡ some result.commit_sha
    fallback_recorded : get maps.fallback_patches root ≡ some result.fallback_path
    safe : Safe root result

  -- The maps after one repository's result has been entered.
  abbrev entered : CommitSessionResult → Text → RepositorySliceResult → CommitSessionResult
  entered acc root r = record {
    commit_shas = put acc.commit_shas root r.commit_sha;
    fallback_patches = put acc.fallback_patches root r.fallback_path;
  }

  entered-Reported :
      (acc : CommitSessionResult) (root k : Text) (r : RepositorySliceResult)
      → Safe root r
      → (text_eq root k ≡ false → Reported k acc)
      → Reported k (entered acc root r)
  entered-Reported acc root k r safe others = elim (Bool-cases (text_eq root k)) [
    | inl e ↦ rw (← (text_eq_iff root k).0 e) (record {
      result = r;
      commit_recorded =
          get-put acc.commit_shas root root r.commit_sha ∙ rw (text_eq_refl root) refl;
      fallback_recorded =
          get-put acc.fallback_patches root root r.fallback_path ∙ rw (text_eq_refl root) refl;
      safe = safe;
    })
    | inr e ↦
        let old = others e in
        record {
          result = old.result;
          commit_recorded = get-put acc.commit_shas root k r.commit_sha ∙ rw e old.commit_recorded;
          fallback_recorded =
              get-put acc.fallback_patches root k r.fallback_path ∙ rw e old.fallback_recorded;
          safe = old.safe;
        }
  ]

  fan_out-Reported :
      (cap : ℕ) (repositories done : List Text) (acc : CommitSessionResult)
      → ((k : Text) → has done k ≡ true → Reported k acc)
      → Ensures
          (λ maps. (k : Text) → (has done k || has repositories k) ≡ true → Reported k maps)
          (fan_out host cap sources repositories acc)
  unfolding fan_out has
  fan_out-Reported cap [] done acc h = Ensures-pure acc (λ k e. h k (ground (arith, e)))
  fan_out-Reported cap (root ∷ repositories) done acc h =
      Ensures-bind _ _
        (record {
          at = λ log r log' e.
              fan_out_to_one_repository-Kept (host.repository root) cap (sources_of root sources)
                log log' r e;
        })
        (λ r safe.
          Ensures-weaken _ (λ maps all k e. all k (ground (arith, e)))
            (fan_out-Reported cap repositories (root ∷ done) (entered acc root r)
              (λ k e. entered-Reported acc root k r safe (λ n. h k (ground (arith, e, n))))))

-- When the commit of a session has returned, the maps hold, for each repository in which a source
-- lies, a result: and its slice was empty, or its work is kept as the result says.
pub commit_session_to_branch-Reported :
    (host : SessionHost) (max_diff_size_bytes : Option ℕ) (sources : List SourceSpecification)
    (log log' : List Call) (maps : CommitSessionResult) (root : Text)
    → commit_session_to_branch host max_diff_size_bytes sources log ≡ (ok maps, log')
    → anyb (lies_in root) sources ≡ true
    → Reported host sources root maps
unfolding commit_session_to_branch has
commit_session_to_branch-Reported host max_diff_size_bytes sources log log' maps root h within =
    let listed = (distinct_repositories_from_sources_lem sources).1 root ∙ within in
    (Ensures-bind {P = λ maps. Reported host sources root maps} {Q = λ _. Unit {0}} _ _
        (Ensures-call _ _ (λ u e. tt))
        (λ u _.
          Ensures-bind _ _
            (fan_out-Reported host sources (or_else max_diff_size_bytes default_max_diff_bytes)
              (distinct_repositories_from_sources sources) [] _ (λ k e. absurd (nothing_done k e)))
            (λ result all.
              Ensures-bind {Q = λ _. Unit {0}} _ _ (record { at = λ _ _ _ _. tt })
                (λ _ _. Ensures-pure result (all root listed))))).at
      log maps log' h
  where
    nothing_done : (k : Text) → has [] k ≡ true → ⊥
    nothing_done k e = cc

fan_out-Returns :
    (host : SessionHost) (cap : ℕ) (sources : List SourceSpecification) (repositories : List Text)
    (acc : CommitSessionResult)
    → ((root : Text) → IsReachable (host.repository root) (sources_of root sources))
    → Returns (fan_out host cap sources repositories acc)
unfolding fan_out
fan_out-Returns host cap sources [] acc w = Returns-pure acc
fan_out-Returns host cap sources (root ∷ repositories) acc w =
    Returns-bind _ _
      (record {
        at = λ log.
            fan_out_to_one_repository_total (host.repository root) cap (sources_of root sources) log
              (w root);
      })
      (λ r. fan_out-Returns host cap sources repositories _ w)

-- Where the container's changes can be staged and each repository's slice, fallback, tip and
-- confirmation can be had, the commit of a session returns its maps, whatever fails in applying and
-- committing the slices and in advancing the container's head.
pub commit_session_to_branch_total :
    (host : SessionHost) (max_diff_size_bytes : Option ℕ) (sources : List SourceSpecification)
    (log : List Call)
    → host.stage ≡ ok tt
    → ((root : Text) → IsReachable (host.repository root) (sources_of root sources))
    → (maps : CommitSessionResult) × (log' : List Call) × (commit_session_to_branch host
          max_diff_size_bytes sources log
        ≡ (ok maps, log'))
unfolding commit_session_to_branch
commit_session_to_branch_total host max_diff_size_bytes sources log stage w =
    (Returns-bind _ _ (Returns-call _ _ tt stage) (λ _.
        Returns-bind _ _ (fan_out-Returns host _ sources _ _ w) (λ result.
          Returns-bind _ _ (Returns-try_catch _ _ (λ error. Returns-note _))
            (λ _. Returns-pure result)))).at
      log
