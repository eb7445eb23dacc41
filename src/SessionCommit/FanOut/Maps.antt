-- ===== src/SessionCommit/FanOut/Maps.antt =====
-- What src/branch/session_commit.ts writes to a session's metadata.
use patchlab.Common.{
  ◌≡◌, refl, ap, ◌∙◌, Text, text_eq_iff, has, List, [], ◌∷◌, none, some, get, get-put, or_else,
  arith, if◌then◌else◌, anyb,
}
use patchlab.Manifest.{SourceSpecification, distinct_repositories_from_sources}
use patchlab.Manifest.Repositories.{lies_in, distinct_repositories_from_sources_lem}
use patchlab.SessionCommit.FanOut.{
  CommitSessionResult, SessionOutcome, outcome_maps, record_extraction_outcome,
}

module _ (outcome : CommitSessionResult) (root : Text) where
  outcome_maps-commit_shas :
      (repositories : List Text) (next : CommitSessionResult)
      → get (outcome_maps repositories outcome next).commit_shas root ≡ (
          if has repositories root
          then some (or_else (get outcome.commit_shas root) none)
          else get next.commit_shas root)
  unfolding outcome_maps has
  outcome_maps-commit_shas [] next = refl
  outcome_maps-commit_shas (r ∷ repositories) next =
      outcome_maps-commit_shas repositories _
      ∙ ground (
        arith,
        get-put next.commit_shas r root (or_else (get outcome.commit_shas r) none),
        text_eq_iff r root,
        λ (e : r ≡ root). ap (λ (k : Text). or_else (get outcome.commit_shas k) none) e,
      )

  outcome_maps-fallback_patches :
      (repositories : List Text) (next : CommitSessionResult)
      → get (outcome_maps repositories outcome next).fallback_patches root ≡ (
          if has repositories root
          then some (or_else (get outcome.fallback_patches root) none)
          else get next.fallback_patches root)
  unfolding outcome_maps has
  outcome_maps-fallback_patches [] next = refl
  outcome_maps-fallback_patches (r ∷ repositories) next =
      outcome_maps-fallback_patches repositories _
      ∙ ground (
        arith,
        get-put next.fallback_patches r root (or_else (get outcome.fallback_patches r) none),
        text_eq_iff r root,
        λ (e : r ≡ root). ap (λ (k : Text). or_else (get outcome.fallback_patches k) none) e,
      )

-- What the metadata holds for a root: the outcome's value, null where the outcome has none, if some
-- source lies in that repository, and nothing if none does, whatever stood there before.
pub record Recorded (sources : List SourceSpecification) (outcome after : CommitSessionResult)
    (root : Text) : Type 0 where
  pub commit_shas : get after.commit_shas root ≡ (
      if anyb (lies_in root) sources
      then some (or_else (get outcome.commit_shas root) none)
      else none)
  pub fallback_patches : get after.fallback_patches root ≡ (
      if anyb (lies_in root) sources
      then some (or_else (get outcome.fallback_patches root) none)
      else none)

-- Where the session has metadata, the recorded maps hold exactly the outcome's values for the
-- repositories of the sources, so stale repositories are dropped and an absent or null outcome
-- clears what stood there; the rest of the metadata stays.
pub record_extraction_outcome-Recorded {ℓ} :
    {Rest : Type ℓ} (existing : SessionOutcome Rest) (sources : List SourceSpecification)
    (outcome : CommitSessionResult) (root : Text)
    → (after : SessionOutcome Rest) × (record_extraction_outcome (some existing) sources outcome
        ≡ some after)
      × (after.rest ≡ existing.rest)
      × Recorded sources outcome after.outcome root
unfolding record_extraction_outcome get
record_extraction_outcome-Recorded existing sources outcome root =
    let empty : CommitSessionResult = record { commit_shas = []; fallback_patches = [] } in
    let repositories = distinct_repositories_from_sources sources in
    let same = (distinct_repositories_from_sources_lem sources).1 root in
    (
      record existing { outcome = outcome_maps repositories outcome empty },
      refl,
      refl,
      record {
        commit_shas = rw (← same) (outcome_maps-commit_shas outcome root repositories empty);
        fallback_patches =
            rw (← same) (outcome_maps-fallback_patches outcome root repositories empty);
      },
    )
