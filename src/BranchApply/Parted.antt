-- ===== src/BranchApply/Parted.antt =====
-- Which candidates a cherry-picking run of src/branch/apply.ts applies and skips.
use patchlab.Common.{
  ◌≡◌, refl, arith, has, sym, ap, ◌∙◌, Text, Bool, true, false, not, List, [], ◌∷◌, ◌++◌, map,
  append_assoc, append-nil, Option, none, some, ok, err, filterb, if◌then◌else◌,
}
use mathlib.Core.Path.{subst}
use mathlib.Core.List.{map-append}
use patchlab.BranchApply.{
  AppliedItem, ApplyConflict, ApplyResult, Command, pick, Repository, Traced, attempted, attempt,
  compute_cherry_summary, read_current_branch,
}
use patchlab.BranchApply.Pick.{
  is_applied, Progress, skipped_next, picked, pick_failed, pick_each, nothing_yet,
  cherry_pick_candidates,
}

filterb-snoc :
    (p : AppliedItem → Bool) (items : List AppliedItem) (item : AppliedItem)
    → filterb p (items ++ item ∷ []) ≡ filterb p items ++ (if p item then item ∷ [] else [])
filterb-snoc p [] item = refl
filterb-snoc p (first ∷ items) item =
    elim (p first)
      as (λ t.
        (if t then first ∷ filterb p (items ++ item ∷ []) else filterb p (items ++ item ∷ []))
        ≡ (if t then first ∷ filterb p items else filterb p items)
          ++ (if p item then item ∷ [] else [])) [
            | true ↦ ap (λ t. first ∷ t) (filterb-snoc p items item)
            | false ↦ filterb-snoc p items item
          ]

filterb-kept :
    (p : AppliedItem → Bool) (items : List AppliedItem) (item : AppliedItem)
    → p item ≡ true
    → filterb p (items ++ item ∷ []) ≡ filterb p items ++ item ∷ []
filterb-kept p items item h =
    filterb-snoc p items item ∙ ap (λ t. filterb p items ++ (if t then item ∷ [] else [])) h

filterb-dropped :
    (p : AppliedItem → Bool) (items : List AppliedItem) (item : AppliedItem)
    → p item ≡ false
    → filterb p (items ++ item ∷ []) ≡ filterb p items
filterb-dropped p items item h =
    filterb-snoc p items item
    ∙ ap (λ t. filterb p items ++ (if t then item ∷ [] else [])) h
    ∙ append-nil (filterb p items)

abbrev pub picks : List AppliedItem → List Command
picks = map (λ item. pick item.commit_sha)

picks-snoc :
    (items : List AppliedItem) (item : AppliedItem)
    → picks (items ++ item ∷ []) ≡ picks items ++ pick item.commit_sha ∷ []
picks-snoc items item = map-append (λ item. pick item.commit_sha) items (item ∷ [])

-- It is to be picked: it is listed as unapplied, or nothing could be listed.
abbrev pub is_pending : Option (List Text) → AppliedItem → Bool
is_pending none item = true
is_pending (some unapplied) item = has unapplied item.commit_sha

abbrev pub is_settled : Option (List Text) → AppliedItem → Bool
is_settled summary item = not (is_pending summary item)

is_applied-is_settled :
    (summary : Option (List Text)) (item : AppliedItem)
    → is_applied summary item ≡ is_settled summary item
is_applied-is_settled none item = refl
is_applied-is_settled (some unapplied) item = refl

-- The conflict, the candidates that were not dealt with, and the commands that failed
pub data EndsWith (summary : Option (List Text))
    : Option ApplyConflict → List AppliedItem → List Command → Type 0 where
  all_done : EndsWith summary none [] []
  stopped_on :
      {conflict : ApplyConflict} (next : AppliedItem) (later : List AppliedItem)
      → is_applied summary next ≡ false
      → conflict.session_number ≡ next.session_number
      → conflict.commit_sha ≡ next.commit_sha
      → EndsWith summary (some conflict) (next ∷ later) (pick next.commit_sha ∷ [])

pub record IsParted (summary : Option (List Text)) (candidates : List AppliedItem)
    (result : ApplyResult) (ran : List Command) : Type 0 where
  pub dealt_with : List AppliedItem
  pub left : List AppliedItem
  pub failing : List Command
  pub parted : candidates ≡ dealt_with ++ left
  pub applied : result.applied ≡ filterb (is_pending summary) dealt_with
  pub skipped : result.skipped ≡ filterb (is_settled summary) dealt_with
  pub commands : ran ≡ picks result.applied ++ failing
  pub ending : EndsWith summary result.conflict left failing

abbrev pub Parts : Option (List Text) → List AppliedItem → Traced → Type 0
Parts summary candidates (ok result, ran) = IsParted summary candidates result ran
Parts summary candidates (err message, ran) = ⊥

-- The invariant of the loop, where the candidates `before` are dealt with
record Holds (summary : Option (List Text)) (before : List AppliedItem) (so_far : Progress)
    : Type 0 where
  applied : so_far.applied ≡ filterb (is_pending summary) before
  skipped : so_far.skipped ≡ filterb (is_settled summary) before
  ran : so_far.ran ≡ picks so_far.applied

module _ (repository : Repository) (summary : Option (List Text)) where
  skipped_next-Holds :
      (candidate : AppliedItem) (before : List AppliedItem) (so_far : Progress)
      → Holds summary before so_far
      → is_applied summary candidate ≡ true
      → Holds summary (before ++ candidate ∷ []) (skipped_next candidate so_far)
  skipped_next-Holds candidate before so_far holds h = record {
    applied =
        holds.applied
        ∙ sym (
            filterb-dropped (is_pending summary) before candidate
              (ground (arith, is_applied-is_settled summary candidate, h)));
    skipped =
        ap (λ t. t ++ candidate ∷ []) holds.skipped
        ∙ sym (
            filterb-kept (is_settled summary) before candidate
              (sym (is_applied-is_settled summary candidate) ∙ h));
    ran = holds.ran;
  }

  picked-Holds :
      (candidate : AppliedItem) (before : List AppliedItem) (so_far : Progress)
      → Holds summary before so_far
      → is_applied summary candidate ≡ false
      → Holds summary
          (before ++ candidate ∷ [])
          (picked candidate so_far (so_far.ran ++ pick candidate.commit_sha ∷ []))
  picked-Holds candidate before so_far holds h = record {
    applied =
        ap (λ t. t ++ candidate ∷ []) holds.applied
        ∙ sym (
            filterb-kept (is_pending summary) before candidate
              (ground (arith, is_applied-is_settled summary candidate, h)));
    skipped =
        holds.skipped
        ∙ sym (
            filterb-dropped (is_settled summary) before candidate
              (sym (is_applied-is_settled summary candidate) ∙ h));
    ran =
        ap (λ t. t ++ pick candidate.commit_sha ∷ []) holds.ran
        ∙ sym (picks-snoc so_far.applied candidate);
  }

  pick_each-Parts :
      (before candidates : List AppliedItem) (so_far : Progress)
      → Holds summary before so_far
      → Parts summary (before ++ candidates) (pick_each repository summary so_far candidates)
  unfolding pick_each
  pick_each-Parts before [] so_far holds = record {
    dealt_with = before;
    left = [];
    failing = [];
    parted = refl;
    applied = holds.applied;
    skipped = holds.skipped;
    commands = holds.ran ∙ sym (append-nil (picks so_far.applied));
    ending = all_done;
  }
  pick_each-Parts before (candidate ∷ candidates) so_far holds =
      decide (is_applied summary candidate) refl
        (λ next. pick_each-Parts (before ++ candidate ∷ []) candidates next)
    where
      decide :
          (skips : Bool)
          → is_applied summary candidate ≡ skips
          → ((next : Progress)
              → Holds summary (before ++ candidate ∷ []) next
              → Parts summary
                  ((before ++ candidate ∷ []) ++ candidates)
                  (pick_each repository summary next candidates))
          → Parts summary (before ++ candidate ∷ candidates) (elim skips [
            | true ↦ pick_each repository summary (skipped_next candidate so_far) candidates
            | false ↦
                attempt repository
                  (pick candidate.commit_sha)
                  so_far.ran
                  (pick_failed repository candidate so_far)
                  (λ ran. pick_each repository summary (picked candidate so_far ran) candidates)
          ])
      decide true h later =
          subst
            (λ all.
              Parts summary all
                (pick_each repository summary (skipped_next candidate so_far) candidates))
            (append_assoc before (candidate ∷ []) candidates)
            (later (skipped_next candidate so_far)
              (skipped_next-Holds candidate before so_far holds h))
      decide false h later =
          elim (repository.run so_far.ran (pick candidate.commit_sha))
            as (λ answer. Parts summary (before ++ candidate ∷ candidates) (
              attempted answer (so_far.ran ++ pick candidate.commit_sha ∷ [])
                (pick_failed repository candidate so_far)
                (λ ran. pick_each repository summary (picked candidate so_far ran) candidates))) [
                  | none ↦
                      let next =
                        picked candidate so_far (so_far.ran ++ pick candidate.commit_sha ∷ []) in
                      subst
                        (λ all. Parts summary all (pick_each repository summary next candidates))
                        (append_assoc before (candidate ∷ []) candidates)
                        (later next (picked-Holds candidate before so_far holds h))
                  | some failure ↦ record {
                    dealt_with = before;
                    left = candidate ∷ candidates;
                    failing = pick candidate.commit_sha ∷ [];
                    parted = refl;
                    applied = holds.applied;
                    skipped = holds.skipped;
                    commands = ap (λ t. t ++ pick candidate.commit_sha ∷ []) holds.ran;
                    ending =
                        stopped_on candidate candidates
                          (ground (arith, is_applied-is_settled summary candidate, h)) refl refl;
                  }
                ]

pub cherry_pick_candidates-Parts :
    (repository : Repository) (branch : Text) (candidates : List AppliedItem)
    → Parts
        (compute_cherry_summary repository (read_current_branch repository) branch)
        candidates
        (cherry_pick_candidates repository branch candidates)
unfolding cherry_pick_candidates
cherry_pick_candidates-Parts repository branch candidates =
    pick_each-Parts repository
      (compute_cherry_summary repository (read_current_branch repository) branch) [] candidates
      nothing_yet (record { applied = refl; skipped = refl; ran = refl })
