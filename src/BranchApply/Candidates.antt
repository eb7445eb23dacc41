-- ===== src/BranchApply/Candidates.antt =====
-- Which commits src/branch/apply.ts collects where the baseline is not asked for.
use patchlab.Common.{
  ◌≡◌, refl, ap, ℕ, Text, Bool, true, false, List, [], ◌∷◌, Option, none, some, get, arith, ◌==◌,
  find_first, if◌then◌else◌, All, All-weaken,
}
use patchlab.BranchApply.{AppliedItem, Session, nonempty_sha, with_commit, list_session_commits}
use patchlab.BranchApply.Merge.{is_session, found_session, collect_apply_candidates}

-- An item that is the commit of a session in the repository
pub data FromSession (root : Text) : List Session → AppliedItem → Type 0 where
  this :
      {session : Session} {sessions : List Session} {item : AppliedItem}
      → get session.commit_shas root ≡ some (some item.commit_sha)
      → item.session_number ≡ some session.session_number
      → FromSession root (session ∷ sessions) item
  later :
      {session : Session} {sessions : List Session} {item : AppliedItem}
      → FromSession root sessions item
      → FromSession root (session ∷ sessions) item

-- It is of the session that was asked for, if one was.
abbrev pub IsWanted : Option ℕ → AppliedItem → Type 0
IsWanted none item = Unit {0}
IsWanted (some n) item = item.session_number ≡ some n

abbrev pub IsSessionItem : Text → List Session → Option ℕ → AppliedItem → Type 0
IsSessionItem root sessions wanted item = FromSession root sessions item × IsWanted wanted item

list_session_commits-FromSession :
    (root : Text) (sessions : List Session)
    → All (FromSession root sessions) (list_session_commits sessions root)
unfolding list_session_commits
list_session_commits-FromSession root [] = tt
list_session_commits-FromSession root (session ∷ sessions) =
    decide (get session.commit_shas root) refl (
      All-weaken (FromSession root sessions) (FromSession root (session ∷ sessions))
        (list_session_commits sessions root) (λ item h. later h)
        (list_session_commits-FromSession root sessions))
  where
    decide :
        (sha : Option (Option Text))
        → get session.commit_shas root ≡ sha
        → All (FromSession root (session ∷ sessions)) (list_session_commits sessions root)
        → All (FromSession root (session ∷ sessions)) (
            with_commit session.session_number
              (nonempty_sha sha)
              (list_session_commits sessions root))
    decide none h rest = rest
    decide (some none) h rest = rest
    decide (some (some [])) h rest = rest
    decide (some (some (c ∷ cs))) h rest = (this h refl, rest)

is_session-IsWanted :
    (n : ℕ) (item : AppliedItem) → is_session n item ≡ true → IsWanted (some n) item
is_session-IsWanted n item h = decide item.session_number h
  where
    decide :
        (number : Option ℕ)
        → elim number [ none ↦ false | some m ↦ m == n ] ≡ true
        → number ≡ some n
    decide none h = cc
    decide (some m) h = ap some (ground (arith, h))

found_session-IsWanted :
    (root : Text) (sessions : List Session) (n : ℕ) (items : List AppliedItem)
    → All (FromSession root sessions) items
    → All (IsSessionItem root sessions (some n)) (found_session (find_first (is_session n) items))
found_session-IsWanted root sessions n [] all = tt
found_session-IsWanted root sessions n (item ∷ items) (from, all) =
    decide (is_session n item) refl (found_session-IsWanted root sessions n items all)
  where
    decide :
        (found : Bool)
        → is_session n item ≡ found
        → All
            (IsSessionItem root sessions (some n))
            (found_session (find_first (is_session n) items))
        → All
            (IsSessionItem root sessions (some n))
            (found_session (if found then some item else find_first (is_session n) items))
    decide true h rest = ((from, is_session-IsWanted n item h), tt)
    decide false h rest = rest

pub collect_apply_candidates-IsSessionItem :
    (sessions : List Session) (root : Text) (baseline : Option Text) (wanted : Option ℕ)
    → All
        (IsSessionItem root sessions wanted)
        (collect_apply_candidates sessions root baseline false wanted)
unfolding collect_apply_candidates
collect_apply_candidates-IsSessionItem sessions root baseline none =
    All-weaken (FromSession root sessions) (IsSessionItem root sessions none)
      (list_session_commits sessions root) (λ item h. (h, tt))
      (list_session_commits-FromSession root sessions)
collect_apply_candidates-IsSessionItem sessions root baseline (some n) =
    found_session-IsWanted root sessions n (list_session_commits sessions root)
      (list_session_commits-FromSession root sessions)
