-- ===== src/BranchDelete/Unapplied.antt =====
-- Which commits src/branch/delete.ts takes for unapplied.
use patchlab.Common.{
  ◌≡◌, refl, sym, ap, ◌∙◌, Text, text_eq_iff, has, Bool, true, false, not, ◌&&◌, List, [], ◌∷◌,
  filterb, allb, anyb, Option, none, some, ok, err, or_else, arith, ok-injective, if◌then◌else◌,
}
use patchlab.BranchDelete.{
  Git, log_failed, parse_unapplied_shas, parse_branch_commit_list, intersect, intersect_all,
  compute_unapplied_intersection, is_baseline, without_baseline, exclusive_commits, commits_of,
  commits_beyond, list_other_local_branches, unapplied_session_commits,
}

has-filterb :
    (p : Text → Bool) (shas : List Text) (k : Text) → has (filterb p shas) k ≡ (has shas k && p k)
unfolding has
has-filterb p [] k = refl
has-filterb p (s ∷ shas) k =
    ground (arith, has-filterb p shas k, text_eq_iff s k, λ (e : s ≡ k). ap p e)

-- Whether a comparison does not show the commit as applied; one that failed shows nothing.
abbrev pub keeps : Option Text → Text → Bool
keeps none sha = true
keeps (some stdout) sha = has (parse_unapplied_shas stdout) sha

abbrev pub succeeded : Option Text → Bool
succeeded none = false
succeeded (some _) = true

-- Whether some comparison succeeded
abbrev pub any_compared : (Text → Option Text) → List Text → Bool
any_compared cherry others = anyb (λ other. succeeded (cherry other)) others

-- Whether no comparison shows the commit as applied
abbrev pub all_keep : (Text → Option Text) → List Text → Text → Bool
all_keep cherry others sha = allb (λ other. keeps (cherry other) sha) others

intersect_all-some :
    (cherry : Text → Option Text) (d shas others : List Text) (k : Text)
    → has (or_else (intersect_all cherry (some shas) others) d) k
      ≡ (has shas k && all_keep cherry others k)
unfolding intersect_all
intersect_all-some cherry d shas [] k = ground arith
intersect_all-some cherry d shas (other ∷ others) k =
    step (cherry other) (λ kept. intersect_all-some cherry d kept others k)
  where
    step :
        (o : Option Text)
        → ((kept : List Text)
            → has (or_else (intersect_all cherry (some kept) others) d) k
              ≡ (has kept k && all_keep cherry others k))
        → has (or_else (intersect_all cherry (intersect (some shas) o) others) d) k
          ≡ (has shas k && (if keeps o k then all_keep cherry others k else false))
    step none later = later shas
    step (some stdout) later =
        later (filterb (has (parse_unapplied_shas stdout)) shas)
        ∙ ground (arith, has-filterb (has (parse_unapplied_shas stdout)) shas k)

intersect_all-none :
    (cherry : Text → Option Text) (d others : List Text) (k : Text)
    → has (or_else (intersect_all cherry none others) d) k
      ≡ (if any_compared cherry others then all_keep cherry others k else has d k)
unfolding intersect_all
intersect_all-none cherry d [] k = refl
intersect_all-none cherry d (other ∷ others) k =
    step (cherry other) (intersect_all-none cherry d others k)
  where
    step :
        (o : Option Text)
        → has (or_else (intersect_all cherry none others) d) k
          ≡ (if any_compared cherry others then all_keep cherry others k else has d k)
        → has (or_else (intersect_all cherry (intersect none o) others) d) k ≡ (
            if (if succeeded o then true else any_compared cherry others)
            then (if keeps o k then all_keep cherry others k else false)
            else has d k)
    step none later = later
    step (some stdout) later =
        intersect_all-some cherry d (parse_unapplied_shas stdout) others k ∙ ground arith

-- On a branch that exists and whose log can be read, the commits that are reported unapplied are: where
-- the comparison with some other branch succeeded, those that every successful comparison reports, and
-- otherwise all commits of the branch; of them all but the baseline.
pub unapplied_session_commits_lem :
    (git : Git) (branch log_output : Text) (baseline : Option Text) (others shas : List Text)
    → git.branch_exists ≡ true
    → git.log ≡ some log_output
    → list_other_local_branches git branch ≡ ok others
    → unapplied_session_commits git branch baseline ≡ ok shas
    → (sha : Text)
    → has shas sha ≡ (
        (if any_compared git.cherry others
          then all_keep git.cherry others sha
          else has (parse_branch_commit_list log_output) sha)
        && not (is_baseline baseline sha))
unfolding unapplied_session_commits compute_unapplied_intersection
unapplied_session_commits_lem git branch log_output baseline others shas there logged listed h sha =
    let found = exclusive_commits git log_output others in
    let computed : unapplied_session_commits git branch baseline
        ≡ ok (without_baseline baseline found) =
      ap (λ t. if t then commits_of git branch baseline git.log else ok []) there
      ∙ ap (commits_of git branch baseline) logged
      ∙ ap (commits_beyond git log_output baseline) listed in
    let same : without_baseline baseline found ≡ shas = ok-injective (sym computed ∙ h) in
    ap (λ shas. has shas sha) (sym same)
    ∙ has-filterb (λ sha. not (is_baseline baseline sha)) found sha
    ∙ ap (λ t. t && not (is_baseline baseline sha))
        (intersect_all-none git.cherry (parse_branch_commit_list log_output) others sha)

-- Where the branch exists, nothing is reported only if nothing could have been: a log that cannot be
-- read, or branches that cannot be listed, are an error.
pub unapplied_session_commits-eq-err :
    (git : Git) (branch : Text) (baseline : Option Text)
    → git.branch_exists ≡ true
    → git.log ≡ none
    → (message : Text) × (unapplied_session_commits git branch baseline ≡ err message)
unfolding unapplied_session_commits
unapplied_session_commits-eq-err git branch baseline there unreadable = (
  log_failed,
  ap (λ t. if t then commits_of git branch baseline git.log else ok []) there
      ∙ ap (commits_of git branch baseline) unreadable,
)
