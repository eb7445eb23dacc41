-- ===== src/BranchDelete/Tests.antt =====
-- Runs of src/branch/delete.ts, and its theorems at concrete inputs.
use patchlab.Common.{
  ◌≡◌, refl, codes, text_eq, has, split, trim, trim_start, trim_end, get, put, true, false, not,
  ◌&&◌, [], ◌∷◌, anyb, none, some, or_else, ok, if◌then◌else◌,
}
use patchlab.Manifest.{
  SandboxManifest, manifest_repositories, distinct_repositories_from_sources, collect_distinct,
}
use patchlab.Manifest.Repositories.{lies_in}
use patchlab.BranchDelete.{
  Git, deleted, skipped, DeleteBranchOptions, branch_deleted, warned_unverified, log_failed,
  hex_prefix, spaced_sha, unapplied_sha, add_lines, parse_unapplied_shas, parse_branch_commit_list,
  other_branches, list_other_local_branches, intersect_all, compute_unapplied_intersection,
  is_baseline, unapplied_session_commits, unapplied_gate_skips_with_baseline, unapplied_gate_skips,
  delete_branch_in_one_repository, outcome_of, delete_in_each, delete_patchlab_branch,
}
use patchlab.BranchDelete.Unapplied.{any_compared, all_keep, unapplied_session_commits_lem}
use patchlab.BranchDelete.Gate.{IsGuarded, delete_branch_in_one_repository-IsGuarded}
use patchlab.BranchDelete.Outcomes.{delete_patchlab_branch_outcomes}

-- A branch of two commits beyond its baseline, the first of which stands on main too
abbrev web_git : Git
web_git = record {
  is_reachable = true;
  branch_exists = true;
  log = some (codes "ba5e\nc1\nc2\n");
  refs = ok (codes "main\npatchlab/lab\n");
  cherry = λ other. some (codes "+ ba5e\n- c1\n+ c2\n");
  delete_failure = none;
}

abbrev broken_git : Git
broken_git = record web_git { log = none }

abbrev lab : SandboxManifest
lab = record {
  id = codes "lab";
  format_version = 0;
  sources =
      record {
        host_path = codes "/web";
        repository_root = codes "/web";
        source_prefix = [];
        mount_name = codes "web";
      }
      ∷ [];
  baseline_commit_shas = (codes "/web", some (codes "ba5e")) ∷ [];
  branch_creation_point_shas = [];
  created_at = [];
  container_name = [];
  container_image = [];
  effective_image = none;
  tool = none;
  include_globs = none;
  exclude_globs = none;
  volume_mounts = none;
  environment_variables = none;
  npm_packages = none;
}

abbrev unattended : DeleteBranchOptions
unattended = record { force = false; confirm = none }

abbrev forced_options : DeleteBranchOptions
forced_options = record { force = true; confirm = none }

unapplied_run :
    unapplied_session_commits web_git (codes "patchlab/lab") (some (codes "ba5e"))
    ≡ ok (codes "c2" ∷ [])
unfolding unapplied_session_commits list_other_local_branches other_branches split trim trim_start
    trim_end text_eq compute_unapplied_intersection intersect_all parse_unapplied_shas add_lines
    unapplied_sha spaced_sha hex_prefix has
unapplied_run = refl

listed_run : list_other_local_branches web_git (codes "patchlab/lab") ≡ ok (codes "main" ∷ [])
unfolding list_other_local_branches other_branches split trim trim_start trim_end text_eq
listed_run = refl

unapplied_session_commits_lem_example : has (codes "c2" ∷ []) (codes "c2") ≡ (
    (if any_compared web_git.cherry (codes "main" ∷ [])
      then all_keep web_git.cherry (codes "main" ∷ []) (codes "c2")
      else has (parse_branch_commit_list (codes "ba5e\nc1\nc2\n")) (codes "c2"))
    && not (is_baseline (some (codes "ba5e")) (codes "c2")))
unapplied_session_commits_lem_example =
    unapplied_session_commits_lem web_git (codes "patchlab/lab") (codes "ba5e\nc1\nc2\n")
      (some (codes "ba5e")) (codes "main" ∷ []) (codes "c2" ∷ []) refl refl listed_run unapplied_run
      (codes "c2")

delete_branch_in_one_repository-IsGuarded_example :
    IsGuarded web_git unattended
      (codes "/web")
      (unapplied_session_commits web_git
        (codes "patchlab/lab")
        (or_else (get lab.baseline_commit_shas (codes "/web")) none))
      (delete_branch_in_one_repository lab web_git (codes "/web") (codes "patchlab/lab") unattended)
delete_branch_in_one_repository-IsGuarded_example =
    delete_branch_in_one_repository-IsGuarded lab web_git (codes "/web") (codes "patchlab/lab")
      unattended

delete_patchlab_branch_outcomes_example :
    get
      (delete_patchlab_branch (λ root. web_git) lab (codes "patchlab/lab") unattended).outcomes
      (codes "/web")
    ≡ (if anyb (lies_in (codes "/web")) lab.sources
        then some (
            outcome_of
              (delete_branch_in_one_repository lab web_git
                (codes "/web")
                (codes "patchlab/lab")
                unattended).0)
        else none)
delete_patchlab_branch_outcomes_example =
    delete_patchlab_branch_outcomes (λ root. web_git) lab (codes "patchlab/lab") unattended
      (codes "/web")

skipped_run :
    (delete_patchlab_branch (λ root. web_git) lab (codes "patchlab/lab") unattended).outcomes
    ≡ (codes "/web", skipped) ∷ []
unfolding delete_patchlab_branch manifest_repositories distinct_repositories_from_sources
    collect_distinct delete_in_each delete_branch_in_one_repository unapplied_gate_skips
    unapplied_gate_skips_with_baseline unapplied_session_commits list_other_local_branches
    other_branches split trim trim_start trim_end text_eq compute_unapplied_intersection
    intersect_all parse_unapplied_shas add_lines unapplied_sha spaced_sha hex_prefix has get put
skipped_run = refl

-- A log that cannot be read keeps the branch.
fail_closed_run :
    delete_branch_in_one_repository lab broken_git (codes "/web") (codes "patchlab/lab") unattended
    ≡ (ok skipped, warned_unverified (codes "/web") log_failed ∷ [])
unfolding delete_branch_in_one_repository unapplied_gate_skips unapplied_gate_skips_with_baseline
    unapplied_session_commits
fail_closed_run = refl

forced_run :
    delete_branch_in_one_repository lab broken_git
      (codes "/web")
      (codes "patchlab/lab")
      forced_options
    ≡ (ok deleted, branch_deleted (codes "/web") ∷ [])
unfolding delete_branch_in_one_repository unapplied_gate_skips unapplied_gate_skips_with_baseline
forced_run = refl

abbrev without_baseline_lab : SandboxManifest
without_baseline_lab = record lab { baseline_commit_shas = [] }
