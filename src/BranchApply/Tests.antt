-- ===== src/BranchApply/Tests.antt =====
-- Runs of src/branch/apply.ts, and its theorems at concrete inputs.
use patchlab.Common.{
  ◌≡◌, refl, ℕ, Text, codes, text_eq, has, split, trim, trim_start, trim_end, starts_with, get,
  true, false, List, [], ◌∷◌, Option, none, some, ok, err, if◌then◌else◌,
}
use patchlab.PathContainment.{ends_with_slash}
use patchlab.BranchDelete.{unapplied_sha, parse_unapplied_shas}
use patchlab.Manifest.{SandboxManifest, manifest_repositories, distinct_repositories_from_sources}
use patchlab.BranchApply.{
  cherry_pick, merge_commit, ApplyOptions, AppliedItem, Command, pick, Failure, Repository, Session,
  submodule_path, detect_submodules, detect_submodule_paths_in_commit, compute_cherry_summary,
  stopped_at,
}
use patchlab.BranchApply.Choice.{
  darwin, posix, paths_equal, resolve_apply_repository, IsChoice, resolve_apply_repository-IsChoice,
}
use patchlab.BranchApply.Pick.{cherry_pick_candidates}
use patchlab.BranchApply.Merge.{
  needs_include_baseline, reject_unsupported_merge_combinations, collect_apply_candidates,
  apply_patchlab_branch,
}
use patchlab.BranchApply.Sessions.{IsWithinSessions, apply_patchlab_branch-IsWithinSessions}

-- The pick of c2 fails; c1 stands on the current branch already.
abbrev answer_to : Text → Option Failure
answer_to sha =
    if text_eq sha (codes "c2")
    then some (record { stderr = codes " conflict\n"; stdout = [] })
    else none

abbrev web_run : List Command → Command → Option Failure
web_run ran (pick sha) = answer_to sha
web_run ran _ = none

abbrev web : Repository
web = record {
  branch_exists = true;
  is_staged = false;
  symbolic_ref = some (codes "main\n");
  cherry = λ upstream branch. some (codes "+ ba5e\n- c1\n+ c2\n+ c3\n");
  diff = λ range. ok [];
  run = web_run;
  head = λ ran. ok (codes "f00d");
  gitmodules = λ ran. some (codes "[submodule]\n\tpath = lib/sub\n");
  diff_tree = λ ran sha. some (codes "lib/sub/file\n");
}

abbrev session : ℕ → Text → Session
session n sha = record { session_number = n; commit_shas = (codes "/web", some sha) ∷ [] }

abbrev sessions : List Session
sessions = session 1 (codes "c1") ∷ session 2 (codes "c2") ∷ session 3 (codes "c3") ∷ []

abbrev lab : SandboxManifest
lab = record {
  id = codes "lab";
  format_version = 0;
  sources =
      record {
        host_path = codes "/web";
        repository_root = codes "/web";
        source_prefix = [];
        mount_name = codes "web";
      }
      ∷ [];
  baseline_commit_shas = (codes "/web", some (codes "ba5e")) ∷ [];
  branch_creation_point_shas = [];
  created_at = [];
  container_name = [];
  container_image = [];
  effective_image = none;
  tool = none;
  include_globs = none;
  exclude_globs = none;
  volume_mounts = none;
  environment_variables = none;
  npm_packages = none;
}

abbrev picking : ApplyOptions
picking = record { session_number = none; mode = cherry_pick; include_baseline = false }

abbrev merging : ApplyOptions
merging = record { session_number = none; mode = merge_commit; include_baseline = false }

abbrev item : ℕ → Text → AppliedItem
item n sha = record { session_number = some n; commit_sha = sha }

-- c1 is skipped, c2 conflicts, and c3 is not tried.
conflict_run :
    apply_patchlab_branch web (ok lab) (ok sessions) (codes "/web") (codes "patchlab/lab") picking
    ≡ (
      ok (
          stopped_at cherry_pick [] (item 1 (codes "c1") ∷ []) (record {
            session_number = some 2;
            commit_sha = codes "c2";
            submodule_paths = codes "lib/sub" ∷ [];
            message = codes "conflict";
          })),
      pick (codes "c2") ∷ [],
    )
unfolding apply_patchlab_branch reject_unsupported_merge_combinations collect_apply_candidates get
    text_eq cherry_pick_candidates compute_cherry_summary has parse_unapplied_shas split
    unapplied_sha trim_start detect_submodule_paths_in_commit trim submodule_path trim_end
    starts_with ends_with_slash
conflict_run = refl

rejected_run :
    apply_patchlab_branch web (ok lab) (ok sessions) (codes "/web") (codes "patchlab/lab") merging
    ≡ (err needs_include_baseline, [])
unfolding apply_patchlab_branch reject_unsupported_merge_combinations get text_eq
rejected_run = refl

-- A .gitmodules with carriage returns names no submodule.
carriage_return_run : detect_submodules (some (codes "\tpath = lib/sub\r\n")) ≡ []
unfolding detect_submodules split submodule_path starts_with trim_start
carriage_return_run = refl

case_run :
    resolve_apply_repository darwin (λ path. path) lab (some (codes "/WEB")) ≡ ok (codes "/web")
unfolding resolve_apply_repository manifest_repositories distinct_repositories_from_sources has
    paths_equal text_eq
case_run = refl

resolve_apply_repository-IsChoice_example :
    IsChoice
      (paths_equal posix)
      (λ path. path)
      (manifest_repositories lab)
      (some (codes "/web"))
      (resolve_apply_repository posix (λ path. path) lab (some (codes "/web")))
resolve_apply_repository-IsChoice_example =
    resolve_apply_repository-IsChoice posix (λ path. path) lab (some (codes "/web"))

has_baseline : get lab.baseline_commit_shas (codes "/web") ≡ some (some (codes "ba5e"))
unfolding get text_eq
has_baseline = refl

apply_patchlab_branch-IsWithinSessions_example :
    IsWithinSessions web
      (codes "/web")
      (codes "patchlab/lab")
      (codes "ba5e")
      sessions
      none
      (apply_patchlab_branch web
        (ok lab)
        (ok sessions)
        (codes "/web")
        (codes "patchlab/lab")
        picking).1
apply_patchlab_branch-IsWithinSessions_example =
    apply_patchlab_branch-IsWithinSessions web lab sessions (codes "/web") (codes "patchlab/lab")
      picking b'b' (codes "a5e") has_baseline refl
