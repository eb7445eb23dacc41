-- ===== src/SessionCommit/Tests.antt =====
-- Runs of src/branch/session_commit.ts, and the theorems at concrete inputs.
use patchlab.Common.{
  has, text_eq, put, ℕ, ◌≡◌, ◌⊎◌, refl, Text, codes, anyb, List, [], ◌∷◌, none, some, ok, err, true,
}
use patchlab.Manifest.{SourceSpecification}
use patchlab.Manifest.Repositories.{lies_in}
use patchlab.SessionCommit.StreamApply.{
  Exit, Event, cat_close, apply_close, cat_error, child_error, spawned, pending, resolved, rejected,
  settle, handle, run,
}
use patchlab.SessionCommit.StreamApply.Laws.{
  cat_succeeds, apply_succeeds, run-eq-resolved, run_error_rejects,
}
use patchlab.SessionCommit.FanOut.Effects.{Call, pure, call, note, try_catch, finally, ◌>>=◌}
use patchlab.SessionCommit.FanOut.{
  RepositoryHost, RepositorySliceResult, CommitSessionResult, SessionHost, sources_of, fan_out,
  commit_session_to_branch, SessionOutcome, build_repository_path_rewriter, save_fallback,
  handle_oversized_slice, handle_missing_branch, apply_and_commit,
  apply_and_commit_repository_slice, commit_slice, fan_out_to_one_repository,
  record_extraction_outcome,
}
use patchlab.SessionCommit.FanOut.Laws.{Kept, slice_pathspecs, fan_out_to_one_repository-Kept}
use patchlab.SessionCommit.FanOut.Total.{IsReachable}
use patchlab.Manifest.{collect_distinct, distinct_repositories_from_sources}
use patchlab.SessionCommit.FanOut.Session.{
  Reported, commit_session_to_branch-Reported, commit_session_to_branch_total,
}
use patchlab.SessionCommit.FanOut.Maps.{Recorded, record_extraction_outcome-Recorded}

abbrev good : Exit
good = record { code = some 0; signal = none }

abbrev killed : Exit
killed = record { code = none; signal = some (codes "SIGKILL") }

abbrev both_good : List Event
both_good = apply_close good ∷ cat_close good ∷ []

abbrev cat_killed : List Event
cat_killed = cat_close killed ∷ apply_close good ∷ []

resolved_run : (run spawned both_good).promise ≡ resolved
unfolding run handle settle
resolved_run = refl

run-eq-resolved_example :
    (anyb cat_succeeds both_good ≡ true) × (anyb apply_succeeds both_good ≡ true)
run-eq-resolved_example = run-eq-resolved both_good resolved_run

still_pending : (run spawned (cat_close good ∷ [])).promise ≡ pending
unfolding run handle settle
still_pending = refl

run_error_rejects_example :
    (run spawned (cat_close good ∷ cat_error ∷ apply_close good ∷ [])).promise
    ≡ rejected child_error
run_error_rejects_example =
    run_error_rejects (cat_close good ∷ []) (apply_close good ∷ []) cat_error refl still_pending

abbrev root : Text
root = codes "/web"

abbrev sources : List SourceSpecification
sources =
    record {
      host_path = root;
      repository_root = root;
      source_prefix = codes "app";
      mount_name = codes "app";
    }
    ∷ []

-- A host on which everything succeeds but the apply.
abbrev host : RepositoryHost
host = record {
  slice = λ specs. ok 10;
  confirm_oversized = none;
  copy_to_fallback = ok (codes "fallback.web.patch");
  branch_exists = true;
  branch_tip = ok (codes "t0");
  read_tree = λ tree_ish. ok (codes "i1");
  stream_apply = λ rewriter index. err (codes "patch does not apply");
  write_tree = λ index. ok (codes "t1");
  parent_tree = λ commit. ok (codes "t2");
  commit_tree = λ tree parent. ok (codes "c1");
  update_ref = λ commit_sha. ok tt;
}

abbrev rejected_slice : RepositorySliceResult
rejected_slice = record { commit_sha = none; fallback_path = some (codes "fallback.web.patch") }

fan_out_run : (fan_out_to_one_repository host 100 sources []).0 ≡ ok rejected_slice
unfolding fan_out_to_one_repository commit_slice handle_oversized_slice handle_missing_branch
    apply_and_commit_repository_slice apply_and_commit save_fallback pure call note try_catch
    finally ◌>>=◌
fan_out_run = refl

abbrev calls : List Call
calls = (fan_out_to_one_repository host 100 sources []).1

fan_out_calls : fan_out_to_one_repository host 100 sources [] ≡ (ok rejected_slice, calls)
unfolding fan_out_to_one_repository commit_slice handle_oversized_slice handle_missing_branch
    apply_and_commit_repository_slice apply_and_commit save_fallback pure call note try_catch
    finally ◌>>=◌
fan_out_calls = refl

fan_out_to_one_repository-Kept_example :
    (host.slice (slice_pathspecs sources) ≡ ok 0)
    ⊎ Kept host (build_repository_path_rewriter sources) rejected_slice
fan_out_to_one_repository-Kept_example =
    fan_out_to_one_repository-Kept host 100 sources [] calls rejected_slice fan_out_calls

host-IsReachable : IsReachable host sources
host-IsReachable = record {
  size = 10;
  sliced = refl;
  path = codes "fallback.web.patch";
  copied = refl;
  tip = codes "t0";
  resolved = refl;
  answers = λ confirm e n. cc;
}

abbrev earlier : SessionOutcome ℕ
earlier = record {
  rest = 7;
  outcome = record { commit_shas = (codes "/gone", some (codes "c0")) ∷ []; fallback_patches = [] };
}

abbrev outcome_now : CommitSessionResult
outcome_now = record {
  commit_shas = (root, some (codes "c1")) ∷ [];
  fallback_patches = (root, none) ∷ [];
}

record_extraction_outcome-Recorded_example :
    (after : SessionOutcome ℕ) × (record_extraction_outcome (some earlier) sources outcome_now
      ≡ some after)
    × (after.rest ≡ 7)
    × Recorded sources outcome_now after.outcome root
record_extraction_outcome-Recorded_example =
    record_extraction_outcome-Recorded earlier sources outcome_now root

-- The session's host: the repository's apply fails, and the container's head cannot be advanced.
abbrev session_host : SessionHost
session_host = record {
  repository = λ root. host;
  stage = ok tt;
  advance_head = err (codes "container is gone");
}

abbrev session_calls : List Call
session_calls = (commit_session_to_branch session_host none sources []).1

abbrev session_maps : CommitSessionResult
session_maps = record {
  commit_shas = (root, none) ∷ [];
  fallback_patches = (root, some (codes "fallback.web.patch")) ∷ [];
}

session_run :
    commit_session_to_branch session_host none sources [] ≡ (ok session_maps, session_calls)
unfolding commit_session_to_branch fan_out distinct_repositories_from_sources collect_distinct has
    put text_eq fan_out_to_one_repository commit_slice handle_oversized_slice handle_missing_branch
    apply_and_commit_repository_slice apply_and_commit save_fallback pure call note try_catch
    finally ◌>>=◌
session_run = refl

root_named : anyb (lies_in root) sources ≡ true
unfolding text_eq
root_named = refl

commit_session_to_branch-Reported_example : Reported session_host sources root session_maps
commit_session_to_branch-Reported_example =
    commit_session_to_branch-Reported session_host none sources [] session_calls session_maps root
      session_run root_named

any_repository : (k : Text) → IsReachable host (sources_of k sources)
any_repository k = record {
  size = 10;
  sliced = refl;
  path = codes "fallback.web.patch";
  copied = refl;
  tip = codes "t0";
  resolved = refl;
  answers = λ confirm e n. cc;
}

commit_session_to_branch_total_example :
    (maps : CommitSessionResult) × (log' : List Call) × (commit_session_to_branch session_host none
        sources []
      ≡ (ok maps, log'))
commit_session_to_branch_total_example =
    commit_session_to_branch_total session_host none sources [] refl any_repository
