-- ===== src/Cgroups/Tests.antt =====
-- Runs of src/cgroups.ts, and the theorems at concrete inputs.
use patchlab.Common.{
  ◌++◌, ◌≡◌, ◌+◌, refl, length, Text, codes, text_eq, has, starts_with, split, join, trim,
  trim_start, trim_end, if◌then◌else◌, ok, err, true, List, [], ◌∷◌,
}
use patchlab.Cgroups.{
  Host, Process, supported, unsupported, controllers_present, fresh_process, proc_self_cgroup,
  parse_unified_cgroup_path, split_at_spaces, controllers_of, missing_controllers,
  probe_linux_cgroup_v2, probe_cgroup_capabilities, build_cgroup_warning_message,
  warn_once_if_unsupported,
}
use patchlab.Cgroups.Once.{warned, done, step, warnings_left, warn_once}

abbrev with_controllers : Text → Host
with_controllers controllers = record {
  is_linux = true;
  read_file = λ path.
      if text_eq path proc_self_cgroup
      then ok (codes "1:cpu:/old\n0::/user\n")
      else if text_eq path (codes "/sys/fs/cgroup/user/cgroup.controllers")
      then ok controllers
      else err (codes "ENOENT");
}

abbrev delegated : Host
delegated = with_controllers (codes "cpuset cpu io\tmemory pids\n")

abbrev bare : Host
bare = with_controllers (codes "pids\n")

delegated_run : probe_linux_cgroup_v2 delegated ≡ supported controllers_present
unfolding probe_linux_cgroup_v2 parse_unified_cgroup_path controllers_of missing_controllers
    split_at_spaces trim trim_start trim_end split starts_with has text_eq
delegated_run = refl

bare_run :
    probe_linux_cgroup_v2 bare
    ≡ unsupported (codes "missing required cgroup v2 controllers: memory, cpu (found: pids)")
unfolding probe_linux_cgroup_v2 parse_unified_cgroup_path controllers_of missing_controllers
    split_at_spaces trim trim_start trim_end split starts_with has text_eq join
bare_run = refl

abbrev after_one : Process
after_one = (warn_once_if_unsupported bare fresh_process).1

abbrev after_two : Process
after_two = (warn_once_if_unsupported bare after_one).1

abbrev two_warnings : List Text
two_warnings =
    (warn_once_if_unsupported bare fresh_process).0
    ++ ((warn_once_if_unsupported bare after_one).0 ++ [])

warn_once_example : length two_warnings + warnings_left (after_two.warning_emitted) ≡ 1
warn_once_example = warn_once two_warnings after_two (
    step fresh_process after_one after_two _ _ (warned bare fresh_process)
      (step after_one after_two after_two _ _ (warned bare after_one) (done after_two)))

one_warning : two_warnings ≡ build_cgroup_warning_message ∷ []
unfolding warn_once_if_unsupported probe_cgroup_capabilities probe_linux_cgroup_v2
    parse_unified_cgroup_path controllers_of missing_controllers split_at_spaces trim trim_start
    trim_end split starts_with has text_eq
one_warning = refl

abbrev probed_once : Process
probed_once = (probe_cgroup_capabilities bare fresh_process).1
