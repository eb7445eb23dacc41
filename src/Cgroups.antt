-- ===== src/Cgroups.antt =====
-- src/cgroups.ts: the cgroup probe with its cache, and the warning that is given once.
-- The module's two variables are the record Process; the host at the time of a call is the record
-- Host, with `fs.readFileSync` as a function of the path; what is logged is returned.
pub mod Probe
pub mod Once
mod Tests
use patchlab.Common.{
  is_space, trim, ℕ, Text, codes, has, starts_with, drop, split, join, Option, none, some, Result,
  ok, err, ltb, leb, ◌==◌, if◌then◌else◌, find_first, filterb, length, Bool, true, false, not, ◌&&◌,
  ◌||◌, List, [], ◌∷◌, ◌++◌,
}

pub data SupportedReason : Type 0 where
  non_linux : SupportedReason
  controllers_present : SupportedReason

pub data CgroupProbeResult : Type 0 where
  supported : SupportedReason → CgroupProbeResult
  unsupported : Text → CgroupProbeResult

pub record Host : Type 0 where
  is_linux : Bool
  read_file : Text → Result Text Text

pub record Process : Type 0 where
  cached_probe_result : Option CgroupProbeResult
  warning_emitted : Bool

abbrev pub fresh_process : Process
fresh_process = record { cached_probe_result = none; warning_emitted = false }

abbrev pub proc_self_cgroup : Text
proc_self_cgroup = codes "/proc/self/cgroup"

abbrev sys_fs_cgroup_root : Text
sys_fs_cgroup_root = codes "/sys/fs/cgroup"

abbrev line_feed : ℕ
line_feed = 10

abbrev after_prefix : Option Text → Option Text
after_prefix none = none
after_prefix (some line) = some (drop 3 line)

-- The path of the first line that begins with `0::`.
pub parse_unified_cgroup_path : Text → Option Text
parse_unified_cgroup_path contents =
    after_prefix (find_first (λ line. starts_with line (codes "0::")) (split line_feed contents))

abbrev starts_word : ℕ → List Text → List Text
starts_word c [] = (c ∷ []) ∷ []
starts_word c (word ∷ words) = (c ∷ word) ∷ words

-- Split at each white space; the empty pieces are filtered out by the caller, so that this
-- agrees with a split at runs of white space.
pub split_at_spaces : Text → List Text
split_at_spaces [] = [] ∷ []
split_at_spaces (c ∷ cs) =
    let rest = split_at_spaces cs in if is_space c then [] ∷ rest else starts_word c rest

pub controllers_of : Text → List Text
controllers_of contents = filterb (λ token. ltb 0 (length token)) (split_at_spaces (trim contents))

abbrev required_controllers : List Text
required_controllers = codes "memory" ∷ codes "cpu" ∷ []

pub missing_controllers : List Text → List Text
missing_controllers controllers = filterb (λ c. not (has controllers c)) required_controllers

abbrev or_empty : Text → Text
or_empty [] = codes "<empty>"
or_empty (c ∷ cs) = c ∷ cs

abbrev could_not_read : Text → Text → CgroupProbeResult
could_not_read file message =
    unsupported (codes "could not read " ++ (file ++ (codes ": " ++ message)))

abbrev no_unified_hierarchy : CgroupProbeResult
no_unified_hierarchy = unsupported (
    proc_self_cgroup
    ++ (codes " has no cgroup v2 unified hierarchy line (no \"0::\" entry); "
        ++ codes "patchlab requires cgroup v2 for resource-limit enforcement"))

abbrev report_missing : Text → List Text → CgroupProbeResult
report_missing contents [] = supported controllers_present
report_missing contents (m ∷ ms) = unsupported (
    codes "missing required cgroup v2 controllers: "
    ++ (join (codes ", ") (m ∷ ms)
        ++ (codes " (found: " ++ (or_empty (trim contents) ++ codes ")"))))

abbrev pub controllers_file : Text → Text
controllers_file path = sys_fs_cgroup_root ++ (path ++ codes "/cgroup.controllers")

abbrev judge_controllers : Text → Result Text Text → CgroupProbeResult
judge_controllers path (err message) = could_not_read (controllers_file path) message
judge_controllers path (ok contents) =
    report_missing contents (missing_controllers (controllers_of contents))

abbrev read_controllers : Host → Option Text → CgroupProbeResult
read_controllers host none = no_unified_hierarchy
read_controllers host (some path) = judge_controllers path (host.read_file (controllers_file path))

abbrev read_hierarchy : Host → Result Text Text → CgroupProbeResult
read_hierarchy host (err message) = could_not_read proc_self_cgroup message
read_hierarchy host (ok contents) = read_controllers host (parse_unified_cgroup_path contents)

pub probe_linux_cgroup_v2 : Host → CgroupProbeResult
probe_linux_cgroup_v2 host = read_hierarchy host (host.read_file proc_self_cgroup)

-- What the probe answers when nothing is cached.
abbrev fresh_probe : Host → CgroupProbeResult
fresh_probe host = if host.is_linux then probe_linux_cgroup_v2 host else supported non_linux

abbrev cached_or_fresh : Host → Process → Option CgroupProbeResult → CgroupProbeResult × Process
cached_or_fresh host p (some result) = (result, p)
cached_or_fresh host p none =
    let result = fresh_probe host in
    (result, record { cached_probe_result = some result; warning_emitted = p.warning_emitted })

pub probe_cgroup_capabilities : Host → Process → CgroupProbeResult × Process
probe_cgroup_capabilities host p = cached_or_fresh host p (p.cached_probe_result)

pub build_cgroup_warning_message : Text
build_cgroup_warning_message = join (line_feed ∷ []) (
    codes "warning: this host's rootless Podman cannot enforce memory or CPU limits"
    ∷ codes "  on patchlab sandboxes. A runaway tool inside a sandbox can still consume"
    ∷ codes "  all host resources. To enable enforcement, see:"
    ∷ codes
        "    https://github.com/Training-Datasmith/patchlab/blob/main/documents/configuration.md#cgroup-delegation"
    ∷ codes "  (Sandbox creation will continue with limits set but unenforced.)"
    ∷ [])

abbrev warn_if_unsupported : CgroupProbeResult × Process → List Text × Process
warn_if_unsupported (supported reason, p) = ([], p)
warn_if_unsupported (unsupported reason, p) = (
  build_cgroup_warning_message ∷ [],
  record { cached_probe_result = p.cached_probe_result; warning_emitted = true },
)

-- What is logged, and the process afterwards.
pub warn_once_if_unsupported : Host → Process → List Text × Process
warn_once_if_unsupported host p =
    if p.warning_emitted then ([], p) else warn_if_unsupported (probe_cgroup_capabilities host p)
