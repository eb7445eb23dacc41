-- ===== src/Detection.antt =====
-- src/detect/pipeline.ts and the merging helpers of src/detect/helpers.ts.
-- A detector is what it returns for the project, or the message of what it throws; the warnings
-- are collected in a list.
pub mod FirstWins
pub mod Merged
mod Tests
use patchlab.Common.{
  ℕ, Text, codes, text_eq, has, split, join, Assoc, get, put, Option, none, some, Result, ok, err,
  Bool, true, false, not, ◌&&◌, List, [], ◌∷◌, ◌++◌, if◌then◌else◌, anyb, ◌==◌,
}
use patchlab.OverridesMerge.{
  RequirementSource, ci_configuration, docker_compose, source_code, test_scripts, dev_dependencies,
  package_manifest, configuration_files, php_test_configuration, SystemPackageRequirement,
  VolumeMountRequirement, EnvironmentVariableRequirement, ServiceRequirement, NpmPackageRequirement,
  DetectedRequirements, mount_string,
}

pub data SandboxRequirement : Type 0 where
  system_package : SystemPackageRequirement → SandboxRequirement
  volume_mount : VolumeMountRequirement → SandboxRequirement
  environment_var : EnvironmentVariableRequirement → SandboxRequirement
  service : ServiceRequirement → SandboxRequirement
  npm_package : NpmPackageRequirement → SandboxRequirement

-- A set of keys and the items that were pushed with them.
pub record Bucket (A : Type 0) : Type 0 where
  seen : List Text
  target : List A

pub dedupe_by_key : {A : Type 0} → A → Text → Bucket A → Bucket A
dedupe_by_key item key b =
    if has b.seen key
    then b
    else record { seen = b.seen ++ key ∷ []; target = b.target ++ item ∷ [] }

pub data Warning : Type 0 where
  conflict : (key : Text) → (found existing : RequirementSource) → Warning
  detector_failed : (name message : Text) → Warning

pub record Variables : Type 0 where
  seen : Assoc EnvironmentVariableRequirement
  target : List EnvironmentVariableRequirement
  warnings : List Warning

-- The source's text, by which sources are compared
abbrev pub source_text : RequirementSource → Text
source_text ci_configuration = codes "ci_configuration"
source_text docker_compose = codes "docker_compose"
source_text source_code = codes "source_code"
source_text test_scripts = codes "test_scripts"
source_text dev_dependencies = codes "dev_dependencies"
source_text package_manifest = codes "package_manifest"
source_text configuration_files = codes "configuration_files"
source_text php_test_configuration = codes "php_test_configuration"

abbrev pub conflicts : EnvironmentVariableRequirement → EnvironmentVariableRequirement → Bool
conflicts existing requirement =
    not (text_eq existing.value requirement.value)
    && not (text_eq (source_text existing.source) (source_text requirement.source))

abbrev pub keep_existing :
    EnvironmentVariableRequirement → Variables → Option EnvironmentVariableRequirement → Variables
keep_existing requirement v (some existing) =
    if conflicts existing requirement
    then record v {
      warnings = v.warnings ++ conflict requirement.key requirement.source existing.source ∷ [];
    }
    else v
keep_existing requirement v none = record v {
  seen = put v.seen requirement.key requirement;
  target = v.target ++ requirement ∷ [];
}

pub merge_environment_variable : EnvironmentVariableRequirement → Variables → Variables
merge_environment_variable requirement v = keep_existing requirement v (get v.seen requirement.key)

pub record Merge : Type 0 where
  system_packages : Bucket SystemPackageRequirement
  volume_mounts : Bucket VolumeMountRequirement
  environment_variables : Variables
  services : Bucket ServiceRequirement
  npm_packages : Bucket NpmPackageRequirement

-- One turn of the loop
abbrev pub merge_one : SandboxRequirement → Merge → Merge
merge_one (system_package r) m = record m {
  system_packages = dedupe_by_key r r.capability m.system_packages;
}
merge_one (volume_mount r) m = record m {
  volume_mounts = dedupe_by_key r (mount_string r) m.volume_mounts;
}
merge_one (environment_var r) m = record m {
  environment_variables = merge_environment_variable r m.environment_variables;
}
merge_one (service r) m = record m { services = dedupe_by_key r r.name m.services }
merge_one (npm_package r) m = record m {
  npm_packages = dedupe_by_key r r.npm_package m.npm_packages;
}

pub merge_all : List SandboxRequirement → Merge → Merge
merge_all [] m = m
merge_all (r ∷ requirements) m = merge_all requirements (merge_one r m)

abbrev pub nothing : {A : Type 0} → Bucket A
nothing = record { seen = []; target = [] }

abbrev pub empty_merge : List Warning → Merge
empty_merge warnings = record {
  system_packages = nothing;
  volume_mounts = nothing;
  environment_variables = record { seen = []; target = []; warnings = warnings };
  services = nothing;
  npm_packages = nothing;
}

abbrev pub Detector : Type 0
Detector = Text × Result Text (List SandboxRequirement)

-- The requirements of the detectors that do not throw, in order, and a warning for each other one.
pub run_detectors : List Detector → List SandboxRequirement × List Warning
run_detectors [] = ([], [])
run_detectors ((name, ok requirements) ∷ detectors) =
    let (rest, warnings) = run_detectors detectors in (requirements ++ rest, warnings)
run_detectors ((name, err message) ∷ detectors) =
    let (rest, warnings) = run_detectors detectors in
    (rest, detector_failed name message ∷ warnings)

abbrev pub result_of : Merge → DetectedRequirements
result_of m = record {
  system_packages = m.system_packages.target;
  volume_mounts = m.volume_mounts.target;
  environment_variables = m.environment_variables.target;
  services = m.services.target;
  npm_packages = m.npm_packages.target;
}

-- The result and the warnings
pub detect_requirements : List Detector → DetectedRequirements × List Warning
detect_requirements detectors =
    let (requirements, warnings) = run_detectors detectors in
    let merged = merge_all requirements (empty_merge warnings) in
    (result_of merged, merged.environment_variables.warnings)
