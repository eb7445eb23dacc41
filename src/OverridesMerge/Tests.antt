-- ===== src/OverridesMerge/Tests.antt =====
-- Runs of src/overrides_merge.ts, and the theorems at concrete inputs.
use patchlab.Common.{◌≡◌, refl, Text, codes, text_eq, has, put, none, some, ok, err, [], ◌∷◌}
use patchlab.OverridesMerge.{
  DetectedRequirements, EnvironmentVariableRequirement, PatchlabOverrides, ci_configuration,
  docker_compose, configuration_files, invalid_volume_mount, split_at_colon, separate, split_mount,
  set_of, add_to_set, keep, missing, explicit_mounts, set_all, environment_map, merge_requirements,
}
use patchlab.OverridesMerge.Laws.{IsMerged, merge_requirements-IsMerged}

drive_run : split_mount (codes "C:\\data:/data") ≡ ok (codes "C:\\data", codes "/data")
unfolding split_mount separate split_at_colon
drive_run = refl

-- A drive alone has no separator.
no_separator_run : split_mount (codes "C:\\data") ≡ err (invalid_volume_mount (codes "C:\\data"))
unfolding split_mount separate split_at_colon
no_separator_run = refl

abbrev variable : Text → Text → EnvironmentVariableRequirement
variable key value = record { key = key; value = value; source = docker_compose }

abbrev detected : DetectedRequirements
detected = record {
  system_packages =
      record { capability = codes "redis"; source = ci_configuration }
      ∷ record { capability = codes "postgres"; source = ci_configuration }
      ∷ [];
  volume_mounts = [];
  environment_variables =
      variable (codes "PORT") (codes "80") ∷ variable (codes "PORT") (codes "81") ∷ [];
  services = [];
  npm_packages = [];
}

abbrev overrides : PatchlabOverrides
overrides = record {
  requirements = some (record {
    system_packages = some (codes "redis" ∷ codes "curl" ∷ codes "curl" ∷ []);
    volume_mounts = some (codes "/host:/data" ∷ []);
    environment_variables = some ((codes "MODE", codes "test") ∷ []);
    npm_packages = none;
  });
  ignore_detected = some (codes "redis" ∷ codes "postgres" ∷ []);
}

abbrev merged : DetectedRequirements
merged = record {
  system_packages =
      record { capability = codes "redis"; source = ci_configuration }
      ∷ record { capability = codes "curl"; source = configuration_files }
      ∷ [];
  volume_mounts =
      record {
        host_path = codes "/host";
        container_path = codes "/data";
        source = configuration_files;
      }
      ∷ [];
  environment_variables =
      variable (codes "PORT") (codes "81")
      ∷ record { key = codes "MODE"; value = codes "test"; source = configuration_files }
      ∷ [];
  services = [];
  npm_packages = [];
}

merged_run : merge_requirements detected overrides ≡ ok merged
unfolding merge_requirements set_of add_to_set keep missing explicit_mounts split_mount separate
    split_at_colon environment_map set_all has put text_eq
merged_run = refl

merge_requirements-IsMerged_example : IsMerged detected merged overrides
merge_requirements-IsMerged_example =
    merge_requirements-IsMerged detected merged overrides merged_run
