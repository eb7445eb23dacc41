-- ===== src/Detection/Tests.antt =====
-- Runs of src/detect/pipeline.ts, and the theorem at a concrete input.
use patchlab.Common.{◌≡◌, refl, codes, text_eq, has, get, put, List, [], ◌∷◌, ok, err}
use patchlab.OverridesMerge.{
  EnvironmentVariableRequirement, SystemPackageRequirement, docker_compose, ci_configuration,
}
use patchlab.Detection.{
  system_package, environment_var, Detector, conflict, detector_failed, dedupe_by_key,
  merge_environment_variable, merge_all, run_detectors, detect_requirements,
}
use patchlab.Detection.Merged.{AllFirstWin, contributions, detect_requirements-AllFirstWin}

abbrev port : EnvironmentVariableRequirement
port = record { key = codes "PORT"; value = codes "80"; source = ci_configuration }

abbrev other_port : EnvironmentVariableRequirement
other_port = record { key = codes "PORT"; value = codes "81"; source = docker_compose }

abbrev redis : SystemPackageRequirement
redis = record { capability = codes "redis"; source = ci_configuration }

abbrev detectors : List Detector
detectors =
    (codes "CI configuration", ok (environment_var port ∷ system_package redis ∷ []))
    ∷ (codes "source code", err (codes "EACCES"))
    ∷ (codes "docker-compose", ok (environment_var other_port ∷ system_package redis ∷ []))
    ∷ []

detected_run : detect_requirements detectors ≡ (
  record {
    system_packages = redis ∷ [];
    volume_mounts = [];
    environment_variables = port ∷ [];
    services = [];
    npm_packages = [];
  },
  detector_failed (codes "source code") (codes "EACCES")
      ∷ conflict (codes "PORT") docker_compose ci_configuration
      ∷ [],
)
unfolding detect_requirements run_detectors merge_all merge_environment_variable dedupe_by_key has
    get put text_eq
detected_run = refl

detect_requirements-AllFirstWin_example :
    AllFirstWin (contributions detectors) (detect_requirements detectors).0
detect_requirements-AllFirstWin_example = detect_requirements-AllFirstWin detectors
