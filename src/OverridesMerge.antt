-- ===== src/OverridesMerge.antt =====
-- src/overrides_merge.ts: detected requirements (src/detect/types.ts) combined with the
-- overrides of `.patchlab.json` (src/overrides.ts).
-- A `Set` of strings is the list of its elements in insertion order; the overrides' environment
-- variables are the entries of that object in the order of `Object.entries`.
pub mod Laws
pub mod Variables
pub mod Mounts
mod Tests
use patchlab.Common.{
  ℕ, Text, codes, text_eq, has, cut_cons, Assoc, put, Option, none, some, Result, ok, err, ◌>>=◌,
  leb, ◌==◌, if◌then◌else◌, or_else, Bool, true, false, not, ◌&&◌, ◌||◌, List, [], ◌∷◌, ◌++◌, map,
  filterb,
}

pub data RequirementSource : Type 0 where
  ci_configuration : RequirementSource
  docker_compose : RequirementSource
  source_code : RequirementSource
  test_scripts : RequirementSource
  dev_dependencies : RequirementSource
  package_manifest : RequirementSource
  configuration_files : RequirementSource
  php_test_configuration : RequirementSource

pub record SystemPackageRequirement : Type 0 where
  pub capability : Text
  pub source : RequirementSource

pub record VolumeMountRequirement : Type 0 where
  pub host_path : Text
  pub container_path : Text
  pub source : RequirementSource

pub record EnvironmentVariableRequirement : Type 0 where
  pub key : Text
  pub value : Text
  pub source : RequirementSource

pub record ServiceRequirement : Type 0 where
  pub name : Text
  pub source : RequirementSource

pub record NpmPackageRequirement : Type 0 where
  pub npm_package : Text
  pub init_command : Option (List Text)
  pub source : RequirementSource

pub record DetectedRequirements : Type 0 where
  pub system_packages : List SystemPackageRequirement
  pub volume_mounts : List VolumeMountRequirement
  pub environment_variables : List EnvironmentVariableRequirement
  pub services : List ServiceRequirement
  pub npm_packages : List NpmPackageRequirement

pub record OverrideRequirements : Type 0 where
  system_packages : Option (List Text)
  volume_mounts : Option (List Text)
  environment_variables : Option (Assoc Text)
  npm_packages : Option (List Text)

pub record PatchlabOverrides : Type 0 where
  requirements : Option OverrideRequirements
  ignore_detected : Option (List Text)

-- `Invalid volume mount (missing ':')`, with the mount
pub data MergeError : Type 0 where
  invalid_volume_mount : Text → MergeError

abbrev pub colon : ℕ
colon = b':'

abbrev is_letter : ℕ → Bool
is_letter c = (leb b'A' c && leb c b'Z') || (leb b'a' c && leb c b'z')

-- What stands before and behind the first colon.
pub split_at_colon : Text → Option (Text × Text)
split_at_colon [] = none
split_at_colon (c ∷ cs) =
    let rest = split_at_colon cs in if c == colon then some ([], cs) else cut_cons c rest

-- A drive letter's colon is passed over: the search starts at 2.
pub separate : Text → Option (Text × Text)
separate [] = none
separate (c ∷ []) = split_at_colon (c ∷ [])
separate (c ∷ d ∷ rest) =
    if is_letter c && d == colon
    then cut_cons c (cut_cons d (split_at_colon rest))
    else split_at_colon (c ∷ d ∷ rest)

abbrev found_or_throw : Text → Option (Text × Text) → Result MergeError (Text × Text)
found_or_throw mount none = err (invalid_volume_mount mount)
found_or_throw mount (some parts) = ok parts

pub split_mount : Text → Result MergeError (Text × Text)
split_mount mount = found_or_throw mount (separate mount)

-- `new Set(...)`: each element once, where it stands first
add_to_set : List Text → List Text → List Text
add_to_set set [] = set
add_to_set set (x ∷ xs) = if has set x then add_to_set set xs else add_to_set (set ++ x ∷ []) xs

pub set_of : List Text → List Text
unfolding add_to_set
set_of xs = add_to_set [] xs

module _ {ℓ} {A : Type ℓ} (name_of : A → Text) (explicit ignore : List Text) where
  -- the four `filter`s: an explicit item stays, any other stays unless it is ignored
  pub keep : List A → List A
  keep detected =
      filterb (λ r. if has explicit (name_of r) then true else not (has ignore (name_of r)))
        detected

module _ {ℓ} {A : Type ℓ} (name_of : A → Text) (explicit : List Text) where
  -- the explicit items that the kept ones do not name
  pub missing : List A → List Text
  missing kept = filterb (λ k. not (has (map name_of kept) k)) explicit

abbrev pub mount_string : VolumeMountRequirement → Text
mount_string r = r.host_path ++ (colon ∷ r.container_path)

abbrev pub explicit_package : Text → SystemPackageRequirement
explicit_package capability = record { capability = capability; source = configuration_files }

abbrev explicit_mount : Text × Text → VolumeMountRequirement
explicit_mount (host_path, container_path) = record {
  host_path = host_path;
  container_path = container_path;
  source = configuration_files;
}

abbrev pub explicit_npm_package : Text → NpmPackageRequirement
explicit_npm_package name = record {
  npm_package = name;
  init_command = none;
  source = configuration_files;
}

-- The loop over the explicit mounts, which the first invalid one ends.
pub explicit_mounts : List Text → Result MergeError (List VolumeMountRequirement)
explicit_mounts [] = ok []
explicit_mounts (mount ∷ mounts) = split_mount mount >>= λ parts.
    explicit_mounts mounts >>= λ rest. ok (explicit_mount parts ∷ rest)

-- `env_map.set` for each entry in turn
pub set_all {ℓ} : {V : Type ℓ} → Assoc V → Assoc V → Assoc V
set_all m [] = m
set_all m ((k, v) ∷ entries) = set_all (put m k v) entries

abbrev pub keyed : EnvironmentVariableRequirement → Text × EnvironmentVariableRequirement
keyed r = (r.key, r)

abbrev pub explicit_variable : Text × Text → Text × EnvironmentVariableRequirement
explicit_variable (key, value) =
    (key, record { key = key; value = value; source = configuration_files })

abbrev pub key_of : {V : Type 0} → Text × V → Text
key_of (k, _) = k

abbrev value_of : {V : Type 0} → Text × V → V
value_of (_, v) = v

-- The variables by key: the detected ones that stay, each over the one before, then the explicit
-- ones over these.
pub environment_map :
    List EnvironmentVariableRequirement
    → Assoc Text
    → List Text
    → Assoc EnvironmentVariableRequirement
environment_map detected explicit ignore =
    let kept = keep (λ r. r.key) (map key_of explicit) ignore detected in
    set_all (set_all [] (map keyed kept)) (map explicit_variable explicit)

abbrev no_requirements : OverrideRequirements
no_requirements = record {
  system_packages = none;
  volume_mounts = none;
  environment_variables = none;
  npm_packages = none;
}

module _ (overrides : PatchlabOverrides) where
  abbrev pub required : OverrideRequirements
  required = or_else (overrides.requirements) no_requirements

  abbrev pub ignored : List Text
  ignored = set_of (or_else (overrides.ignore_detected) [])

  abbrev pub explicit_packages : List Text
  explicit_packages = set_of (or_else (required.system_packages) [])

  abbrev pub explicit_mount_paths : List Text
  explicit_mount_paths = set_of (or_else (required.volume_mounts) [])

  abbrev pub explicit_environment : Assoc Text
  explicit_environment = or_else (required.environment_variables) []

  abbrev pub explicit_npm : List Text
  explicit_npm = set_of (or_else (required.npm_packages) [])

pub merge_requirements :
    DetectedRequirements → PatchlabOverrides → Result MergeError DetectedRequirements
merge_requirements detected overrides =
    let ignore = ignored overrides in
    let packages =
      keep (λ r. r.capability) (explicit_packages overrides) ignore (detected.system_packages) in
    let mounts =
      keep mount_string (explicit_mount_paths overrides) ignore (detected.volume_mounts) in
    let npm = keep (λ r. r.npm_package) (explicit_npm overrides) ignore (detected.npm_packages) in
    explicit_mounts (missing mount_string (explicit_mount_paths overrides) mounts) >>= λ added.
    ok (record {
      system_packages =
          packages
          ++ map explicit_package
              (missing (λ r. r.capability) (explicit_packages overrides) packages);
      volume_mounts = mounts ++ added;
      environment_variables = map value_of (
          environment_map (detected.environment_variables) (explicit_environment overrides) ignore);
      services = filterb (λ r. not (has ignore (r.name))) (detected.services);
      npm_packages =
          npm
          ++ map explicit_npm_package (missing (λ r. r.npm_package) (explicit_npm overrides) npm);
    })
