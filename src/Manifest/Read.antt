-- ===== src/Manifest/Read.antt =====
-- src/manifest.ts: `read_manifest` on the value that the file parses to.
use patchlab.Common.{
  ℕ, Text, codes, Bool, List, [], ◌∷◌, Option, none, some, Result, ok, err, ◌>>=◌, Assoc,
  if◌then◌else◌, ◌==◌,
}
use patchlab.Json.{Json, Number, whole, number, array, Members, get_member, items}
use patchlab.JsonValidators.{
  ValidationError, assert_parsed_object_root, require_string_field, validate_string_or_null_map,
  validate_optional_string_field, validate_optional_string_array_field,
  validate_optional_string_record_field,
}
use patchlab.Manifest.{
  SourceSpecification, SandboxManifest, ManifestError, unrecognized_version, invalid, no_sources,
  current_format_version,
}
use patchlab.Manifest.Sources.{resolve_sources_from_raw, cast_string_or_null}

-- The `throw` of a validator, as one of this file's
abbrev pub validated {ℓ} : {A : Type ℓ} → Result ValidationError A → Result ManifestError A
validated (ok value) = ok value
validated (err thrown) = err (invalid thrown)

-- `typeof raw.format_version === 'number' ? raw.format_version : 0`
abbrev pub recorded_version : Option Json → Number
recorded_version (some (number n)) = n
recorded_version _ = whole 0

abbrev pub check_version : Number → Result ManifestError ℕ
check_version (whole n) =
    if n == current_format_version then ok n else err (unrecognized_version (whole n))
check_version version = err (unrecognized_version version)

unfoldable pub synthesize_sha_map :
    Option (Assoc (Option Text)) → Option (Option Text) → Text → Assoc (Option Text)
synthesize_sha_map (some new_map) legacy_value primary_repository = new_map
synthesize_sha_map none none primary_repository = []
synthesize_sha_map none (some legacy_value) primary_repository =
    (primary_repository, legacy_value) ∷ []

-- The legacy value is looked at where the map is absent only.
abbrev pub legacy_sha :
    Option (Assoc (Option Text)) → Text → Members → Result ManifestError (Option (Option Text))
legacy_sha (some _) field raw = ok none
legacy_sha none field raw = cast_string_or_null field (get_member raw field)

-- One of the two maps
unfoldable pub sha_map :
    Members
    → (field legacy_field primary_repository : Text) → Result ManifestError (Assoc (Option Text))
unfolding synthesize_sha_map
sha_map raw field legacy_field primary_repository = do
  new_map ← validated (validate_string_or_null_map (get_member raw field) field)
  legacy_value ← legacy_sha new_map legacy_field raw
  ok (synthesize_sha_map new_map legacy_value primary_repository)

-- `sources[0].repository_root`; the sources that are resolved are never empty
abbrev pub primary : List SourceSpecification → Result ManifestError Text
primary [] = err no_sources
primary (source ∷ _) = ok source.repository_root

-- `Array.isArray(value) ? value : undefined`
abbrev pub array_value : Option Json → Option (List Json)
array_value (some (array values)) = some (items values)
array_value _ = none

unfoldable pub read_fields : Bool → (cwd : Text) → Members → Result ManifestError SandboxManifest
unfolding sha_map
read_fields case_insensitive cwd raw = do
  format_version ← check_version (recorded_version (get_member raw (codes "format_version")))
  sources ← resolve_sources_from_raw case_insensitive cwd raw
  primary_repository ← primary sources
  baseline_commit_shas ←
      sha_map raw (codes "baseline_commit_shas") (codes "baseline_commit_sha") primary_repository
  branch_creation_point_shas ←
      sha_map raw (codes "branch_creation_point_shas") (codes "branch_creation_point_sha")
        primary_repository
  id ← validated (require_string_field raw (codes "id"))
  created_at ← validated (require_string_field raw (codes "created_at"))
  container_name ← validated (require_string_field raw (codes "container_name"))
  container_image ← validated (require_string_field raw (codes "container_image"))
  effective_image ← validated (validate_optional_string_field raw (codes "effective_image"))
  tool ← validated (validate_optional_string_field raw (codes "tool"))
  include_globs ← validated (validate_optional_string_array_field raw (codes "include_globs"))
  exclude_globs ← validated (validate_optional_string_array_field raw (codes "exclude_globs"))
  volume_mounts ← validated (validate_optional_string_array_field raw (codes "volume_mounts"))
  environment_variables ←
      validated (validate_optional_string_record_field raw (codes "environment_variables"))
  ok (record {
    id = id;
    format_version = format_version;
    sources = sources;
    baseline_commit_shas = baseline_commit_shas;
    branch_creation_point_shas = branch_creation_point_shas;
    created_at = created_at;
    container_name = container_name;
    container_image = container_image;
    effective_image = effective_image;
    tool = tool;
    include_globs = include_globs;
    exclude_globs = exclude_globs;
    volume_mounts = volume_mounts;
    environment_variables = environment_variables;
    npm_packages = array_value (get_member raw (codes "npm_packages"));
  })

-- `parsed` is what `parse_file_as_json` makes of the file that is there.
unfoldable pub read_manifest :
    Bool → (cwd : Text) → (parsed : Json) → Result ManifestError SandboxManifest
unfolding read_fields
read_manifest case_insensitive cwd parsed = do
  raw ← validated (assert_parsed_object_root parsed)
  read_fields case_insensitive cwd raw
