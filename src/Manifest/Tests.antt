-- ===== src/Manifest/Tests.antt =====
-- Runs of src/manifest.ts, and its theorems at concrete inputs.
use patchlab.Common.{
  ◌≡◌, refl, Text, codes, text_eq, has, starts_with, split, join, true, false, List, [], ◌∷◌, none,
  some, ok, err,
}
use patchlab.Json.{
  Json, null, string, array, object, get_member, items, no_members, member, element, no_elements,
}
use patchlab.JsonValidators.{
  assert_parsed_object_root, require_string_field, validate_string_or_null_map,
  validate_optional_string_field, validate_optional_string_array_field,
  validate_optional_string_record_field,
}
use patchlab.NodePath.{
  is_absolute, normalized_segments, normalize, path_join, resolved_segments, from_common, relative,
}
use patchlab.PathContainment.{
  ends_with_slash, strip_trailing_slashes, strip_separators, normalize_for_compare,
  paths_equal_for_host,
}
use patchlab.Manifest.{
  SourceSpecification, SandboxManifest, legacy_inconsistent, collect_distinct,
  distinct_repositories_from_sources, manifest_repositories,
}
use patchlab.Manifest.Sources.{
  joins, normalize_for_storage, assert_legacy_triple_consistent, synthesize_legacy_source,
  legacy_sources, sources_from_legacy, sources_from, resolve_sources_from_raw,
}
use patchlab.Manifest.Create.{
  CreateManifestOptions, assert_writer_source_specification_invariants, assert_writer_sources,
}
use patchlab.Manifest.Read.{synthesize_sha_map, sha_map, read_fields, read_manifest}
use patchlab.Manifest.Roots.{entry_roots, add_roots, try_read_manifest_repository_roots}
use patchlab.Manifest.Salvaged.{try_read_manifest_repository_roots_complete}
use patchlab.Manifest.Sound.{IsReadable, read_manifest-IsReadable, read_manifest_rewritten}
use patchlab.Manifest.Write.{manifest_members, write_manifest}

abbrev source : Text → Text → SourceSpecification
source root mount = record {
  host_path = root;
  repository_root = root;
  source_prefix = [];
  mount_name = mount;
}

abbrev two_repositories : List SourceSpecification
two_repositories =
    source (codes "/web") (codes "app")
    ∷ source (codes "/api") (codes "api")
    ∷ source (codes "/web") (codes "lib")
    ∷ []

ordered_run : distinct_repositories_from_sources two_repositories ≡ codes "/web" ∷ codes "/api" ∷ []
unfolding distinct_repositories_from_sources collect_distinct has text_eq
ordered_run = refl

-- The options of a create that found uncommitted changes in one of the two repositories
abbrev options : CreateManifestOptions
options = record {
  include = some (codes "src/**" ∷ []);
  exclude = none;
  baseline_commit_sha = none;
  branch_creation_point_sha = some (some (codes "c0ffee"));
  baseline_commit_shas = some ((codes "/api", some (codes "ba5e")) ∷ []);
  branch_creation_point_shas = none;
}

abbrev created : SandboxManifest
created = record {
  id = codes "lab";
  format_version = 0;
  sources = two_repositories;
  baseline_commit_shas = (codes "/web", none) ∷ (codes "/api", some (codes "ba5e")) ∷ [];
  branch_creation_point_shas =
      (codes "/web", some (codes "c0ffee")) ∷ (codes "/api", some (codes "c0ffee")) ∷ [];
  created_at = codes "2026-01-01";
  container_name = codes "box";
  container_image = codes "image";
  effective_image = none;
  tool = none;
  include_globs = some (codes "src/**" ∷ []);
  exclude_globs = none;
  volume_mounts = none;
  environment_variables = none;
  npm_packages = none;
}

write_run : write_manifest false created ≡ ok (object (manifest_members created))
unfolding write_manifest assert_writer_sources assert_writer_source_specification_invariants joins
    paths_equal_for_host normalize_for_compare strip_separators strip_trailing_slashes
    ends_with_slash path_join normalize normalized_segments is_absolute split join starts_with
    text_eq
write_run = refl

-- A manifest of the first format, with a single source
abbrev legacy_file : Json
legacy_file = object (
    member (codes "id") (string (codes "old")) (
      member (codes "source_path") (string (codes "/web/app/")) (
        member (codes "repository_root") (string (codes "/web")) (
          member (codes "source_prefix") (string (codes "app")) (
            member (codes "baseline_commit_sha") null (
              member (codes "created_at") (string (codes "2025-01-01")) (
                member (codes "container_name") (string (codes "box"))
                  (member (codes "container_image") (string (codes "image")) no_members))))))))

abbrev migrated : SandboxManifest
migrated = record {
  id = codes "old";
  format_version = 0;
  sources =
      record {
        host_path = codes "/web/app";
        repository_root = codes "/web";
        source_prefix = codes "app";
        mount_name = codes "app";
      }
      ∷ [];
  baseline_commit_shas = (codes "/web", none) ∷ [];
  branch_creation_point_shas = [];
  created_at = codes "2025-01-01";
  container_name = codes "box";
  container_image = codes "image";
  effective_image = none;
  tool = none;
  include_globs = none;
  exclude_globs = none;
  volume_mounts = none;
  environment_variables = none;
  npm_packages = none;
}

legacy_run : read_manifest true (codes "/") legacy_file ≡ ok migrated
unfolding read_manifest read_fields sha_map synthesize_sha_map get_member text_eq
    assert_parsed_object_root require_string_field validate_string_or_null_map
    validate_optional_string_field validate_optional_string_array_field
    validate_optional_string_record_field resolve_sources_from_raw sources_from sources_from_legacy
    legacy_sources synthesize_legacy_source assert_legacy_triple_consistent relative
    resolved_segments from_common normalize_for_storage path_join normalize normalized_segments
    is_absolute split join starts_with ends_with_slash strip_trailing_slashes
legacy_run = refl

read_manifest-IsReadable_example : IsReadable true migrated
read_manifest-IsReadable_example =
    read_manifest-IsReadable true (codes "/") legacy_file migrated legacy_run

read_manifest_rewritten_example :
    (written : Json) × (write_manifest true migrated ≡ ok written)
    × (read_manifest true (codes "/home") written ≡ ok migrated)
read_manifest_rewritten_example =
    read_manifest_rewritten true (codes "/") (codes "/home") legacy_file migrated legacy_run
      (λ e. cc, tt)

try_read_manifest_repository_roots_complete_example :
    has (try_read_manifest_repository_roots (some legacy_file)) (codes "/web") ≡ true
unfolding has text_eq manifest_repositories distinct_repositories_from_sources collect_distinct
try_read_manifest_repository_roots_complete_example =
    try_read_manifest_repository_roots_complete true (codes "/") legacy_file migrated (codes "/web")
      legacy_run (λ e. cc) refl

-- A directory of the repository whose name starts with two dots is taken to lie outside it.
dotted_directory_run :
    assert_legacy_triple_consistent (codes "/") (codes "/web/..data") (codes "/web")
    ≡ err (legacy_inconsistent (codes "/web/..data") (codes "/web"))
unfolding assert_legacy_triple_consistent relative resolved_segments from_common normalized_segments
    is_absolute split join starts_with text_eq
dotted_directory_run = refl

-- A corrupt file still names its repositories.
salvage_run :
    try_read_manifest_repository_roots (
      some (
        object (
          member
            (codes "sources")
            (array (
              element null (
                element
                  (object (member (codes "repository_root") (string (codes "/api")) no_members))
                  no_elements)))
            (member (codes "repository_root") (string (codes "/web")) no_members))))
    ≡ codes "/api" ∷ codes "/web" ∷ []
unfolding try_read_manifest_repository_roots entry_roots add_roots get_member text_eq has items
    distinct_repositories_from_sources collect_distinct
salvage_run = refl
