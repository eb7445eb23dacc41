-- ===== src/Manifest.antt =====
-- src/manifest.ts: the metadata of a patchlab, its sources and the repositories that they lie in.
pub mod Repositories
pub mod Create
pub mod Created
pub mod Read
pub mod Roots
pub mod Salvaged
pub mod Sound
pub mod Sources
pub mod Stored
pub mod Written
pub mod Write
mod Tests
use patchlab.Common.{
  ℕ, Text, codes, has, Bool, true, false, List, [], ◌∷◌, ◌++◌, if◌then◌else◌, Option, none, some,
  Assoc, Result, ok, err,
}
use patchlab.Json.{Json, Number}
use patchlab.JsonValidators.{ValidationError}

abbrev pub current_format_version : ℕ
current_format_version = 0

pub record SourceSpecification : Type 0 where
  pub host_path : Text
  pub repository_root : Text
  pub source_prefix : Text
  pub mount_name : Text

-- A value of null in the maps is none; the requirements of npm are kept as they were parsed.
pub record SandboxManifest : Type 0 where
  pub id : Text
  pub format_version : ℕ
  pub sources : List SourceSpecification
  pub baseline_commit_shas : Assoc (Option Text)
  pub branch_creation_point_shas : Assoc (Option Text)
  pub created_at : Text
  pub container_name : Text
  pub container_image : Text
  pub effective_image : Option Text
  pub tool : Option Text
  pub include_globs : Option (List Text)
  pub exclude_globs : Option (List Text)
  pub volume_mounts : Option (List Text)
  pub environment_variables : Option (Assoc Text)
  pub npm_packages : Option (List Json)

-- One constructor for each `throw` of the file, with what its message shows besides the file's name.
pub data ManifestError : Type 0 where
  no_sources : ManifestError
  missing_tool : ManifestError
  empty_sources : ManifestError
  writer_invariant : SourceSpecification → ManifestError
  unrecognized_version : Number → ManifestError
  no_source_fields : ManifestError
  source_not_an_object : ℕ → ManifestError
  source_missing_fields : ℕ → ManifestError
  join_invariant : (location : Option ℕ) → SourceSpecification → ManifestError
  no_usable_legacy_fields : ManifestError
  legacy_inconsistent : (source_path repository_root : Text) → ManifestError
  invalid : ValidationError → ManifestError
  -- A legacy field is not of the type that the source casts it to without a test; what then follows
  -- is not modelled.
  unchecked_cast : (field : Text) → ManifestError

-- The loop of `distinct_repositories_from_sources`; `seen` holds what `ordered` does.
unfoldable pub collect_distinct : List Text → List SourceSpecification → List Text
collect_distinct ordered [] = ordered
collect_distinct ordered (source ∷ sources) =
    collect_distinct
      (if has ordered source.repository_root
        then ordered
        else ordered ++ source.repository_root ∷ [])
      sources

unfoldable pub distinct_repositories_from_sources : List SourceSpecification → List Text
unfolding collect_distinct
distinct_repositories_from_sources sources = collect_distinct [] sources

unfoldable pub manifest_repositories : SandboxManifest → List Text
manifest_repositories manifest = distinct_repositories_from_sources manifest.sources

abbrev first_source : List SourceSpecification → Result ManifestError SourceSpecification
first_source [] = err no_sources
first_source (source ∷ _) = ok source

unfoldable pub manifest_primary_source : SandboxManifest → Result ManifestError SourceSpecification
manifest_primary_source manifest = first_source manifest.sources

abbrev named_tool : Option Text → Result ManifestError Text
named_tool none = err missing_tool
named_tool (some []) = err missing_tool
named_tool (some (c ∷ cs)) = ok (c ∷ cs)

unfoldable pub resolve_manifest_tool : SandboxManifest → Result ManifestError Text
resolve_manifest_tool manifest = named_tool manifest.tool
