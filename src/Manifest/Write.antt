-- ===== src/Manifest/Write.antt =====
-- src/manifest.ts: `write_manifest`, down to the value that `JSON.stringify` prints.
use patchlab.Common.{
  Text, codes, Bool, List, [], ◌∷◌, map, Option, none, some, Result, ok, ◌>>=◌, Assoc,
}
use patchlab.Json.{
  Json, whole, number, string, array, object, Members, array_of, object_of, defined_members,
}
use patchlab.JsonValidators.Laws.{written_map, written_record}
use patchlab.Manifest.{SourceSpecification, SandboxManifest, ManifestError}
use patchlab.Manifest.Create.{assert_writer_sources}

abbrev pub source_fields : SourceSpecification → List (Text × Option Json)
source_fields source =
    (codes "host_path", some (string source.host_path))
    ∷ (codes "repository_root", some (string source.repository_root))
    ∷ (codes "source_prefix", some (string source.source_prefix))
    ∷ (codes "mount_name", some (string source.mount_name))
    ∷ []

unfoldable pub source_json : SourceSpecification → Json
source_json source = object (defined_members (source_fields source))

abbrev pub when_defined : {A : Type 0} → (A → Json) → Option A → Option Json
when_defined json none = none
when_defined json (some value) = some (json value)

abbrev pub strings : List Text → Json
strings texts = array (array_of (map string texts))

abbrev pub record_json : Assoc Text → Json
record_json variables = object (object_of (written_record variables))

abbrev pub manifest_fields : SandboxManifest → List (Text × Option Json)
manifest_fields manifest =
    (codes "id", some (string manifest.id))
    ∷ (codes "format_version", some (number (whole manifest.format_version)))
    ∷ (codes "sources", some (array (array_of (map source_json manifest.sources))))
    ∷ (
      codes "baseline_commit_shas",
      some (object (object_of (written_map manifest.baseline_commit_shas))),
    )
    ∷ (
      codes "branch_creation_point_shas",
      some (object (object_of (written_map manifest.branch_creation_point_shas))),
    )
    ∷ (codes "created_at", some (string manifest.created_at))
    ∷ (codes "container_name", some (string manifest.container_name))
    ∷ (codes "container_image", some (string manifest.container_image))
    ∷ (codes "effective_image", when_defined string manifest.effective_image)
    ∷ (codes "tool", when_defined string manifest.tool)
    ∷ (codes "include_globs", when_defined strings manifest.include_globs)
    ∷ (codes "exclude_globs", when_defined strings manifest.exclude_globs)
    ∷ (codes "volume_mounts", when_defined strings manifest.volume_mounts)
    ∷ (codes "environment_variables", when_defined record_json manifest.environment_variables)
    ∷ (codes "npm_packages", when_defined (λ values. array (array_of values)) manifest.npm_packages)
    ∷ []

-- The members of `JSON.stringify(manifest)`
unfoldable pub manifest_members : SandboxManifest → Members
manifest_members manifest = defined_members (manifest_fields manifest)

-- The value whose text the file gets; the atomic write itself is not modelled.
unfoldable pub write_manifest : Bool → SandboxManifest → Result ManifestError Json
unfolding manifest_members
write_manifest case_insensitive manifest = do
  _ ← assert_writer_sources case_insensitive manifest.sources
  ok (object (manifest_members manifest))
