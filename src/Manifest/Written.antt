-- ===== src/Manifest/Written.antt =====
-- src/manifest.ts: what is written is read back.
use patchlab.Common.{
  ◌≡◌, refl, ap, ◌∙◌, ℕ, ◌+◌, Text, codes, text_eq, has, IsDistinct, Bool, true, false, List, [],
  ◌∷◌, map, Option, none, some, ok, >>=-eq-ok, arith, Assoc,
}
use mathlib.Core.Path.{subst}
use patchlab.Json.{Json, array, object, whole, string, get_member, array_of}
use patchlab.Json.Reading.{
  names, field, get_member-defined_members, distinct-IsDistinct, items-array_of, entries-object_of,
}
use patchlab.JsonValidators.{
  optional_string, optional_array, optional_record, assert_parsed_object_root, require_string_field,
  validate_string_or_null_map, validate_optional_string_field, validate_optional_string_array_field,
  validate_optional_string_record_field,
}
use patchlab.JsonValidators.Laws.{
  written_record, string_or_null_entries_read, string_elements_read, string_entries_read,
}
use patchlab.Manifest.{SourceSpecification, SandboxManifest, current_format_version}
use patchlab.Manifest.Sources.{
  joins, assert_host_path_join_invariant, candidate_fields, validate_source_specification,
  validate_entries, listed, sources_from, resolve_sources_from_raw,
}
use patchlab.Manifest.Create.{assert_writer_source_specification_invariants, assert_writer_sources}
use patchlab.Manifest.Read.{
  array_value, primary, check_version, sha_map, synthesize_sha_map, read_fields, read_manifest,
}
use patchlab.Manifest.Write.{
  when_defined, strings, record_json, source_fields, source_json, manifest_fields, manifest_members,
  write_manifest,
}

Joins : Bool → SourceSpecification → Type 0
Joins case_insensitive source = joins case_insensitive source ≡ true

source_fields-IsDistinct : (s : SourceSpecification) → IsDistinct (names (source_fields s))
unfolding has text_eq
source_fields-IsDistinct s = distinct-IsDistinct (names (source_fields s)) refl

candidate_fields_read :
    (index : ℕ) (s : SourceSpecification) → candidate_fields index (source_json s) ≡ ok s
unfolding candidate_fields source_json text_eq
candidate_fields_read index s =
    let look = λ (name : Text).
      get_member-defined_members (source_fields s) name (source_fields-IsDistinct s) in
    simp (look)

manifest_fields-IsDistinct : (m : SandboxManifest) → IsDistinct (names (manifest_fields m))
unfolding has text_eq
manifest_fields-IsDistinct m = distinct-IsDistinct (names (manifest_fields m)) refl

manifest_members_read :
    (m : SandboxManifest) (name : Text)
    → get_member (manifest_members m) name ≡ field (manifest_fields m) name
unfolding manifest_members
manifest_members_read m name =
    get_member-defined_members (manifest_fields m) name (manifest_fields-IsDistinct m)

-- The writer's check is the reader's.
writer_checked :
    (case_insensitive : Bool) (s : SourceSpecification) (sources : List SourceSpecification)
    → assert_writer_sources case_insensitive (s ∷ sources) ≡ ok tt
    → (joins case_insensitive s ≡ true) × (assert_writer_sources case_insensitive sources ≡ ok tt)
unfolding assert_writer_sources assert_writer_source_specification_invariants
writer_checked case_insensitive s sources h = decide (joins case_insensitive s) refl
  where
    decide :
        (joined : Bool)
        → joins case_insensitive s ≡ joined
        → (joins case_insensitive s ≡ true)
          × (assert_writer_sources case_insensitive sources ≡ ok tt)
    decide true e = (e, rw e at h)
    decide false e = let bad = rw e at h in cc

validate_source_read :
    (case_insensitive : Bool) (s : SourceSpecification) (index : ℕ)
    → joins case_insensitive s ≡ true
    → validate_source_specification case_insensitive (source_json s) index ≡ ok s
unfolding validate_source_specification assert_host_path_join_invariant
validate_source_read case_insensitive s index e = simp (candidate_fields_read index s, e)

validate_entries_read :
    (case_insensitive : Bool) (index : ℕ) (sources : List SourceSpecification)
    → assert_writer_sources case_insensitive sources ≡ ok tt
    → validate_entries case_insensitive index (map source_json sources) ≡ ok sources
unfolding validate_entries
validate_entries_read case_insensitive index [] h = refl
validate_entries_read case_insensitive index (s ∷ sources) h =
    let (joined, checked) = writer_checked case_insensitive s sources h in
    simp (
      validate_source_read case_insensitive s index joined,
      validate_entries_read case_insensitive (index + 1) sources checked,
    )

optional_string_read :
    (name : Text) (o : Option Text) → optional_string name (when_defined string o) ≡ ok o
optional_string_read name none = refl
optional_string_read name (some text) = refl

optional_array_read :
    (name : Text) (o : Option (List Text)) → optional_array name (when_defined strings o) ≡ ok o
optional_array_read name none = refl
optional_array_read name (some texts) =
    rw (items-array_of (map string texts)) (rw (string_elements_read name texts) refl)

optional_record_read :
    (name : Text) (o : Option (Assoc Text))
    → optional_record name (when_defined record_json o) ≡ ok o
optional_record_read name none = refl
optional_record_read name (some m) =
    rw (entries-object_of (written_record m)) (rw (string_entries_read name m) refl)

array_value_read :
    (o : Option (List Json)) → array_value (when_defined (λ values. array (array_of values)) o) ≡ o
array_value_read none = refl
array_value_read (some values) = rw (items-array_of values) refl

read_fields_written :
    (case_insensitive : Bool) (cwd : Text) (m : SandboxManifest) (root : Text)
    → check_version (whole m.format_version) ≡ ok m.format_version
    → resolve_sources_from_raw case_insensitive cwd (manifest_members m) ≡ ok m.sources
    → primary m.sources ≡ ok root
    → read_fields case_insensitive cwd (manifest_members m) ≡ ok m
unfolding read_fields sha_map synthesize_sha_map text_eq require_string_field
    validate_string_or_null_map validate_optional_string_field validate_optional_string_array_field
    validate_optional_string_record_field
read_fields_written case_insensitive cwd m root version sources first =
    let look = manifest_members_read m in
    simp (
      look, version, sources, first, entries-object_of, string_or_null_entries_read,
      optional_string_read, optional_array_read, optional_record_read, array_value_read,
    )

listed_written :
    (m : SandboxManifest)
    → listed (get_member (manifest_members m) (codes "sources")) ≡ map source_json m.sources
unfolding text_eq
listed_written m =
    ap listed (manifest_members_read m (codes "sources"))
    ∙ items-array_of (map source_json m.sources)

resolve_sources_written :
    (case_insensitive : Bool) (cwd : Text) (m : SandboxManifest) (first : SourceSpecification)
    (rest : List SourceSpecification)
    → m.sources ≡ first ∷ rest
    → assert_writer_sources case_insensitive m.sources ≡ ok tt
    → resolve_sources_from_raw case_insensitive cwd (manifest_members m) ≡ ok m.sources
unfolding resolve_sources_from_raw sources_from
resolve_sources_written case_insensitive cwd m first rest e h =
    let read = validate_entries_read case_insensitive 0 (first ∷ rest) (rw e at h) in
    rw (listed_written m) (rw e read)

-- What `write_manifest` accepts of a manifest with a source and the current version is read back
-- as that manifest, field for field, wherever it is read.
pub read_manifest-write_manifest :
    (case_insensitive : Bool) (cwd : Text) (m : SandboxManifest) (first : SourceSpecification)
    (rest : List SourceSpecification) (written : Json)
    → m.sources ≡ first ∷ rest
    → m.format_version ≡ current_format_version
    → write_manifest case_insensitive m ≡ ok written
    → read_manifest case_insensitive cwd written ≡ ok m
unfolding read_manifest write_manifest assert_parsed_object_root
read_manifest-write_manifest case_insensitive cwd m first rest written e version h =
    let (checked, asserted, is_written) =
      >>=-eq-ok (assert_writer_sources case_insensitive m.sources) _ h in
    let resolved = resolve_sources_written case_insensitive cwd m first rest e asserted in
    let read : read_manifest case_insensitive cwd (object (manifest_members m)) ≡ ok m =
      read_fields_written case_insensitive cwd m first.repository_root (ground (arith, version))
        resolved (rw e refl) in
    let same : object (manifest_members m) ≡ written = ground arith in
    subst (λ json. read_manifest case_insensitive cwd json ≡ ok m) same read
