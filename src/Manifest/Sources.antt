-- ===== src/Manifest/Sources.antt =====
-- src/manifest.ts: the sources of a manifest that is read, from its entries or its legacy fields.
-- `case_insensitive` is what src/path_containment.ts says of the host, `cwd` the working directory.
use patchlab.Common.{
  ℕ, ◌+◌, Text, codes, Bool, true, false, ◌||◌, ◌&&◌, List, [], ◌∷◌, map, if◌then◌else◌, Option,
  none, some, Result, ok, err, ◌>>=◌, ltb, length, starts_with, or_else,
}
use patchlab.Json.{Json, null, string, array, object, Members, get_member, items}
use patchlab.NodePath.{path_join, relative, is_absolute}
use patchlab.PathContainment.{
  paths_equal_for_host, unify_separator, ends_with_slash, strip_trailing_slashes, floor_at_root,
}
use patchlab.Manifest.{
  SourceSpecification, ManifestError, no_source_fields, source_not_an_object, source_missing_fields,
  join_invariant, no_usable_legacy_fields, legacy_inconsistent, unchecked_cast,
}

-- `host_path === path.join(repository_root, source_prefix)`, as the host compares paths
unfoldable pub joins : Bool → SourceSpecification → Bool
joins case_insensitive entry =
    paths_equal_for_host (path_join entry.repository_root entry.source_prefix) entry.host_path
      case_insensitive

unfoldable pub assert_host_path_join_invariant :
    Bool → Option ℕ → SourceSpecification → Result {0, 0} ManifestError Unit
unfolding joins
assert_host_path_join_invariant case_insensitive location entry =
    if joins case_insensitive entry then ok tt else err (join_invariant location entry)

abbrev pub text_of : Option Json → Option Text
text_of (some (string text)) = some text
text_of _ = none

abbrev pub string_fields :
    ℕ
    → (host_path repository_root source_prefix mount_name : Option Text)
    → Result ManifestError SourceSpecification
string_fields index (some host_path) (some repository_root) (some source_prefix) (some mount_name) =
    ok (record {
      host_path = host_path;
      repository_root = repository_root;
      source_prefix = source_prefix;
      mount_name = mount_name;
    })
string_fields index _ _ _ _ = err (source_missing_fields index)

-- The four fields of an object; an array has none of them.
unfoldable pub candidate_fields : ℕ → Json → Result ManifestError SourceSpecification
candidate_fields index (object members) =
    string_fields index (text_of (get_member members (codes "host_path")))
      (text_of (get_member members (codes "repository_root")))
      (text_of (get_member members (codes "source_prefix")))
      (text_of (get_member members (codes "mount_name")))
candidate_fields index (array _) = err (source_missing_fields index)
candidate_fields index _ = err (source_not_an_object index)

unfoldable pub validate_source_specification :
    Bool → Json → ℕ → Result ManifestError SourceSpecification
unfolding candidate_fields assert_host_path_join_invariant
validate_source_specification case_insensitive entry index = do
  specification ← candidate_fields index entry
  _ ← assert_host_path_join_invariant case_insensitive (some index) specification
  ok specification

-- `raw.sources.map(...)` from the entry at `index` on
unfoldable pub validate_entries :
    Bool → ℕ → List Json → Result ManifestError (List SourceSpecification)
unfolding validate_source_specification
validate_entries case_insensitive index [] = ok []
validate_entries case_insensitive index (entry ∷ rest) = do
  specification ← validate_source_specification case_insensitive entry index
  specifications ← validate_entries case_insensitive (index + 1) rest
  ok (specification ∷ specifications)

unfoldable pub normalize_for_storage : Text → Text
normalize_for_storage value =
    let forward = map unify_separator value in
    floor_at_root (
      if ltb 1 (length forward) && ends_with_slash forward
      then strip_trailing_slashes forward
      else forward)

-- A field that is absent, or a string as its type says
abbrev pub cast_string : Text → Option Json → Result ManifestError (Option Text)
cast_string field none = ok none
cast_string field (some (string text)) = ok (some text)
cast_string field (some _) = err (unchecked_cast field)

-- A field of type `string | null`: absent is none, null is some none
abbrev pub cast_string_or_null : Text → Option Json → Result ManifestError (Option (Option Text))
cast_string_or_null field none = ok none
cast_string_or_null field (some null) = ok (some none)
cast_string_or_null field (some (string text)) = ok (some (some text))
cast_string_or_null field (some _) = err (unchecked_cast field)

unfoldable pub assert_legacy_triple_consistent :
    (cwd source_path repository_root : Text) → Result {0, 0} ManifestError Unit
assert_legacy_triple_consistent cwd source_path repository_root =
    let path = relative cwd repository_root source_path in
    if starts_with path (codes "..") || is_absolute path
    then err (legacy_inconsistent source_path repository_root)
    else ok tt

abbrev pub check_source_path : (cwd : Text) → Option Text → Text → Result {0, 0} ManifestError Unit
check_source_path cwd none repository_root = ok tt
check_source_path cwd (some source_path) repository_root =
    assert_legacy_triple_consistent cwd source_path repository_root

-- `raw.repository_root ?? null` and `raw.source_prefix ?? ''` are taken by the callers' match.
unfoldable pub synthesize_legacy_source :
    (cwd : Text)
    → (source_path : Option Text) → (repository_root : Option Text) → (source_prefix : Text)
    → Result ManifestError SourceSpecification
synthesize_legacy_source cwd none none prefix = err no_usable_legacy_fields
synthesize_legacy_source cwd (some source_path) none prefix = ok (record {
  host_path = source_path;
  repository_root = [];
  source_prefix = prefix;
  mount_name = prefix;
})
synthesize_legacy_source cwd source_path (some repository_root) prefix = do
  _ ← check_source_path cwd source_path repository_root
  ok (record {
    host_path = normalize_for_storage (path_join repository_root prefix);
    repository_root = repository_root;
    source_prefix = prefix;
    mount_name = prefix;
  })

-- `value ?? null` of a field of type `string | null`
abbrev pub null_if_absent : Option (Option Text) → Option Text
null_if_absent none = none
null_if_absent (some value) = value

unfoldable pub legacy_sources :
    (cwd : Text) → Members → Result ManifestError (List SourceSpecification)
unfolding synthesize_legacy_source
legacy_sources cwd raw = do
  source_path ← cast_string (codes "source_path") (get_member raw (codes "source_path"))
  repository_root ←
      cast_string_or_null (codes "repository_root") (get_member raw (codes "repository_root"))
  source_prefix ←
      cast_string_or_null (codes "source_prefix") (get_member raw (codes "source_prefix"))
  source ←
      synthesize_legacy_source cwd source_path (null_if_absent repository_root)
        (or_else (null_if_absent source_prefix) [])
  ok (source ∷ [])

-- Whether none of the three legacy fields is there
abbrev pub no_legacy_fields : Option Json → Option Json → Option Json → Bool
no_legacy_fields none none none = true
no_legacy_fields _ _ _ = false

unfoldable pub sources_from_legacy :
    (cwd : Text) → Members → Result ManifestError (List SourceSpecification)
unfolding legacy_sources
sources_from_legacy cwd raw =
    if no_legacy_fields (get_member raw (codes "source_path"))
      (get_member raw (codes "repository_root")) (get_member raw (codes "source_prefix"))
    then err no_source_fields
    else legacy_sources cwd raw

-- `Array.isArray(raw.sources)` and its elements
abbrev pub listed : Option Json → List Json
listed (some (array values)) = items values
listed _ = []

unfoldable pub sources_from :
    Bool → (cwd : Text) → Members → List Json → Result ManifestError (List SourceSpecification)
unfolding validate_entries sources_from_legacy
sources_from case_insensitive cwd raw [] = sources_from_legacy cwd raw
sources_from case_insensitive cwd raw (entry ∷ rest) =
    validate_entries case_insensitive 0 (entry ∷ rest)

unfoldable pub resolve_sources_from_raw :
    Bool → (cwd : Text) → Members → Result ManifestError (List SourceSpecification)
unfolding sources_from
resolve_sources_from_raw case_insensitive cwd raw =
    sources_from case_insensitive cwd raw (listed (get_member raw (codes "sources")))
