-- ===== src/Manifest/Sound.antt =====
-- src/manifest.ts: what `read_manifest` guarantees of every manifest that it returns.
use patchlab.Common.{
  ◌>>=◌, >>=-eq-ok, ◌≢◌, ◌≡◌, ◌⊎◌, inl, inr, refl, ℕ, ◌+◌, Text, Bool, true, false, List, [], ◌∷◌,
  Option, none, some, ok, err, All, Ensured, Ensured->>=, Ensured-ok, codes, arith, or_else,
  if◌then◌else◌, ◌==◌,
}
use patchlab.Manifest.Write.{manifest_members, write_manifest}
use patchlab.Manifest.Written.{read_manifest-write_manifest}
use patchlab.Json.{
  Json, object, Number, whole, huge, below_zero, fractional, not_finite, Members, get_member,
}
use patchlab.JsonValidators.{
  assert_parsed_object_root, require_string_field, validate_optional_string_field,
  validate_optional_string_array_field, validate_optional_string_record_field,
}
use patchlab.Manifest.{
  SourceSpecification, SandboxManifest, current_format_version, no_source_fields,
  unrecognized_version,
}
use patchlab.Manifest.Sources.{
  joins, assert_host_path_join_invariant, candidate_fields, validate_source_specification,
  validate_entries, check_source_path, cast_string, cast_string_or_null, null_if_absent,
  synthesize_legacy_source, legacy_sources, no_legacy_fields, sources_from_legacy, listed,
  sources_from, resolve_sources_from_raw,
}
use patchlab.Manifest.Stored.{paths_equal_for_host-normalize_for_storage}
use patchlab.Manifest.Create.{assert_writer_sources, assert_writer_source_specification_invariants}
use patchlab.Manifest.Read.{
  validated, recorded_version, check_version, sha_map, primary, read_fields, read_manifest,
}

-- The path of the source is its prefix below its repository; or the repository is still to be found,
-- as for a legacy manifest that records none.
abbrev pub IsPlaced : Bool → SourceSpecification → Type 0
IsPlaced case_insensitive source =
    (joins case_insensitive source ≡ true) ⊎ (source.repository_root ≡ [])

pub record IsSourced (case_insensitive : Bool) (sources : List SourceSpecification) : Type 0 where
  pub first : SourceSpecification
  pub rest : List SourceSpecification
  pub some_source : sources ≡ first ∷ rest
  pub placed : All (IsPlaced case_insensitive) sources

validate_source-IsPlaced :
    (ci : Bool) (entry : Json) (index : ℕ)
    → Ensured (IsPlaced ci) (validate_source_specification ci entry index)
unfolding validate_source_specification assert_host_path_join_invariant
validate_source-IsPlaced ci entry index =
    Ensured->>= (IsPlaced ci) (candidate_fields index entry) _ (λ s _. decide s (joins ci s) refl)
  where
    decide :
        (s : SourceSpecification) (t : Bool)
        → joins ci s ≡ t
        → Ensured (IsPlaced ci) (do _ ← assert_host_path_join_invariant ci (some index) s; ok s)
    decide s true e = rw e (inl e)
    decide s false e = rw e tt

validate_entries-IsPlaced :
    (ci : Bool) (index : ℕ) (values : List Json)
    → Ensured (All (IsPlaced ci)) (validate_entries ci index values)
unfolding validate_entries
validate_entries-IsPlaced ci index [] = tt
validate_entries-IsPlaced ci index (entry ∷ values) =
    let P = All (IsPlaced ci) in
    Ensured->>= P (validate_source_specification ci entry index) _ (λ s e.
      Ensured->>= P (validate_entries ci (index + 1) values) _ (λ rest f. (
        Ensured-ok (IsPlaced ci) _ (validate_source-IsPlaced ci entry index) e,
        Ensured-ok P _ (validate_entries-IsPlaced ci (index + 1) values) f,
      )))

synthesize_legacy_source-IsPlaced :
    (ci : Bool) (cwd : Text) (source_path repository_root : Option Text) (prefix : Text)
    → Ensured (IsPlaced ci) (synthesize_legacy_source cwd source_path repository_root prefix)
unfolding synthesize_legacy_source joins
synthesize_legacy_source-IsPlaced ci cwd none none prefix = tt
synthesize_legacy_source-IsPlaced ci cwd (some source_path) none prefix = inr refl
synthesize_legacy_source-IsPlaced ci cwd source_path (some root) prefix =
    Ensured->>= (IsPlaced ci) (check_source_path cwd source_path root) _
      (λ _ _. inl (paths_equal_for_host-normalize_for_storage ci root prefix))

legacy_sources-IsSourced :
    (ci : Bool) (cwd : Text) (raw : Members) → Ensured (IsSourced ci) (legacy_sources cwd raw)
unfolding legacy_sources
legacy_sources-IsSourced ci cwd raw =
    let P = IsSourced ci in
    Ensured->>= P (cast_string (codes "source_path") (get_member raw (codes "source_path"))) _
      (λ path _.
        Ensured->>= P
          (cast_string_or_null (codes "repository_root") (get_member raw (codes "repository_root")))
          _
          (λ root _.
            Ensured->>= P
              (cast_string_or_null (codes "source_prefix") (get_member raw (codes "source_prefix")))
              _
              (λ prefix _.
                Ensured->>= P
                  (synthesize_legacy_source cwd path (null_if_absent root)
                    (or_else (null_if_absent prefix) []))
                  _
                  (λ source e. record {
                    first = source;
                    rest = [];
                    some_source = refl;
                    placed = (
                      Ensured-ok (IsPlaced ci) _
                          (synthesize_legacy_source-IsPlaced ci cwd path (null_if_absent root)
                            (or_else (null_if_absent prefix) []))
                          e,
                      tt,
                    );
                  }))))

sources_from-IsSourced :
    (ci : Bool) (cwd : Text) (raw : Members) (values : List Json)
    → Ensured (IsSourced ci) (sources_from ci cwd raw values)
unfolding sources_from sources_from_legacy validate_entries
sources_from-IsSourced ci cwd raw [] = decide (
    no_legacy_fields (get_member raw (codes "source_path"))
      (get_member raw (codes "repository_root")) (get_member raw (codes "source_prefix")))
  where
    decide :
        (t : Bool)
        → Ensured (IsSourced ci) (if t then err no_source_fields else legacy_sources cwd raw)
    decide true = tt
    decide false = legacy_sources-IsSourced ci cwd raw
sources_from-IsSourced ci cwd raw (entry ∷ values) =
    Ensured->>= (IsSourced ci) (validate_source_specification ci entry 0) _ (λ s e.
      Ensured->>= (IsSourced ci) (validate_entries ci 1 values) _ (λ rest f. record {
        first = s;
        rest = rest;
        some_source = refl;
        placed = (
          Ensured-ok (IsPlaced ci) _ (validate_source-IsPlaced ci entry 0) e,
          Ensured-ok (All (IsPlaced ci)) _ (validate_entries-IsPlaced ci 1 values) f,
        );
      }))

resolve_sources_from_raw-IsSourced :
    (ci : Bool) (cwd : Text) (raw : Members)
    → Ensured (IsSourced ci) (resolve_sources_from_raw ci cwd raw)
unfolding resolve_sources_from_raw
resolve_sources_from_raw-IsSourced ci cwd raw =
    sources_from-IsSourced ci cwd raw (listed (get_member raw (codes "sources")))

abbrev IsCurrent : ℕ → Type 0
IsCurrent version = version ≡ current_format_version

check_version-IsCurrent : (version : Number) → Ensured IsCurrent (check_version version)
check_version-IsCurrent (whole n) = decide (n == current_format_version) refl
  where
    decide :
        (t : Bool)
        → (n == current_format_version) ≡ t
        → Ensured IsCurrent (if t then ok n else err (unrecognized_version (whole n)))
    decide true e = ground (arith, e)
    decide false e = tt
check_version-IsCurrent (huge _) = tt
check_version-IsCurrent (below_zero _) = tt
check_version-IsCurrent (fractional _ _) = tt
check_version-IsCurrent not_finite = tt

pub record IsReadable (case_insensitive : Bool) (m : SandboxManifest) : Type 0 where
  pub current : m.format_version ≡ current_format_version
  pub sourced : IsSourced case_insensitive m.sources

-- What holds of the sources of every manifest that is read with them holds of the manifest.
pub read_fields-sources :
    (ci : Bool) (cwd : Text) (raw : Members) (m : SandboxManifest)
    → read_fields ci cwd raw ≡ ok m
    → (m.format_version ≡ current_format_version)
      × (resolve_sources_from_raw ci cwd raw ≡ ok m.sources)
unfolding read_fields
read_fields-sources ci cwd raw m h =
    let P = λ (m : SandboxManifest).
      (m.format_version ≡ current_format_version)
      × (resolve_sources_from_raw ci cwd raw ≡ ok m.sources) in
    let version = recorded_version (get_member raw (codes "format_version")) in
    Ensured-ok P _
      (Ensured->>= P (check_version version) _ (λ v e.
        Ensured->>= P (resolve_sources_from_raw ci cwd raw) _ (λ sources f.
          let both : IsCurrent v × (resolve_sources_from_raw ci cwd raw ≡ ok sources) =
            (Ensured-ok IsCurrent _ (check_version-IsCurrent version) e, f) in
          Ensured->>= P (primary sources) _ (λ root _.
            Ensured->>= P
              (sha_map raw (codes "baseline_commit_shas") (codes "baseline_commit_sha") root) _
              (λ _ _.
                Ensured->>= P
                  (sha_map raw (codes "branch_creation_point_shas")
                    (codes "branch_creation_point_sha") root)
                  _
                  (λ _ _.
                    Ensured->>= P (validated (require_string_field raw (codes "id"))) _ (λ _ _.
                      Ensured->>= P (validated (require_string_field raw (codes "created_at"))) _
                        (λ _ _.
                          Ensured->>= P
                            (validated (require_string_field raw (codes "container_name"))) _
                            (λ _ _.
                              Ensured->>= P
                                (validated (require_string_field raw (codes "container_image"))) _
                                (λ _ _.
                                  Ensured->>= P
                                    (validated (
                                      validate_optional_string_field raw (codes "effective_image")))
                                    _
                                    (λ _ _.
                                      Ensured->>= P
                                        (validated
                                          (validate_optional_string_field raw (codes "tool")))
                                        _
                                        (λ _ _.
                                          Ensured->>= P
                                            (validated (
                                              validate_optional_string_array_field raw
                                                (codes "include_globs")))
                                            _
                                            (λ _ _.
                                              Ensured->>= P
                                                (validated (
                                                  validate_optional_string_array_field raw
                                                    (codes "exclude_globs")))
                                                _
                                                (λ _ _.
                                                  Ensured->>= P
                                                    (validated (
                                                      validate_optional_string_array_field raw
                                                        (codes "volume_mounts")))
                                                    _
                                                    (λ _ _.
                                                      Ensured->>= P
                                                        (validated (
                                                          validate_optional_string_record_field raw
                                                            (codes "environment_variables")))
                                                        _ (λ _ _. both))))))))))))))))
      h

-- A manifest that `read_manifest` returns has the current format version and at least one source, and
-- the path of each of its sources is its prefix below its repository, as the host compares paths,
-- unless the source's repository is still to be found. That holds of a manifest with a list of sources
-- and of one with the legacy fields only.
pub read_manifest-IsReadable :
    (case_insensitive : Bool) (cwd : Text) (parsed : Json) (m : SandboxManifest)
    → read_manifest case_insensitive cwd parsed ≡ ok m
    → IsReadable case_insensitive m
unfolding read_manifest
read_manifest-IsReadable ci cwd parsed m h =
    let (raw, _, read) = >>=-eq-ok (validated (assert_parsed_object_root parsed)) _ h in
    let (version, sources) = read_fields-sources ci cwd raw m read in
    record {
      current = version;
      sourced = Ensured-ok (IsSourced ci) _ (resolve_sources_from_raw-IsSourced ci cwd raw) sources;
    }

assert_writer_sources_placed :
    (ci : Bool) (sources : List SourceSpecification)
    → All (IsPlaced ci) sources
    → All (λ s. s.repository_root ≢ []) sources
    → assert_writer_sources ci sources ≡ ok tt
unfolding assert_writer_sources assert_writer_source_specification_invariants
assert_writer_sources_placed ci [] placed known = refl
assert_writer_sources_placed ci (s ∷ sources) (inl joined, placed) (_, known) =
    rw joined (assert_writer_sources_placed ci sources placed known)
assert_writer_sources_placed ci (s ∷ sources) (inr unknown, placed) (root_known, known) =
    absurd (root_known unknown)

-- A manifest that is read, of a list of sources or of the legacy fields, and whose repositories are
-- all recorded, is accepted by `write_manifest`; what is then written is read as the same manifest.
pub read_manifest_rewritten :
    (case_insensitive : Bool) (cwd cwd' : Text) (parsed : Json) (m : SandboxManifest)
    → read_manifest case_insensitive cwd parsed ≡ ok m
    → All (λ s. s.repository_root ≢ []) m.sources
    → (written : Json) × (write_manifest case_insensitive m ≡ ok written)
      × (read_manifest case_insensitive cwd' written ≡ ok m)
unfolding write_manifest
read_manifest_rewritten ci cwd cwd' parsed m h known =
    let readable = read_manifest-IsReadable ci cwd parsed m h in
    let sourced = readable.sourced in
    let checked = assert_writer_sources_placed ci m.sources sourced.placed known in
    let accepted : write_manifest ci m ≡ ok (object (manifest_members m)) = rw checked refl in
    (
      object (manifest_members m),
      accepted,
      read_manifest-write_manifest ci cwd' m sourced.first sourced.rest
          (object (manifest_members m)) sourced.some_source readable.current accepted,
    )
