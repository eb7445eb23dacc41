-- ===== src/Manifest/Create.antt =====
-- src/manifest.ts: the manifest of a new patchlab, and the writer's check.
use patchlab.Common.{
  Text, Bool, List, [], ◌∷◌, Option, none, some, Result, ok, err, ◌>>=◌, Assoc, get, put,
  if◌then◌else◌, or_else,
}
use patchlab.Manifest.{
  SourceSpecification, SandboxManifest, ManifestError, empty_sources, writer_invariant,
  current_format_version, distinct_repositories_from_sources,
}
use patchlab.Manifest.Sources.{joins}

unfoldable pub assert_writer_source_specification_invariants :
    Bool → SourceSpecification → Result {0, 0} ManifestError Unit
unfolding joins
assert_writer_source_specification_invariants case_insensitive entry =
    if joins case_insensitive entry then ok tt else err (writer_invariant entry)

-- `for (const entry of sources)` over the writer's check
unfoldable pub assert_writer_sources :
    Bool → List SourceSpecification → Result {0, 0} ManifestError Unit
unfolding assert_writer_source_specification_invariants
assert_writer_sources case_insensitive [] = ok tt
assert_writer_sources case_insensitive (entry ∷ sources) = do
  _ ← assert_writer_source_specification_invariants case_insensitive entry
  assert_writer_sources case_insensitive sources

-- A map that is not given is none; the outer option of the single value is `undefined`.
pub record CreateManifestOptions : Type 0 where
  pub include : Option (List Text)
  pub exclude : Option (List Text)
  pub baseline_commit_sha : Option (Option Text)
  pub branch_creation_point_sha : Option (Option Text)
  pub baseline_commit_shas : Option (Assoc (Option Text))
  pub branch_creation_point_shas : Option (Assoc (Option Text))

-- `Object.hasOwn(map_input, repository) ? map_input[repository] : null`, or the default
abbrev pub sha_for : Option (Assoc (Option Text)) → Option (Option Text) → Text → Option Text
sha_for (some map_input) legacy_input repository = or_else (get map_input repository) none
sha_for none legacy_input repository = or_else legacy_input none

-- The two loops that assign the repositories' values to a map that is empty at first
unfoldable pub assign_shas :
    (Text → Option Text) → Assoc (Option Text) → List Text → Assoc (Option Text)
assign_shas value result [] = result
assign_shas value result (repository ∷ repositories) =
    assign_shas value (put result repository (value repository)) repositories

unfoldable pub resolve_sha_map_input :
    Option (Assoc (Option Text)) → Option (Option Text) → List Text → Assoc (Option Text)
unfolding assign_shas
resolve_sha_map_input map_input legacy_input repositories =
    assign_shas (sha_for map_input legacy_input) [] repositories

abbrev pub option_of {ℓ κ} : {L : Type ℓ} {A : Type κ} → Option L → (L → Option A) → Option A
option_of none f = none
option_of (some options) f = f options

abbrev pub nonempty : List SourceSpecification → Result {0, 0} ManifestError Unit
nonempty [] = err empty_sources
nonempty (_ ∷ _) = ok tt

-- `created_at` is the clock's time.
unfoldable pub create_manifest :
    Bool
    → (created_at id : Text) → List SourceSpecification
    → (container_name container_image : Text) → Option CreateManifestOptions
    → Result ManifestError SandboxManifest
unfolding assert_writer_sources resolve_sha_map_input distinct_repositories_from_sources
create_manifest case_insensitive created_at id sources container_name container_image options = do
  _ ← nonempty sources
  _ ← assert_writer_sources case_insensitive sources
  let repositories = distinct_repositories_from_sources sources
  ok (record {
    id = id;
    format_version = current_format_version;
    sources = sources;
    baseline_commit_shas =
        resolve_sha_map_input (option_of options (λ o. o.baseline_commit_shas))
          (option_of options (λ o. o.baseline_commit_sha)) repositories;
    branch_creation_point_shas =
        resolve_sha_map_input (option_of options (λ o. o.branch_creation_point_shas))
          (option_of options (λ o. o.branch_creation_point_sha)) repositories;
    created_at = created_at;
    container_name = container_name;
    container_image = container_image;
    effective_image = none;
    tool = none;
    include_globs = option_of options (λ o. o.include);
    exclude_globs = option_of options (λ o. o.exclude);
    volume_mounts = none;
    environment_variables = none;
    npm_packages = none;
  })
