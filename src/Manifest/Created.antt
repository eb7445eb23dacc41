-- ===== src/Manifest/Created.antt =====
-- src/manifest.ts: the maps of a new manifest, which has one entry for each repository.
use patchlab.Common.{
  ◌≡◌, refl, Text, Bool, List, [], ◌∷◌, Option, none, some, Assoc, get, if◌then◌else◌, anyb, ok,
  Ensured->>=, Ensured-ok,
}
use patchlab.Json.{Json, object}
use patchlab.Manifest.Read.{read_manifest}
use patchlab.Manifest.Write.{manifest_members, write_manifest}
use patchlab.Manifest.Written.{read_manifest-write_manifest}
use patchlab.Manifest.{current_format_version, SourceSpecification, SandboxManifest}
use patchlab.Manifest.Repositories.{lies_in}
use patchlab.Manifest.Create.{
  CreateManifestOptions, option_of, assert_writer_sources, create_manifest,
}

-- The documented precedence, case by case: the explicit map, in which null stands for a repository
-- that it does not name, then the single value, then null.
abbrev pub documented_sha : Option (Assoc (Option Text)) → Option (Option Text) → Text → Option Text
documented_sha none none root = none
documented_sha none (some single) root = single
documented_sha (some explicit) _ root = elim (get explicit root) [
  | none ↦ none
  | some value ↦ value
]

-- A map of a manifest that has just been created: an entry for each repository in which some source
-- lies and for no other, with the documented value.
abbrev pub IsShaMap :
    List SourceSpecification
    → Option (Assoc (Option Text))
    → Option (Option Text)
    → Assoc (Option Text)
    → Type 0
IsShaMap sources map_input legacy_input m =
    (root : Text)
    → get m root ≡ (
        if anyb (lies_in root) sources
        then some (documented_sha map_input legacy_input root)
        else none)

abbrev pub HasShaMaps : Option CreateManifestOptions → SandboxManifest → Type 0
HasShaMaps options m =
    IsShaMap m.sources (option_of options (λ o. o.baseline_commit_shas))
      (option_of options (λ o. o.baseline_commit_sha)) m.baseline_commit_shas
    × IsShaMap m.sources (option_of options (λ o. o.branch_creation_point_shas))
        (option_of options (λ o. o.branch_creation_point_sha)) m.branch_creation_point_shas

-- What `create_manifest` made sure of
record Writable (case_insensitive : Bool) (m : SandboxManifest) : Type 0 where
  first : SourceSpecification
  rest : List SourceSpecification
  some_source : m.sources ≡ first ∷ rest
  current : m.format_version ≡ current_format_version
  checked : assert_writer_sources case_insensitive m.sources ≡ ok tt

create_manifest-Writable :
    (ci : Bool) (created_at id : Text) (sources : List SourceSpecification) (name image : Text)
    (options : Option CreateManifestOptions) (m : SandboxManifest)
    → create_manifest ci created_at id sources name image options ≡ ok m
    → Writable ci m
unfolding create_manifest
create_manifest-Writable ci created_at id [] name image options m h = cc
create_manifest-Writable ci created_at id (s ∷ sources) name image options m h =
    Ensured-ok (Writable ci) _
      (Ensured->>= (Writable ci) (assert_writer_sources ci (s ∷ sources)) _ (λ _ e. record {
        first = s;
        rest = sources;
        some_source = refl;
        current = refl;
        checked = e;
      }))
      h

-- A manifest that `create_manifest` returns is accepted by `write_manifest`, and what is written is
-- read back as that manifest.
pub create_manifest-write_manifest :
    (case_insensitive : Bool) (created_at id : Text) (sources : List SourceSpecification)
    (container_name container_image : Text) (options : Option CreateManifestOptions)
    (m : SandboxManifest) (cwd : Text)
    → create_manifest case_insensitive created_at id sources container_name container_image options
      ≡ ok m
    → (written : Json) × (write_manifest case_insensitive m ≡ ok written)
      × (read_manifest case_insensitive cwd written ≡ ok m)
unfolding write_manifest
create_manifest-write_manifest ci created_at id sources name image options m cwd h =
    let w = create_manifest-Writable ci created_at id sources name image options m h in
    let accepted : write_manifest ci m ≡ ok (object (manifest_members m)) = rw w.checked refl in
    (
      object (manifest_members m),
      accepted,
      read_manifest-write_manifest ci cwd m w.first w.rest (object (manifest_members m))
          w.some_source w.current accepted,
    )
