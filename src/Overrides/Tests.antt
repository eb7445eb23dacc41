-- ===== src/Overrides/Tests.antt =====
-- Runs of src/overrides.ts, and its theorems at concrete inputs.
use patchlab.Common.{
  ◌≡◌, ◌↔◌, refl, Text, codes, text_eq, has, true, false, [], ◌∷◌, Option, none, some, Result, ok,
  err,
}
use patchlab.Json.{
  Json, null, string, array, object, element, no_elements, Members, member, no_members, get_member,
  items, entries,
}
use patchlab.JsonValidators.{assert_parsed_object_root}
use patchlab.Overrides.{not_boolean, unknown_field, load_overrides, load_sources_from_manifest}
use patchlab.Overrides.Shape.{IsOverrides, load_overrides_iff}

abbrev web : Members
web =
    member (codes "sources") (array (element (string (codes "lib")) no_elements))
      (member (codes "colour") null no_members)

-- An unknown field is warned of and kept.
warned_run : load_overrides (some (ok (object web))) ≡ (ok web, unknown_field (codes "colour") ∷ [])
unfolding load_overrides assert_parsed_object_root get_member entries text_eq has items
warned_run = refl

socket_run :
    load_overrides
      (some (ok (object (member (codes "allow_socket_mount") (string (codes "yes")) no_members))))
    ≡ (err (not_boolean (codes "allow_socket_mount")), [])
unfolding load_overrides assert_parsed_object_root get_member entries text_eq has
socket_run = refl

-- The repository's file is looked at where the working directory has none.
abbrev files : Text → Option (Result Text Json)
files directory = elim (text_eq directory (codes "/web")) [
  | true ↦ some (ok (object web))
  | false ↦ none
]

discovered_run :
    load_sources_from_manifest files (λ path. path) (some (codes "/web")) (codes "/web/docs") ≡ (
      ok (some (record { entries = string (codes "lib") ∷ []; base_directory = codes "/web" })),
      unknown_field (codes "colour") ∷ [],
    )
unfolding load_sources_from_manifest load_overrides assert_parsed_object_root get_member entries
    text_eq has items
discovered_run = refl

load_overrides_iff_example :
    ((load_overrides (some (ok (object web)))).0 ≡ ok web) ↔ IsOverrides web
load_overrides_iff_example = load_overrides_iff web
