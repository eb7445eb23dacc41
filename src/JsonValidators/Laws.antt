-- ===== src/JsonValidators/Laws.antt =====
-- The lists and maps of text that src/json_validators.ts reads back as they were written.
use patchlab.Common.{◌≡◌, refl, Text, Option, none, some, ok, List, [], ◌∷◌, map, Assoc}
use patchlab.Json.{Json, null, string}
use patchlab.JsonValidators.{string_or_null_entries, string_elements, string_entries}

abbrev pub written_or_null : Option Text → Json
written_or_null none = null
written_or_null (some text) = string text

abbrev pub written_map : Assoc (Option Text) → List (Text × Json)
written_map [] = []
written_map ((key, entry) ∷ m) = (key, written_or_null entry) ∷ written_map m

abbrev pub written_record : Assoc Text → List (Text × Json)
written_record [] = []
written_record ((key, text) ∷ m) = (key, string text) ∷ written_record m

pub string_or_null_entries_read :
    (field : Text) (m : Assoc (Option Text)) → string_or_null_entries field (written_map m) ≡ ok m
unfolding string_or_null_entries
string_or_null_entries_read field [] = refl
string_or_null_entries_read field ((key, none) ∷ m) = rw (string_or_null_entries_read field m) refl
string_or_null_entries_read field ((key, some text) ∷ m) =
    rw (string_or_null_entries_read field m) refl

pub string_elements_read :
    (field : Text) (texts : List Text) → string_elements field (map string texts) ≡ ok texts
unfolding string_elements
string_elements_read field [] = refl
string_elements_read field (text ∷ texts) = rw (string_elements_read field texts) refl

pub string_entries_read :
    (field : Text) (m : Assoc Text) → string_entries field (written_record m) ≡ ok m
unfolding string_entries
string_entries_read field [] = refl
string_entries_read field ((key, text) ∷ m) = rw (string_entries_read field m) refl
