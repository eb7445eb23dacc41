-- ===== src/Overrides.antt =====
-- src/overrides.ts: the reading and validation of .patchlab.json. A file is absent, or what it parses to
-- or the message of the failure. A run gives what is returned or thrown and the warnings in their order.
pub mod Shape
mod Tests
use patchlab.Common.{
  ℕ, suc, Text, codes, text_eq, has, Bool, true, false, List, [], ◌∷◌, ◌++◌, Option, none, some,
  Result, ok, err, if◌then◌else◌,
}
use patchlab.Json.{
  Json, string, boolean, array, object, Elements, element, Members, no_members, get_member, items,
  entries,
}
use patchlab.JsonValidators.{ValidationError, assert_parsed_object_root}

abbrev pub known_fields : List Text
known_fields =
    codes "requirements"
    ∷ codes "ignore_detected"
    ∷ codes "allow_socket_mount"
    ∷ codes "sources"
    ∷ []

abbrev pub known_source_entry_fields : List Text
known_source_entry_fields = codes "path" ∷ codes "mount" ∷ []

abbrev pub known_requirement_fields : List Text
known_requirement_fields =
    codes "system_packages"
    ∷ codes "volume_mounts"
    ∷ codes "environment_variables"
    ∷ codes "npm_packages"
    ∷ []

pub data OverridesError : Type 0 where
  parse_failed : (message : Text) → OverridesError
  invalid_root : ValidationError → OverridesError
  not_array not_object element_not_string not_boolean : (field : Text) → OverridesError
  invalid_source : (index : ℕ) → OverridesError
  path_required mount_required : (index : ℕ) → OverridesError

pub data Warning : Type 0 where
  unknown_field unknown_requirement : (key : Text) → Warning
  unknown_source_field : (index : ℕ) (key : Text) → Warning

abbrev pub Logged : Type 0 → Type 0
Logged A = Result OverridesError A × List Warning

-- What follows a step runs unless it threw.
abbrev pub and_then : {A B : Type 0} → Logged A → (A → Logged B) → Logged B
and_then (err thrown, warnings) next = (err thrown, warnings)
and_then (ok value, warnings) next = ((next value).0, warnings ++ (next value).1)

abbrev pub passed : Logged (Unit {0})
passed = (ok tt, [])

abbrev pub throws : OverridesError → Logged (Unit {0})
throws thrown = (err thrown, [])

unfoldable pub unknown_among : List Text → (Text → Warning) → List (Text × Json) → List Warning
unknown_among known warning [] = []
unknown_among known warning ((key, value) ∷ fields) =
    let rest = unknown_among known warning fields in
    if has known key then rest else warning key ∷ rest

unfoldable pub assert_strings : (field : Text) → List Json → Logged (Unit {0})
assert_strings field [] = passed
assert_strings field (string text ∷ elements) = assert_strings field elements
assert_strings field (value ∷ elements) = throws (element_not_string field)

unfoldable pub assert_string_array_field : Option Json → (field : Text) → Logged (Unit {0})
unfolding assert_strings
assert_string_array_field none field = passed
assert_string_array_field (some (array elements)) field = assert_strings field (items elements)
assert_string_array_field (some value) field = throws (not_array field)

unfoldable pub assert_string_values : List (Text × Json) → Logged (Unit {0})
assert_string_values [] = passed
assert_string_values ((key, string text) ∷ fields) = assert_string_values fields
assert_string_values ((key, value) ∷ fields) = throws (element_not_string key)

unfoldable pub validate_environment_variables : Option Json → Logged (Unit {0})
unfolding assert_string_values
validate_environment_variables none = passed
validate_environment_variables (some (object variables)) = assert_string_values (entries variables)
validate_environment_variables (some value) = throws (not_object (codes "environment_variables"))

abbrev pub validate_requirements : Members → Logged (Unit {0})
validate_requirements requirements =
    and_then
      (ok tt, unknown_among known_requirement_fields unknown_requirement (entries requirements))
      (λ _.
        and_then
          (assert_string_array_field (get_member requirements (codes "system_packages"))
            (codes "system_packages"))
          (λ _.
            and_then
              (assert_string_array_field (get_member requirements (codes "volume_mounts"))
                (codes "volume_mounts"))
              (λ _.
                and_then
                  (assert_string_array_field (get_member requirements (codes "npm_packages"))
                    (codes "npm_packages"))
                  (λ _.
                    validate_environment_variables
                      (get_member requirements (codes "environment_variables"))))))

unfoldable pub validate_requirements_block : Option Json → Logged (Unit {0})
unfolding assert_string_array_field validate_environment_variables unknown_among
validate_requirements_block none = passed
validate_requirements_block (some (object requirements)) = validate_requirements requirements
validate_requirements_block (some value) = throws (not_object (codes "requirements"))

abbrev pub is_nonempty_string : Option Json → Bool
is_nonempty_string (some (string (c ∷ cs))) = true
is_nonempty_string _ = false

abbrev pub validate_source_entry_object : Members → ℕ → Logged (Unit {0})
validate_source_entry_object entry index =
    if is_nonempty_string (get_member entry (codes "path"))
    then if is_nonempty_string (get_member entry (codes "mount"))
      then (
        ok tt,
        unknown_among known_source_entry_fields (unknown_source_field index) (entries entry),
      )
      else throws (mount_required index)
    else throws (path_required index)

unfoldable pub validate_source_entry : Json → (index : ℕ) → Logged (Unit {0})
unfolding unknown_among
validate_source_entry (string []) index = throws (invalid_source index)
validate_source_entry (string (c ∷ cs)) index = passed
validate_source_entry (object entry) index = validate_source_entry_object entry index
validate_source_entry value index = throws (invalid_source index)

unfoldable pub validate_source_entries : List Json → (index : ℕ) → Logged (Unit {0})
unfolding validate_source_entry
validate_source_entries [] index = passed
validate_source_entries (value ∷ values) index =
    and_then (validate_source_entry value index) (λ _. validate_source_entries values (suc index))

unfoldable pub validate_sources_field : Option Json → Logged (Unit {0})
unfolding validate_source_entries
validate_sources_field none = passed
validate_sources_field (some (array values)) = validate_source_entries (items values) 0
validate_sources_field (some value) = throws (not_array (codes "sources"))

abbrev pub validate_ignore_detected : Option Json → Logged (Unit {0})
validate_ignore_detected none = passed
validate_ignore_detected (some (array values)) = passed
validate_ignore_detected (some value) = throws (not_array (codes "ignore_detected"))

abbrev pub validate_allow_socket_mount : Option Json → Logged (Unit {0})
validate_allow_socket_mount none = passed
validate_allow_socket_mount (some (boolean allow)) = passed
validate_allow_socket_mount (some value) = throws (not_boolean (codes "allow_socket_mount"))

abbrev pub validated_overrides : Members → Logged Members
validated_overrides raw =
    and_then (ok tt, unknown_among known_fields unknown_field (entries raw))
      (λ _. and_then (validate_requirements_block (get_member raw (codes "requirements"))) (λ _.
        and_then (validate_ignore_detected (get_member raw (codes "ignore_detected"))) (λ _.
          and_then (validate_allow_socket_mount (get_member raw (codes "allow_socket_mount"))) (λ _.
            and_then (validate_sources_field (get_member raw (codes "sources")))
              (λ _. (ok raw, []))))))

abbrev pub validate_root : Result ValidationError Members → Logged Members
validate_root (err thrown) = (err (invalid_root thrown), [])
validate_root (ok raw) = validated_overrides raw

-- An absent file gives the empty object.
unfoldable pub load_overrides : Option (Result Text Json) → Logged Members
unfolding validate_requirements_block validate_sources_field unknown_among
load_overrides none = (ok no_members, [])
load_overrides (some (err message)) = (err (parse_failed message), [])
load_overrides (some (ok parsed)) = validate_root (assert_parsed_object_root parsed)

pub record DiscoveredSources : Type 0 where
  pub entries : List Json
  pub base_directory : Text

-- The entries where there are any
abbrev pub sources_in : Text → Option Json → Option DiscoveredSources
sources_in directory (some (array (element value values))) =
    some (record { entries = value ∷ items values; base_directory = directory })
sources_in directory _ = none

abbrev pub sources_or :
    Text → Members → Logged (Option DiscoveredSources) → Logged (Option DiscoveredSources)
sources_or directory overrides later =
    elim (sources_in directory (get_member overrides (codes "sources"))) [
      | none ↦ later
      | some found ↦ (ok (some found), [])
    ]

abbrev pub from_root :
    (files : Text → Option (Result Text Json))
    → (resolve : Text → Text) → (working_directory : Text) → Option Text
    → Logged (Option DiscoveredSources)
from_root files resolve working_directory none = (ok none, [])
from_root files resolve working_directory (some git_root) =
    if text_eq (resolve git_root) (resolve working_directory)
    then (ok none, [])
    else and_then (load_overrides (files git_root))
        (λ overrides. sources_or git_root overrides (ok none, []))

-- `files` gives the .patchlab.json in each directory, `git_root` is none where get_repository_root
-- throws, and `resolve` is `path.resolve`.
unfoldable pub load_sources_from_manifest :
    (files : Text → Option (Result Text Json))
    → (resolve : Text → Text) → (git_root : Option Text) → (working_directory : Text)
    → Logged (Option DiscoveredSources)
unfolding load_overrides
load_sources_from_manifest files resolve git_root working_directory =
    and_then (load_overrides (files working_directory)) (λ overrides.
      sources_or working_directory overrides (from_root files resolve working_directory git_root))
