-- ===== src/Overrides/Shape.antt =====
-- What .patchlab.json files src/overrides.ts accepts.
use patchlab.Common.{
  ◌≡◌, ◌↔◌, refl, ℕ, suc, Text, codes, Bool, true, false, List, [], ◌∷◌, Option, none, some, ok,
  err, All, if◌then◌else◌,
}
use patchlab.Json.{
  Json, null, boolean, number, string, array, object, Members, get_member, items, entries,
}
use patchlab.JsonValidators.{assert_parsed_object_root}
use patchlab.Overrides.{
  Logged, and_then, assert_strings, assert_string_array_field, assert_string_values,
  validate_environment_variables, validate_requirements_block, is_nonempty_string,
  validate_source_entry, validate_source_entries, validate_sources_field, validate_ignore_detected,
  validate_allow_socket_mount, load_overrides, unknown_among, known_requirement_fields,
  known_source_entry_fields, unknown_requirement, unknown_source_field, throws, path_required,
  mount_required,
}

abbrev pub IsString : Json → Type 0
IsString (string text) = Unit {0}
IsString _ = ⊥

abbrev pub IsStringArray : Option Json → Type 0
IsStringArray none = Unit {0}
IsStringArray (some (array elements)) = All IsString (items elements)
IsStringArray (some _) = ⊥

abbrev pub IsStringRecord : Option Json → Type 0
IsStringRecord none = Unit {0}
IsStringRecord (some (object fields)) =
    All (λ (field : Text × Json). IsString field.1) (entries fields)
IsStringRecord (some _) = ⊥

abbrev pub IsRequirements : Option Json → Type 0
IsRequirements none = Unit {0}
IsRequirements (some (object fields)) =
    IsStringArray (get_member fields (codes "system_packages"))
    × IsStringArray (get_member fields (codes "volume_mounts"))
    × IsStringArray (get_member fields (codes "npm_packages"))
    × IsStringRecord (get_member fields (codes "environment_variables"))
IsRequirements (some _) = ⊥

abbrev pub IsSourceEntry : Json → Type 0
IsSourceEntry (string (c ∷ cs)) = Unit {0}
IsSourceEntry (object fields) =
    (is_nonempty_string (get_member fields (codes "path")) ≡ true)
    × (is_nonempty_string (get_member fields (codes "mount")) ≡ true)
IsSourceEntry _ = ⊥

abbrev pub IsSources : Option Json → Type 0
IsSources none = Unit {0}
IsSources (some (array values)) = All IsSourceEntry (items values)
IsSources (some _) = ⊥

abbrev pub IsArray : Option Json → Type 0
IsArray none = Unit {0}
IsArray (some (array values)) = Unit {0}
IsArray (some _) = ⊥

abbrev pub IsBoolean : Option Json → Type 0
IsBoolean none = Unit {0}
IsBoolean (some (boolean allow)) = Unit {0}
IsBoolean (some _) = ⊥

-- `Patchlab_Overrides`
abbrev pub IsOverrides : Members → Type 0
IsOverrides raw =
    IsRequirements (get_member raw (codes "requirements"))
    × IsArray (get_member raw (codes "ignore_detected"))
    × IsBoolean (get_member raw (codes "allow_socket_mount"))
    × IsSources (get_member raw (codes "sources"))

abbrev Passes : Logged (Unit {0}) → Type 0
Passes step = step.0 ≡ ok tt

-- Two steps pass where both do.
and_then_iff :
    {B : Type 0} (step : Logged (Unit {0})) (next : Logged B) (value : B)
    → ((and_then step (λ _. next)).0 ≡ ok value) ↔ (Passes step × (next.0 ≡ ok value))
and_then_iff (ok tt, warnings) next value = (λ h. (refl, h), λ h. h.1)
and_then_iff (err thrown, warnings) next value = (λ h. cc, λ h. cc)

module _ (field : Text) where
  assert_strings_iff :
      (elements : List Json) → Passes (assert_strings field elements) ↔ All IsString elements
  unfolding assert_strings
  assert_strings_iff [] = (λ _. tt, λ _. refl)
  assert_strings_iff (string text ∷ elements) =
      let (sound, complete) = assert_strings_iff elements in (λ h. (tt, sound h), λ h. complete h.1)
  assert_strings_iff (null ∷ elements) = (λ h. cc, λ h. absurd h.0)
  assert_strings_iff (boolean b ∷ elements) = (λ h. cc, λ h. absurd h.0)
  assert_strings_iff (number n ∷ elements) = (λ h. cc, λ h. absurd h.0)
  assert_strings_iff (array vs ∷ elements) = (λ h. cc, λ h. absurd h.0)
  assert_strings_iff (object ms ∷ elements) = (λ h. cc, λ h. absurd h.0)

  assert_string_array_field_iff :
      (value : Option Json) → Passes (assert_string_array_field value field) ↔ IsStringArray value
  unfolding assert_string_array_field
  assert_string_array_field_iff none = (λ _. tt, λ _. refl)
  assert_string_array_field_iff (some (array elements)) = assert_strings_iff (items elements)
  assert_string_array_field_iff (some null) = (λ h. cc, λ h. absurd h)
  assert_string_array_field_iff (some (boolean b)) = (λ h. cc, λ h. absurd h)
  assert_string_array_field_iff (some (number n)) = (λ h. cc, λ h. absurd h)
  assert_string_array_field_iff (some (string s)) = (λ h. cc, λ h. absurd h)
  assert_string_array_field_iff (some (object ms)) = (λ h. cc, λ h. absurd h)

assert_string_values_iff :
    (fields : List (Text × Json))
    → Passes (assert_string_values fields) ↔ All (λ (field : Text × Json). IsString field.1) fields
unfolding assert_string_values
assert_string_values_iff [] = (λ _. tt, λ _. refl)
assert_string_values_iff ((key, string text) ∷ fields) =
    let (sound, complete) = assert_string_values_iff fields in
    (λ h. (tt, sound h), λ h. complete h.1)
assert_string_values_iff ((key, null) ∷ fields) = (λ h. cc, λ h. absurd h.0)
assert_string_values_iff ((key, boolean b) ∷ fields) = (λ h. cc, λ h. absurd h.0)
assert_string_values_iff ((key, number n) ∷ fields) = (λ h. cc, λ h. absurd h.0)
assert_string_values_iff ((key, array vs) ∷ fields) = (λ h. cc, λ h. absurd h.0)
assert_string_values_iff ((key, object ms) ∷ fields) = (λ h. cc, λ h. absurd h.0)

validate_environment_variables_iff :
    (value : Option Json) → Passes (validate_environment_variables value) ↔ IsStringRecord value
unfolding validate_environment_variables
validate_environment_variables_iff none = (λ _. tt, λ _. refl)
validate_environment_variables_iff (some (object fields)) =
    assert_string_values_iff (entries fields)
validate_environment_variables_iff (some null) = (λ h. cc, λ h. absurd h)
validate_environment_variables_iff (some (boolean b)) = (λ h. cc, λ h. absurd h)
validate_environment_variables_iff (some (number n)) = (λ h. cc, λ h. absurd h)
validate_environment_variables_iff (some (string s)) = (λ h. cc, λ h. absurd h)
validate_environment_variables_iff (some (array vs)) = (λ h. cc, λ h. absurd h)

-- Four tests in a row
and_then_four :
    {B : Type 0} (first second third fourth : Logged (Unit {0})) (last : Logged B) (value : B)
    → ((and_then first
          (λ _. and_then second (λ _. and_then third (λ _. and_then fourth (λ _. last))))).0
        ≡ ok value)
      ↔ (Passes first × Passes second × Passes third × Passes fourth × (last.0 ≡ ok value))
and_then_four first second third fourth last value =
    let s4 = and_then_iff fourth last value in
    let s3 = and_then_iff third (and_then fourth (λ _. last)) value in
    let s2 = and_then_iff second (and_then third (λ _. and_then fourth (λ _. last))) value in
    let s1 =
      and_then_iff first (and_then second (λ _. and_then third (λ _. and_then fourth (λ _. last))))
        value in
    (
      (λ h.
          let (a, h2) = s1.0 h in
          let (b, h3) = s2.0 h2 in
          let (c, h4) = s3.0 h3 in let (d, e) = s4.0 h4 in (a, b, c, d, e)),
      (λ (a, b, c, d, e). s1.1 (a, s2.1 (b, s3.1 (c, s4.1 (d, e))))),
    )

validate_requirements_block_iff :
    (value : Option Json) → Passes (validate_requirements_block value) ↔ IsRequirements value
unfolding validate_requirements_block
validate_requirements_block_iff none = (λ _. tt, λ _. refl)
validate_requirements_block_iff (some (object fields)) =
    let packages = get_member fields (codes "system_packages") in
    let mounts = get_member fields (codes "volume_mounts") in
    let npm = get_member fields (codes "npm_packages") in
    let variables = get_member fields (codes "environment_variables") in
    let steps =
      and_then_four
        (ok tt, unknown_among known_requirement_fields unknown_requirement (entries fields))
        (assert_string_array_field packages (codes "system_packages"))
        (assert_string_array_field mounts (codes "volume_mounts"))
        (assert_string_array_field npm (codes "npm_packages"))
        (validate_environment_variables variables) tt in
    let is_packages = assert_string_array_field_iff (codes "system_packages") packages in
    let is_mounts = assert_string_array_field_iff (codes "volume_mounts") mounts in
    let is_npm = assert_string_array_field_iff (codes "npm_packages") npm in
    let is_variables = validate_environment_variables_iff variables in
    (
      (λ h.
          let (_, a, b, c, d) = steps.0 h in
          (is_packages.0 a, is_mounts.0 b, is_npm.0 c, is_variables.0 d)),
      (λ (a, b, c, d).
          steps.1 (refl, is_packages.1 a, is_mounts.1 b, is_npm.1 c, is_variables.1 d)),
    )
validate_requirements_block_iff (some null) = (λ h. cc, λ h. absurd h)
validate_requirements_block_iff (some (boolean b)) = (λ h. cc, λ h. absurd h)
validate_requirements_block_iff (some (number n)) = (λ h. cc, λ h. absurd h)
validate_requirements_block_iff (some (string s)) = (λ h. cc, λ h. absurd h)
validate_requirements_block_iff (some (array vs)) = (λ h. cc, λ h. absurd h)

validate_source_entry_iff :
    (value : Json) (index : ℕ) → Passes (validate_source_entry value index) ↔ IsSourceEntry value
unfolding validate_source_entry
validate_source_entry_iff (string []) index = (λ h. cc, λ h. absurd h)
validate_source_entry_iff (string (c ∷ cs)) index = (λ _. tt, λ _. refl)
validate_source_entry_iff (object fields) index =
    decide (is_nonempty_string (get_member fields (codes "path")))
      (is_nonempty_string (get_member fields (codes "mount")))
  where
    decide :
        (has_path has_mount : Bool)
        → Passes (
            if has_path
            then if has_mount
              then (
                ok tt,
                unknown_among known_source_entry_fields
                    (unknown_source_field index)
                    (entries fields),
              )
              else throws (mount_required index)
            else throws (path_required index))
          ↔ ((has_path ≡ true) × (has_mount ≡ true))
    decide true true = (λ _. (refl, refl), λ _. refl)
    decide true false = (λ h. cc, λ h. let wrong = h.1 in cc)
    decide false true = (λ h. cc, λ h. let wrong = h.0 in cc)
    decide false false = (λ h. cc, λ h. let wrong = h.0 in cc)
validate_source_entry_iff null index = (λ h. cc, λ h. absurd h)
validate_source_entry_iff (boolean b) index = (λ h. cc, λ h. absurd h)
validate_source_entry_iff (number n) index = (λ h. cc, λ h. absurd h)
validate_source_entry_iff (array vs) index = (λ h. cc, λ h. absurd h)

validate_source_entries_iff :
    (values : List Json) (index : ℕ)
    → Passes (validate_source_entries values index) ↔ All IsSourceEntry values
unfolding validate_source_entries
validate_source_entries_iff [] index = (λ _. tt, λ _. refl)
validate_source_entries_iff (value ∷ values) index =
    let both =
      and_then_iff (validate_source_entry value index) (validate_source_entries values (suc index))
        tt in
    let first = validate_source_entry_iff value index in
    let rest = validate_source_entries_iff values (suc index) in
    (
      (λ h. let (a, b) = both.0 h in (first.0 a, rest.0 b)),
      (λ (a, b). both.1 (first.1 a, rest.1 b)),
    )

validate_sources_field_iff :
    (value : Option Json) → Passes (validate_sources_field value) ↔ IsSources value
unfolding validate_sources_field
validate_sources_field_iff none = (λ _. tt, λ _. refl)
validate_sources_field_iff (some (array values)) = validate_source_entries_iff (items values) 0
validate_sources_field_iff (some null) = (λ h. cc, λ h. absurd h)
validate_sources_field_iff (some (boolean b)) = (λ h. cc, λ h. absurd h)
validate_sources_field_iff (some (number n)) = (λ h. cc, λ h. absurd h)
validate_sources_field_iff (some (string s)) = (λ h. cc, λ h. absurd h)
validate_sources_field_iff (some (object ms)) = (λ h. cc, λ h. absurd h)

validate_ignore_detected_iff :
    (value : Option Json) → Passes (validate_ignore_detected value) ↔ IsArray value
validate_ignore_detected_iff none = (λ _. tt, λ _. refl)
validate_ignore_detected_iff (some (array values)) = (λ _. tt, λ _. refl)
validate_ignore_detected_iff (some null) = (λ h. cc, λ h. absurd h)
validate_ignore_detected_iff (some (boolean b)) = (λ h. cc, λ h. absurd h)
validate_ignore_detected_iff (some (number n)) = (λ h. cc, λ h. absurd h)
validate_ignore_detected_iff (some (string s)) = (λ h. cc, λ h. absurd h)
validate_ignore_detected_iff (some (object ms)) = (λ h. cc, λ h. absurd h)

validate_allow_socket_mount_iff :
    (value : Option Json) → Passes (validate_allow_socket_mount value) ↔ IsBoolean value
validate_allow_socket_mount_iff none = (λ _. tt, λ _. refl)
validate_allow_socket_mount_iff (some (boolean allow)) = (λ _. tt, λ _. refl)
validate_allow_socket_mount_iff (some null) = (λ h. cc, λ h. absurd h)
validate_allow_socket_mount_iff (some (number n)) = (λ h. cc, λ h. absurd h)
validate_allow_socket_mount_iff (some (string s)) = (λ h. cc, λ h. absurd h)
validate_allow_socket_mount_iff (some (array vs)) = (λ h. cc, λ h. absurd h)
validate_allow_socket_mount_iff (some (object ms)) = (λ h. cc, λ h. absurd h)

-- Reading a .patchlab.json that parses to an object returns that object exactly where it has the type
-- `Patchlab_Overrides` as far as that is checked: string arrays and records in the requirements, an
-- array in ignore_detected, a Boolean in allow_socket_mount, and sources that are nonempty strings or
-- have a nonempty path and mount. Fields that are not known do not matter.
pub load_overrides_iff :
    (raw : Members) → ((load_overrides (some (ok (object raw)))).0 ≡ ok raw) ↔ IsOverrides raw
unfolding load_overrides assert_parsed_object_root
load_overrides_iff raw =
    let requirements = get_member raw (codes "requirements") in
    let ignored = get_member raw (codes "ignore_detected") in
    let socket = get_member raw (codes "allow_socket_mount") in
    let sources = get_member raw (codes "sources") in
    let checked =
      and_then_four (validate_requirements_block requirements) (validate_ignore_detected ignored)
        (validate_allow_socket_mount socket) (validate_sources_field sources) (ok raw, []) raw in
    let is_requirements = validate_requirements_block_iff requirements in
    let is_ignored = validate_ignore_detected_iff ignored in
    let is_socket = validate_allow_socket_mount_iff socket in
    let is_sources = validate_sources_field_iff sources in
    (
      (λ h.
          let (a, b, c, d, _) = checked.0 h in
          (is_requirements.0 a, is_ignored.0 b, is_socket.0 c, is_sources.0 d)),
      (λ (a, b, c, d).
          checked.1 (is_requirements.1 a, is_ignored.1 b, is_socket.1 c, is_sources.1 d, refl)),
    )
