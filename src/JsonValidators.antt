-- ===== src/JsonValidators.antt =====
-- src/json_validators.ts: the checks that a parsed file passes before its fields are used.
-- A message's text is the constructor of the `throw` with what it shows; that every message also
-- names the file is left out, since one run reads one file.
pub mod Laws
use patchlab.Common.{
  Text, codes, Option, none, some, Result, ok, err, ◌>>=◌, Bool, true, false, List, [], ◌∷◌, Assoc,
}
use patchlab.Json.{
  Number, whole, huge, below_zero, fractional, not_finite, Json, null, boolean, number, string,
  array, object, Members, get_member, items, entries,
}

-- One constructor for each `throw`: the field, and the type that was found.
pub data ValidationError : Type 0 where
  root_not_object : (got : Text) → ValidationError
  string_required : (field got : Text) → ValidationError
  number_required : (field got : Text) → ValidationError
  map_expected : (field got : Text) → ValidationError
  string_or_null_expected : (field key got : Text) → ValidationError
  string_expected : (field got : Text) → ValidationError
  array_expected : (field got : Text) → ValidationError
  string_elements_expected : (field got : Text) → ValidationError
  object_expected : (field got : Text) → ValidationError
  string_values_expected : (field key got : Text) → ValidationError

abbrev pub describe_json : Json → Text
describe_json null = codes "null"
describe_json (boolean _) = codes "boolean"
describe_json (number _) = codes "number"
describe_json (string _) = codes "string"
describe_json (array _) = codes "array"
describe_json (object _) = codes "object"

-- none is `undefined`
abbrev pub describe_type : Option Json → Text
describe_type none = codes "undefined"
describe_type (some value) = describe_json value

unfoldable pub assert_parsed_object_root : Json → Result ValidationError Members
assert_parsed_object_root (object members) = ok members
assert_parsed_object_root value = err (root_not_object (describe_json value))

abbrev pub string_value : Text → Option Json → Result ValidationError Text
string_value field (some (string text)) = ok text
string_value field value = err (string_required field (describe_type value))

unfoldable pub require_string_field : Members → Text → Result ValidationError Text
require_string_field raw field = string_value field (get_member raw field)

-- `Number.isFinite`
abbrev pub finite_value : Text → Option Json → Result ValidationError Number
finite_value field (some (number not_finite)) = err (number_required field (codes "number"))
finite_value field (some (number (whole n))) = ok (whole n)
finite_value field (some (number (huge text))) = ok (huge text)
finite_value field (some (number (below_zero text))) = ok (below_zero text)
finite_value field (some (number (fractional negative text))) = ok (fractional negative text)
finite_value field value = err (number_required field (describe_type value))

unfoldable pub require_number_field : Members → Text → Result ValidationError Number
require_number_field raw field = finite_value field (get_member raw field)

abbrev pub string_or_null : Text → Text → Json → Result ValidationError (Option Text)
string_or_null field key null = ok none
string_or_null field key (string text) = ok (some text)
string_or_null field key value = err (string_or_null_expected field key (describe_json value))

unfoldable pub string_or_null_entries :
    Text → List (Text × Json) → Result ValidationError (Assoc (Option Text))
string_or_null_entries field [] = ok []
string_or_null_entries field ((key, value) ∷ fields) = do
  entry ← string_or_null field key value
  rest ← string_or_null_entries field fields
  ok ((key, entry) ∷ rest)

abbrev pub present_map : {A : Type 0} → Result ValidationError A → Result ValidationError (Option A)
present_map checked = do value ← checked; ok (some value)

unfoldable pub validate_string_or_null_map :
    Option Json → Text → Result ValidationError (Option (Assoc (Option Text)))
validate_string_or_null_map none field = ok none
validate_string_or_null_map (some null) field = ok none
validate_string_or_null_map (some (object members)) field =
    present_map (string_or_null_entries field (entries members))
validate_string_or_null_map (some value) field = err (map_expected field (describe_json value))

abbrev pub optional_string : Text → Option Json → Result ValidationError (Option Text)
optional_string field none = ok none
optional_string field (some (string text)) = ok (some text)
optional_string field (some value) = err (string_expected field (describe_json value))

unfoldable pub validate_optional_string_field :
    Members → Text → Result ValidationError (Option Text)
validate_optional_string_field raw field = optional_string field (get_member raw field)

abbrev pub string_element : Text → Json → Result ValidationError Text
string_element field (string text) = ok text
string_element field value = err (string_elements_expected field (describe_json value))

unfoldable pub string_elements : Text → List Json → Result ValidationError (List Text)
string_elements field [] = ok []
string_elements field (value ∷ values) = do
  text ← string_element field value
  rest ← string_elements field values
  ok (text ∷ rest)

abbrev pub optional_array : Text → Option Json → Result ValidationError (Option (List Text))
optional_array field none = ok none
optional_array field (some (array values)) = present_map (string_elements field (items values))
optional_array field (some value) = err (array_expected field (describe_json value))

unfoldable pub validate_optional_string_array_field :
    Members → Text → Result ValidationError (Option (List Text))
validate_optional_string_array_field raw field = optional_array field (get_member raw field)

abbrev pub string_entry : Text → Text → Json → Result ValidationError Text
string_entry field key (string text) = ok text
string_entry field key value = err (string_values_expected field key (describe_json value))

unfoldable pub string_entries : Text → List (Text × Json) → Result ValidationError (Assoc Text)
string_entries field [] = ok []
string_entries field ((key, value) ∷ fields) = do
  text ← string_entry field key value
  rest ← string_entries field fields
  ok ((key, text) ∷ rest)

abbrev pub optional_record : Text → Option Json → Result ValidationError (Option (Assoc Text))
optional_record field none = ok none
optional_record field (some (object members)) = present_map (string_entries field (entries members))
optional_record field (some value) = err (object_expected field (describe_json value))

unfoldable pub validate_optional_string_record_field :
    Members → Text → Result ValidationError (Option (Assoc Text))
validate_optional_string_record_field raw field = optional_record field (get_member raw field)
