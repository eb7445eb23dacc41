-- ===== src/Json.antt =====
-- The values that `JSON.parse` and `YAML.parse` return, for src/json_validators.ts and its clients.
-- An object is the list of its members in the order of `Object.keys`; their names are distinct.
pub mod Reading
use patchlab.Common.{ℕ, Text, text_eq, Bool, Option, none, some, List, [], ◌∷◌, if◌then◌else◌}

-- A number is told apart as far as the source looks; a text here is what a template literal prints.
pub data Number : Type 0 where
  -- an integer from 0 to 2^53
  whole : ℕ → Number
  -- a larger integer
  huge : Text → Number
  -- an integer below 0
  below_zero : Text → Number
  -- not an integer, but finite
  fractional : (negative : Bool) → Text → Number
  -- NaN or an infinity, which YAML has
  not_finite : Number

mutual
  pub data Json : Type 0 where
    null : Json
    boolean : Bool → Json
    number : Number → Json
    string : Text → Json
    array : Elements → Json
    object : Members → Json

  pub data Elements : Type 0 where
    no_elements : Elements
    element : Json → Elements → Elements

  pub data Members : Type 0 where
    no_members : Members
    member : Text → Json → Members → Members

-- `value[name]`; none is `undefined`
unfoldable pub get_member : Members → Text → Option Json
get_member no_members name = none
get_member (member key value members) name =
    if text_eq key name then some value else get_member members name

-- `for (const element of value)`
unfoldable pub items : Elements → List Json
items no_elements = []
items (element value values) = value ∷ items values

unfoldable pub array_of : List Json → Elements
array_of [] = no_elements
array_of (value ∷ values) = element value (array_of values)

-- `Object.entries(value)`
unfoldable pub entries : Members → List (Text × Json)
entries no_members = []
entries (member key value members) = (key, value) ∷ entries members

unfoldable pub object_of : List (Text × Json) → Members
object_of [] = no_members
object_of ((key, value) ∷ fields) = member key value (object_of fields)

-- What `JSON.stringify` keeps of an object literal: a member that is `undefined` is left out.
unfoldable pub defined_members : List (Text × Option Json) → Members
defined_members [] = no_members
defined_members ((key, some value) ∷ fields) = member key value (defined_members fields)
defined_members ((key, none) ∷ fields) = defined_members fields
