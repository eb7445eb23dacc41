-- ===== src/Configuration/Fields.antt =====
-- src/configuration.ts: the four fields under `resource_limits`.
pub mod Ranges
use patchlab.Common.{
  ℕ, Text, codes, text_eq, has, Bool, true, false, not, ◌&&◌, ◌||◌, List, [], ◌∷◌, ◌++◌, map,
  Option, none, some, Result, ok, err, ◌>>=◌, ltb, ◌==◌, if◌then◌else◌, lower,
}
use patchlab.Common.Decimal.{to_decimal, decimal_value}
use patchlab.Json.{
  Number, whole, huge, below_zero, fractional, not_finite, Json, null, boolean, number, string,
  array, object, Members, get_member, entries,
}
use patchlab.ResourceLimits.Parse.{
  Limit, unlimited, limited, Decimals, Signed, signed, memory_match, cpus_match, signed_match,
  max_pids,
}
use patchlab.ResourceLimits.Resolve.{LoadedResourceLimits}
use patchlab.Configuration.{
  ConfigurationError, unknown_limit_key, memory_number_invalid, memory_not_a_string,
  memory_text_invalid, memory_ambiguous, cpus_number_invalid, cpus_not_a_string, cpus_text_invalid,
  pids_not_an_integer, pids_below_zero, pids_over_maximum, blkio_not_an_integer,
  blkio_outside_range,
}

abbrev pub memory_number : Number → Result ConfigurationError (Limit Text)
memory_number (whole n) = if n == 0 then ok unlimited else ok (limited (to_decimal n))
memory_number (huge text) = ok (limited text)
memory_number (below_zero text) = err (memory_number_invalid (below_zero text))
memory_number (fractional negative text) = err (memory_number_invalid (fractional negative text))
memory_number not_finite = err (memory_number_invalid not_finite)

-- What the pattern matched of a text
abbrev pub memory_matched : Text → Option (Text × Text) → Result ConfigurationError (Limit Text)
memory_matched raw none = err (memory_text_invalid raw)
memory_matched raw (some (digits, suffix)) =
    if decimal_value digits == 0
    then err (memory_ambiguous raw)
    else ok (limited (digits ++ map lower suffix))

unfoldable pub parse_memory_field : Json → Result ConfigurationError (Limit Text)
parse_memory_field (number n) = memory_number n
parse_memory_field (string raw) =
    if text_eq raw (codes "0") then ok unlimited else memory_matched raw (memory_match raw)
parse_memory_field value = err (memory_not_a_string value)

abbrev pub cpus_number : Number → Result ConfigurationError (Limit Text)
cpus_number (whole n) = if n == 0 then ok unlimited else ok (limited (to_decimal n ++ codes ".0"))
cpus_number (huge text) = ok (limited (text ++ codes ".0"))
cpus_number (below_zero text) = err (cpus_number_invalid (below_zero text))
cpus_number (fractional true text) = err (cpus_number_invalid (fractional true text))
cpus_number (fractional false text) = ok (limited text)
cpus_number not_finite = err (cpus_number_invalid not_finite)

abbrev pub cpus_matched : Text → Option Decimals → Result ConfigurationError (Limit Text)
cpus_matched raw none = err (cpus_text_invalid raw)
cpus_matched raw (some _) = ok (limited raw)

unfoldable pub parse_cpus_field : Json → Result ConfigurationError (Limit Text)
parse_cpus_field (number n) = cpus_number n
parse_cpus_field (string raw) =
    if text_eq raw (codes "0") then ok unlimited else cpus_matched raw (cpus_match raw)
parse_cpus_field value = err (cpus_not_a_string value)

-- The tests on `numeric`, of which zero is never below zero
abbrev pub pids_in_range : (negative : Bool) → (magnitude : ℕ) → Result ConfigurationError (Limit ℕ)
pids_in_range negative magnitude =
    if negative && not (magnitude == 0)
    then err pids_below_zero
    else if magnitude == 0
    then ok unlimited
    else if ltb max_pids magnitude
    then err pids_over_maximum
    else ok (limited magnitude)

abbrev pub pids_matched : Text → Option Signed → Result ConfigurationError (Limit ℕ)
pids_matched raw none = err (pids_not_an_integer (string raw))
pids_matched raw (some (signed negative magnitude)) = pids_in_range negative magnitude

unfoldable pub parse_pids_field : Json → Result ConfigurationError (Limit ℕ)
parse_pids_field (number (whole n)) = pids_in_range false n
parse_pids_field (number (huge text)) = err pids_over_maximum
parse_pids_field (number (below_zero text)) = err pids_below_zero
parse_pids_field (string raw) = pids_matched raw (signed_match raw)
parse_pids_field value = err (pids_not_an_integer value)

unfoldable pub parse_blkio_weight_field : Json → Result ConfigurationError ℕ
parse_blkio_weight_field (number (whole n)) =
    if ltb n 10 || ltb 1000 n then err (blkio_outside_range (whole n)) else ok n
parse_blkio_weight_field (number (huge text)) = err (blkio_outside_range (huge text))
parse_blkio_weight_field (number (below_zero text)) = err (blkio_outside_range (below_zero text))
parse_blkio_weight_field value = err (blkio_not_an_integer value)

-- `Object.keys(raw)` against a set of accepted keys: the first that is not among them
unfoldable pub first_unknown : List Text → List (Text × Json) → Option Text
first_unknown accepted [] = none
first_unknown accepted ((key, _) ∷ fields) =
    let rest = first_unknown accepted fields in if has accepted key then rest else some key

abbrev pub accept_keys :
    List Text → (Text → ConfigurationError) → Members → Result {0, 0} ConfigurationError Unit
accept_keys accepted unknown raw = elim (first_unknown accepted (entries raw)) [
  | none ↦ ok tt
  | some key ↦ err (unknown key)
]

-- A field that is absent, or an explicit null, is not set.
abbrev pub field_unless_null :
    {A : Type 0}
    → (Json → Result ConfigurationError A)
    → Option Json
    → Result ConfigurationError (Option A)
field_unless_null parse none = ok none
field_unless_null parse (some null) = ok none
field_unless_null parse (some value) = do parsed ← parse value; ok (some parsed)

abbrev pub accepted_yaml_keys : List Text
accepted_yaml_keys = codes "memory" ∷ codes "cpus" ∷ codes "pids" ∷ codes "blkio_weight" ∷ []

-- The loop over `RESOURCE_LIMIT_FIELD_MAP`, whose entries are these four in this order
unfoldable pub yaml_resource_limits_to_loaded :
    Members → Result ConfigurationError LoadedResourceLimits
yaml_resource_limits_to_loaded raw = do
  _ ← accept_keys accepted_yaml_keys unknown_limit_key raw
  memory_limit ← field_unless_null parse_memory_field (get_member raw (codes "memory"))
  cpu_limit ← field_unless_null parse_cpus_field (get_member raw (codes "cpus"))
  pids_limit ← field_unless_null parse_pids_field (get_member raw (codes "pids"))
  blkio_weight ← field_unless_null parse_blkio_weight_field (get_member raw (codes "blkio_weight"))
  ok (record {
    memory_limit = memory_limit;
    cpu_limit = cpu_limit;
    pids_limit = pids_limit;
    blkio_weight = blkio_weight;
  })
