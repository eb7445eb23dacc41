-- ===== src/ResourceLimits/Parse.antt =====
-- src/resource_limits.ts: the parsers of the four flag values, and the memory format.
-- `Number` is exact below 2^53, and the values compared here are taken to lie below that.
pub mod Laws
pub mod Numbers
use patchlab.Common.{
  ℕ, ◌+◌, ◌-◌, ◌*◌, ◌/◌, ◌%◌, ◌^◌, Text, codes, text_eq, Bool, true, false, ◌||◌, List, [], ◌∷◌,
  ◌++◌, map, Option, none, some, Result, ok, err, ltb, ◌==◌, if◌then◌else◌, lower,
}
use patchlab.Common.Decimal.{to_decimal, decimal_value, span_digits}

-- `T | Unlimited`: the sentinel "unlimited" is spelled like no concrete value of a field.
pub data Limit {ℓ} (A : Type ℓ) : Type ℓ where
  unlimited : Limit A
  limited : A → Limit A

-- What `Number` makes of `-?\d+`
pub data Signed : Type 0 where
  signed : (negative : Bool) → (magnitude : ℕ) → Signed

-- One constructor for each `throw`, with what its message shows.
pub data FlagError : Type 0 where
  memory_invalid cpus_invalid pids_invalid blkio_invalid : Text → FlagError
  memory_unparseable : Text → FlagError
  pids_too_large : ℕ → FlagError
  blkio_out_of_range : Signed → FlagError

abbrev pub one_gibibyte : ℕ
one_gibibyte = 1024 * 1024 * 1024

abbrev pub two_fifty_six_mebibytes : ℕ
two_fifty_six_mebibytes = 256 * 1024 * 1024

abbrev is_suffix : ℕ → Bool
is_suffix c = c == b'b' || c == b'k' || c == b'm' || c == b'g'

-- `([bkmg]?)$` with the flag `i`
abbrev pub suffix_matches : Text → Bool
suffix_matches [] = true
suffix_matches (c ∷ []) = is_suffix (lower c)
suffix_matches (_ ∷ _ ∷ _) = false

abbrev memory_groups : Text × Text → Option (Text × Text)
memory_groups ([], rest) = none
memory_groups (d ∷ ds, rest) = if suffix_matches rest then some (d ∷ ds, rest) else none

-- The groups of `MEMORY_VALUE_PATTERN`
unfoldable pub memory_match : Text → Option (Text × Text)
memory_match value = memory_groups (span_digits value)

unfoldable pub parse_memory_value : Text → Result FlagError (Limit Text)
parse_memory_value value =
    if text_eq value (codes "0") then ok unlimited else elim (memory_match value) [
      | none ↦ err (memory_invalid value)
      | some (digits, suffix) ↦
          if decimal_value digits == 0
          then ok unlimited
          else ok (limited (digits ++ map lower suffix))
    ]

-- The `switch` over the lowered suffix
abbrev pub scale : Text → ℕ → ℕ
scale [] magnitude = magnitude
scale (c ∷ _) magnitude =
    if c == b'g'
    then magnitude * 1024 * 1024 * 1024
    else if c == b'm'
    then magnitude * 1024 * 1024
    else if c == b'k'
    then magnitude * 1024
    else magnitude

unfoldable pub memory_string_to_bytes : Text → Result FlagError ℕ
memory_string_to_bytes value = elim (memory_match value) [
  | none ↦ err (memory_unparseable value)
  | some (digits, suffix) ↦ ok (scale (map lower suffix) (decimal_value digits))
]

pub format_memory_for_podman : ℕ → Text
format_memory_for_podman bytes =
    if bytes % one_gibibyte == 0
    then to_decimal (bytes / one_gibibyte) ++ codes "g"
    else if bytes % (1024 * 1024) == 0
    then to_decimal (bytes / (1024 * 1024)) ++ codes "m"
    else if bytes % 1024 == 0
    then to_decimal (bytes / 1024) ++ codes "k"
    else to_decimal bytes ++ codes "b"

-- A decimal numeral: the digits before the point, and those after it.
pub record Decimals : Type 0 where
  pub whole : Text
  pub fraction : Text

abbrev fraction_groups : Text → Text × Text → Option Decimals
fraction_groups whole (d ∷ ds, []) = some (record { whole = whole; fraction = d ∷ ds })
fraction_groups whole _ = none

abbrev cpus_groups : Text × Text → Option Decimals
cpus_groups ([], rest) = none
cpus_groups (d ∷ ds, []) = some (record { whole = d ∷ ds; fraction = [] })
cpus_groups (d ∷ ds, c ∷ cs) = if c == b'.' then fraction_groups (d ∷ ds) (span_digits cs) else none

-- `CPUS_VALUE_PATTERN`
unfoldable pub cpus_match : Text → Option Decimals
cpus_match value = cpus_groups (span_digits value)

-- `Number(value) === 0`
abbrev is_zero : Decimals → Bool
is_zero d = decimal_value (d.whole ++ d.fraction) == 0

pub parse_cpus_value : Text → Result FlagError (Limit Text)
parse_cpus_value value =
    if text_eq value (codes "0") then ok unlimited else elim (cpus_match value) [
      | none ↦ err (cpus_invalid value)
      | some d ↦ if is_zero d then ok unlimited else ok (limited value)
    ]

abbrev all_digits : Text × Text → Bool
all_digits (_ ∷ _, []) = true
all_digits _ = false

abbrev pub max_pids : ℕ
max_pids = 2 ^ 31 - 1

pub parse_pids_value : Text → Result FlagError (Limit ℕ)
parse_pids_value value =
    if text_eq value (codes "0")
    then ok unlimited
    else if all_digits (span_digits value)
    then (let numeric = decimal_value value in
        if numeric == 0
        then ok unlimited
        else if ltb max_pids numeric
        then err (pids_too_large numeric)
        else ok (limited numeric))
    else err (pids_invalid value)

abbrev signed_groups : Bool → Text × Text → Option Signed
signed_groups negative (d ∷ ds, []) = some (signed negative (decimal_value (d ∷ ds)))
signed_groups negative _ = none

-- `-?\d+` and its value
unfoldable pub signed_match : Text → Option Signed
signed_match [] = none
signed_match (c ∷ cs) =
    if c == b'-'
    then signed_groups true (span_digits cs)
    else signed_groups false (span_digits (c ∷ cs))

abbrev blkio_in_range : Signed → Result FlagError ℕ
blkio_in_range (signed negative n) =
    if n == 0
    then ok 0
    else if negative || ltb n 10 || ltb 1000 n
    then err (blkio_out_of_range (signed negative n))
    else ok n

unfoldable pub parse_blkio_weight_value : Text → Result FlagError ℕ
parse_blkio_weight_value value = elim (signed_match value) [
  | none ↦ err (blkio_invalid value)
  | some s ↦ blkio_in_range s
]
