-- ===== src/Configuration/Compose.antt =====
-- src/configuration.ts: one per-source layer out of those of all repositories.
-- A contributor is its value; nothing reads the repository's root that the source keeps beside it.
pub mod Clamped
pub mod Composed
pub mod Lattice
pub mod Magnitudes
use patchlab.Common.{
  ℕ, ◌*◌, ◌^◌, Text, trim, Bool, true, false, ◌||◌, List, [], ◌∷◌, ◌++◌, map, Option, none, some,
  ltb, ◌==◌, if◌then◌else◌, lower, length,
}
use patchlab.Common.Floats.{Magnitude, parse_float}
use patchlab.ResourceLimits.Parse.{Limit, unlimited, limited}
use patchlab.ResourceLimits.Resolve.{LoadedResourceLimits, concrete, field_of}

abbrev times : ℕ → Option Magnitude → Option Magnitude
times multiplier none = none
times multiplier (some m) =
    some (record { numerator = m.numerator * multiplier; places = m.places })

-- `trimmed.slice(-1)`, none for the empty text
abbrev last_unit : Text → Option ℕ
last_unit [] = none
last_unit (c ∷ []) = some c
last_unit (c ∷ d ∷ cs) = last_unit (d ∷ cs)

-- `trimmed.slice(0, -1)`
abbrev without_last : Text → Text
without_last [] = []
without_last (c ∷ []) = []
without_last (c ∷ d ∷ cs) = c ∷ without_last (d ∷ cs)

abbrev multiplier_of : Option ℕ → Option ℕ
multiplier_of none = none
multiplier_of (some c) =
    if c == b'g'
    then some (1024 * 1024 * 1024)
    else if c == b'm'
    then some (1024 * 1024)
    else if c == b'k'
    then some 1024
    else none

abbrev scaled_value : Text → Option ℕ → Option Magnitude
scaled_value trimmed none = parse_float trimmed
scaled_value trimmed (some multiplier) = times multiplier (parse_float (without_last trimmed))

-- This file's own `memory_string_to_bytes`
unfoldable pub memory_magnitude : Text → Option Magnitude
unfolding parse_float
memory_magnitude value =
    let trimmed = map lower (trim value) in scaled_value trimmed (multiplier_of (last_unit trimmed))

-- `a - b < 0`, which is false where either is NaN
unfoldable pub less : Option Magnitude → Option Magnitude → Bool
less (some a) (some b) = ltb (a.numerator * 10 ^ b.places) (b.numerator * 10 ^ a.places)
less _ none = false
less none _ = false

-- `compare_memory_strings(a, b) < 0`
unfoldable pub memory_less : Text → Text → Bool
unfolding memory_magnitude less
memory_less a b = less (memory_magnitude a) (memory_magnitude b)

-- `compare_decimal_strings(a, b) < 0`
unfoldable pub decimal_less : Text → Text → Bool
unfolding parse_float less
decimal_less a b = less (parse_float a) (parse_float b)

module _ {A : Type 0} (compare_less : A → A → Bool) where
  abbrev pub lesser : A → A → A
  lesser candidate smallest = if compare_less candidate smallest then candidate else smallest

  -- The loop that keeps the smallest value so far
  unfoldable pub smallest_of : A → List A → A
  smallest_of smallest [] = smallest
  smallest_of smallest (candidate ∷ rest) = smallest_of (lesser candidate smallest) rest

  abbrev pub smallest_concrete : List A → Limit A
  smallest_concrete [] = unlimited
  smallest_concrete (first ∷ rest) = limited (smallest_of first rest)

  -- `filter((entry) => entry.value !== UNLIMITED)`
  abbrev pub concrete_values : List (Limit A) → List A
  concrete_values [] = []
  concrete_values (unlimited ∷ contributors) = concrete_values contributors
  concrete_values (limited value ∷ contributors) = value ∷ concrete_values contributors

  -- The fold of a field with the sentinel: `fold_memory_or_cpu_limit_field`, `fold_pids_limit_field`
  unfoldable pub fold_limit_field : List (Limit A) → Option (Limit A)
  unfolding smallest_of
  fold_limit_field [] = none
  fold_limit_field (contributor ∷ contributors) =
      some (smallest_concrete (concrete_values (contributor ∷ contributors)))

  -- `fold_blkio_weight_field`
  unfoldable pub fold_number_field : List A → Option A
  unfolding smallest_of
  fold_number_field [] = none
  fold_number_field (first ∷ rest) = some (smallest_of first rest)

abbrev pub cons_some : {A : Type 0} → Option A → List A → List A
cons_some none values = values
cons_some (some value) values = value ∷ values

-- A repository without a file, or whose file does not set the field, contributes nothing.
unfoldable pub collect_field_contributors :
    {A : Type 0} → List (Option LoadedResourceLimits) → (LoadedResourceLimits → Option A) → List A
collect_field_contributors [] field = []
collect_field_contributors (loaded ∷ per_repository) field =
    cons_some (field_of loaded field) (collect_field_contributors per_repository field)

abbrev pub has_any : List (Option LoadedResourceLimits) → Bool
has_any [] = false
has_any (none ∷ per_repository) = has_any per_repository
has_any (some _ ∷ per_repository) = true

unfoldable pub compose_per_source_loaded_resource_limits :
    List (Option LoadedResourceLimits) → Option LoadedResourceLimits
compose_per_source_loaded_resource_limits per_repository =
    if has_any per_repository
    then some (record {
      memory_limit =
          fold_limit_field memory_less
            (collect_field_contributors per_repository (λ l. l.memory_limit));
      cpu_limit =
          fold_limit_field decimal_less
            (collect_field_contributors per_repository (λ l. l.cpu_limit));
      pids_limit =
          fold_limit_field ltb (collect_field_contributors per_repository (λ l. l.pids_limit));
      blkio_weight =
          fold_number_field ltb (collect_field_contributors per_repository (λ l. l.blkio_weight));
    })
    else none
