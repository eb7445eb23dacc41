-- ===== src/Configuration/Fields/Ranges.antt =====
-- The fields under `resource_limits` of src/configuration.ts: what a file that loads can hold.
use patchlab.Common.{
  ◌≡◌, ◌≢◌, refl, ℕ, ◌<◌, ◌≤◌, Text, text_eq, codes, Bool, true, false, not, ◌&&◌, ◌||◌, [], ◌++◌,
  map, lower, append-nil, Option, none, some, Result, ok, err, ◌>>=◌, Ensured, Ensured->>=,
  Ensured-ok, arith, ltb, ◌==◌, if◌then◌else◌,
}
use mathlib.Core.Path.{subst}
use patchlab.Common.Decimal.{to_decimal, decimal_value}
use patchlab.Json.{
  whole, huge, below_zero, fractional, not_finite, Json, null, boolean, number, string, array,
  object, Members, get_member,
}
use patchlab.ResourceLimits.Parse.{
  Limit, unlimited, limited, Signed, signed, max_pids, memory_match, signed_match,
  memory_string_to_bytes, scale,
}
use patchlab.ResourceLimits.Parse.Laws.{bytes_lowered, scale-pos, format_bytes}
use patchlab.ResourceLimits.Resolve.{LoadedResourceLimits}
use patchlab.Configuration.{
  ConfigurationError, pids_below_zero, pids_over_maximum, memory_ambiguous, blkio_outside_range,
  unknown_limit_key,
}
use patchlab.Configuration.Fields.{
  memory_number, memory_matched, parse_memory_field, parse_cpus_field, pids_in_range, pids_matched,
  parse_pids_field, parse_blkio_weight_field, accept_keys, field_unless_null, accepted_yaml_keys,
  yaml_resource_limits_to_loaded,
}

-- The resolver's comparator reads it, as a positive number of bytes.
abbrev pub IsMemory : Limit Text → Type 0
IsMemory unlimited = Unit
IsMemory (limited t) = (bytes : ℕ) × ((0 < bytes) × (memory_string_to_bytes t ≡ ok bytes))

abbrev pub IsPids : Limit ℕ → Type 0
IsPids unlimited = Unit
IsPids (limited n) = (0 < n) × (n ≤ max_pids)

abbrev pub IsWeight : ℕ → Type 0
IsWeight n = (10 ≤ n) × (n ≤ 1000)

-- The field is absent, or satisfies `P`.
abbrev pub IfSet : {A : Type 0} → (A → Type 0) → Option A → Type 0
IfSet P none = Unit
IfSet P (some a) = P a

-- A number that is written without quotes lies below 2^53.
abbrev pub IsExact : Option Json → Type 0
IsExact o = (t : Text) → o ≢ some (number (huge t))

memory_number-IsMemory : (n : ℕ) → Ensured IsMemory (memory_number (whole n))
memory_number-IsMemory n = decide (n == 0) refl
  where
    decide :
        (t : Bool)
        → (n == 0) ≡ t
        → Ensured {E = ConfigurationError} IsMemory
            (if t then ok unlimited else ok (limited (to_decimal n)))
    decide true e = tt
    decide false e = (
      n,
      (
        ground (arith, e),
        subst (λ t. memory_string_to_bytes t ≡ ok n) (append-nil (to_decimal n))
            (format_bytes n [] refl),
      ),
    )

memory_matched-IsMemory :
    (raw : Text) (m : Option (Text × Text))
    → memory_match raw ≡ m
    → Ensured IsMemory (memory_matched raw m)
memory_matched-IsMemory raw none e = tt
memory_matched-IsMemory raw (some (digits, suffix)) e = decide (decimal_value digits == 0) refl
  where
    decide :
        (t : Bool)
        → (decimal_value digits == 0) ≡ t
        → Ensured IsMemory
            (if t then err (memory_ambiguous raw) else ok (limited (digits ++ map lower suffix)))
    decide true z = tt
    decide false z = (
      scale (map lower suffix) (decimal_value digits),
      (
        scale-pos (map lower suffix) (decimal_value digits) (ground (arith, z)),
        bytes_lowered raw digits suffix e,
      ),
    )

parse_memory_field-IsMemory :
    (value : Json) → IsExact (some value) → Ensured IsMemory (parse_memory_field value)
unfolding parse_memory_field
parse_memory_field-IsMemory null exact = tt
parse_memory_field-IsMemory (boolean _) exact = tt
parse_memory_field-IsMemory (array _) exact = tt
parse_memory_field-IsMemory (object _) exact = tt
parse_memory_field-IsMemory (number (whole n)) exact = memory_number-IsMemory n
parse_memory_field-IsMemory (number (huge t)) exact = absurd (exact t refl)
parse_memory_field-IsMemory (number (below_zero _)) exact = tt
parse_memory_field-IsMemory (number (fractional _ _)) exact = tt
parse_memory_field-IsMemory (number not_finite) exact = tt
parse_memory_field-IsMemory (string raw) exact = decide (text_eq raw (codes "0"))
  where
    decide :
        (t : Bool)
        → Ensured IsMemory (if t then ok unlimited else memory_matched raw (memory_match raw))
    decide true = tt
    decide false = memory_matched-IsMemory raw (memory_match raw) refl

pids_in_range-IsPids : (negative : Bool) (n : ℕ) → Ensured IsPids (pids_in_range negative n)
pids_in_range-IsPids negative n =
    decide (negative && not (n == 0)) (n == 0) refl (ltb max_pids n) refl
  where
    decide :
        (below zero_ : Bool)
        → (n == 0) ≡ zero_
        → (over : Bool) → ltb max_pids n ≡ over
        → Ensured IsPids (
            if below
            then err pids_below_zero
            else if zero_
            then ok unlimited
            else if over
            then err pids_over_maximum
            else ok (limited n))
    decide true z e over f = tt
    decide false true e over f = tt
    decide false false e true f = tt
    decide false false e false f = (ground (arith, e), ground (arith, f))

parse_pids_field-IsPids : (value : Json) → Ensured IsPids (parse_pids_field value)
unfolding parse_pids_field
parse_pids_field-IsPids null = tt
parse_pids_field-IsPids (boolean _) = tt
parse_pids_field-IsPids (array _) = tt
parse_pids_field-IsPids (object _) = tt
parse_pids_field-IsPids (number (whole n)) = pids_in_range-IsPids false n
parse_pids_field-IsPids (number (huge _)) = tt
parse_pids_field-IsPids (number (below_zero _)) = tt
parse_pids_field-IsPids (number (fractional _ _)) = tt
parse_pids_field-IsPids (number not_finite) = tt
parse_pids_field-IsPids (string raw) = matched (signed_match raw)
  where
    matched : (m : Option Signed) → Ensured IsPids (pids_matched raw m)
    matched none = tt
    matched (some (signed negative magnitude)) = pids_in_range-IsPids negative magnitude

parse_blkio_weight_field-IsWeight :
    (value : Json) → Ensured IsWeight (parse_blkio_weight_field value)
unfolding parse_blkio_weight_field
parse_blkio_weight_field-IsWeight null = tt
parse_blkio_weight_field-IsWeight (boolean _) = tt
parse_blkio_weight_field-IsWeight (array _) = tt
parse_blkio_weight_field-IsWeight (object _) = tt
parse_blkio_weight_field-IsWeight (string _) = tt
parse_blkio_weight_field-IsWeight (number (huge _)) = tt
parse_blkio_weight_field-IsWeight (number (below_zero _)) = tt
parse_blkio_weight_field-IsWeight (number (fractional _ _)) = tt
parse_blkio_weight_field-IsWeight (number not_finite) = tt
parse_blkio_weight_field-IsWeight (number (whole n)) = decide (ltb n 10 || ltb 1000 n) refl
  where
    decide :
        (t : Bool)
        → (ltb n 10 || ltb 1000 n) ≡ t
        → Ensured IsWeight (if t then err (blkio_outside_range (whole n)) else ok n)
    decide true e = tt
    decide false e = (ground (arith, e), ground (arith, e))

parsed-IfSet :
    {A : Type 0} (P : A → Type 0) (step : Result ConfigurationError A)
    → Ensured P step
    → Ensured (IfSet P) (do parsed ← step; ok (some parsed))
parsed-IfSet P (ok value) h = h
parsed-IfSet P (err thrown) h = tt

field_unless_null-IfSet :
    {A : Type 0} (P : A → Type 0) (parse : Json → Result ConfigurationError A) (o : Option Json)
    → ((value : Json) → o ≡ some value → Ensured P (parse value))
    → Ensured (IfSet P) (field_unless_null parse o)
field_unless_null-IfSet P parse none h = tt
field_unless_null-IfSet P parse (some null) h = tt
field_unless_null-IfSet P parse (some (boolean b)) h = parsed-IfSet P _ (h (boolean b) refl)
field_unless_null-IfSet P parse (some (number n)) h = parsed-IfSet P _ (h (number n) refl)
field_unless_null-IfSet P parse (some (string t)) h = parsed-IfSet P _ (h (string t) refl)
field_unless_null-IfSet P parse (some (array a)) h = parsed-IfSet P _ (h (array a) refl)
field_unless_null-IfSet P parse (some (object m)) h = parsed-IfSet P _ (h (object m) refl)

-- A layer that the resolver can take
pub record IsInRange (l : LoadedResourceLimits) : Type 0 where
  pub memory : IfSet IsMemory l.memory_limit
  pub pids : IfSet IsPids l.pids_limit
  pub weight : IfSet IsWeight l.blkio_weight

-- Every layer that is read from `resource_limits` is in range: a memory limit is "unlimited" or a text
-- that the resolver's comparator reads as a positive number of bytes, a pids limit is "unlimited" or
-- lies between 1 and the maximum, and the weight lies between 10 and 1000. The memory limit must not be
-- given as a bare number above 2^53.
pub yaml_resource_limits_to_loaded-IsInRange :
    (raw : Members) (l : LoadedResourceLimits)
    → IsExact (get_member raw (codes "memory"))
    → yaml_resource_limits_to_loaded raw ≡ ok l
    → IsInRange l
unfolding yaml_resource_limits_to_loaded
yaml_resource_limits_to_loaded-IsInRange raw l exact h =
    let memory_json = get_member raw (codes "memory") in
    let pids_json = get_member raw (codes "pids") in
    let weight_json = get_member raw (codes "blkio_weight") in
    Ensured-ok IsInRange _
      (Ensured->>= IsInRange (accept_keys accepted_yaml_keys unknown_limit_key raw) _ (λ _ _.
        Ensured->>= IsInRange (field_unless_null parse_memory_field memory_json) _ (λ m em.
          Ensured->>= IsInRange (field_unless_null parse_cpus_field (get_member raw (codes "cpus")))
            _
            (λ _ _. Ensured->>= IsInRange (field_unless_null parse_pids_field pids_json) _ (λ p ep.
              Ensured->>= IsInRange (field_unless_null parse_blkio_weight_field weight_json) _
                (λ w ew. record {
                  memory =
                      Ensured-ok (IfSet IsMemory) _
                        (field_unless_null-IfSet IsMemory parse_memory_field memory_json
                          (λ value e. parse_memory_field-IsMemory value (rw e at exact)))
                        em;
                  pids =
                      Ensured-ok (IfSet IsPids) _
                        (field_unless_null-IfSet IsPids parse_pids_field pids_json
                          (λ value _. parse_pids_field-IsPids value))
                        ep;
                  weight =
                      Ensured-ok (IfSet IsWeight) _
                        (field_unless_null-IfSet IsWeight parse_blkio_weight_field weight_json
                          (λ value _. parse_blkio_weight_field-IsWeight value))
                        ew;
                }))))))
      h
