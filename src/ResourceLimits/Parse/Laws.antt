-- ===== src/ResourceLimits/Parse/Laws.antt =====
-- What the parsers of src/resource_limits.ts accept and return.
use patchlab.Common.{
  ℕ, ◌*◌, ◌/◌, ◌<◌, ◌≡◌, ◌≢◌, refl, ap, sym, ◌∙◌, inl, inr, ◌↔◌, Text, codes, text_eq_iff, true, [],
  ◌∷◌, ◌++◌, map, none, some, ok, err, lower, lower_idem, All, arith, Option-cases,
}
use mathlib.Core.Path.{subst}
use patchlab.Common.Decimal.{
  to_decimal, decimal_value, span_digits, decimal_value-to_decimal, to_decimal-IsDigit,
  to_decimal-ne-nil, IsDigit, NoDigitHead, span_digits-append, span_digits_split,
  span_digits-IsDigit,
}
use patchlab.ResourceLimits.Parse.{
  limited, memory_invalid, suffix_matches, memory_groups, memory_match, parse_memory_value, scale,
  memory_string_to_bytes, format_memory_for_podman, one_gibibyte,
}

-- Digits and a suffix are matched as written.
suffix-NoDigitHead : (s : Text) → suffix_matches s ≡ true → NoDigitHead s
suffix-NoDigitHead [] h = tt
suffix-NoDigitHead (c ∷ []) h = ground arith
suffix-NoDigitHead (c ∷ d ∷ s) h = cc

memory_match_complete :
    (digits suffix : Text)
    → digits ≢ []
    → All IsDigit digits
    → suffix_matches suffix ≡ true
    → memory_match (digits ++ suffix) ≡ some (digits, suffix)
unfolding memory_match
memory_match_complete [] suffix n h k = absurd (n refl)
memory_match_complete (d ∷ ds) suffix n h k =
    rw (span_digits-append (d ∷ ds) suffix h (suffix-NoDigitHead suffix k)) (rw k)

-- A memory value as the grammar describes it: digits, then a suffix or none.
pub record IsMemoryText (value digits suffix : Text) : Type 0 where
  pub spelled : value ≡ digits ++ suffix
  pub some_digit : digits ≢ []
  pub digits_only : All IsDigit digits
  pub one_suffix : suffix_matches suffix ≡ true

memory_groups_sound :
    (p : Text × Text) {digits suffix : Text}
    → memory_groups p ≡ some (digits, suffix)
    → (p ≡ (digits, suffix)) × (digits ≢ []) × (suffix_matches suffix ≡ true)
memory_groups_sound ([], rest) h = cc
memory_groups_sound (d ∷ ds, rest) h = ground arith

memory_match_sound :
    (value : Text) {digits suffix : Text}
    → memory_match value ≡ some (digits, suffix)
    → IsMemoryText value digits suffix
unfolding memory_match
memory_match_sound value h =
    let (spans, nonempty, suffix) = memory_groups_sound (span_digits value) h in
    record {
      spelled = subst_split spans (span_digits_split value);
      some_digit = nonempty;
      digits_only = rw (ap (λ (p : Text × Text). p.0) spans) at (span_digits-IsDigit value);
      one_suffix = suffix;
    }
  where
    subst_split : {v : Text} {p q : Text × Text} → p ≡ q → v ≡ p.0 ++ p.1 → v ≡ q.0 ++ q.1
    subst_split e s = rw e at s

suffix_matches-map-lower :
    (s : Text) → suffix_matches s ≡ true → suffix_matches (map lower s) ≡ true
suffix_matches-map-lower [] h = refl
suffix_matches-map-lower (c ∷ []) h = rw lower_idem h
suffix_matches-map-lower (c ∷ d ∷ s) h = cc

map-lower_idem : (s : Text) → map lower (map lower s) ≡ map lower s
map-lower_idem [] = refl
map-lower_idem (c ∷ s) = cc (lower_idem c, map-lower_idem s)

pub scale-pos : (s : Text) (n : ℕ) → 0 < n → 0 < scale s n
scale-pos [] n h = h
scale-pos (c ∷ s) n h = ground arith

zero_text : memory_match (codes "0") ≡ some (codes "0", [])
zero_text = memory_match_complete (codes "0") [] (cc) (omega arith) refl

-- Where the parser is past the special case "0".
parse_groups :
    (value : Text) {t : Text}
    → parse_memory_value value ≡ ok (limited t)
    → (digits : Text) × (suffix : Text) × (memory_match value ≡ some (digits, suffix))
      × (t ≡ digits ++ map lower suffix)
      × (decimal_value digits ≢ 0)
unfolding parse_memory_value
parse_groups value h = elim (Option-cases (memory_match value)) [
  | inl e ↦ absurd (ground (arith, e))
  | inr ((digits, suffix), e) ↦ (digits, suffix, e, ground (arith, e), ground (arith, e))
]

parse_of_match :
    (value digits suffix : Text)
    → memory_match value ≡ some (digits, suffix)
    → decimal_value digits ≢ 0
    → parse_memory_value value ≡ ok (limited (digits ++ map lower suffix))
unfolding parse_memory_value
parse_of_match value digits suffix h k =
    ground (arith, text_eq_iff value (codes "0"), zero_text, λ (e : value ≡ codes "0"). clash e)
  where
    clash : value ≡ codes "0" → ⊥
    clash e = let m = h in ground (arith, zero_text, ap memory_match e, k)

bytes_of_match :
    (value digits suffix : Text)
    → memory_match value ≡ some (digits, suffix)
    → memory_string_to_bytes value ≡ ok (scale (map lower suffix) (decimal_value digits))
unfolding memory_string_to_bytes
bytes_of_match value digits suffix h = rw (h, memory_string_to_bytes)

lowered_match :
    (value digits suffix : Text)
    → memory_match value ≡ some (digits, suffix)
    → memory_match (digits ++ map lower suffix) ≡ some (digits, map lower suffix)
lowered_match value digits suffix h =
    let g = memory_match_sound value h in
    memory_match_complete digits (map lower suffix) g.some_digit g.digits_only
      (suffix_matches-map-lower suffix g.one_suffix)

parse_lowered :
    (value digits suffix : Text)
    → memory_match value ≡ some (digits, suffix)
    → decimal_value digits ≢ 0
    → parse_memory_value (digits ++ map lower suffix) ≡ ok (limited (digits ++ map lower suffix))
parse_lowered value digits suffix h k =
    parse_of_match (digits ++ map lower suffix) digits (map lower suffix)
      (lowered_match value digits suffix h) k
    ∙ rw (map-lower_idem suffix)

pub bytes_lowered :
    (value digits suffix : Text)
    → memory_match value ≡ some (digits, suffix)
    → memory_string_to_bytes (digits ++ map lower suffix)
      ≡ ok (scale (map lower suffix) (decimal_value digits))
bytes_lowered value digits suffix h =
    bytes_of_match (digits ++ map lower suffix) digits (map lower suffix)
      (lowered_match value digits suffix h)
    ∙ rw (map-lower_idem suffix)

-- A value that the parser keeps is one that the comparator reads: it stands for the same positive
-- number of bytes as the text that the user wrote, and parsing it once more gives it back.
pub parse_memory_value_sound :
    (value t : Text)
    → parse_memory_value value ≡ ok (limited t)
    → (bytes : ℕ) × (0 < bytes)
      × (memory_string_to_bytes value ≡ ok bytes)
      × (memory_string_to_bytes t ≡ ok bytes)
      × (parse_memory_value t ≡ ok (limited t))
parse_memory_value_sound value t h =
    let (digits, suffix, matched, same, nonzero) = parse_groups value h in
    (
      scale (map lower suffix) (decimal_value digits),
      scale-pos (map lower suffix) (decimal_value digits) (omega arith),
      bytes_of_match value digits suffix matched,
      subst (λ u. memory_string_to_bytes u ≡ ok (scale (map lower suffix) (decimal_value digits)))
          (sym same) (bytes_lowered value digits suffix matched),
      subst (λ u. parse_memory_value u ≡ ok (limited u)) (sym same)
          (parse_lowered value digits suffix matched nonzero),
    )

parse_ne_invalid :
    (value digits suffix : Text)
    → memory_match value ≡ some (digits, suffix)
    → parse_memory_value value ≢ err (memory_invalid value)
unfolding parse_memory_value
parse_ne_invalid value digits suffix h = ground (arith, h)

-- The parser throws exactly on the texts that are not digits followed by one optional suffix.
pub parse_memory_value-eq-err_iff :
    (value : Text)
    → (parse_memory_value value ≡ err (memory_invalid value))
      ↔ ((digits suffix : Text) → ¬ IsMemoryText value digits suffix)
unfolding parse_memory_value
parse_memory_value-eq-err_iff value = (
  (λ h digits suffix g.
      parse_ne_invalid value digits suffix
        (rw g.spelled (memory_match_complete digits suffix g.some_digit g.digits_only g.one_suffix))
        h),
  λ none_fits. elim (Option-cases (memory_match value)) [
    | inl e ↦
        ground (arith, e, text_eq_iff value (codes "0"), λ (q : value ≡ codes "0"). clash value e q)
    | inr ((digits, suffix), e) ↦ absurd (none_fits digits suffix (memory_match_sound value e))
  ],
)
  where
    clash : (v : Text) → memory_match v ≡ none → v ≡ codes "0" → ⊥
    clash v e q = ground (arith, zero_text, ap memory_match q)

pub format_bytes :
    (n : ℕ) (suffix : Text)
    → suffix_matches suffix ≡ true
    → memory_string_to_bytes (to_decimal n ++ suffix) ≡ ok (scale (map lower suffix) n)
format_bytes n suffix h =
    bytes_of_match (to_decimal n ++ suffix) (to_decimal n) suffix
      (memory_match_complete (to_decimal n) suffix (to_decimal-ne-nil n) (to_decimal-IsDigit n) h)
    ∙ rw decimal_value-to_decimal

-- The text that is made for podman from a number of bytes is read back as that number.
pub memory_string_to_bytes-format_memory_for_podman :
    (bytes : ℕ) → memory_string_to_bytes (format_memory_for_podman bytes) ≡ ok bytes
unfolding format_memory_for_podman
memory_string_to_bytes-format_memory_for_podman bytes = ground (
  arith,
  format_bytes (bytes / one_gibibyte) (codes "g") refl,
  format_bytes (bytes / (1024 * 1024)) (codes "m") refl,
  format_bytes (bytes / 1024) (codes "k") refl,
  format_bytes bytes (codes "b") refl,
)
