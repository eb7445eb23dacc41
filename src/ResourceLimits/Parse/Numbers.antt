-- ===== src/ResourceLimits/Parse/Numbers.antt =====
-- What the parsers of `--pids-limit`, `--blkio-weight` and `--cpus` accept and return.
use patchlab.Common.{
  ℕ, ◌≤◌, ◌<◌, ◌≡◌, ◌≢◌, refl, ap, sym, ◌⊎◌, ◌↔◌, Text, codes, text_eq_iff, true, false, [], ◌∷◌,
  ◌++◌, append-nil, some, ok, All, arith,
}
use mathlib.Core.Path.{subst}
use patchlab.Common.Decimal.{
  to_decimal, decimal_value, span_digits, decimal_value-to_decimal, to_decimal-IsDigit,
  to_decimal-ne-nil, IsDigit, span_digits-append, span_digits_split, span_digits-IsDigit,
}
use patchlab.ResourceLimits.Parse.{
  limited, signed, max_pids, parse_pids_value, all_digits, parse_blkio_weight_value, signed_match,
}

abbrev pub IsNumeral : Text → Type 0
IsNumeral s = (s ≢ []) × All IsDigit s

span_of_IsNumeral : (s : Text) → IsNumeral s → span_digits s ≡ (s, [])
span_of_IsNumeral s (_, d) = rw append-nil at (span_digits-append s [] d tt)

all_digits_of_IsNumeral : (s : Text) → IsNumeral s → all_digits (span_digits s) ≡ true
all_digits_of_IsNumeral [] (n, d) = absurd (n refl)
all_digits_of_IsNumeral (c ∷ cs) h = rw (span_of_IsNumeral (c ∷ cs) h) refl

spans-IsNumeral : (p : Text × Text) → all_digits p ≡ true → All IsDigit p.0 → IsNumeral (p.0 ++ p.1)
spans-IsNumeral (d ∷ ds, []) h k = subst IsNumeral (sym (append-nil (d ∷ ds))) ((cc), k)
spans-IsNumeral (d ∷ ds, c ∷ cs) h k = cc
spans-IsNumeral ([], s) h k = cc

IsNumeral-of_all_digits : (s : Text) → all_digits (span_digits s) ≡ true → IsNumeral s
IsNumeral-of_all_digits s h =
    rw (← span_digits_split s) at (spans-IsNumeral (span_digits s) h (span_digits-IsDigit s))

-- `--pids-limit` yields the number n exactly for the numerals that spell n, and only within the
-- bounds 1 and 2^31 - 1.
pub parse_pids_value-eq-limited_iff :
    (value : Text) (n : ℕ)
    → (parse_pids_value value ≡ ok (limited n))
      ↔ (IsNumeral value × (decimal_value value ≡ n) × (0 < n) × (n ≤ max_pids))
unfolding parse_pids_value
parse_pids_value-eq-limited_iff value n = (
  (λ h. (IsNumeral-of_all_digits value (ground arith), ground arith, ground arith, ground arith)),
  λ (numeral, spells, pos, fits). ground (
    arith,
    all_digits_of_IsNumeral value numeral,
    text_eq_iff value (codes "0"),
    λ (q : value ≡ codes "0"). ap decimal_value q,
  ),
)

-- A value of `--blkio-weight` that is accepted is 0, which clears the weight, or lies in [10, 1000].
parse_blkio_weight_value_range :
    (value : Text) (n : ℕ)
    → parse_blkio_weight_value value ≡ ok n
    → (n ≡ 0) ⊎ ((10 ≤ n) × (n ≤ 1000))
unfolding parse_blkio_weight_value
parse_blkio_weight_value_range value n h = ground arith

signed_match_of_IsNumeral :
    (s : Text) → IsNumeral s → signed_match s ≡ some (signed false (decimal_value s))
unfolding signed_match
signed_match_of_IsNumeral [] (n, d) = absurd (n refl)
signed_match_of_IsNumeral (c ∷ cs) (n, d) = ground (arith, span_of_IsNumeral (c ∷ cs) (n, d))

-- Every weight in the range is accepted, and yields its number.
parse_blkio_weight_value-to_decimal :
    (n : ℕ) → (n ≡ 0) ⊎ ((10 ≤ n) × (n ≤ 1000)) → parse_blkio_weight_value (to_decimal n) ≡ ok n
unfolding parse_blkio_weight_value
parse_blkio_weight_value-to_decimal n h = ground (
  arith,
  signed_match_of_IsNumeral (to_decimal n) (to_decimal-ne-nil n, to_decimal-IsDigit n),
  decimal_value-to_decimal n,
)

-- The numbers that `--blkio-weight` can yield are exactly 0, which clears the weight, and those in
-- [10, 1000].
pub parse_blkio_weight_value_yields :
    (n : ℕ)
    → ((value : Text) × (parse_blkio_weight_value value ≡ ok n))
      ↔ ((n ≡ 0) ⊎ ((10 ≤ n) × (n ≤ 1000)))
parse_blkio_weight_value_yields n = (
  λ given. parse_blkio_weight_value_range given.0 n given.1,
  λ range. (to_decimal n, parse_blkio_weight_value-to_decimal n range),
)
