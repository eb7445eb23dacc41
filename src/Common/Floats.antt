-- ===== src/Common/Floats.antt =====
-- `Number` and `Number.parseFloat` on the texts that src/resource_limits.ts and src/configuration.ts
-- compare: they begin with a digit, if with a numeral at all, and may have a fraction and an exponent.
use mathlib.Core.Bool.{Bool, true, false, ◌||◌}
use mathlib.Core.Option.{Option, none, some}
use mathlib.Core.List.{[], ◌∷◌, ◌++◌}
use Prim.Native.Nat.{ℕ, ◌+◌, ◌*◌, ◌^◌}
use patchlab.Common.Tests.{if◌then◌else◌, ◌==◌}
use patchlab.Common.Lists.{length}
use patchlab.Common.Strings.{Text}
use patchlab.Common.Decimal.{decimal_value, span_digits}

-- A number that is not negative: `numerator` over 10 ^ `places`.
pub record Magnitude : Type 0 where
  pub numerator : ℕ
  pub places : ℕ

-- The number, and the text behind its numeral
abbrev pub Numeral : Type 0
Numeral = Magnitude × Text

-- What an exponent makes of a number, where it has digits: else it is no part of the numeral
abbrev with_exponent : (negative : Bool) → Magnitude → Text → Text × Text → Numeral
with_exponent negative m behind ([], rest) = (m, behind)
with_exponent true m behind (d ∷ ds, rest) =
    (record { numerator = m.numerator; places = m.places + decimal_value (d ∷ ds) }, rest)
with_exponent false m behind (d ∷ ds, rest) =
    (record { numerator = m.numerator * 10 ^ decimal_value (d ∷ ds); places = m.places }, rest)

-- Behind the letter e
abbrev signed_exponent : Magnitude → (behind : Text) → Text → Numeral
signed_exponent m behind [] = (m, behind)
signed_exponent m behind (c ∷ cs) =
    if c == b'-'
    then with_exponent true m behind (span_digits cs)
    else if c == b'+'
    then with_exponent false m behind (span_digits cs)
    else with_exponent false m behind (span_digits (c ∷ cs))

abbrev read_exponent : Magnitude → Text → Numeral
read_exponent m [] = (m, [])
read_exponent m (c ∷ cs) =
    if c == b'e' || c == b'E' then signed_exponent m (c ∷ cs) cs else (m, c ∷ cs)

abbrev digits_over : Text → Text → Magnitude
digits_over digits fraction = record {
  numerator = decimal_value (digits ++ fraction);
  places = length fraction;
}

abbrev with_fraction : Text → Text × Text → Numeral
with_fraction digits (fraction, rest) = read_exponent (digits_over digits fraction) rest

abbrev read_fraction : Text → Text → Numeral
read_fraction digits [] = (digits_over digits [], [])
read_fraction digits (c ∷ cs) =
    if c == b'.'
    then with_fraction digits (span_digits cs)
    else read_exponent (digits_over digits []) (c ∷ cs)

abbrev behind_digits : Text × Text → Option Numeral
behind_digits ([], rest) = none
behind_digits (d ∷ ds, rest) = some (read_fraction (d ∷ ds) rest)

unfoldable pub read_numeral : Text → Option Numeral
read_numeral text = behind_digits (span_digits text)

abbrev prefix_of : Option Numeral → Option Magnitude
prefix_of none = none
prefix_of (some (m, rest)) = some m

abbrev whole_of : Option Numeral → Option Magnitude
whole_of (some (m, [])) = some m
whole_of _ = none

-- `Number.parseFloat(text)`, none being NaN
unfoldable pub parse_float : Text → Option Magnitude
unfolding read_numeral
parse_float text = prefix_of (read_numeral text)

-- `Number(text)`, which reads the whole text, none being NaN
unfoldable pub number_of : Text → Option Magnitude
unfolding read_numeral
number_of text = whole_of (read_numeral text)
