-- ===== src/Common/Decimal.antt =====
-- Numbers in decimal: how a template literal prints them, and what `Number` reads from digits.
-- The digits of a number are produced from the last; `suc n` rounds are enough for `n`.
use Prim.Native.Nat.{ℕ, zero, suc, ◌+◌, ◌-◌, ◌*◌, ◌/◌, ◌%◌, ◌≤◌, ◌<◌}
use mathlib.Core.Path.{◌≡◌, refl, ap}
use mathlib.Core.Logic.{◌≢◌}
use mathlib.Core.List.{[], ◌∷◌, ◌++◌}
use mathlib.Core.Bool.{Bool, true, false}
use native.Mathlib.Omega.{arith}
use patchlab.Common.Tests.{◌==◌, if◌then◌else◌}
use patchlab.Common.Lists.{All}
use patchlab.Common.Strings.{Text, is_digit}

digits_from : ℕ → ℕ → Text → Text
digits_from zero n out = out
digits_from (suc f) n out =
    let rest = digits_from f (n / 10) ((b'0' + n % 10) ∷ out) in
    if n / 10 == 0 then (b'0' + n % 10) ∷ out else rest

-- `${n}`
unfoldable pub to_decimal : ℕ → Text
unfolding digits_from
to_decimal n = digits_from (suc n) n []

-- The number that the digits spell behind `acc`.
abbrev value_from : ℕ → Text → ℕ
value_from acc [] = acc
value_from acc (c ∷ s) = value_from (acc * 10 + (c - b'0')) s

-- `Number(digits)`, exact as long as the value is below 2^53
abbrev pub decimal_value : Text → ℕ
decimal_value s = value_from 0 s

value_from-digits_from :
    (f n : ℕ) (out : Text) → n < f → value_from 0 (digits_from f n out) ≡ value_from n out
unfolding digits_from
value_from-digits_from zero n out h = elim h [ ]
value_from-digits_from (suc f) n out h = ground (
  arith,
  value_from-digits_from f (n / 10) ((b'0' + n % 10) ∷ out),
  ap (λ (m : ℕ). value_from m out) (last_digit n),
  λ (z : n / 10 ≡ 0). ap (λ (m : ℕ). value_from m out) (only_digit n z),
)
  where
    last_digit : (n : ℕ) → n / 10 * 10 + (b'0' + n % 10 - b'0') ≡ n
    last_digit n = omega arith

    only_digit : (n : ℕ) → n / 10 ≡ 0 → 0 * 10 + (b'0' + n % 10 - b'0') ≡ n
    only_digit n z = omega arith

pub decimal_value-to_decimal : (n : ℕ) → decimal_value (to_decimal n) ≡ n
unfolding to_decimal
decimal_value-to_decimal n = value_from-digits_from (suc n) n [] (omega arith)

abbrev pub IsDigit : ℕ → Type 0
IsDigit c = (b'0' ≤ c) × (c ≤ b'9')

digits_from-IsDigit : (f n : ℕ) (out : Text) → All IsDigit out → All IsDigit (digits_from f n out)
unfolding digits_from
digits_from-IsDigit zero n out h = h
digits_from-IsDigit (suc f) n out h =
    ground (arith, digits_from-IsDigit f (n / 10) ((b'0' + n % 10) ∷ out))

pub to_decimal-IsDigit : (n : ℕ) → All IsDigit (to_decimal n)
unfolding to_decimal
to_decimal-IsDigit n = digits_from-IsDigit (suc n) n [] tt

digits_from-ne-nil : (f n : ℕ) (c : ℕ) (out : Text) → digits_from f n (c ∷ out) ≢ []
unfolding digits_from
digits_from-ne-nil zero n c out = cc
digits_from-ne-nil (suc f) n c out =
    ground (arith, digits_from-ne-nil f (n / 10) (b'0' + n % 10) (c ∷ out))

pub to_decimal-ne-nil : (n : ℕ) → to_decimal n ≢ []
unfolding to_decimal digits_from
to_decimal-ne-nil n = ground (arith, digits_from-ne-nil n (n / 10) (b'0' + n % 10) [])

-- What `\d+` takes at the head of a text, and the rest.
abbrev span_cons : Bool → ℕ → Text → Text × Text → Text × Text
span_cons true c cs (digits, rest) = (c ∷ digits, rest)
span_cons false c cs _ = ([], c ∷ cs)

unfoldable pub span_digits : Text → Text × Text
span_digits [] = ([], [])
span_digits (c ∷ cs) = span_cons (is_digit c) c cs (span_digits cs)

pub span_digits_split : (s : Text) → s ≡ (span_digits s).0 ++ (span_digits s).1
unfolding span_digits
span_digits_split [] = refl
span_digits_split (c ∷ cs) = ground (arith, span_digits_split cs)

pub span_digits-IsDigit : (s : Text) → All IsDigit (span_digits s).0
unfolding span_digits
span_digits-IsDigit [] = tt
span_digits-IsDigit (c ∷ cs) = ground (arith, span_digits-IsDigit cs)

-- `rest` does not begin with a digit.
abbrev pub NoDigitHead : Text → Type 0
NoDigitHead [] = Unit
NoDigitHead (c ∷ _) = is_digit c ≡ false

span_digits-NoDigitHead : (s : Text) → NoDigitHead (span_digits s).1
unfolding span_digits
span_digits-NoDigitHead [] = tt
span_digits-NoDigitHead (c ∷ cs) = ground (arith, span_digits-NoDigitHead cs)

pub span_digits-append :
    (digits rest : Text)
    → All IsDigit digits
    → NoDigitHead rest
    → span_digits (digits ++ rest) ≡ (digits, rest)
unfolding span_digits
span_digits-append [] [] h k = refl
span_digits-append [] (c ∷ cs) h k = rw k
span_digits-append (d ∷ ds) rest h k = ground (arith, span_digits-append ds rest)
