-- ===== src/Configuration/Compose/Magnitudes.antt =====
-- The comparisons of src/configuration.ts are strict orders, NaN included.
use Prim.Native.Nat.{zero, suc}
use native.Mathlib.Nat.{
  mul-le-mul_right, le_of_lt, zero-lt-suc, mul-lt-mul_of_pos_right, lt_of_mul-lt-mul_right,
}
use patchlab.Common.{◌≡◌, refl, ℕ, ◌*◌, ◌^◌, ◌<◌, true, false, Option, none, some, arith}
use patchlab.Common.Floats.{Magnitude, parse_float}
use patchlab.Configuration.Compose.{less, memory_magnitude, memory_less, decimal_less}
use patchlab.Configuration.Compose.Lattice.{IsStrictOrder}

-- Fractions a/p, b/q and c/r, each compared with the next crosswise
cross_trans : (a b c p q r : ℕ) → a * q < b * p → b * r < c * q → a * r < c * p
cross_trans a b c zero q r h k = absurd (ne h)
  where
    ne : a * q < b * 0 → ⊥
    ne h = omega arith
cross_trans a b c (suc p) q r h k =
    lt_of_mul-lt-mul_right q
      (omega (arith, mul-le-mul_right r (le_of_lt h), mul-lt-mul_of_pos_right k (zero-lt-suc p)))

less_irreflexive : (m : Option Magnitude) → less m m ≡ false
unfolding less
less_irreflexive none = refl
less_irreflexive (some m) = ground arith

less_transitive : (a b c : Option Magnitude) → less a b ≡ true → less b c ≡ true → less a c ≡ true
unfolding less
less_transitive none none c h k = cc
less_transitive none (some b) c h k = cc
less_transitive (some a) none c h k = cc
less_transitive (some a) (some b) none h k = cc
less_transitive (some a) (some b) (some c) h k = ground (
  arith,
  h,
  k,
  cross_trans a.numerator b.numerator c.numerator (10 ^ a.places) (10 ^ b.places) (10 ^ c.places),
)

pub memory_less-IsStrictOrder : IsStrictOrder memory_less
unfolding memory_less
memory_less-IsStrictOrder = record {
  irreflexive = λ a. less_irreflexive (memory_magnitude a);
  transitive =
      λ a b c. less_transitive (memory_magnitude a) (memory_magnitude b) (memory_magnitude c);
}

pub decimal_less-IsStrictOrder : IsStrictOrder decimal_less
unfolding decimal_less
decimal_less-IsStrictOrder = record {
  irreflexive = λ a. less_irreflexive (parse_float a);
  transitive = λ a b c. less_transitive (parse_float a) (parse_float b) (parse_float c);
}
