-- ===== src/Common/Tests.antt =====
-- Boolean tests on the native numbers, the conditional, case lemmas, and the result of code that
-- may throw.
use Prim.Native.Nat.{ℕ, ◌≤◌, compare, Ordering}
use mathlib.Core.Path.{◌≡◌, refl, subst}
use mathlib.Core.Logic.{◌↔◌, ◌⊎◌, inl, inr}
use mathlib.Core.Bool.{Bool, true, false}
use mathlib.Core.Option.{Option, none, some}
use native.Mathlib.Omega.{arith}

abbrev pub ltb : ℕ → ℕ → Bool
ltb a b = elim (compare a b) [ Ordering.lt ↦ true | _ ↦ false ]

abbrev pub leb : ℕ → ℕ → Bool
leb a b = elim (compare a b) [ Ordering.gt ↦ false | _ ↦ true ]

infix 50 ◌==◌
abbrev pub ◌==◌ : ℕ → ℕ → Bool
a == b = elim (compare a b) [ Ordering.eq ↦ true | _ ↦ false ]

infix 1 if◌then◌else◌
abbrev pub if◌then◌else◌ {ℓ} : {A : Type ℓ} → Bool → A → A → A
if true then x else y = x
if false then x else y = y

leb→le : (a b : ℕ) → leb a b ≡ true → a ≤ b
leb→le a b h = ground arith

==_iff : (a b : ℕ) → ((a == b) ≡ true) ↔ (a ≡ b)
==_iff a b = ground arith

-- A split on a computed value that keeps the equation.
pub Bool-cases : (b : Bool) → (b ≡ true) ⊎ (b ≡ false)
Bool-cases true = inl refl
Bool-cases false = inr refl

pub Option-cases {ℓ} : {A : Type ℓ} (o : Option A) → (o ≡ none) ⊎ ((a : A) × (o ≡ some a))
Option-cases none = inl refl
Option-cases (some a) = inr (a, refl)

-- `a ?? b`
abbrev pub or_else {ℓ} : {A : Type ℓ} → Option A → A → A
or_else none d = d
or_else (some a) d = a

-- `a ?? b` where `b` may be absent too
abbrev pub first_some {ℓ} : {A : Type ℓ} → Option A → Option A → Option A
first_some none o = o
first_some (some a) o = some a

-- What a function that may throw returns; `E` says which `throw` was reached.
pub data Result {ℓ κ} (E : Type κ) (A : Type ℓ) : Type (ℓ ⊔ κ) where
  ok : A → Result E A
  err : E → Result E A

module _ {ℓ κ μ} {E : Type μ} {A : Type ℓ} {B : Type κ} where
  -- What follows a step that may throw: it runs unless the step threw.
  abbrev pub unless_thrown : (A → Result E B) → Result E A → Result E B
  unless_thrown next (err thrown) = err thrown
  unless_thrown next (ok value) = next value

  infixl 5 ◌>>=◌
  abbrev pub ◌>>=◌ : Result E A → (A → Result E B) → Result E B
  step >>= next = unless_thrown next step

  -- Where two steps return, each of them returned.
  pub >>=-eq-ok :
      (step : Result E A) (next : A → Result E B) {last : B}
      → (step >>= next) ≡ ok last
      → (value : A) × (step ≡ ok value) × (next value ≡ ok last)
  >>=-eq-ok (err thrown) next h = cc
  >>=-eq-ok (ok value) next h = (value, refl, h)

-- What a step returns, if it returns, satisfies `P`.
abbrev pub Ensured {ℓ κ μ} : {E : Type μ} {A : Type ℓ} → (A → Type κ) → Result E A → Type κ
Ensured P (ok value) = P value
Ensured P (err thrown) = Unit

pub Ensured->>= {ℓ κ ν μ} :
    {E : Type μ} {A : Type ℓ} {B : Type κ} (P : B → Type ν) (step : Result E A)
    (next : A → Result E B)
    → ((value : A) → step ≡ ok value → Ensured P (next value))
    → Ensured P (step >>= next)
Ensured->>= P (ok value) next h = h value refl
Ensured->>= P (err thrown) next h = tt

pub ok-injective {ℓ μ} :
    {E : Type μ} {A : Type ℓ} {a b : A} → ◌≡◌ {A = Result E A} (ok a) (ok b) → a ≡ b
ok-injective e = cc

pub Ensured-ok {ℓ κ μ} :
    {E : Type μ} {A : Type ℓ} (P : A → Type κ) (step : Result E A) {value : A}
    → Ensured P step
    → step ≡ ok value
    → P value
Ensured-ok P (ok value) h e = subst P (ok-injective e) h
Ensured-ok P (err thrown) h e = cc
