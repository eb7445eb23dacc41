-- ===== src/Common/Lists.antt =====
-- Lists, predicates on them, and what the source does with arrays, sets and maps.
use Prim.Native.Nat.{ℕ, zero, suc, ◌+◌}
use mathlib.Core.Path.{◌≡◌, refl}
use mathlib.Core.Bool.{Bool, true, false}
use mathlib.Core.Option.{Option, none, some}
use mathlib.Core.List.{List, [], ◌∷◌, ◌++◌}
use native.Mathlib.Omega.{arith}
use patchlab.Common.Tests.{if◌then◌else◌}

module _ {ℓ} {A : Type ℓ} where
  abbrev pub length : List A → ℕ
  length [] = 0
  length (x ∷ xs) = suc (length xs)

  abbrev pub drop : ℕ → List A → List A
  drop zero xs = xs
  drop (suc n) [] = []
  drop (suc n) (x ∷ xs) = drop n xs

  pub length-append : (xs ys : List A) → length (xs ++ ys) ≡ length xs + length ys
  length-append [] ys = omega arith
  length-append (x ∷ xs) ys = omega (arith, length-append xs ys)

  pub drop-length-append : (xs ys : List A) → drop (length xs) (xs ++ ys) ≡ ys
  drop-length-append [] ys = refl
  drop-length-append (x ∷ xs) ys = drop-length-append xs ys

  -- `array.filter(test)`
  abbrev pub filterb : (A → Bool) → List A → List A
  filterb p [] = []
  filterb p (x ∷ xs) = let rest = filterb p xs in if p x then x ∷ rest else rest

  -- `array.some(test)`
  abbrev pub anyb : (A → Bool) → List A → Bool
  anyb p [] = false
  anyb p (x ∷ xs) = if p x then true else anyb p xs

  -- `array.every(test)`
  abbrev pub allb : (A → Bool) → List A → Bool
  allb p [] = true
  allb p (x ∷ xs) = if p x then allb p xs else false

  -- `array.find(test)`
  abbrev pub find_first : (A → Bool) → List A → Option A
  find_first p [] = none
  find_first p (x ∷ xs) = if p x then some x else find_first p xs

module _ {ℓ κ} {A : Type ℓ} (P : A → Type κ) where
  abbrev pub All : List A → Type κ
  All [] = Unit
  All (x ∷ xs) = P x × All xs

  pub All-append : (xs ys : List A) → All xs → All ys → All (xs ++ ys)
  All-append [] ys _ hy = hy
  All-append (x ∷ xs) ys (px, hx) hy = (px, All-append xs ys hx hy)

  pub All-left : (xs ys : List A) → All (xs ++ ys) → All xs
  All-left [] ys all = tt
  All-left (x ∷ xs) ys (p, all) = (p, All-left xs ys all)

  pub All-right : (xs ys : List A) → All (xs ++ ys) → All ys
  All-right [] ys all = all
  All-right (x ∷ xs) ys (p, all) = All-right xs ys all

  pub filterb-All : (p : A → Bool) (xs : List A) → All xs → All (filterb p xs)
  filterb-All p [] all = tt
  filterb-All p (x ∷ xs) (h, all) =
      elim (p x) as (λ t. All (if t then x ∷ filterb p xs else filterb p xs)) [
        | true ↦ (h, filterb-All p xs all)
        | false ↦ filterb-All p xs all
      ]

pub All-weaken {ℓ κ μ} :
    {A : Type ℓ} (P : A → Type κ) (Q : A → Type μ) (xs : List A)
    → ((x : A) → P x → Q x)
    → All P xs
    → All Q xs
All-weaken P Q [] h all = tt
All-weaken P Q (x ∷ xs) h (p, all) = (h x p, All-weaken P Q xs h all)
