-- ===== src/Configuration/Compose/Lattice.antt =====
-- The folds of src/configuration.ts take the most restrictive value.
use patchlab.Common.{
  ◌≡◌, ◌⊎◌, inl, inr, refl, ap, ◌∙◌, Bool, true, false, List, [], ◌∷◌, Option, none, some, All,
  arith, ltb, if◌then◌else◌,
}
use patchlab.ResourceLimits.Parse.{Limit, unlimited, limited}
use patchlab.Configuration.Compose.{
  lesser, smallest_of, smallest_concrete, concrete_values, fold_limit_field, fold_number_field,
}

-- A strict order that is decided by a test
pub record IsStrictOrder {A : Type 0} (compare_less : A → A → Bool) : Type 0 where
  pub irreflexive : (a : A) → compare_less a a ≡ false
  pub transitive :
      (a b c : A) → compare_less a b ≡ true → compare_less b c ≡ true → compare_less a c ≡ true

abbrev pub Among : {A : Type 0} → A → List A → Type 0
Among a [] = ⊥
Among a (b ∷ bs) = (a ≡ b) ⊎ Among a bs

-- `a` is one of the values, and none of them is smaller.
abbrev pub IsLeast : {A : Type 0} → (A → A → Bool) → A → List A → Type 0
IsLeast compare_less a values = Among a values × All (λ w. compare_less w a ≡ false) values

-- "unlimited" is above every value.
unfoldable pub stricter : {A : Type 0} → (A → A → Bool) → Limit A → Limit A → Bool
stricter compare_less unlimited b = false
stricter compare_less (limited a) unlimited = true
stricter compare_less (limited a) (limited b) = compare_less a b

-- The meet of what the repositories say: absent where none says anything.
abbrev pub IsMeet : {A : Type 0} → (A → A → Bool) → List A → Option A → Type 0
IsMeet compare_less values none = values ≡ []
IsMeet compare_less values (some a) = IsLeast compare_less a values

module _ {A : Type 0} (compare_less : A → A → Bool) (order : IsStrictOrder compare_less) where
  lesser-below :
      (w c s : A) → compare_less w s ≡ false → compare_less w (lesser compare_less c s) ≡ false
  lesser-below w c s h = decide (compare_less c s) refl (compare_less w c) refl
    where
      decide :
          (t : Bool)
          → compare_less c s ≡ t
          → (u : Bool) → compare_less w c ≡ u
          → compare_less w (if t then c else s) ≡ false
      decide false e u f = h
      decide true e false f = f
      decide true e true f = let bad = order.transitive w c s f e in cc

  lesser-candidate : (c s : A) → compare_less c (lesser compare_less c s) ≡ false
  lesser-candidate c s = decide (compare_less c s) refl
    where
      decide : (t : Bool) → compare_less c s ≡ t → compare_less c (if t then c else s) ≡ false
      decide true e = order.irreflexive c
      decide false e = e

  lesser-either : (c s : A) → (lesser compare_less c s ≡ c) ⊎ (lesser compare_less c s ≡ s)
  lesser-either c s = decide (compare_less c s)
    where
      decide : (t : Bool) → ((if t then c else s) ≡ c) ⊎ ((if t then c else s) ≡ s)
      decide true = inl refl
      decide false = inr refl

  smallest_of-below :
      (w s : A) (rest : List A)
      → compare_less w s ≡ false
      → compare_less w (smallest_of compare_less s rest) ≡ false
  unfolding smallest_of
  smallest_of-below w s [] h = h
  smallest_of-below w s (c ∷ rest) h =
      smallest_of-below w (lesser compare_less c s) rest (lesser-below w c s h)

  smallest_of-rest :
      (s : A) (rest : List A)
      → All (λ w. compare_less w (smallest_of compare_less s rest) ≡ false) rest
  unfolding smallest_of
  smallest_of-rest s [] = tt
  smallest_of-rest s (c ∷ rest) = (
    smallest_of-below c (lesser compare_less c s) rest (lesser-candidate c s),
    smallest_of-rest (lesser compare_less c s) rest,
  )

  smallest_of-Among : (s : A) (rest : List A) → Among (smallest_of compare_less s rest) (s ∷ rest)
  unfolding smallest_of
  smallest_of-Among s [] = inl refl
  smallest_of-Among s (c ∷ rest) =
      among (lesser-either c s) (smallest_of-Among (lesser compare_less c s) rest)
    where
      among :
          (lesser compare_less c s ≡ c) ⊎ (lesser compare_less c s ≡ s)
          → Among
              (smallest_of compare_less (lesser compare_less c s) rest)
              (lesser compare_less c s ∷ rest)
          → Among (smallest_of compare_less (lesser compare_less c s) rest) (s ∷ c ∷ rest)
      among (inl e) (inl q) = inr (inl (q ∙ e))
      among (inr e) (inl q) = inl (q ∙ e)
      among either (inr q) = inr (inr q)

  -- The loop ends with a least value.
  pub smallest_of-IsLeast :
      (s : A) (rest : List A) → IsLeast compare_less (smallest_of compare_less s rest) (s ∷ rest)
  smallest_of-IsLeast s rest = (
    smallest_of-Among s rest,
    (smallest_of-below s s rest (order.irreflexive s), smallest_of-rest s rest),
  )

  pub fold_number_field-IsMeet :
      (values : List A) → IsMeet compare_less values (fold_number_field compare_less values)
  unfolding fold_number_field
  fold_number_field-IsMeet [] = refl
  fold_number_field-IsMeet (first ∷ rest) = smallest_of-IsLeast first rest

  Among-concrete_values :
      (a : A) (values : List (Limit A))
      → Among a (concrete_values compare_less values)
      → Among (limited a) values
  Among-concrete_values a [] h = elim h [ ]
  Among-concrete_values a (unlimited ∷ values) h = inr (Among-concrete_values a values h)
  Among-concrete_values a (limited b ∷ values) (inl q) = inl (ap limited q)
  Among-concrete_values a (limited b ∷ values) (inr h) = inr (Among-concrete_values a values h)

  not_stricter :
      (a : A) (values : List (Limit A))
      → All (λ w. compare_less w a ≡ false) (concrete_values compare_less values)
      → All (λ w. stricter compare_less w (limited a) ≡ false) values
  unfolding stricter
  not_stricter a [] h = tt
  not_stricter a (unlimited ∷ values) h = (refl, not_stricter a values h)
  not_stricter a (limited b ∷ values) (k, h) = (k, not_stricter a values h)

  -- Where no value is concrete, all are the sentinel.
  all_unlimited :
      (contributor : Limit A) (values : List (Limit A))
      → concrete_values compare_less (contributor ∷ values) ≡ []
      → IsLeast (stricter compare_less) unlimited (contributor ∷ values)
  unfolding stricter
  all_unlimited (limited a) values h = cc
  all_unlimited unlimited values h = (inl refl, (refl, none_stricter values h))
    where
      none_stricter :
          (values : List (Limit A))
          → concrete_values compare_less values ≡ []
          → All (λ w. stricter compare_less w unlimited ≡ false) values
      none_stricter [] h = tt
      none_stricter (unlimited ∷ values) h = (refl, none_stricter values h)
      none_stricter (limited a ∷ values) h = cc

  smallest_concrete-IsLeast :
      (contributor : Limit A) (values : List (Limit A)) (concrete : List A)
      → concrete_values compare_less (contributor ∷ values) ≡ concrete
      → IsLeast
          (stricter compare_less)
          (smallest_concrete compare_less concrete)
          (contributor ∷ values)
  smallest_concrete-IsLeast contributor values [] e = all_unlimited contributor values e
  smallest_concrete-IsLeast contributor values (first ∷ rest) e =
      let (among, least) = smallest_of-IsLeast first rest in
      let smallest = smallest_of compare_less first rest in
      (
        Among-concrete_values smallest (contributor ∷ values) (rw e among),
        not_stricter smallest (contributor ∷ values) (rw e least),
      )

  -- The fold of a field with the sentinel gives the meet of its values.
  pub fold_limit_field-IsMeet :
      (values : List (Limit A))
      → IsMeet (stricter compare_less) values (fold_limit_field compare_less values)
  unfolding fold_limit_field
  fold_limit_field-IsMeet [] = refl
  fold_limit_field-IsMeet (contributor ∷ values) =
      smallest_concrete-IsLeast contributor values
        (concrete_values compare_less (contributor ∷ values)) refl

pub ltb-IsStrictOrder : IsStrictOrder ltb
ltb-IsStrictOrder = record {
  irreflexive = λ a. ground arith;
  transitive = λ a b c h k. ground (arith, h, k);
}
