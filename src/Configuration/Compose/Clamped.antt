-- ===== src/Configuration/Compose/Clamped.antt =====
-- Clamping the composed pids limit of src/configuration.ts, or the limits that it is composed of.
use patchlab.Common.{
  ◌≡◌, refl, sym, ap, ◌∙◌, ℕ, ◌≤◌, Bool, true, false, List, [], ◌∷◌, map, Option, none, some,
  Result, ok, err, ltb, leb, arith, if◌then◌else◌,
}
use patchlab.ResourceLimits.Parse.{Limit, unlimited, limited, FlagError}
use patchlab.ResourceLimits.Resolve.{
  Logged, pids, pids_values, number_at_most, clamp_to, apply_per_source_clamp,
}
use patchlab.Configuration.Compose.{
  lesser, smallest_of, smallest_concrete, concrete_values, fold_limit_field,
}

abbrev value_or : Limit ℕ → Result FlagError (Logged (Limit ℕ)) → Limit ℕ
value_or default (ok (value, messages)) = value
value_or default (err thrown) = default

-- The limit that the resolver's clamp leaves of a per-source value
unfoldable pub clamped : Limit ℕ → Limit ℕ → Limit ℕ
clamped upper value = value_or upper (apply_per_source_clamp pids_values pids value upper)

-- Below an upper bound the clamp is a minimum.
abbrev bounded : ℕ → Limit ℕ → ℕ
bounded upper unlimited = upper
bounded upper (limited n) = if leb n upper then n else upper

clamped-limited : (upper : ℕ) (v : Limit ℕ) → clamped (limited upper) v ≡ limited (bounded upper v)
unfolding clamped apply_per_source_clamp number_at_most
clamped-limited upper unlimited = refl
clamped-limited upper (limited n) = decide (leb n upper)
  where
    decide :
        (t : Bool)
        → value_or (limited upper) (ok (clamp_to pids pids_values.show n upper t))
          ≡ limited (if t then n else upper)
    decide true = refl
    decide false = refl

clamped-unlimited : (v : Limit ℕ) → clamped unlimited v ≡ v
unfolding clamped apply_per_source_clamp
clamped-unlimited unlimited = refl
clamped-unlimited (limited n) = refl

map-clamped-unlimited : (values : List (Limit ℕ)) → map (clamped unlimited) values ≡ values
map-clamped-unlimited [] = refl
map-clamped-unlimited (v ∷ values) = λ i. clamped-unlimited v i ∷ map-clamped-unlimited values i

concrete_values-map-clamped :
    (upper : ℕ) (values : List (Limit ℕ))
    → concrete_values ltb (map (clamped (limited upper)) values) ≡ map (bounded upper) values
concrete_values-map-clamped upper [] = refl
concrete_values-map-clamped upper (v ∷ values) =
    rw (clamped-limited upper v)
      (ap (λ ns. bounded upper v ∷ ns) (concrete_values-map-clamped upper values))

-- A value at most `upper` meets the bounded values as it meets the concrete ones.
smallest_of-map-bounded :
    (upper a : ℕ) (values : List (Limit ℕ))
    → a ≤ upper
    → smallest_of ltb a (map (bounded upper) values)
      ≡ smallest_of ltb a (concrete_values ltb values)
unfolding smallest_of
smallest_of-map-bounded upper a [] h = refl
smallest_of-map-bounded upper a (unlimited ∷ values) h =
    let same : lesser ltb upper a ≡ a = ground (arith, h) in
    ap (λ c. smallest_of ltb c (map (bounded upper) values)) same
    ∙ smallest_of-map-bounded upper a values h
smallest_of-map-bounded upper a (limited n ∷ values) h =
    let same : lesser ltb (bounded upper (limited n)) a ≡ lesser ltb n a = ground (arith, h) in
    ap (λ c. smallest_of ltb c (map (bounded upper) values)) same
    ∙ smallest_of-map-bounded upper (lesser ltb n a) values (ground (arith, h))

bounded-smallest_of :
    (upper a : ℕ) (rest : List ℕ)
    → bounded upper (limited (smallest_of ltb a rest))
      ≡ smallest_of ltb (bounded upper (limited a)) rest
unfolding smallest_of
bounded-smallest_of upper a [] = refl
bounded-smallest_of upper a (b ∷ rest) =
    let same : bounded upper (limited (lesser ltb b a)) ≡ lesser ltb b (bounded upper (limited a)) =
      ground arith in
    bounded-smallest_of upper (lesser ltb b a) rest ∙ ap (λ c. smallest_of ltb c rest) same

bounded-smallest_concrete :
    (upper : ℕ) (ns : List ℕ) → bounded upper (smallest_concrete ltb ns) ≡ smallest_of ltb upper ns
unfolding smallest_of
bounded-smallest_concrete upper [] = refl
bounded-smallest_concrete upper (n ∷ ns) =
    let same : bounded upper (limited n) ≡ lesser ltb n upper = ground arith in
    bounded-smallest_of upper n ns ∙ ap (λ c. smallest_of ltb c ns) same

fold_bounded :
    (upper : ℕ) (v : Limit ℕ) (values : List (Limit ℕ))
    → smallest_of ltb (bounded upper v) (concrete_values ltb values)
      ≡ smallest_of ltb upper (concrete_values ltb (v ∷ values))
unfolding smallest_of
fold_bounded upper unlimited values = refl
fold_bounded upper (limited n) values =
    let same : bounded upper (limited n) ≡ lesser ltb n upper = ground arith in
    ap (λ c. smallest_of ltb c (concrete_values ltb values)) same

abbrev pub map_some : (Limit ℕ → Limit ℕ) → Option (Limit ℕ) → Option (Limit ℕ)
map_some f none = none
map_some f (some v) = some (f v)

bounded-upper : (upper : ℕ) (v : Limit ℕ) → bounded upper v ≤ upper
bounded-upper upper unlimited = omega arith
bounded-upper upper (limited n) = ground arith

-- Composing the repositories' pids limits and clamping the result by any upper bound gives what
-- clamping each of them first and then composing gives.
pub clamped-fold_limit_field :
    (upper : Limit ℕ) (values : List (Limit ℕ))
    → map_some (clamped upper) (fold_limit_field ltb values)
      ≡ fold_limit_field ltb (map (clamped upper) values)
unfolding fold_limit_field
clamped-fold_limit_field upper [] = refl
clamped-fold_limit_field unlimited (v ∷ values) =
    ap some (clamped-unlimited (smallest_concrete ltb (concrete_values ltb (v ∷ values))))
    ∙ ap (fold_limit_field ltb) (sym (map-clamped-unlimited (v ∷ values)))
clamped-fold_limit_field (limited upper) (v ∷ values) = ap some (
    clamped-limited upper (smallest_concrete ltb (concrete_values ltb (v ∷ values)))
    ∙ ap limited (
        bounded-smallest_concrete upper (concrete_values ltb (v ∷ values))
        ∙ sym (fold_bounded upper v values)
        ∙ sym (smallest_of-map-bounded upper (bounded upper v) values (bounded-upper upper v)))
    ∙ ap (smallest_concrete ltb) (sym (concrete_values-map-clamped upper (v ∷ values))))
