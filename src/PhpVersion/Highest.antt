-- ===== src/PhpVersion/Highest.antt =====
-- src/languages/php_version.ts: which image a constraint of composer.json gives.
use patchlab.Common.{
  ℕ, ◌≤◌, Text, codes, Option, none, some, ok, find_first, All, All-weaken, map, false, List, [],
  ◌∷◌, arith, ◌≡◌, ◌⊎◌, refl, ap, Bool-cases, inl, inr,
}
use patchlab.Common.Decimal.{to_decimal}
use patchlab.Json.{Json}
use patchlab.PhpVersion.{
  parsed, property, string_member, image, known_php_versions, image_of_version,
  satisfies_php_constraint, resolve_php_image_from_constraint, image_of_constraint,
}
use patchlab.PhpVersion.Constraint.{version_text, Before}
use patchlab.PhpVersion.Terms.{
  Term, terms_text, terms_text-cons, Admitted, satisfies_php_constraint-Admitted,
}

-- PHP 7.4, and 8.0 to 8.4
abbrev pub Known : ℕ → ℕ → Type 0
Known major minor = ((major ≡ 7) × (minor ≡ 4)) ⊎ ((major ≡ 8) × (minor ≤ 4))

-- The image of the highest known version that all terms admit, or none where they admit no known one.
pub data IsHighest (t : Term) (us : List Term) : Option Text → Type 0 where
  highest :
      (major minor : ℕ)
      → Known major minor
      → Admitted t us major minor
      → ((a b : ℕ) → Known a b → Admitted t us a b → ¬ Before major minor a b)
      → IsHighest t us (some (image (version_text major minor)))
  nothing_admitted : ((a b : ℕ) → Known a b → ¬ Admitted t us a b) → IsHighest t us none

abbrev Pairs : Type 0
Pairs = List (ℕ × ℕ)

abbrev Listed : ℕ → ℕ → Pairs → Type 0
Listed a b [] = ⊥
Listed a b (v ∷ vs) = ((a ≡ v.0) × (b ≡ v.1)) ⊎ Listed a b vs

-- Every version of the list comes after all behind it.
abbrev Descending : Pairs → Type 0
Descending [] = Unit
Descending (v ∷ vs) = All (λ w. Before w.0 w.1 v.0 v.1) vs × Descending vs

abbrev known_numbers : Pairs
known_numbers = (8, 4) ∷ (8, 3) ∷ (8, 2) ∷ (8, 1) ∷ (8, 0) ∷ (7, 4) ∷ []

abbrev pair_text : ℕ × ℕ → Text
pair_text v = version_text v.0 v.1

known_php_versions-known_numbers : known_php_versions ≡ map pair_text known_numbers
unfolding to_decimal
known_php_versions-known_numbers = refl

known_numbers-Descending : Descending known_numbers
known_numbers-Descending = ground arith

known_numbers-Known : All (λ v. Known v.0 v.1) known_numbers
known_numbers-Known = ground arith

Known-Listed : (a b : ℕ) → Known a b → Listed a b known_numbers
Known-Listed a b h = ground (arith, h)

Listed-All :
    (P : ℕ → ℕ → Type 0) (a b : ℕ) (vs : Pairs) → All (λ v. P v.0 v.1) vs → Listed a b vs → P a b
Listed-All P a b [] all listed = absurd listed
Listed-All P a b (v ∷ vs) (p, all) (inl (q, r)) = rw (q, r) p
Listed-All P a b (v ∷ vs) (p, all) (inr listed) = Listed-All P a b vs all listed

-- The first version of a descending list that satisfies the constraint is the highest.
find_first-IsHighest :
    (t : Term) (us : List Term) (vs : Pairs)
    → Descending vs
    → All (λ v. Known v.0 v.1) vs
    → ((a b : ℕ) → Known a b → Admitted t us a b → Listed a b vs)
    → IsHighest t us (
        image_of_version (
          find_first
            (λ version. satisfies_php_constraint version (terms_text t us))
            (map pair_text vs)))
find_first-IsHighest t us [] _ _ left = nothing_admitted left
find_first-IsHighest t us (v ∷ vs) (after, sorted) (known, all) left =
    let admitted = satisfies_php_constraint-Admitted t us v.0 v.1 in
    elim (Bool-cases (satisfies_php_constraint (pair_text v) (terms_text t us))) [
      | inl e ↦ rw e (
          highest v.0 v.1 known (admitted.0 e) (λ a b k h.
            Listed-All (λ c d. ¬ Before v.0 v.1 c d) a b (v ∷ vs)
              (
                omega arith,
                All-weaken (λ w. Before w.0 w.1 v.0 v.1) (λ w. ¬ Before v.0 v.1 w.0 w.1) vs
                    (λ w later. ground (arith, later)) after,
              )
              (left a b k h)))
      | inr e ↦
          rw e (find_first-IsHighest t us vs sorted all (λ a b k h. behind e a b h (left a b k h)))
    ]
  where
    behind :
        satisfies_php_constraint (pair_text v) (terms_text t us) ≡ false
        → (a b : ℕ) → Admitted t us a b
        → Listed a b (v ∷ vs)
        → Listed a b vs
    behind e a b h (inl (q, r)) =
        let refused : satisfies_php_constraint (version_text a b) (terms_text t us) ≡ false =
          rw (q, r) e in
        let accepted = (satisfies_php_constraint-Admitted t us a b).1 h in cc
    behind e a b h (inr listed) = listed

first_image :
    (constraint : Text)
    → (c : ℕ) × (cs : Text) × (constraint ≡ c ∷ cs)
    → image_of_constraint (some constraint)
      ≡ image_of_version (
          find_first
            (λ version. satisfies_php_constraint version constraint)
            (map pair_text known_numbers))
first_image [] (c, cs, eq) = cc
first_image (c ∷ cs) _ =
    ap
      (λ versions.
        image_of_version
          (find_first (λ version. satisfies_php_constraint version (c ∷ cs)) versions))
      known_php_versions-known_numbers

-- Where `require.php` of composer.json is made of terms with a space between them, each an operator
-- (one of ^, ~, >=, >, <=, < or none) before a version of two decimal numbers, the answer is the image
-- of the highest version among 7.4 and 8.0 to 8.4 that every term admits in the order of versions, and
-- no image where the terms admit none of these versions.
pub resolve_php_image_from_constraint-IsHighest :
    (composer : Json) (section : Option Json) (t : Term) (us : List Term)
    → property composer (codes "require") ≡ ok section
    → string_member section (codes "php") ≡ some (terms_text t us)
    → (answer : Option Text) × (resolve_php_image_from_constraint (parsed composer) ≡ ok answer)
      × IsHighest t us answer
unfolding resolve_php_image_from_constraint
resolve_php_image_from_constraint-IsHighest composer section t us p q =
    let (c, cs, eq, _) = terms_text-cons t us in
    (
      _,
      rw (p, q) (ap ok (first_image (terms_text t us) (c, cs, eq))),
      find_first-IsHighest t us known_numbers known_numbers-Descending known_numbers-Known
          (λ a b k _. Known-Listed a b k),
    )
