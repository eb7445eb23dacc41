-- ===== src/PhpVersion/Groups.antt =====
-- src/languages/php_version.ts: how constraints combine.
use patchlab.Common.{
  ℕ, Text, filterb, allb, Bool, true, ◌&&◌, List, [], ◌∷◌, ◌++◌, arith, ◌≡◌, refl, ap, ◌∙◌,
  Bool-cases, inl, inr,
}
use patchlab.PhpVersion.{parts_group, split_group, is_not_empty, satisfies_part, satisfies_group}

-- The parts of a group that are looked at.
abbrev pieces : Text → List Text
pieces group = filterb is_not_empty (split_group group)

split_group-cons :
    (text : Text) → (first : Text) × (rest : List Text) × (split_group text ≡ first ∷ rest)
unfolding split_group
split_group-cons [] = ([], [], refl)
split_group-cons (c ∷ cs) =
    let (first, rest, q) = split_group-cons cs in
    elim (Bool-cases (parts_group c)) [
      | inl e ↦ ([], split_group cs, rw e refl)
      | inr e ↦ (c ∷ first, rest, rw (e, q) refl)
    ]

-- A separator divides the pieces.
split_group-append :
    (left right : Text) (sep : ℕ)
    → parts_group sep ≡ true
    → split_group (left ++ (sep ∷ right)) ≡ split_group left ++ split_group right
unfolding split_group
split_group-append [] right sep h = rw h refl
split_group-append (c ∷ cs) right sep h =
    let (first, rest, q) = split_group-cons cs in
    let step = split_group-append cs right sep h in
    elim (Bool-cases (parts_group c)) [
      | inl e ↦ rw e (ap (λ ps. [] ∷ ps) step)
      | inr e ↦ rw (e, step, q) refl
    ]

filterb-append :
    {A : Type 0} (p : A → Bool) (xs ys : List A)
    → filterb p (xs ++ ys) ≡ filterb p xs ++ filterb p ys
filterb-append p [] ys = refl
filterb-append p (x ∷ xs) ys = ground (arith, filterb-append p xs ys)

allb-append :
    {A : Type 0} (p : A → Bool) (xs ys : List A) → allb p (xs ++ ys) ≡ (allb p xs && allb p ys)
allb-append p [] ys = refl
allb-append p (x ∷ xs) ys = ground (arith, allb-append p xs ys)

-- Two groups with a comma or a white space between them ask for both.
pub satisfies_group-both :
    (version left right : Text) (sep : ℕ)
    → parts_group sep ≡ true
    → satisfies_group version (left ++ (sep ∷ right))
      ≡ (satisfies_group version left && satisfies_group version right)
unfolding satisfies_group
satisfies_group-both version left right sep h =
    ap (λ ps. allb (λ part. satisfies_part version part) (filterb is_not_empty ps))
      (split_group-append left right sep h)
    ∙ (ap (allb (λ part. satisfies_part version part))
          (filterb-append is_not_empty (split_group left) (split_group right))
        ∙ allb-append (λ part. satisfies_part version part) (pieces left) (pieces right))
