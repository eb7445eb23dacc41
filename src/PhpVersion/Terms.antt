-- ===== src/PhpVersion/Terms.antt =====
-- src/languages/php_version.ts: what a constraint of several terms means.
use patchlab.Common.{
  ℕ, Text, is_space, trim, trim_start, trim_end, All, All-append, All-weaken, ◌==◌, filterb, allb,
  Bool, true, false, List, [], ◌∷◌, ◌++◌, ◌&&◌, append-nil, arith, ◌≡◌, ◌↔◌, refl, sym, ap, ◌∙◌,
  Bool-cases, inl, inr,
}
use patchlab.Common.Decimal.{to_decimal, IsDigit, to_decimal-IsDigit}
use patchlab.PhpVersion.{
  bar, has_bar, split_group, is_not_empty, satisfies_part, satisfies_group,
  satisfies_php_constraint,
}
use patchlab.PhpVersion.Constraint.{
  Operator, caret, tilde, at_least, above, at_most, below, exact, operator_text, version_text,
  version_text_head, Meaning, satisfies_part-Meaning,
}
use patchlab.PhpVersion.Groups.{satisfies_group-both}

-- An operator with the two numbers of a version
pub record Term : Type 0 where
  pub operator : Operator
  pub major : ℕ
  pub minor : ℕ

abbrev pub term_text : Term → Text
term_text t = operator_text t.operator ++ version_text t.major t.minor

-- The constraint of terms with a space between them.
abbrev pub terms_text : Term → List Term → Text
terms_text t [] = term_text t
terms_text t (u ∷ us) = term_text t ++ (32 ∷ terms_text u us)

abbrev pub Admits : Term → ℕ → ℕ → Type 0
Admits t major minor = Meaning t.operator major minor t.major t.minor

-- Every term admits the version.
abbrev pub Admitted : Term → List Term → ℕ → ℕ → Type 0
Admitted t us major minor = All (λ u. Admits u major minor) (t ∷ us)

-- A code unit that no splitting and no trimming looks at
abbrev Plain : ℕ → Type 0
Plain c = (is_space c ≡ false) × ((c == b',') ≡ false) × ((c == bar) ≡ false)

IsDigit-Plain : (c : ℕ) → IsDigit c → Plain c
IsDigit-Plain c h = (ground (arith, h), ground (arith, h), ground (arith, h))

digits-Plain : (n : ℕ) → All Plain (to_decimal n)
digits-Plain n = All-weaken IsDigit Plain (to_decimal n) IsDigit-Plain (to_decimal-IsDigit n)

operator_text-Plain : (op : Operator) → All Plain (operator_text op)
operator_text-Plain caret = ((refl, refl, refl), tt)
operator_text-Plain tilde = ((refl, refl, refl), tt)
operator_text-Plain at_least = ((refl, refl, refl), ((refl, refl, refl), tt))
operator_text-Plain above = ((refl, refl, refl), tt)
operator_text-Plain at_most = ((refl, refl, refl), ((refl, refl, refl), tt))
operator_text-Plain below = ((refl, refl, refl), tt)
operator_text-Plain exact = tt

term_text-Plain : (t : Term) → All Plain (term_text t)
term_text-Plain t = All-append Plain (operator_text t.operator) _ (operator_text-Plain t.operator) (
    All-append Plain (to_decimal t.major) _ (digits-Plain t.major)
      ((refl, refl, refl), digits-Plain t.minor))

term_text-cons : (t : Term) → (c : ℕ) × (cs : Text) × (term_text t ≡ c ∷ cs)
term_text-cons t = found (operator_text t.operator)
  where
    found : (op : Text) → (c : ℕ) × (cs : Text) × (op ++ version_text t.major t.minor ≡ c ∷ cs)
    found [] = let (d, rest, eq, _) = version_text_head t.major t.minor in (d, rest, eq)
    found (c ∷ cs) = (c, _, refl)

split_group-Plain : (text : Text) → All Plain text → split_group text ≡ text ∷ []
unfolding split_group
split_group-Plain [] h = refl
split_group-Plain (c ∷ cs) ((space, comma, _), h) = rw (comma, space, split_group-Plain cs h) refl

satisfies_group-term :
    (version : Text) (t : Term)
    → satisfies_group version (term_text t) ≡ satisfies_part version (term_text t)
unfolding satisfies_group
satisfies_group-term version t =
    ap (λ ps. allb (λ part. satisfies_part version part) (filterb is_not_empty ps))
      (split_group-Plain (term_text t) (term_text-Plain t))
    ∙ only (term_text t) (term_text-cons t)
  where
    only :
        (text : Text)
        → (c : ℕ) × (cs : Text) × (text ≡ c ∷ cs)
        → allb (λ part. satisfies_part version part) (filterb is_not_empty (text ∷ []))
          ≡ satisfies_part version text
    only [] (c, cs, eq) = cc
    only (c ∷ cs) _ =
        let kept : is_not_empty (c ∷ cs) ≡ true = ground arith in
        elim (Bool-cases (satisfies_part version (c ∷ cs))) [
          | inl e ↦ rw (kept, e) refl
          | inr e ↦ rw (kept, e) refl
        ]

both_true : (a b : Bool) → ((a && b) ≡ true) ↔ ((a ≡ true) × (b ≡ true))
both_true a b = ground arith

-- A group of terms asks for each of them.
satisfies_group-terms :
    (version : Text) (t : Term) (us : List Term)
    → (satisfies_group version (terms_text t us) ≡ true)
      ↔ All (λ u. satisfies_part version (term_text u) ≡ true) (t ∷ us)
satisfies_group-terms version t [] =
    let q = satisfies_group-term version t in (λ h. (sym q ∙ h, tt), λ h. q ∙ h.0)
satisfies_group-terms version t (u ∷ us) =
    let q = satisfies_group-term version t in
    let whole = satisfies_group-both version (term_text t) (terms_text u us) 32 refl in
    let rest = satisfies_group-terms version u us in
    let both =
      both_true (satisfies_group version (term_text t))
        (satisfies_group version (terms_text u us)) in
    (
      λ h. let (left, right) = both.0 (sym whole ∙ h) in (sym q ∙ left, rest.0 right),
      λ h. whole ∙ both.1 (q ∙ h.0, rest.1 h.1),
    )

-- The text does not end with a space.
abbrev EndsPlain : Text → Type 0
EndsPlain [] = Unit
EndsPlain (c ∷ []) = is_space c ≡ false
EndsPlain (c ∷ d ∷ ds) = EndsPlain (d ∷ ds)

trim_end-EndsPlain : (text : Text) → EndsPlain text → trim_end text ≡ text
unfolding trim_end
trim_end-EndsPlain [] h = refl
trim_end-EndsPlain (c ∷ []) h = rw h refl
trim_end-EndsPlain (c ∷ d ∷ ds) h = rw (trim_end-EndsPlain (d ∷ ds) h) refl

Plain-EndsPlain : (text : Text) → All Plain text → EndsPlain text
Plain-EndsPlain [] h = tt
Plain-EndsPlain (c ∷ []) h = h.0.0
Plain-EndsPlain (c ∷ d ∷ ds) h = Plain-EndsPlain (d ∷ ds) h.1

append-EndsPlain :
    (text : Text) (c : ℕ) (cs : Text) → EndsPlain (c ∷ cs) → EndsPlain (text ++ (c ∷ cs))
append-EndsPlain [] c cs h = h
append-EndsPlain (d ∷ []) c cs h = h
append-EndsPlain (d ∷ e ∷ es) c cs h = append-EndsPlain (e ∷ es) c cs h

space-EndsPlain :
    (text : Text) → (c : ℕ) × (cs : Text) × (text ≡ c ∷ cs) → EndsPlain text → EndsPlain (32 ∷ text)
space-EndsPlain [] (c, cs, eq) h = cc
space-EndsPlain (c ∷ cs) _ h = h

pub terms_text-cons :
    (t : Term) (us : List Term)
    → (c : ℕ) × (cs : Text) × (terms_text t us ≡ c ∷ cs) × (is_space c ≡ false)
terms_text-cons t us = shape us
  where
    first :
        (text : Text)
        → (c : ℕ) × (cs : Text) × (text ≡ c ∷ cs)
        → All Plain text
        → (rest : Text) → (c : ℕ) × (cs : Text) × (text ++ rest ≡ c ∷ cs) × (is_space c ≡ false)
    first [] (c, cs, eq) h rest = cc
    first (c ∷ cs) _ h rest = (c, cs ++ rest, refl, h.0.0)

    first_alone :
        (text : Text)
        → (c : ℕ) × (cs : Text) × (text ≡ c ∷ cs)
        → All Plain text
        → (c : ℕ) × (cs : Text) × (text ≡ c ∷ cs) × (is_space c ≡ false)
    first_alone [] (c, cs, eq) h = cc
    first_alone (c ∷ cs) _ h = (c, cs, refl, h.0.0)

    shape :
        (us : List Term) → (c : ℕ) × (cs : Text) × (terms_text t us ≡ c ∷ cs) × (is_space c ≡ false)
    shape [] = first_alone (term_text t) (term_text-cons t) (term_text-Plain t)
    shape (u ∷ us) =
        first (term_text t) (term_text-cons t) (term_text-Plain t) (32 ∷ terms_text u us)

terms_text-EndsPlain : (t : Term) (us : List Term) → EndsPlain (terms_text t us)
terms_text-EndsPlain t [] = Plain-EndsPlain (term_text t) (term_text-Plain t)
terms_text-EndsPlain t (u ∷ us) =
    let (c, cs, eq, _) = terms_text-cons u us in
    append-EndsPlain (term_text t) 32 (terms_text u us)
      (space-EndsPlain (terms_text u us) (c, cs, eq) (terms_text-EndsPlain u us))

trim-terms_text : (t : Term) (us : List Term) → trim (terms_text t us) ≡ terms_text t us
unfolding trim trim_start
trim-terms_text t us =
    let (c, cs, eq, plain) = terms_text-cons t us in
    ap trim_end (ap trim_start eq ∙ (rw plain refl ∙ sym eq))
    ∙ trim_end-EndsPlain _ (terms_text-EndsPlain t us)

has_bar-append :
    (xs ys : Text)
    → All (λ c. (c == bar) ≡ false) xs
    → has_bar ys ≡ false
    → has_bar (xs ++ ys) ≡ false
has_bar-append [] ys h k = k
has_bar-append (x ∷ xs) ys h k = rw h.0 (has_bar-append xs ys h.1 k)

no_bar : (t : Term) → All (λ c. (c == bar) ≡ false) (term_text t)
no_bar t = All-weaken Plain (λ c. (c == bar) ≡ false) (term_text t) (λ c p. p.2) (term_text-Plain t)

has_bar-terms_text : (t : Term) (us : List Term) → has_bar (terms_text t us) ≡ false
has_bar-terms_text t [] =
    ap has_bar (sym (append-nil (term_text t))) ∙ has_bar-append (term_text t) [] (no_bar t) refl
has_bar-terms_text t (u ∷ us) =
    has_bar-append (term_text t) (32 ∷ terms_text u us) (no_bar t) (has_bar-terms_text u us)

-- A version satisfies the constraint exactly where every term admits it.
pub satisfies_php_constraint-Admitted :
    (t : Term) (us : List Term) (major minor : ℕ)
    → (satisfies_php_constraint (version_text major minor) (terms_text t us) ≡ true)
      ↔ Admitted t us major minor
unfolding satisfies_php_constraint
satisfies_php_constraint-Admitted t us major minor =
    let version = version_text major minor in
    let whole : satisfies_php_constraint version (terms_text t us)
        ≡ satisfies_group version (terms_text t us) =
      rw (has_bar-terms_text t us, trim-terms_text t us) refl in
    let group = satisfies_group-terms version t us in
    let meaning = λ (u : Term). satisfies_part-Meaning u.operator major minor u.major u.minor in
    (
      λ h.
          All-weaken (λ u. satisfies_part version (term_text u) ≡ true) (λ u. Admits u major minor)
            (t ∷ us) (λ u. (meaning u).0) (group.0 (sym whole ∙ h)),
      λ h.
          whole
          ∙ group.1 (
              All-weaken (λ u. Admits u major minor)
                (λ u. satisfies_part version (term_text u) ≡ true) (t ∷ us) (λ u. (meaning u).1) h),
    )
