-- ===== src/PhpVersion/Constraint.antt =====
-- src/languages/php_version.ts: what one constraint means.
use patchlab.Common.{
  ℕ, ◌≤◌, ◌<◌, Text, codes, starts_with, Option, some, ◌==◌, All, true, false, [], ◌∷◌, ◌++◌, arith,
  ◌≡◌, ◌≢◌, ◌↔◌, ◌⊎◌, refl, sym, ap, ◌∙◌, append-nil,
}
use patchlab.Common.Decimal.{
  to_decimal, decimal_value, decimal_value-to_decimal, IsDigit, to_decimal-IsDigit,
  to_decimal-ne-nil, span_digits, span_digits-append,
}
use patchlab.PhpVersion.{
  full_stop, number_pair, behind_major, version_numbers, operator_rule, satisfies_part, compared,
  Comparison, same_major_at_least, version_gte, version_gt, version_lte, version_lt,
  same_major_and_minor,
}

pub data Operator : Type 0 where
  caret : Operator
  tilde : Operator
  at_least : Operator
  above : Operator
  at_most : Operator
  below : Operator
  exact : Operator

abbrev pub operator_text : Operator → Text
operator_text caret = codes "^"
operator_text tilde = codes "~"
operator_text at_least = codes ">="
operator_text above = codes ">"
operator_text at_most = codes "<="
operator_text below = codes "<"
operator_text exact = []

abbrev pub version_text : ℕ → ℕ → Text
version_text major minor = to_decimal major ++ (full_stop ∷ to_decimal minor)

-- The order of versions.
abbrev pub Before : ℕ → ℕ → ℕ → ℕ → Type 0
Before major minor a b = (major < a) ⊎ ((major ≡ a) × (minor < b))

-- What an operator asks of a version, by the order of versions.
abbrev pub Meaning : Operator → ℕ → ℕ → ℕ → ℕ → Type 0
Meaning caret major minor a b = (major ≡ a) × (b ≤ minor)
Meaning tilde major minor a b = (major ≡ a) × (b ≤ minor)
Meaning at_least major minor a b = ¬ Before major minor a b
Meaning above major minor a b = Before a b major minor
Meaning at_most major minor a b = ¬ Before a b major minor
Meaning below major minor a b = Before major minor a b
Meaning exact major minor a b = (major ≡ a) × (minor ≡ b)

behind_digits :
    (ds es : Text)
    → ds ≢ []
    → es ≢ []
    → span_digits es ≡ (es, [])
    → behind_major (ds, full_stop ∷ es) ≡ some (ds, (es, []))
behind_digits [] es n m q = absurd (n refl)
behind_digits (d ∷ ds) [] n m q = absurd (m refl)
behind_digits (d ∷ ds) (e ∷ es) n m q = rw q refl

span_digits-to_decimal : (n : ℕ) → span_digits (to_decimal n) ≡ (to_decimal n, [])
span_digits-to_decimal n =
    ap span_digits (sym (append-nil (to_decimal n)))
    ∙ span_digits-append (to_decimal n) [] (to_decimal-IsDigit n) tt

number_pair-version_text :
    (a b : ℕ) → number_pair (version_text a b) ≡ some (to_decimal a, (to_decimal b, []))
unfolding number_pair
number_pair-version_text a b =
    ap behind_major
      (span_digits-append (to_decimal a) (full_stop ∷ to_decimal b) (to_decimal-IsDigit a) refl)
    ∙ behind_digits _ _ (to_decimal-ne-nil a) (to_decimal-ne-nil b) (span_digits-to_decimal b)

version_numbers-version_text :
    (major minor : ℕ) → version_numbers (version_text major minor) ≡ some (major, minor)
unfolding version_numbers
version_numbers-version_text major minor =
    rw
      (
        number_pair-version_text major minor,
        decimal_value-to_decimal major,
        decimal_value-to_decimal minor,
      )
      refl

pub version_text_head :
    (a b : ℕ) → (d : ℕ) × (rest : Text) × (version_text a b ≡ d ∷ rest) × IsDigit d
version_text_head a b = head (to_decimal a) (to_decimal-ne-nil a) (to_decimal-IsDigit a)
  where
    head :
        (ds : Text)
        → ds ≢ []
        → All IsDigit ds
        → (d : ℕ) × (rest : Text) × (ds ++ (full_stop ∷ to_decimal b) ≡ d ∷ rest) × IsDigit d
    head [] n h = absurd (n refl)
    head (d ∷ ds) n h = (d, _, refl, h.0)

-- The comparison that the source makes for an operator.
abbrev comparison : Operator → Comparison
comparison caret = same_major_at_least
comparison tilde = same_major_at_least
comparison at_least = version_gte
comparison above = version_gt
comparison at_most = version_lte
comparison below = version_lt
comparison exact = same_major_and_minor

-- A digit is the first code unit of no operator, and the second of none.
no_operator :
    (d : ℕ)
    → IsDigit d
    → ((d == b'^') ≡ false)
      × ((d == b'~') ≡ false)
      × ((d == b'>') ≡ false)
      × ((d == b'<') ≡ false)
      × ((d == b'=') ≡ false)
no_operator d h =
    (ground (arith, h), ground (arith, h), ground (arith, h), ground (arith, h), ground (arith, h))

satisfies-operator_text :
    (op : Operator) (version rest : Text) (numbers : Option (ℕ × ℕ)) (d : ℕ) (a b : Text)
    → version_numbers version ≡ numbers
    → IsDigit d
    → number_pair (d ∷ rest) ≡ some (a, (b, []))
    → satisfies_part version (operator_text op ++ (d ∷ rest))
      ≡ compared (comparison op) numbers (decimal_value a) (decimal_value b)
unfolding satisfies_part operator_rule starts_with
satisfies-operator_text caret version rest numbers d a b v h q = rw (v, q) refl
satisfies-operator_text tilde version rest numbers d a b v h q = rw (v, q) refl
satisfies-operator_text at_least version rest numbers d a b v h q = rw (v, q) refl
satisfies-operator_text above version rest numbers d a b v h q =
    let (_, _, _, _, e) = no_operator d h in rw (e, v, q) refl
satisfies-operator_text at_most version rest numbers d a b v h q = rw (v, q) refl
satisfies-operator_text below version rest numbers d a b v h q =
    let (_, _, _, _, e) = no_operator d h in rw (e, v, q) refl
satisfies-operator_text exact version rest numbers d a b v h q =
    let (c, t, g, l, e) = no_operator d h in rw (c, t, g, l, v, q) refl

comparison-Meaning :
    (op : Operator) (major minor a b : ℕ)
    → (comparison op major minor a b ≡ true) ↔ Meaning op major minor a b
comparison-Meaning caret major minor a b = ground arith
comparison-Meaning tilde major minor a b = ground arith
comparison-Meaning at_least major minor a b = ground arith
comparison-Meaning above major minor a b = ground arith
comparison-Meaning at_most major minor a b = ground arith
comparison-Meaning below major minor a b = ground arith
comparison-Meaning exact major minor a b = ground arith

-- A constraint made of an operator and a version `a.b`, both numbers in decimal, is satisfied
-- exactly by the versions that the operator admits in the order of versions.
pub satisfies_part-Meaning :
    (op : Operator) (major minor a b : ℕ)
    → (satisfies_part (version_text major minor) (operator_text op ++ version_text a b) ≡ true)
      ↔ Meaning op major minor a b
satisfies_part-Meaning op major minor a b =
    let (d, rest, starts, digit) = version_text_head a b in
    let pair = ap number_pair (sym starts) ∙ number_pair-version_text a b in
    let whole =
      ap (λ w. satisfies_part (version_text major minor) (operator_text op ++ w)) starts
      ∙ satisfies-operator_text op (version_text major minor) rest _ d _ _
          (version_numbers-version_text major minor) digit pair in
    let meaning = comparison-Meaning op major minor a b in
    let values =
      ap (λ n. comparison op major minor n (decimal_value (to_decimal b)))
        (decimal_value-to_decimal a)
      ∙ ap (λ n. comparison op major minor a n) (decimal_value-to_decimal b) in
    (λ h. meaning.0 (sym values ∙ (sym whole ∙ h)), λ m. whole ∙ (values ∙ meaning.1 m))
