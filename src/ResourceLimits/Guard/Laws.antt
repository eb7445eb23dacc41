-- ===== src/ResourceLimits/Guard/Laws.antt =====
-- What the argv guard of src/resource_limits.ts finds.
use patchlab.Common.{
  ◌≡◌, ◌≢◌, ◌↔◌, Text, codes, text_eq, text_eq_iff, has, true, List, [], ◌∷◌, none, some, arith,
  Bool-cases, Option-cases, inl, inr, ◌&&◌,
}
use mathlib.Core.Path.{subst}
use patchlab.ResourceLimits.Guard.{
  resource_limit_flags, is_negative_number, next_is_negative, argv_contains_resource_flag_negative,
}

-- At some place before the first `--`, `flag` is a limit flag and the next token a negative number.
pub data Offends (flag : Text) : List Text → Type 0 where
  here :
      (next : Text) (argv : List Text)
      → flag ≢ codes "--"
      → has resource_limit_flags flag ≡ true
      → is_negative_number next ≡ true
      → Offends flag (flag ∷ next ∷ argv)
  later :
      (token : Text) (argv : List Text)
      → token ≢ codes "--"
      → Offends flag argv
      → Offends flag (token ∷ argv)

sound_next :
    (token : Text) (argv : List Text) (flag : Text)
    → token ≢ codes "--"
    → has resource_limit_flags token ≡ true
    → next_is_negative argv ≡ true
    → token ≡ flag
    → Offends flag (token ∷ argv)
sound_next token [] flag a b c e = cc
sound_next token (next ∷ argv) flag a b c e =
    subst (λ f. Offends f (token ∷ next ∷ argv)) e (here next argv a b c)

-- A flag that the guard names is a limit flag that a negative number follows before the first `--`.
argv_contains_resource_flag_negative_sound :
    (argv : List Text) (flag : Text)
    → argv_contains_resource_flag_negative argv ≡ some flag
    → Offends flag argv
unfolding argv_contains_resource_flag_negative
argv_contains_resource_flag_negative_sound [] flag h = cc
argv_contains_resource_flag_negative_sound (token ∷ argv) flag h =
    elim (Bool-cases (text_eq token (codes "--"))) [
      | inl e ↦ absurd (ground (arith, e))
      | inr e ↦ elim (Bool-cases (has resource_limit_flags token && next_is_negative argv)) [
        | inl f ↦
            sound_next token argv flag (ground (arith, e, text_eq_iff token (codes "--")))
              (ground (arith, f)) (ground (arith, f)) (ground (arith, e, f))
        | inr f ↦
            later token argv (ground (arith, e, text_eq_iff token (codes "--")))
              (argv_contains_resource_flag_negative_sound argv flag (ground (arith, e, f)))
      ]
    ]

guard_complete :
    {flag : Text} {argv : List Text}
    → Offends flag argv
    → argv_contains_resource_flag_negative argv ≢ none
unfolding argv_contains_resource_flag_negative
guard_complete {flag} (here next argv a b c) = ground (arith, text_eq_iff flag (codes "--"))
guard_complete (later token argv a o) =
    ground (arith, text_eq_iff token (codes "--"), guard_complete o)

-- The guard is silent exactly where no limit flag is followed by a negative number before the
-- first `--`.
pub argv_contains_resource_flag_negative-eq-none_iff :
    (argv : List Text)
    → (argv_contains_resource_flag_negative argv ≡ none) ↔ ((flag : Text) → ¬ Offends flag argv)
argv_contains_resource_flag_negative-eq-none_iff argv = (
  λ h flag o. guard_complete o h,
  λ clean. elim (Option-cases (argv_contains_resource_flag_negative argv)) [
    | inl e ↦ e
    | inr (flag, e) ↦ absurd (clean flag (argv_contains_resource_flag_negative_sound argv flag e))
  ],
)
