-- ===== src/Configuration/Compose/Composed.antt =====
-- The layer that src/configuration.ts composes, against its description as a meet of the repositories'.
use patchlab.Common.{◌≡◌, refl, ap, Bool, true, false, List, [], ◌∷◌, Option, none, some, ltb}
use patchlab.ResourceLimits.Parse.{Limit, unlimited, limited}
use patchlab.ResourceLimits.Resolve.{LoadedResourceLimits}
use patchlab.Configuration.Compose.{
  memory_less, decimal_less, smallest_of, fold_limit_field, fold_number_field,
  collect_field_contributors, cons_some, has_any, compose_per_source_loaded_resource_limits,
}
use patchlab.Configuration.Compose.Lattice.{
  IsMeet, stricter, fold_limit_field-IsMeet, fold_number_field-IsMeet, ltb-IsStrictOrder,
}
use patchlab.Configuration.Compose.Magnitudes.{
  memory_less-IsStrictOrder, decimal_less-IsStrictOrder,
}

-- What each repository's file sets, where it sets the field
abbrev pub values_set :
    {A : Type 0} → List (Option LoadedResourceLimits) → (LoadedResourceLimits → Option A) → List A
values_set per_repository field = collect_field_contributors per_repository field

-- Each field is the meet of the values that are set, in the order in which "unlimited" is the top.
pub record IsComposite (per_repository : List (Option LoadedResourceLimits))
    (l : LoadedResourceLimits) : Type 0 where
  pub memory :
      IsMeet (stricter memory_less) (values_set per_repository (λ l. l.memory_limit)) l.memory_limit
  pub cpus :
      IsMeet (stricter decimal_less) (values_set per_repository (λ l. l.cpu_limit)) l.cpu_limit
  pub pids : IsMeet (stricter ltb) (values_set per_repository (λ l. l.pids_limit)) l.pids_limit
  pub weight : IsMeet ltb (values_set per_repository (λ l. l.blkio_weight)) l.blkio_weight

abbrev pub IsComposition : List (Option LoadedResourceLimits) → Option LoadedResourceLimits → Type 0
IsComposition per_repository none = has_any per_repository ≡ false
IsComposition per_repository (some l) = IsComposite per_repository l

-- The composed layer is absent where no repository has a file; else each of its fields is absent
-- where no repository sets it, and otherwise a value that some repository sets, than which none sets
-- a stricter one. "unlimited" is the least strict, and sizes and decimals are compared as numbers.
pub compose_per_source_loaded_resource_limits-IsComposition :
    (per_repository : List (Option LoadedResourceLimits))
    → IsComposition per_repository (compose_per_source_loaded_resource_limits per_repository)
unfolding compose_per_source_loaded_resource_limits
compose_per_source_loaded_resource_limits-IsComposition per_repository =
    decide (has_any per_repository) refl
  where
    composite : IsComposite per_repository (record {
      memory_limit = fold_limit_field memory_less (values_set per_repository (λ l. l.memory_limit));
      cpu_limit = fold_limit_field decimal_less (values_set per_repository (λ l. l.cpu_limit));
      pids_limit = fold_limit_field ltb (values_set per_repository (λ l. l.pids_limit));
      blkio_weight = fold_number_field ltb (values_set per_repository (λ l. l.blkio_weight));
    })
    composite = record {
      memory =
          fold_limit_field-IsMeet memory_less memory_less-IsStrictOrder
            (values_set per_repository (λ l. l.memory_limit));
      cpus =
          fold_limit_field-IsMeet decimal_less decimal_less-IsStrictOrder
            (values_set per_repository (λ l. l.cpu_limit));
      pids =
          fold_limit_field-IsMeet ltb ltb-IsStrictOrder
            (values_set per_repository (λ l. l.pids_limit));
      weight =
          fold_number_field-IsMeet ltb ltb-IsStrictOrder
            (values_set per_repository (λ l. l.blkio_weight));
    }

    decide :
        (t : Bool)
        → has_any per_repository ≡ t
        → IsComposition per_repository (compose_per_source_loaded_resource_limits per_repository)
    decide true e = rw e composite
    decide false e = rw e e

fold_limit_field_single :
    {A : Type 0} (compare_less : A → A → Bool) (o : Option (Limit A))
    → fold_limit_field compare_less (cons_some o []) ≡ o
unfolding fold_limit_field smallest_of
fold_limit_field_single compare_less none = refl
fold_limit_field_single compare_less (some unlimited) = refl
fold_limit_field_single compare_less (some (limited a)) = refl

fold_number_field_single :
    {A : Type 0} (compare_less : A → A → Bool) (o : Option A)
    → fold_number_field compare_less (cons_some o []) ≡ o
unfolding fold_number_field smallest_of
fold_number_field_single compare_less none = refl
fold_number_field_single compare_less (some a) = refl

-- For a single repository the composed layer is that repository's own, whatever it holds.
pub compose_per_source_loaded_resource_limits_single :
    (loaded : Option LoadedResourceLimits)
    → compose_per_source_loaded_resource_limits (loaded ∷ []) ≡ loaded
unfolding compose_per_source_loaded_resource_limits collect_field_contributors
compose_per_source_loaded_resource_limits_single none = refl
compose_per_source_loaded_resource_limits_single (some l) = ap some (λ i. record {
  memory_limit = fold_limit_field_single memory_less l.memory_limit i;
  cpu_limit = fold_limit_field_single decimal_less l.cpu_limit i;
  pids_limit = fold_limit_field_single ltb l.pids_limit i;
  blkio_weight = fold_number_field_single ltb l.blkio_weight i;
})
