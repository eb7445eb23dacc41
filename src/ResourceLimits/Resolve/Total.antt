-- ===== src/ResourceLimits/Resolve/Total.antt =====
-- When the resolver of src/resource_limits.ts throws nothing.
use patchlab.Common.{
  ℕ, ◌≡◌, refl, Text, Bool, [], Option, none, some, Result, ok, ◌>>=◌, or_else, leb,
}
use mathlib.Core.Path.{subst}
use patchlab.ResourceLimits.Parse.{Limit, unlimited, limited, FlagError, memory_string_to_bytes}
use patchlab.ResourceLimits.Resolve.{
  LoadedConfiguration, PersistedResourceLimits, CliLimitOverrides, ResolvedResourceLimits,
  RuntimeDefaultLimits, Field, memory, cpus, pids, Logged, Ordered, clamp_to,
  apply_per_source_clamp, after_per_source, resolve_concrete_or_unlimited_field, memory_at_most,
  cpus_at_most, number_at_most, memory_values, cpu_values, pids_values, field_of, present,
  resolve_resource_limits,
}

-- The comparator reads the value.
abbrev pub IsReadable : Limit Text → Type 0
IsReadable unlimited = Unit
IsReadable (limited t) = (bytes : ℕ) × (memory_string_to_bytes t ≡ ok bytes)

abbrev pub IsReadableField : Option (Limit Text) → Type 0
IsReadableField none = Unit
IsReadableField (some l) = IsReadable l

memory_at_most_total :
    (a b : Text)
    → IsReadable (limited a)
    → IsReadable (limited b)
    → (t : Bool) × (memory_at_most a b ≡ ok t)
unfolding memory_at_most
memory_at_most_total a b (x, ha) (y, hb) = (leb x y, rw (ha, hb))

module _ (o : Ordered) (field : Field) where
  after_per_source_total :
      (lower : Limit o.Value) (per_source : Option (Limit o.Value))
      → ((a b : o.Value)
          → per_source ≡ some (limited a)
          → lower ≡ limited b
          → (t : Bool) × (o.at_most a b ≡ ok t))
      → (r : Logged (Limit o.Value)) × (after_per_source o field lower per_source ≡ ok r)
  unfolding after_per_source apply_per_source_clamp
  after_per_source_total lower none h = ((lower, []), refl)
  after_per_source_total unlimited (some unlimited) h = (_, refl)
  after_per_source_total (limited b) (some unlimited) h = (_, refl)
  after_per_source_total unlimited (some (limited a)) h = (_, refl)
  after_per_source_total (limited b) (some (limited a)) h =
      let (t, e) = h a b refl refl in (clamp_to field o.show a b t, rw e)

  resolve_field_total :
      (default : o.Value) (user_global per_source manifest cli : Option (Limit o.Value))
      → ((a b : o.Value)
          → per_source ≡ some (limited a)
          → or_else user_global (limited default) ≡ limited b
          → (t : Bool) × (o.at_most a b ≡ ok t))
      → (r : Logged (Limit o.Value)) × (resolve_concrete_or_unlimited_field o field default
            user_global per_source manifest cli
          ≡ ok r)
  unfolding resolve_concrete_or_unlimited_field
  resolve_field_total default user_global per_source manifest cli h =
      let ((after, log), e) =
        after_per_source_total (or_else user_global (limited default)) per_source h in
      ((or_else cli (or_else manifest after), log), rw e)

lower-IsReadable :
    (default : Text) (user_global : Option (Limit Text)) (b : Text)
    → IsReadable (limited default)
    → IsReadableField user_global
    → or_else user_global (limited default) ≡ limited b
    → IsReadable (limited b)
lower-IsReadable default none b hd hu e = subst IsReadable e hd
lower-IsReadable default (some l) b hd hu e = subst IsReadable e hu

given-IsReadable :
    (per_source : Option (Limit Text)) (a : Text)
    → IsReadableField per_source
    → per_source ≡ some (limited a)
    → IsReadable (limited a)
given-IsReadable per_source a h e = subst IsReadableField e h

three_ok {ℓ₁ ℓ₂ ℓ₃ ℓ₄} :
    {A : Type ℓ₁} {B : Type ℓ₂} {C : Type ℓ₃} {D : Type ℓ₄} {a : Result FlagError A}
    {b : Result FlagError B} {c : Result FlagError C} (f : A → B → C → D) {x : A} {y : B} {z : C}
    → a ≡ ok x
    → b ≡ ok y
    → c ≡ ok z
    → (d : D) × ((do x ← a; y ← b; z ← c; ok (f x y z)) ≡ ok d)
three_ok f {x} {y} {z} ea eb ec = (f x y z, rw (ea, eb, ec))

cpus_at_most_total : (a b : Text) → (t : Bool) × (cpus_at_most a b ≡ ok t)
unfolding cpus_at_most
cpus_at_most_total a b = (_, refl)

number_at_most_total : (a b : ℕ) → (t : Bool) × (number_at_most a b ≡ ok t)
unfolding number_at_most
number_at_most_total a b = (_, refl)

-- If the default and the memory values of the two configuration files can be read, then the resolver
-- throws nothing, whatever the other fields and layers hold.
pub resolve_resource_limits_total :
    (d : RuntimeDefaultLimits) (loaded : LoadedConfiguration)
    (manifest : Option PersistedResourceLimits) (cli : CliLimitOverrides)
    → IsReadable (limited d.memory_limit)
    → IsReadableField (field_of loaded.user_global (λ l. l.memory_limit))
    → IsReadableField (field_of loaded.per_source (λ l. l.memory_limit))
    → (r : Logged ResolvedResourceLimits) × (resolve_resource_limits d loaded manifest cli ≡ ok r)
unfolding resolve_resource_limits
resolve_resource_limits_total d loaded manifest cli hd hu hp =
    let (m, em) =
      resolve_field_total memory_values memory d.memory_limit
        (field_of loaded.user_global (λ l. l.memory_limit))
        (field_of loaded.per_source (λ l. l.memory_limit)) (present manifest (λ l. l.memory_limit))
        cli.memory_limit
        (λ a b p q.
          memory_at_most_total a b (given-IsReadable _ a hp p) (lower-IsReadable _ _ b hd hu q)) in
    let (c, ec) =
      resolve_field_total cpu_values cpus d.cpu_limit
        (field_of loaded.user_global (λ l. l.cpu_limit))
        (field_of loaded.per_source (λ l. l.cpu_limit)) (present manifest (λ l. l.cpu_limit))
        cli.cpu_limit (λ a b p q. cpus_at_most_total a b) in
    let (p, ep) =
      resolve_field_total pids_values pids d.pids_limit
        (field_of loaded.user_global (λ l. l.pids_limit))
        (field_of loaded.per_source (λ l. l.pids_limit)) (present manifest (λ l. l.pids_limit))
        cli.pids_limit (λ a b p q. number_at_most_total a b) in
    three_ok _ em ec ep
