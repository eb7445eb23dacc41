-- ===== src/ResourceLimits/Resolve.antt =====
-- src/resource_limits.ts: the runtime defaults and the five-layer resolver.
-- The logger is modelled by the list of messages that a run adds to it. What the code asks of the
-- runtime and of `node:os` comes in as arguments.
pub mod Laws
pub mod Total
pub mod Defaults
use Prim.Native.Nat.{max}
use patchlab.Common.{
  ℕ, ◌+◌, ◌-◌, ◌*◌, ◌/◌, ◌^◌, Text, codes, Bool, true, false, List, [], ◌∷◌, ◌++◌, Option, none,
  some, Result, ok, err, leb, ◌==◌, if◌then◌else◌, ◌>>=◌, or_else, first_some, length,
}
use patchlab.Common.Decimal.{to_decimal, decimal_value}
use patchlab.Common.Floats.{Magnitude, number_of}
use patchlab.ResourceLimits.Parse.{
  Limit, unlimited, limited, FlagError, Decimals, memory_string_to_bytes, cpus_match,
  format_memory_for_podman, one_gibibyte, two_fifty_six_mebibytes,
}

-- One layer of configuration: a field is absent, the sentinel or a value.
pub record LoadedResourceLimits : Type 0 where
  pub memory_limit : Option (Limit Text)
  pub cpu_limit : Option (Limit Text)
  pub pids_limit : Option (Limit ℕ)
  pub blkio_weight : Option ℕ

pub record LoadedConfiguration : Type 0 where
  pub user_global : Option LoadedResourceLimits
  pub per_source : Option LoadedResourceLimits

pub record PersistedResourceLimits : Type 0 where
  pub memory_limit : Limit Text
  pub cpu_limit : Limit Text
  pub pids_limit : Limit ℕ
  pub blkio_weight : Option ℕ

pub record CliLimitOverrides : Type 0 where
  pub memory_limit : Option (Limit Text)
  pub cpu_limit : Option (Limit Text)
  pub pids_limit : Option (Limit ℕ)
  pub blkio_weight : Option ℕ

pub record ResolvedResourceLimits : Type 0 where
  pub memory_limit : Limit Text
  pub cpu_limit : Limit Text
  pub pids_limit : Limit ℕ
  pub blkio_weight : Option ℕ

pub record RuntimeDefaultLimits : Type 0 where
  pub memory_limit : Text
  pub cpu_limit : Text
  pub pids_limit : ℕ

pub record RuntimeCapacity : Type 0 where
  pub memory_bytes : ℕ
  pub cpu_count : ℕ

-- `capacity` is what `query_nerdctl_runtime_capacity` returns; `totalmem` and `cpus` are the host's.
unfoldable pub compute_runtime_defaults : Option RuntimeCapacity → ℕ → ℕ → RuntimeDefaultLimits
compute_runtime_defaults capacity totalmem cpus =
    let total_bytes : ℕ = elim capacity [ none ↦ totalmem | some c ↦ c.memory_bytes ] in
    let cpu_count : ℕ = elim capacity [ none ↦ cpus | some c ↦ c.cpu_count ] in
    let seventy_five_percent = total_bytes * 3 / 4 in
    let rounded_to_256mib =
      seventy_five_percent / two_fifty_six_mebibytes * two_fifty_six_mebibytes in
    let memory_bytes = max one_gibibyte rounded_to_256mib in
    record {
      memory_limit = format_memory_for_podman memory_bytes;
      cpu_limit = to_decimal (max 1 (cpu_count - 1)) ++ codes ".0";
      pids_limit = 1024;
    }

pub data Field : Type 0 where
  memory cpus pids : Field

-- The `verbose` messages of the per-source layer; values are shown as text.
pub data Message : Type 0 where
  discarded_under_unlimited : Field → Message
  discarded_no_widening : Field → (upper_bound : Text) → Message
  clamped : Field → (per_source_value upper_bound : Text) → Message
  ignored_blkio_weight : ℕ → Message

abbrev pub Logged {ℓ} : Type ℓ → Type ℓ
Logged A = A × List Message

-- `T` of the generic functions, how a message shows it, and whether `compare(a, b) <= 0`.
pub record Ordered : Type 1 where
  pub Value : Type 0
  pub show : Value → Text
  pub at_most : Value → Value → Result FlagError Bool

abbrev pub clamp_to {ℓ} : {A : Type ℓ} → Field → (A → Text) → A → A → Bool → Logged (Limit A)
clamp_to field show value upper true = (limited value, [])
clamp_to field show value upper false =
    (limited upper, clamped field (show value) (show upper) ∷ [])

module _ (o : Ordered) where
  open o use {Value, show, at_most}

  unfoldable pub apply_per_source_clamp :
      Field → Limit Value → Limit Value → Result FlagError (Logged (Limit Value))
  apply_per_source_clamp field unlimited unlimited =
      ok (unlimited, discarded_under_unlimited field ∷ [])
  apply_per_source_clamp field unlimited (limited upper) =
      ok (limited upper, discarded_no_widening field (show upper) ∷ [])
  apply_per_source_clamp field (limited value) unlimited = ok (limited value, [])
  apply_per_source_clamp field (limited value) (limited upper) = do
    within ← at_most value upper
    ok (clamp_to field show value upper within)

  -- Layers 1 to 3
  unfoldable pub after_per_source :
      Field → Limit Value → Option (Limit Value) → Result FlagError (Logged (Limit Value))
  after_per_source field lower_resolution none = ok (lower_resolution, [])
  after_per_source field lower_resolution (some value) =
      apply_per_source_clamp field value lower_resolution

  unfoldable pub resolve_concrete_or_unlimited_field :
      Field
      → Value
      → (user_global per_source manifest cli : Option (Limit Value))
      → Result FlagError (Logged (Limit Value))
  resolve_concrete_or_unlimited_field field runtime_default user_global per_source manifest cli = do
    let lower_resolution = or_else user_global (limited runtime_default)
    (after, messages) ← after_per_source field lower_resolution per_source
    ok (or_else cli (or_else manifest after), messages)

abbrev ignored : Option ℕ → List Message
ignored none = []
ignored (some weight) = ignored_blkio_weight weight ∷ []

unfoldable pub resolve_blkio_weight :
    (user_global per_source manifest cli : Option ℕ) → Logged (Option ℕ)
resolve_blkio_weight user_global per_source manifest cli =
    (first_some cli (first_some manifest user_global), ignored per_source)

-- `compare_memory_values(a, b) <= 0`
unfoldable pub memory_at_most : Text → Text → Result FlagError Bool
memory_at_most a b = do x ← memory_string_to_bytes a; y ← memory_string_to_bytes b; ok (leb x y)

abbrev magnitudes_at_most : Option Magnitude → Option Magnitude → Bool
magnitudes_at_most (some a) (some b) =
    leb (a.numerator * 10 ^ b.places) (b.numerator * 10 ^ a.places)
magnitudes_at_most _ none = false
magnitudes_at_most none _ = false

-- `compare_cpu_values(a, b) <= 0`; with NaN no comparison holds.
unfoldable pub cpus_at_most : Text → Text → Result FlagError Bool
cpus_at_most a b = ok (magnitudes_at_most (number_of a) (number_of b))

-- `compare_number_values(a, b) <= 0`
unfoldable pub number_at_most : ℕ → ℕ → Result FlagError Bool
number_at_most a b = ok (leb a b)

abbrev pub memory_values : Ordered
memory_values = record { Value = Text; show = λ t. t; at_most = memory_at_most }

abbrev pub cpu_values : Ordered
cpu_values = record { Value = Text; show = λ t. t; at_most = cpus_at_most }

abbrev pub pids_values : Ordered
pids_values = record { Value = ℕ; show = to_decimal; at_most = number_at_most }

-- `layer?.field`, where the field itself may be absent
abbrev pub field_of {ℓ κ} : {L : Type ℓ} {A : Type κ} → Option L → (L → Option A) → Option A
field_of none f = none
field_of (some layer) f = f layer

abbrev pub present {ℓ κ} : {L : Type ℓ} {A : Type κ} → Option L → (L → A) → Option A
present none f = none
present (some layer) f = some (f layer)

-- The value that `resolve_resource_limits` returns, and the messages in the order of the fields.
abbrev assemble :
    Logged (Option ℕ)
    → Logged (Limit Text)
    → Logged (Limit Text)
    → Logged (Limit ℕ)
    → Logged ResolvedResourceLimits
assemble (blkio_weight, blkio_log) (memory_limit, memory_log) (cpu_limit, cpu_log)
      (pids_limit, pids_log) =
    (
      record {
        memory_limit = memory_limit;
        cpu_limit = cpu_limit;
        pids_limit = pids_limit;
        blkio_weight = blkio_weight;
      },
      memory_log ++ cpu_log ++ pids_log ++ blkio_log,
    )

unfoldable pub resolve_resource_limits :
    RuntimeDefaultLimits
    → LoadedConfiguration
    → Option PersistedResourceLimits
    → CliLimitOverrides
    → Result FlagError (Logged ResolvedResourceLimits)
resolve_resource_limits defaults loaded manifest_layer cli_overrides = do
  let user_global = loaded.user_global
  let per_source = loaded.per_source
  memory_limit ←
      resolve_concrete_or_unlimited_field memory_values memory defaults.memory_limit
        (field_of user_global (λ l. l.memory_limit)) (field_of per_source (λ l. l.memory_limit))
        (present manifest_layer (λ l. l.memory_limit)) cli_overrides.memory_limit
  cpu_limit ←
      resolve_concrete_or_unlimited_field cpu_values cpus defaults.cpu_limit
        (field_of user_global (λ l. l.cpu_limit)) (field_of per_source (λ l. l.cpu_limit))
        (present manifest_layer (λ l. l.cpu_limit)) cli_overrides.cpu_limit
  pids_limit ←
      resolve_concrete_or_unlimited_field pids_values pids defaults.pids_limit
        (field_of user_global (λ l. l.pids_limit)) (field_of per_source (λ l. l.pids_limit))
        (present manifest_layer (λ l. l.pids_limit)) cli_overrides.pids_limit
  let blkio_weight =
      resolve_blkio_weight (field_of user_global (λ l. l.blkio_weight))
        (field_of per_source (λ l. l.blkio_weight)) (field_of manifest_layer (λ l. l.blkio_weight))
        cli_overrides.blkio_weight
  ok (assemble blkio_weight memory_limit cpu_limit pids_limit)

pub record ResolvedResourceLimitsArgv : Type 0 where
  pub memory_limit : Option Text
  pub cpu_limit : Option Text
  pub pids_limit : Option ℕ
  pub blkio_weight : Option ℕ

abbrev pub concrete {ℓ} : {A : Type ℓ} → Limit A → Option A
concrete unlimited = none
concrete (limited a) = some a

abbrev nonzero : Option ℕ → Option ℕ
nonzero none = none
nonzero (some n) = if n == 0 then none else some n

resolved_limits_to_create_options : ResolvedResourceLimits → ResolvedResourceLimitsArgv
resolved_limits_to_create_options resolved = record {
  memory_limit = concrete resolved.memory_limit;
  cpu_limit = concrete resolved.cpu_limit;
  pids_limit = concrete resolved.pids_limit;
  blkio_weight = nonzero resolved.blkio_weight;
}

resolved_limits_to_persisted : ResolvedResourceLimits → PersistedResourceLimits
resolved_limits_to_persisted resolved = record {
  memory_limit = resolved.memory_limit;
  cpu_limit = resolved.cpu_limit;
  pids_limit = resolved.pids_limit;
  blkio_weight = resolved.blkio_weight;
}
