-- ===== src/ResourceLimits/Tests.antt =====
-- Runs of the functions of src/resource_limits.ts, and the theorems at concrete inputs.
use patchlab.Common.{
  ℕ, ◌*◌, ◌<◌, ◌≡◌, refl, Text, codes, text_eq, has, List, [], ◌∷◌, none, some, ok,
}
use patchlab.Common.Decimal.{to_decimal, span_digits}
use patchlab.ResourceLimits.Parse.{
  unlimited, limited, parse_memory_value, memory_match, memory_string_to_bytes,
  parse_blkio_weight_value, signed_match,
}
use patchlab.ResourceLimits.Parse.Laws.{parse_memory_value_sound}
use patchlab.Common.Floats.{number_of}
use patchlab.ResourceLimits.Resolve.{
  LoadedResourceLimits, LoadedConfiguration, PersistedResourceLimits, CliLimitOverrides,
  ResolvedResourceLimits, RuntimeDefaultLimits, RuntimeCapacity, compute_runtime_defaults, Message,
  clamped, memory, pids, pids_values, memory_at_most, cpus_at_most, number_at_most,
  apply_per_source_clamp, after_per_source, resolve_concrete_or_unlimited_field,
  resolve_blkio_weight, resolve_resource_limits,
}
use patchlab.ResourceLimits.Resolve.Laws.{
  Tightened, resolve_resource_limits-Tightened, resolve_resource_limits_resumed,
}
use patchlab.ResourceLimits.Resolve.Defaults.{
  IsDefaultMemory, compute_runtime_defaults-IsDefaultMemory,
}
use patchlab.ResourceLimits.Disk.{PersistedResourceLimitsOnDisk}
use patchlab.ResourceLimits.Guard.{argv_contains_resource_flag_negative}

abbrev defaults : RuntimeDefaultLimits
defaults = record { memory_limit = codes "4g"; cpu_limit = codes "3.0"; pids_limit = 1024 }

-- The repository asks for more memory than the runtime's default and for fewer processes.
abbrev repository_limits : LoadedResourceLimits
repository_limits = record {
  memory_limit = some (limited (codes "8g"));
  cpu_limit = none;
  pids_limit = some (limited 100);
  blkio_weight = none;
}

abbrev loaded : LoadedConfiguration
loaded = record { user_global = none; per_source = some repository_limits }

abbrev no_overrides : CliLimitOverrides
no_overrides = record {
  memory_limit = none;
  cpu_limit = none;
  pids_limit = none;
  blkio_weight = none;
}

abbrev persisted : PersistedResourceLimits
persisted = record {
  memory_limit = limited (codes "2g");
  cpu_limit = unlimited;
  pids_limit = limited 50;
  blkio_weight = some 100;
}

abbrev tightened : ResolvedResourceLimits
tightened = record {
  memory_limit = limited (codes "4g");
  cpu_limit = limited (codes "3.0");
  pids_limit = limited 100;
  blkio_weight = none;
}

abbrev resumed : ResolvedResourceLimits
resumed = record {
  memory_limit = limited (codes "2g");
  cpu_limit = unlimited;
  pids_limit = limited 50;
  blkio_weight = some 100;
}

abbrev clamped_memory : List Message
clamped_memory = clamped memory (codes "8g") (codes "4g") ∷ []

tightened_run :
    resolve_resource_limits defaults loaded none no_overrides ≡ ok (tightened, clamped_memory)
unfolding resolve_resource_limits resolve_concrete_or_unlimited_field after_per_source
    apply_per_source_clamp resolve_blkio_weight memory_at_most cpus_at_most number_of number_at_most
    memory_string_to_bytes memory_match span_digits
tightened_run = refl

resumed_run :
    resolve_resource_limits defaults loaded (some persisted) no_overrides
    ≡ ok (resumed, clamped_memory)
unfolding resolve_resource_limits resolve_concrete_or_unlimited_field after_per_source
    apply_per_source_clamp resolve_blkio_weight memory_at_most cpus_at_most number_of number_at_most
    memory_string_to_bytes memory_match span_digits
resumed_run = refl

resolve_resource_limits-Tightened_example :
    (t : ResolvedResourceLimits) × (resolve_resource_limits defaults
        (record loaded { per_source = none })
        none
        no_overrides
      ≡ ok (t, []))
    × Tightened tightened t
resolve_resource_limits-Tightened_example =
    resolve_resource_limits-Tightened defaults loaded none no_overrides tightened clamped_memory
      tightened_run

resolve_resource_limits_resumed_example :
    resolve_resource_limits defaults
      (record loaded { per_source = none })
      (some persisted)
      no_overrides
    ≡ ok (resumed, [])
resolve_resource_limits_resumed_example =
    resolve_resource_limits_resumed defaults loaded persisted no_overrides resumed clamped_memory
      resumed_run

clamp_run :
    apply_per_source_clamp pids_values pids (limited 2000) (limited 1024)
    ≡ ok (limited 1024, clamped pids (codes "2000") (codes "1024") ∷ [])
unfolding apply_per_source_clamp number_at_most to_decimal
clamp_run = refl

four_gibibytes : memory_string_to_bytes (codes "4g") ≡ ok (4 * 1024 * 1024 * 1024)
unfolding memory_string_to_bytes memory_match span_digits
four_gibibytes = refl

eight_gibibytes : memory_string_to_bytes (codes "8g") ≡ ok (8 * 1024 * 1024 * 1024)
unfolding memory_string_to_bytes memory_match span_digits
eight_gibibytes = refl

abbrev machine : RuntimeCapacity
machine = record { memory_bytes = 8000000000; cpu_count = 4 }

compute_runtime_defaults-IsDefaultMemory_example :
    (bytes : ℕ) × (memory_string_to_bytes
        (compute_runtime_defaults (some machine) 16000000000 8).memory_limit
      ≡ ok bytes)
    × IsDefaultMemory 8000000000 bytes
compute_runtime_defaults-IsDefaultMemory_example =
    compute_runtime_defaults-IsDefaultMemory (some machine) 16000000000 8

default_run : (compute_runtime_defaults (some machine) 16000000000 8).cpu_limit ≡ codes "3.0"
unfolding compute_runtime_defaults to_decimal
default_run = refl

parsed_run : parse_memory_value (codes "512M") ≡ ok (limited (codes "512m"))
unfolding parse_memory_value memory_match span_digits text_eq
parsed_run = refl

parse_memory_value_sound_example :
    (bytes : ℕ) × (0 < bytes)
    × (memory_string_to_bytes (codes "512M") ≡ ok bytes)
    × (memory_string_to_bytes (codes "512m") ≡ ok bytes)
    × (parse_memory_value (codes "512m") ≡ ok (limited (codes "512m")))
parse_memory_value_sound_example = parse_memory_value_sound (codes "512M") (codes "512m") parsed_run

weight_run : parse_blkio_weight_value (codes "500") ≡ ok 500
unfolding parse_blkio_weight_value signed_match span_digits
weight_run = refl

abbrev on_disk : PersistedResourceLimitsOnDisk
on_disk = record {
  memory = limited (codes "2g");
  cpus = unlimited;
  pids = limited 50;
  blkio_weight = none;
}

abbrev command_line : List Text
command_line = codes "create" ∷ codes "--cpus" ∷ codes "-2" ∷ []

offending_run : argv_contains_resource_flag_negative command_line ≡ some (codes "--cpus")
unfolding argv_contains_resource_flag_negative text_eq has
offending_run = refl
