-- ===== src/ResourceLimits/Resolve/Defaults.antt =====
-- The runtime defaults of src/resource_limits.ts.
use Prim.Native.Nat.{max}
use patchlab.Common.{ℕ, ◌*◌, ◌/◌, ◌%◌, ◌≤◌, ◌<◌, ◌+◌, ◌≡◌, ok, Option, none, some, arith}
use patchlab.ResourceLimits.Parse.{memory_string_to_bytes, one_gibibyte, two_fifty_six_mebibytes}
use patchlab.ResourceLimits.Parse.Laws.{memory_string_to_bytes-format_memory_for_podman}
use patchlab.ResourceLimits.Resolve.{RuntimeCapacity, compute_runtime_defaults}

-- The memory that the defaults are computed from
abbrev pub total_bytes : Option RuntimeCapacity → ℕ → ℕ
total_bytes none totalmem = totalmem
total_bytes (some c) totalmem = c.memory_bytes

-- A number of bytes that is at least one gibibyte, a multiple of 256 MiB, within 75 percent of the
-- memory where those are at least a gibibyte, and less than 256 MiB below them.
pub record IsDefaultMemory (total bytes : ℕ) : Type 0 where
  pub floor : one_gibibyte ≤ bytes
  pub rounded : bytes % two_fifty_six_mebibytes ≡ 0
  pub within : one_gibibyte ≤ total * 3 / 4 → bytes ≤ total * 3 / 4
  pub tight : total * 3 / 4 < bytes + two_fifty_six_mebibytes

-- The default memory limit can be read back as a number of bytes that is at least one gibibyte, a
-- multiple of 256 MiB, at most 75 percent of the memory where those are at least a gibibyte, and
-- less than 256 MiB below them; the memory is the runtime's where it is known, else the host's.
pub compute_runtime_defaults-IsDefaultMemory :
    (capacity : Option RuntimeCapacity) (totalmem cpus : ℕ)
    → (bytes : ℕ) × (memory_string_to_bytes
          (compute_runtime_defaults capacity totalmem cpus).memory_limit
        ≡ ok bytes)
      × IsDefaultMemory (total_bytes capacity totalmem) bytes
unfolding compute_runtime_defaults
compute_runtime_defaults-IsDefaultMemory none totalmem cpus = (
  max one_gibibyte (totalmem * 3 / 4 / two_fifty_six_mebibytes * two_fifty_six_mebibytes),
  memory_string_to_bytes-format_memory_for_podman _,
  record {
    floor = omega arith;
    rounded = ground arith;
    within = λ h. omega arith;
    tight = omega arith;
  },
)
compute_runtime_defaults-IsDefaultMemory (some c) totalmem cpus = (
  max one_gibibyte (c.memory_bytes * 3 / 4 / two_fifty_six_mebibytes * two_fifty_six_mebibytes),
  memory_string_to_bytes-format_memory_for_podman _,
  record {
    floor = omega arith;
    rounded = ground arith;
    within = λ h. omega arith;
    tight = omega arith;
  },
)
