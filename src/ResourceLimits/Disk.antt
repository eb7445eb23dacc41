-- ===== src/ResourceLimits/Disk.antt =====
-- src/resource_limits.ts: the table of field names, and the converters between the in-memory shape
-- of the persisted limits and the one that stands in a session's metadata.
pub mod Laws
use patchlab.Common.{ℕ, Text, Bool, true, false, List, [], ◌∷◌, Option, none, some, if◌then◌else◌}
use patchlab.ResourceLimits.Parse.{Limit}
use patchlab.ResourceLimits.Resolve.{PersistedResourceLimits}

pub record PersistedResourceLimitsOnDisk : Type 0 where
  pub memory : Limit Text
  pub cpus : Limit Text
  pub pids : Limit ℕ
  pub blkio_weight : Option ℕ

pub data OnDiskKey : Type 0 where
  memory cpus pids blkio_weight : OnDiskKey

pub data TypescriptKey : Type 0 where
  memory_limit cpu_limit pids_limit blkio_weight : TypescriptKey

-- A value of one of the fields, as `unknown`
pub data Unknown : Type 0 where
  text : Limit Text → Unknown
  number : Limit ℕ → Unknown
  weight : Option ℕ → Unknown

abbrev resource_limit_field_map : List (OnDiskKey × TypescriptKey)
resource_limit_field_map =
    (OnDiskKey.memory, TypescriptKey.memory_limit)
    ∷ (OnDiskKey.cpus, TypescriptKey.cpu_limit)
    ∷ (OnDiskKey.pids, TypescriptKey.pids_limit)
    ∷ (OnDiskKey.blkio_weight, TypescriptKey.blkio_weight)
    ∷ []

-- `object[key]`
abbrev read_on_disk : PersistedResourceLimitsOnDisk → OnDiskKey → Unknown
read_on_disk d memory = text d.memory
read_on_disk d cpus = text d.cpus
read_on_disk d pids = number d.pids
read_on_disk d blkio_weight = weight d.blkio_weight

abbrev read_in_memory : PersistedResourceLimits → TypescriptKey → Unknown
read_in_memory p memory_limit = text p.memory_limit
read_in_memory p cpu_limit = text p.cpu_limit
read_in_memory p pids_limit = number p.pids_limit
read_in_memory p blkio_weight = weight p.blkio_weight

-- A record that is being filled: what each key holds so far.
abbrev Output {ℓ} : Type ℓ → Type ℓ
Output K = K → Option Unknown

abbrev same_on_disk : OnDiskKey → OnDiskKey → Bool
same_on_disk memory memory = true
same_on_disk cpus cpus = true
same_on_disk pids pids = true
same_on_disk blkio_weight blkio_weight = true
same_on_disk _ _ = false

abbrev same_typescript : TypescriptKey → TypescriptKey → Bool
same_typescript memory_limit memory_limit = true
same_typescript cpu_limit cpu_limit = true
same_typescript pids_limit pids_limit = true
same_typescript blkio_weight blkio_weight = true
same_typescript _ _ = false

-- `output[key] = value`
abbrev put {ℓ} : {K : Type ℓ} → (K → K → Bool) → K → Unknown → Output K → Output K
put same key value output k = if same key k then some value else output k

fill_in_memory :
    PersistedResourceLimitsOnDisk
    → List (OnDiskKey × TypescriptKey)
    → Output TypescriptKey
    → Output TypescriptKey
fill_in_memory on_disk [] output = output
fill_in_memory on_disk ((on_disk_key, typescript_key) ∷ fields) output =
    fill_in_memory on_disk fields
      (put same_typescript typescript_key (read_on_disk on_disk on_disk_key) output)

fill_on_disk :
    PersistedResourceLimits → List (OnDiskKey × TypescriptKey) → Output OnDiskKey → Output OnDiskKey
fill_on_disk in_memory [] output = output
fill_on_disk in_memory ((on_disk_key, typescript_key) ∷ fields) output =
    fill_on_disk in_memory fields
      (put same_on_disk on_disk_key (read_in_memory in_memory typescript_key) output)

-- `output as …`: `none` where a field is missing or holds a value of another type
abbrev as_in_memory_values :
    Option Unknown
    → Option Unknown
    → Option Unknown
    → Option Unknown
    → Option PersistedResourceLimits
as_in_memory_values (some (text m)) (some (text c)) (some (number p)) (some (weight w)) =
    some (record { memory_limit = m; cpu_limit = c; pids_limit = p; blkio_weight = w })
as_in_memory_values _ _ _ _ = none

abbrev as_in_memory : Output TypescriptKey → Option PersistedResourceLimits
as_in_memory o =
    as_in_memory_values (o memory_limit) (o cpu_limit) (o pids_limit) (o TypescriptKey.blkio_weight)

abbrev as_on_disk_values :
    Option Unknown
    → Option Unknown
    → Option Unknown
    → Option Unknown
    → Option PersistedResourceLimitsOnDisk
as_on_disk_values (some (text m)) (some (text c)) (some (number p)) (some (weight w)) =
    some (record { memory = m; cpus = c; pids = p; blkio_weight = w })
as_on_disk_values _ _ _ _ = none

abbrev as_on_disk : Output OnDiskKey → Option PersistedResourceLimitsOnDisk
as_on_disk o = as_on_disk_values (o memory) (o cpus) (o pids) (o OnDiskKey.blkio_weight)

pub persisted_resource_limits_from_on_disk :
    PersistedResourceLimitsOnDisk → Option PersistedResourceLimits
unfolding fill_in_memory
persisted_resource_limits_from_on_disk on_disk =
    as_in_memory (fill_in_memory on_disk resource_limit_field_map (λ k. none))

pub persisted_resource_limits_to_on_disk :
    PersistedResourceLimits → Option PersistedResourceLimitsOnDisk
unfolding fill_on_disk
persisted_resource_limits_to_on_disk in_memory =
    as_on_disk (fill_on_disk in_memory resource_limit_field_map (λ k. none))
