-- ===== src/ResourceLimits/Disk/Laws.antt =====
-- The two converters of src/resource_limits.ts are inverse to one another.
use patchlab.Common.{◌≡◌, refl, some}
use patchlab.ResourceLimits.Resolve.{PersistedResourceLimits}
use patchlab.ResourceLimits.Disk.{
  PersistedResourceLimitsOnDisk, persisted_resource_limits_from_on_disk,
  persisted_resource_limits_to_on_disk,
}

-- Each converter fills every field with a value of its type, and what one makes of a record the
-- other turns back into that record, in both directions.
pub persisted_resource_limits_roundtrip :
    (p : PersistedResourceLimits) (d : PersistedResourceLimitsOnDisk)
    → ((d' : PersistedResourceLimitsOnDisk) × (persisted_resource_limits_to_on_disk p ≡ some d')
        × (persisted_resource_limits_from_on_disk d' ≡ some p))
      × ((p' : PersistedResourceLimits) × (persisted_resource_limits_from_on_disk d ≡ some p')
          × (persisted_resource_limits_to_on_disk p' ≡ some d))
unfolding persisted_resource_limits_from_on_disk persisted_resource_limits_to_on_disk
persisted_resource_limits_roundtrip p d = ((_, refl, refl), (_, refl, refl))
