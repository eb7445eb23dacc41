-- ===== src/ResourceLimits.antt =====
-- src/resource_limits.ts: flag values, the five-layer resolver, the converters and the argv guard.
pub mod Parse
pub mod Resolve
pub mod Disk
pub mod Guard
mod Tests
