-- ===== src/Stream.antt =====
-- src/stream.rs and the entries of src/stream, a module each.
pub mod Map
pub mod Toggle
pub mod Merge
pub mod Delay
pub mod Trigger
pub mod Hook
pub mod Withhold
pub mod Scale
pub mod CapabilityOverride
pub mod Run
pub mod Caps
