-- ===== src/Persist.antt =====
-- src/persist: what evsieve keeps on the disk. Modelled is the format of a device's capabilities,
-- src/persist/format.rs.
pub mod Bytes
pub mod Encode
pub mod Decode
pub mod RoundTrip
pub mod Errors
pub mod Truncated
