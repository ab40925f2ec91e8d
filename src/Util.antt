-- ===== src/Util.antt =====
-- src/util.rs, one module for each group of helpers.
pub mod Bytes
pub mod Bitfield
pub mod Time
pub mod Clamp
pub mod Words
