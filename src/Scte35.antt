-- ===== src/Scte35.antt =====
-- src/scte35.rs: the builders of SCTE-35 splice_info_section messages.
pub mod Writer
pub mod Crc
pub mod Upid
pub mod Fields
pub mod Build
pub mod WellFormed
mod Examples
