-- ===== src/Exfat.antt =====
-- src/exfat_boot.rs: the exFAT boot region.
pub mod Data
pub mod Checksum
pub mod Geometry
pub mod Region
pub mod Search
