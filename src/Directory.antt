-- ===== src/Directory.antt =====
-- src/fat_directory.rs: FAT directory entries and FAT32 directory enumeration.
pub mod Name
pub mod Entry
pub mod Associate
pub mod Offsets
pub mod Walk
pub mod Deleted
pub mod Counts
