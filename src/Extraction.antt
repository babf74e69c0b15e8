-- ===== src/Extraction.antt =====
-- src/extraction.rs: the writing of a recovered artifact, over the operating system's file system.
pub mod System
pub mod Writer
pub mod Destination
