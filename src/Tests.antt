-- ===== src/Tests.antt =====
-- Concrete sectors and a concrete disk, on which the theorems of src/*.rs are applied.
mod Sectors
mod Disk
mod Tables
mod Volumes
mod Names
mod Files
mod Digests
mod Regions
mod Drive
mod Artifacts
mod Reports
mod BootRegions
