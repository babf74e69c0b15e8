-- ===== src/Fat32.antt =====
-- src/fat32.rs: the FAT32 boot sector, checked against the extent of its volume.
pub mod Sound
use taphonomy.Prelude.{
  ℕ, ◌+◌, ◌*◌, ◌%◌, ◌≤◌, Bool, true, false, ◌&&◌, ◌||◌, not, Option, none, some, List, [], ◌∷◌,
  ◌++◌, String, Result, ok, err, ltb, leb, ◌==◌, if◌then◌else◌, byte, le_u16, le_u32, slice,
  bit_and,
}
use taphonomy.Filesystem.{
  Filesystem, fat12, fat16, fat32, exfat, ntfs, FatGeometry, Identification, identified, unknown,
  VolumeExtent, filesystem, printable_ascii,
}
use taphonomy.Fat.{first_data_cluster, first_data_sector, off_fat_size_16}
use taphonomy.Identify.{identify}

abbrev pub off_hidden_sectors : ℕ
off_hidden_sectors = 0x1C

abbrev pub off_ext_flags : ℕ
off_ext_flags = 0x28

abbrev pub off_fs_version : ℕ
off_fs_version = 0x2A

abbrev pub off_root_cluster : ℕ
off_root_cluster = 0x2C

abbrev pub off_fs_info_sector : ℕ
off_fs_info_sector = 0x30

abbrev pub off_backup_boot_sector : ℕ
off_backup_boot_sector = 0x32

abbrev pub off_boot_signature : ℕ
off_boot_signature = 0x42

abbrev pub off_volume_id : ℕ
off_volume_id = 0x43

abbrev pub off_volume_label : ℕ
off_volume_label = 0x47

abbrev pub boot_signature_present : ℕ
boot_signature_present = 0x29

abbrev pub no_sector : ℕ
no_sector = 0xFFFF

abbrev pub ext_flags_mirroring_disabled : ℕ
ext_flags_mirroring_disabled = 0x0080

abbrev pub ext_flags_active_fat : ℕ
ext_flags_active_fat = 0x000F

abbrev pub fat32_entry_bytes : ℕ
fat32_entry_bytes = 4

pub data Fat32Error : Type 0 where
  not_fat32 : Option Filesystem → Fat32Error
  unsupported_sector_size : ℕ → Fat32Error
  invalid_field : String → ℕ → Fat32Error
  volume_exceeds_extent : ℕ → ℕ → Fat32Error
  invalid_root_cluster : ℕ → ℕ → Fat32Error
  fat_too_small : ℕ → ℕ → Fat32Error

pub data Fat32Observation : Type 0 where
  hidden_sectors_disagree : ℕ → ℕ → Fat32Observation
  volume_smaller_than_extent : ℕ → ℕ → Fat32Observation
  fat_mirroring_disabled : ℕ → Fat32Observation

pub record Fat32BootSector : Type 0 where
  pub geometry : FatGeometry
  pub hidden_sectors : ℕ
  pub ext_flags : ℕ
  pub root_cluster : ℕ
  pub fs_info_sector : ℕ
  pub backup_boot_sector : ℕ
  pub volume_id : Option ℕ
  pub volume_label : Option (List ℕ)
  pub observations : List Fat32Observation

-- The two tests of the flags, on the field itself.
unfoldable pub is_mirrored : ℕ → Bool
is_mirrored ext_flags = bit_and ext_flags ext_flags_mirroring_disabled == 0

-- `as u8` keeps the low byte.
unfoldable pub active_index : ℕ → ℕ
active_index ext_flags = bit_and ext_flags ext_flags_active_fat % 256

unfoldable pub mirroring_enabled : Fat32BootSector → Bool
mirroring_enabled b = is_mirrored b.ext_flags

unfoldable pub active_fat : Fat32BootSector → Option ℕ
unfolding mirroring_enabled
active_fat b = if mirroring_enabled b then none else some (active_index b.ext_flags)

-- A `u64` sum of two 32-bit numbers.
unfoldable pub first_data_sector_absolute : Fat32BootSector → VolumeExtent → ℕ
first_data_sector_absolute b extent = extent.start_lba + first_data_sector b.geometry

-- One past the last cluster, in `u64`.
unfoldable pub last_cluster : FatGeometry → ℕ
last_cluster g = g.cluster_count + first_data_cluster

-- The fields that only FAT32 has, as the sector declares them.
pub record Declared : Type 0 where
  pub fat_size_16 : ℕ
  pub fs_version : ℕ
  pub fs_info_sector : ℕ
  pub backup_boot_sector : ℕ
  pub root_cluster : ℕ
  pub hidden_sectors : ℕ
  pub ext_flags : ℕ

unfoldable pub read_declared : List ℕ → Declared
read_declared sector = record {
  fat_size_16 = le_u16 sector off_fat_size_16;
  fs_version = le_u16 sector off_fs_version;
  fs_info_sector = le_u16 sector off_fs_info_sector;
  backup_boot_sector = le_u16 sector off_backup_boot_sector;
  root_cluster = le_u32 sector off_root_cluster;
  hidden_sectors = le_u32 sector off_hidden_sectors;
  ext_flags = le_u16 sector off_ext_flags;
}

-- The checks that need no extent, in the source's order.
unfoldable pub check_declared : FatGeometry → Declared → Option Fat32Error
check_declared g d =
    if not (g.bytes_per_sector == 512)
    then some (unsupported_sector_size g.bytes_per_sector)
    else if not (g.root_entry_count == 0)
    then some (invalid_field "root_entry_count" g.root_entry_count)
    else if not (d.fat_size_16 == 0)
    then some (invalid_field "fat_size_16" d.fat_size_16)
    else if not (d.fs_version == 0)
    then some (invalid_field "fs_version" d.fs_version)
    else if not (d.fs_info_sector == no_sector)
        && (d.fs_info_sector == 0 || leb g.reserved_sectors d.fs_info_sector)
    then some (invalid_field "fs_info_sector" d.fs_info_sector)
    else if not (d.backup_boot_sector == 0)
        && not (d.backup_boot_sector == no_sector)
        && leb g.reserved_sectors d.backup_boot_sector
    then some (invalid_field "backup_boot_sector" d.backup_boot_sector)
    else none

-- The checks against the extent, and of the root cluster and the FAT's size; then the active FAT,
-- which the source refuses after the two observations that it drops on a refusal.
unfoldable pub check_extent : FatGeometry → Declared → VolumeExtent → Option Fat32Error
unfolding last_cluster is_mirrored active_index
check_extent g d extent =
    let fat_bytes = g.fat_size * g.bytes_per_sector in
    let required_bytes = (g.cluster_count + first_data_cluster) * fat32_entry_bytes in
    if ltb extent.sector_count g.total_sectors
    then some (volume_exceeds_extent g.total_sectors extent.sector_count)
    else if ltb d.root_cluster first_data_cluster || leb (last_cluster g) d.root_cluster
    then some (invalid_root_cluster d.root_cluster g.cluster_count)
    else if ltb fat_bytes required_bytes
    then some (fat_too_small fat_bytes required_bytes)
    else if not (is_mirrored d.ext_flags) && leb g.fat_count (active_index d.ext_flags)
    then some (invalid_field "active_fat" (active_index d.ext_flags))
    else none

-- The observations, in the order in which they are pushed.
unfoldable pub observe : FatGeometry → Declared → VolumeExtent → List Fat32Observation
unfolding is_mirrored active_index
observe g d extent =
    (if ltb g.total_sectors extent.sector_count
      then volume_smaller_than_extent g.total_sectors extent.sector_count ∷ []
      else [])
    ++ ((if not (d.hidden_sectors == 0) && not (d.hidden_sectors == extent.start_lba)
          then hidden_sectors_disagree d.hidden_sectors extent.start_lba ∷ []
          else [])
        ++ (if not (is_mirrored d.ext_flags)
            then fat_mirroring_disabled (active_index d.ext_flags) ∷ []
            else []))

unfoldable pub label_present : List ℕ → Bool
label_present sector = byte sector off_boot_signature == boot_signature_present

unfoldable pub boot_of : List ℕ → FatGeometry → Declared → VolumeExtent → Fat32BootSector
unfolding label_present
boot_of sector g d extent = record {
  geometry = g;
  hidden_sectors = d.hidden_sectors;
  ext_flags = d.ext_flags;
  root_cluster = d.root_cluster;
  fs_info_sector = d.fs_info_sector;
  backup_boot_sector = d.backup_boot_sector;
  volume_id = if label_present sector then some (le_u32 sector off_volume_id) else none;
  volume_label =
      if label_present sector then printable_ascii (slice sector off_volume_label 11) else none;
  observations = observe g d extent;
}

unfoldable pub parse_fat32 :
    List ℕ → FatGeometry → Declared → VolumeExtent → Result Fat32Error Fat32BootSector
parse_fat32 sector g d extent = elim (check_declared g d) [
  | some e ↦ err e
  | none ↦ elim (check_extent g d extent) [ some e ↦ err e | none ↦ ok (boot_of sector g d extent) ]
]

-- The `let … else` on the identification.
unfoldable pub fat32_geometry : Identification → Option FatGeometry
fat32_geometry (identified fat32 geometry oem observations) = geometry
fat32_geometry _ = none

unfoldable pub parse_boot_sector : List ℕ → VolumeExtent → Result Fat32Error Fat32BootSector
parse_boot_sector sector extent = elim (fat32_geometry (identify sector)) [
  | none ↦ err (not_fat32 (filesystem (identify sector)))
  | some g ↦ parse_fat32 sector g (read_declared sector) extent
]
