-- ===== src/Fat.antt =====
-- src/fat.rs: the BIOS parameter block that the FAT variants share, and which variant it is.
pub mod Geometry
use taphonomy.Prelude.{
  ℕ, ◌+◌, ◌-◌, ◌*◌, ◌/◌, ◌%◌, Bool, true, false, ◌&&◌, ◌||◌, not, Option, none, some, List, [], ◌∷◌,
  ◌++◌, Result, ok, err, ltb, ◌==◌, if◌then◌else◌, bytes_eq, byte, le_u16, le_u32, slice,
  checked_add, checked_sub, saturating_add, saturating_mul, is_power_of_two, u32_mod,
}
use taphonomy.Filesystem.{
  Filesystem, fat12, fat16, fat32, UnknownReason, invalid_bpb_field, undeterminable_geometry,
  Observation, type_string_disagrees, unusual_fat_count, non_standard_sector_size, FatGeometry,
  Identification, identified, unknown, printable_ascii,
}

abbrev pub off_bytes_per_sector : ℕ
off_bytes_per_sector = 0x0B

abbrev pub off_sectors_per_cluster : ℕ
off_sectors_per_cluster = 0x0D

abbrev pub off_reserved_sectors : ℕ
off_reserved_sectors = 0x0E

abbrev pub off_fat_count : ℕ
off_fat_count = 0x10

abbrev pub off_root_entry_count : ℕ
off_root_entry_count = 0x11

abbrev pub off_total_sectors_16 : ℕ
off_total_sectors_16 = 0x13

abbrev pub off_media_descriptor : ℕ
off_media_descriptor = 0x15

abbrev pub off_fat_size_16 : ℕ
off_fat_size_16 = 0x16

abbrev pub off_total_sectors_32 : ℕ
off_total_sectors_32 = 0x20

abbrev pub off_fat_size_32 : ℕ
off_fat_size_32 = 0x24

abbrev pub off_fs_type_32 : ℕ
off_fs_type_32 = 0x52

abbrev pub fat12_max_clusters : ℕ
fat12_max_clusters = 4085

abbrev pub fat16_max_clusters : ℕ
fat16_max_clusters = 65525

abbrev pub max_cluster_bytes : ℕ
max_cluster_bytes = 32768

abbrev pub first_data_cluster : ℕ
first_data_cluster = 2

-- The three methods compute in `u32`.
unfoldable pub cluster_bytes : FatGeometry → ℕ
cluster_bytes g = g.bytes_per_sector * g.sectors_per_cluster % u32_mod

unfoldable pub first_data_sector : FatGeometry → ℕ
first_data_sector g =
    ((g.reserved_sectors + g.fat_count * g.fat_size % u32_mod) % u32_mod + g.root_dir_sectors)
    % u32_mod

-- The first cluster of the range, and the end that it excludes.
unfoldable pub data_clusters : FatGeometry → ℕ × ℕ
unfolding saturating_add
data_clusters g = (first_data_cluster, saturating_add first_data_cluster g.cluster_count)

-- The fields that the block declares, before they are judged.
pub record Bpb : Type 0 where
  pub bytes_per_sector : ℕ
  pub sectors_per_cluster : ℕ
  pub reserved_sectors : ℕ
  pub fat_count : ℕ
  pub media_descriptor : ℕ
  pub root_entry_count : ℕ
  pub total_sectors_16 : ℕ
  pub total_sectors_32 : ℕ
  pub fat_size_16 : ℕ
  pub fat_size_32 : ℕ

unfoldable pub read_bpb : List ℕ → Bpb
read_bpb sector = record {
  bytes_per_sector = le_u16 sector off_bytes_per_sector;
  sectors_per_cluster = byte sector off_sectors_per_cluster;
  reserved_sectors = le_u16 sector off_reserved_sectors;
  fat_count = byte sector off_fat_count;
  media_descriptor = byte sector off_media_descriptor;
  root_entry_count = le_u16 sector off_root_entry_count;
  total_sectors_16 = le_u16 sector off_total_sectors_16;
  total_sectors_32 = le_u32 sector off_total_sectors_32;
  fat_size_16 = le_u16 sector off_fat_size_16;
  fat_size_32 = le_u32 sector off_fat_size_32;
}

unfoldable pub total_sectors_of : Bpb → ℕ
total_sectors_of b =
    if not (b.total_sectors_16 == 0) then b.total_sectors_16 else b.total_sectors_32

unfoldable pub fat_size_of : Bpb → ℕ
fat_size_of b = if not (b.fat_size_16 == 0) then b.fat_size_16 else b.fat_size_32

-- The checks of the fields, in the source's order, up to the total and the FAT size.
unfoldable pub check_fields : Bpb → Option UnknownReason
unfolding is_power_of_two total_sectors_of fat_size_of
check_fields b =
    if not (
      b.bytes_per_sector == 512
      || b.bytes_per_sector == 1024
      || b.bytes_per_sector == 2048
      || b.bytes_per_sector == 4096)
    then some (invalid_bpb_field "bytes_per_sector" b.bytes_per_sector)
    else if not (is_power_of_two b.sectors_per_cluster)
    then some (invalid_bpb_field "sectors_per_cluster" b.sectors_per_cluster)
    else if ltb max_cluster_bytes (b.bytes_per_sector * b.sectors_per_cluster % u32_mod)
    then some
        (invalid_bpb_field "cluster_bytes" (b.bytes_per_sector * b.sectors_per_cluster % u32_mod))
    else if b.reserved_sectors == 0
    then some (invalid_bpb_field "reserved_sectors" 0)
    else if b.fat_count == 0
    then some (invalid_bpb_field "fat_count" 0)
    else if not (b.media_descriptor == 0xF0) && ltb b.media_descriptor 0xF8
    then some (invalid_bpb_field "media_descriptor" b.media_descriptor)
    else if total_sectors_of b == 0
    then some (undeterminable_geometry "both 16-bit and 32-bit total sector counts are zero")
    else if fat_size_of b == 0
    then some (undeterminable_geometry "both 16-bit and 32-bit FAT sizes are zero")
    else none

-- RootDirSectors = ((RootEntCnt * 32) + (BytsPerSec - 1)) / BytsPerSec
unfoldable pub root_dir_sectors_of : Bpb → ℕ
unfolding saturating_add saturating_mul
root_dir_sectors_of b =
    saturating_add (saturating_mul b.root_entry_count 32) (b.bytes_per_sector - 1)
    / b.bytes_per_sector

unfoldable pub metadata_sectors_of : Bpb → Option ℕ
unfolding checked_add saturating_mul
metadata_sectors_of b =
    elim (checked_add u32_mod b.reserved_sectors (saturating_mul b.fat_count (fat_size_of b))) [
      | none ↦ none
      | some s ↦ checked_add u32_mod s (root_dir_sectors_of b)
    ]

-- DataSec = TotSec - metadata, refused where it underflows or is zero.
unfoldable pub data_sectors_of : Bpb → Result UnknownReason ℕ
unfolding checked_sub
data_sectors_of b = elim (metadata_sectors_of b) [
  | none ↦ err (undeterminable_geometry "reserved, FAT and root directory sectors overflow")
  | some metadata ↦ elim (checked_sub (total_sectors_of b) metadata) [
    | none ↦ err (undeterminable_geometry "declared metadata exceeds declared total sectors")
    | some data_sectors ↦
        if data_sectors == 0
        then err (undeterminable_geometry "data region is empty")
        else ok data_sectors
  ]
]

unfoldable pub geometry_of : Bpb → ℕ → FatGeometry
geometry_of b data_sectors = record {
  bytes_per_sector = b.bytes_per_sector;
  sectors_per_cluster = b.sectors_per_cluster;
  reserved_sectors = b.reserved_sectors;
  fat_count = b.fat_count;
  root_entry_count = b.root_entry_count;
  media_descriptor = b.media_descriptor;
  total_sectors = total_sectors_of b;
  fat_size = fat_size_of b;
  root_dir_sectors = root_dir_sectors_of b;
  data_sectors = data_sectors;
  cluster_count = data_sectors / b.sectors_per_cluster;
}

unfoldable pub read_geometry : Bpb → Result UnknownReason FatGeometry
read_geometry b = elim (check_fields b) [
  | some reason ↦ err reason
  | none ↦ elim (data_sectors_of b) [
    | err reason ↦ err reason
    | ok data_sectors ↦ ok (geometry_of b data_sectors)
  ]
]

unfoldable pub variant : ℕ → Filesystem
variant cluster_count =
    if ltb cluster_count fat12_max_clusters
    then fat12
    else if ltb cluster_count fat16_max_clusters
    then fat16
    else fat32

-- "FAT32"
abbrev fat32_text : List ℕ
fat32_text = 0x46 ∷ 0x41 ∷ 0x54 ∷ 0x33 ∷ 0x32 ∷ []

-- The type string is read only to report disagreement.
unfoldable pub type_observations : Filesystem → List ℕ → List Observation
unfolding printable_ascii bytes_eq
type_observations fat32 sector = elim (printable_ascii (slice sector off_fs_type_32 8)) [
  | none ↦ []
  | some declared ↦
      if not (bytes_eq declared fat32_text) then type_string_disagrees declared fat32 ∷ [] else []
]
type_observations _ sector = []

unfoldable pub field_observations : FatGeometry → List Observation
field_observations g =
    (if not (g.bytes_per_sector == 512)
      then non_standard_sector_size g.bytes_per_sector ∷ []
      else [])
    ++ (if not (g.fat_count == 2) then unusual_fat_count g.fat_count ∷ [] else [])

unfoldable pub identify_fat : List ℕ → Option (List ℕ) → List Observation → Identification
identify_fat sector oem_name observations = elim (read_geometry (read_bpb sector)) [
  | err reason ↦ unknown reason
  | ok g ↦
      let fs = variant g.cluster_count in
      identified fs (some g) oem_name
        (observations ++ (field_observations g ++ type_observations fs sector))
]
