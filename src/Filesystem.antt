-- ===== src/Filesystem.antt =====
-- src/filesystem.rs: the types that identification answers with, and the helpers that read a volume
-- boot record. `identify` itself stands in Identify.antt, above the FAT parameter block that it reads.
use taphonomy.Prelude.{
  ℕ, Bool, true, false, ◌||◌, Option, none, some, List, [], ◌∷◌, String, ◌==◌, if◌then◌else◌, all,
  any, is_printable, trim_spaces,
}

abbrev pub vbr_size : ℕ
vbr_size = 512

pub record VolumeExtent : Type 0 where
  pub start_lba : ℕ
  pub sector_count : ℕ

abbrev pub off_jump : ℕ
off_jump = 0x00

abbrev pub off_oem : ℕ
off_oem = 0x03

abbrev pub off_signature : ℕ
off_signature = 0x1FE

abbrev pub signature : List ℕ
signature = 0x55 ∷ 0xAA ∷ []

pub data Filesystem : Type 0 where
  fat12 fat16 fat32 exfat ntfs : Filesystem

-- A field or a detail is the source's static text.
pub data UnknownReason : Type 0 where
  short_sector : ℕ → UnknownReason
  no_signature : List ℕ → UnknownReason
  no_jump_instruction : ℕ → UnknownReason
  invalid_bpb_field : String → ℕ → UnknownReason
  undeterminable_geometry : String → UnknownReason
  no_matching_signature : UnknownReason

-- A rendered text is the list of its bytes, all printable ASCII.
pub data Observation : Type 0 where
  type_string_disagrees : List ℕ → Filesystem → Observation
  unusual_fat_count : ℕ → Observation
  non_standard_sector_size : ℕ → Observation
  unprintable_oem_name : Observation

-- src/fat.rs `FatGeometry`, which an identification carries.
pub record FatGeometry : Type 0 where
  pub bytes_per_sector : ℕ
  pub sectors_per_cluster : ℕ
  pub reserved_sectors : ℕ
  pub fat_count : ℕ
  pub root_entry_count : ℕ
  pub media_descriptor : ℕ
  pub total_sectors : ℕ
  pub fat_size : ℕ
  pub root_dir_sectors : ℕ
  pub data_sectors : ℕ
  pub cluster_count : ℕ

pub data Identification : Type 0 where
  identified : Filesystem → Option FatGeometry → Option (List ℕ) → List Observation → Identification
  unknown : UnknownReason → Identification

unfoldable pub filesystem : Identification → Option Filesystem
filesystem (identified fs geometry oem observations) = some fs
filesystem (unknown reason) = none

-- The text of printable bytes, its trailing spaces dropped: among printable ASCII, a space is the
-- only character that `trim_end` drops.
unfoldable pub printable_ascii : List ℕ → Option (List ℕ)
printable_ascii bytes = if all is_printable bytes then some (trim_spaces bytes) else none

abbrev fs_eq : Filesystem → Filesystem → Bool
fs_eq fat12 fat12 = true
fs_eq fat16 fat16 = true
fs_eq fat32 fat32 = true
fs_eq exfat exfat = true
fs_eq ntfs ntfs = true
fs_eq _ _ = false

-- What a partition type byte leads one to expect, where it does.
unfoldable pub expected : ℕ → Option (List Filesystem)
expected t =
    if t == 0x01
    then some (fat12 ∷ [])
    else if t == 0x04 || t == 0x06 || t == 0x0E
    then some (fat16 ∷ [])
    else if t == 0x0B || t == 0x0C
    then some (fat32 ∷ [])
    else if t == 0x07
    then some (ntfs ∷ exfat ∷ [])
    else none

unfoldable pub declared_type_matches : ℕ → Filesystem → Option Bool
unfolding expected
declared_type_matches t fs = elim (expected t) [
  | none ↦ none
  | some list ↦ some (any (fs_eq fs) list)
]
