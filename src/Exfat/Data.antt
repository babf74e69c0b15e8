-- ===== src/Exfat/Data.antt =====
-- src/exfat_boot.rs: the constants, offsets, boot sector and errors of an exFAT boot region.
use taphonomy.Prelude.{ℕ, ◌+◌, ◌^◌, Bool, Option, List, [], ◌∷◌, u32_mod, ◌%◌}

abbrev pub region_sectors : ℕ
region_sectors = 12

abbrev pub checksum_sectors : ℕ
checksum_sectors = 11

abbrev pub min_bytes_per_sector_shift : ℕ
min_bytes_per_sector_shift = 9

abbrev pub max_bytes_per_sector_shift : ℕ
max_bytes_per_sector_shift = 12

abbrev pub max_cluster_shift_sum : ℕ
max_cluster_shift_sum = 25

-- `u32::MAX - 10`
abbrev pub max_cluster_count : ℕ
max_cluster_count = 0xFFFF_FFF5

abbrev pub min_fat_offset : ℕ
min_fat_offset = 24

-- `1 << 20`
abbrev pub min_volume_bytes : ℕ
min_volume_bytes = 0x10_0000

abbrev pub fat_entry_bytes : ℕ
fat_entry_bytes = 4

abbrev pub max_revision_byte : ℕ
max_revision_byte = 99

abbrev pub supported_major_revision : ℕ
supported_major_revision = 1

abbrev pub base_clusters : ℕ
base_clusters = 2

abbrev pub off_jump : ℕ
off_jump = 0

abbrev pub off_file_system_name : ℕ
off_file_system_name = 3

abbrev pub off_must_be_zero : ℕ
off_must_be_zero = 11

abbrev pub must_be_zero_len : ℕ
must_be_zero_len = 53

abbrev pub off_volume_length : ℕ
off_volume_length = 72

abbrev pub off_fat_offset : ℕ
off_fat_offset = 80

abbrev pub off_fat_length : ℕ
off_fat_length = 84

abbrev pub off_cluster_heap_offset : ℕ
off_cluster_heap_offset = 88

abbrev pub off_cluster_count : ℕ
off_cluster_count = 92

abbrev pub off_root_cluster : ℕ
off_root_cluster = 96

abbrev pub off_volume_serial : ℕ
off_volume_serial = 100

abbrev pub off_revision_minor : ℕ
off_revision_minor = 104

abbrev pub off_revision_major : ℕ
off_revision_major = 105

abbrev pub off_volume_flags : ℕ
off_volume_flags = 106

abbrev pub off_bytes_per_sector_shift : ℕ
off_bytes_per_sector_shift = 108

abbrev pub off_sectors_per_cluster_shift : ℕ
off_sectors_per_cluster_shift = 109

abbrev pub off_number_of_fats : ℕ
off_number_of_fats = 110

abbrev pub off_percent_in_use : ℕ
off_percent_in_use = 112

abbrev pub checksum_skipped : List ℕ
checksum_skipped = 106 ∷ 107 ∷ 112 ∷ []

abbrev pub jump_boot : List ℕ
jump_boot = 0xEB ∷ 0x76 ∷ 0x90 ∷ []

-- "EXFAT   "
abbrev pub file_system_name : List ℕ
file_system_name = 0x45 ∷ 0x58 ∷ 0x46 ∷ 0x41 ∷ 0x54 ∷ 0x20 ∷ 0x20 ∷ 0x20 ∷ []

abbrev pub percent_not_available : ℕ
percent_not_available = 0xFF

-- `BootRegion::Main` and `BootRegion::Backup`
pub data BootRegion : Type 0 where
  main backup : BootRegion

pub data ExFatObservation : Type 0 where
  volume_shorter_than_partition : ℕ → ℕ → ExFatObservation

pub record ExFatBootSector : Type 0 where
  pub region : BootRegion
  pub bytes_per_sector_shift : ℕ
  pub sectors_per_cluster_shift : ℕ
  pub volume_length : ℕ
  pub fat_offset : ℕ
  pub fat_length : ℕ
  pub cluster_heap_offset : ℕ
  pub cluster_count : ℕ
  pub root_cluster : ℕ
  pub volume_serial : ℕ
  pub revision_minor : ℕ
  pub volume_flags : Option ℕ
  pub percent_in_use : Option ℕ
  pub observations : List ExFatObservation
  pub located_by_search : Bool

-- The two shifts of a `u32`, by fewer than 32 bits for every boot sector that the checks accept.
unfoldable pub bytes_per_sector : ExFatBootSector → ℕ
bytes_per_sector b = 2 ^ b.bytes_per_sector_shift % u32_mod

unfoldable pub exfat_cluster_bytes : ExFatBootSector → ℕ
exfat_cluster_bytes b = 2 ^ (b.bytes_per_sector_shift + b.sectors_per_cluster_shift) % u32_mod

pub data ExFatError : Type 0 where
  region_outside_partition : ℕ → ℕ → ExFatError
  backup_not_located : ExFatError
  bad_bytes_per_sector_shift : ℕ → ExFatError
  checksum_mismatch : ℕ → ℕ → ExFatError
  checksum_not_repeated : ℕ → ExFatError
  bad_jump_boot : List ℕ → ExFatError
  bad_file_system_name : List ℕ → ExFatError
  must_be_zero : ℕ → ExFatError
  boot_signature : List ℕ → ExFatError
  bad_sectors_per_cluster_shift : ℕ → ℕ → ExFatError
  number_of_fats : ℕ → ExFatError
  volume_length_too_small : ℕ → ℕ → ExFatError
  fat_offset_too_small : ℕ → ℕ → ExFatError
  fat_length_too_small : ℕ → ℕ → ExFatError
  cluster_heap_before_fat_end : ℕ → ℕ → ExFatError
  cluster_heap_offset_too_large : ℕ → ℕ → ExFatError
  cluster_count_too_large : ℕ → ExFatError
  cluster_count_too_small : ℕ → ℕ → ExFatError
  cluster_count_mismatch : ℕ → ℕ → ExFatError
  root_cluster_out_of_range : ℕ → ℕ → ExFatError
  revision_out_of_range : ℕ → ℕ → ExFatError
  revision_unsupported : ℕ → ℕ → ExFatError
  bad_active_fat : ℕ → ExFatError
  bad_percent_in_use : ℕ → ExFatError
  volume_longer_than_partition : ℕ → ℕ → ExFatError
  tex_fat : ExFatError

-- `unreadable` carries the evidence's error.
pub data ExFatBootFailure (E : Type 0) : Type 0 where
  unreadable : E → ExFatBootFailure E
  failed_tex_fat : BootRegion → ExFatBootFailure E
  rejected : ExFatError → ExFatError → ExFatBootFailure E
  ambiguous_backup : List ℕ → ExFatBootFailure E
