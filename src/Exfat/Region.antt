-- ===== src/Exfat/Region.antt =====
-- src/exfat_boot.rs `validate_region`: one boot region, checked from the sector size on.
pub mod Sound
use taphonomy.Prelude.{
  ℕ, zero, suc, ◌+◌, ◌-◌, ◌*◌, ◌^◌, ◌%◌, Bool, true, false, not, ◌&&◌, ◌||◌, Option, none, some,
  List, [], ◌∷◌, Result, ok, err, ltb, ◌==◌, if◌then◌else◌, bytes_eq, length, slice, byte, le_u16,
  le_u32, le_u64,
}
use taphonomy.Partition.{sector_size}
use taphonomy.Filesystem.{VolumeExtent, off_signature, signature}
use taphonomy.Exfat.Data.{
  region_sectors, min_bytes_per_sector_shift, max_bytes_per_sector_shift, max_cluster_shift_sum,
  max_revision_byte, supported_major_revision, off_jump, off_file_system_name, off_must_be_zero,
  must_be_zero_len, off_volume_length, off_fat_offset, off_fat_length, off_cluster_heap_offset,
  off_cluster_count, off_root_cluster, off_volume_serial, off_revision_minor, off_revision_major,
  off_volume_flags, off_bytes_per_sector_shift, off_sectors_per_cluster_shift, off_number_of_fats,
  off_percent_in_use, jump_boot, file_system_name, percent_not_available, BootRegion, main, backup,
  ExFatObservation, volume_shorter_than_partition, ExFatBootSector, ExFatError,
  region_outside_partition, bad_bytes_per_sector_shift, bad_jump_boot, bad_file_system_name,
  must_be_zero, boot_signature, bad_sectors_per_cluster_shift, number_of_fats,
  revision_out_of_range, revision_unsupported, bad_active_fat, bad_percent_in_use,
  volume_longer_than_partition, tex_fat,
}
use taphonomy.Exfat.Checksum.{check_checksum}
use taphonomy.Exfat.Geometry.{Geometry, check_geometry}

unfoldable pub shift_in_range : ℕ → Bool
shift_in_range shift =
    not (ltb shift min_bytes_per_sector_shift) && not (ltb max_bytes_per_sector_shift shift)

-- `iter().position(|&b| b != 0)`
unfoldable pub first_nonzero : ℕ → List ℕ → Option ℕ
first_nonzero at [] = none
first_nonzero at (b ∷ bs) =
    let rest = first_nonzero (at + 1) bs in if not (b == 0) then some at else rest

-- The length of the region and the sector size.
unfoldable pub check_size : List ℕ → Option ExFatError
unfolding shift_in_range
check_size region =
    let shift = byte region off_bytes_per_sector_shift in
    if ltb (length region) sector_size
    then some (region_outside_partition sector_size (length region))
    else if not (shift_in_range shift)
    then some (bad_bytes_per_sector_shift shift)
    else if ltb (length region) (region_sectors * 2 ^ shift)
    then some (region_outside_partition (region_sectors * 2 ^ shift) (length region))
    else none

-- The fields that say what the region is, from the jump to the number of FATs.
unfoldable pub check_identity : List ℕ → ℕ → Option ExFatError
check_identity region shift =
    let cluster_shift = byte region off_sectors_per_cluster_shift in
    let fats = byte region off_number_of_fats in
    let zeros = first_nonzero 0 (slice region off_must_be_zero must_be_zero_len) in
    if not (bytes_eq (slice region off_jump 3) jump_boot)
    then some (bad_jump_boot (slice region off_jump 3))
    else if not (bytes_eq (slice region off_file_system_name 8) file_system_name)
    then some (bad_file_system_name (slice region off_file_system_name 8))
    else elim zeros [
      | some offset ↦ some (must_be_zero (off_must_be_zero + offset))
      | none ↦
          if not (bytes_eq (slice region off_signature 2) signature)
          then some (boot_signature (slice region off_signature 2))
          else if ltb (max_cluster_shift_sum - shift) cluster_shift
          then some (bad_sectors_per_cluster_shift cluster_shift (max_cluster_shift_sum - shift))
          else if not (fats == 1) && not (fats == 2)
          then some (number_of_fats fats)
          else none
    ]

unfoldable pub read_exfat_geometry : List ℕ → ℕ → Geometry
read_exfat_geometry region shift = record {
  volume_length = le_u64 region off_volume_length;
  fat_offset = le_u32 region off_fat_offset;
  fat_length = le_u32 region off_fat_length;
  cluster_heap_offset = le_u32 region off_cluster_heap_offset;
  cluster_count = le_u32 region off_cluster_count;
  root_cluster = le_u32 region off_root_cluster;
  shift = shift;
  cluster_shift = byte region off_sectors_per_cluster_shift;
  fats = byte region off_number_of_fats;
}

unfoldable pub check_main_only_fields : ℕ → ℕ → ℕ → Option ExFatError
check_main_only_fields flags percent fats =
    if flags % 2 == 1 && fats == 1
    then some (bad_active_fat flags)
    else if ltb 100 percent && not (percent == percent_not_available)
    then some (bad_percent_in_use percent)
    else none

-- The revision, the fields of the main region alone, and the volume's length in bytes.
unfoldable pub check_volume : List ℕ → ℕ → BootRegion → VolumeExtent → Option ExFatError
check_volume region shift which extent =
    let major = byte region off_revision_major in
    let minor = byte region off_revision_minor in
    let fats = byte region off_number_of_fats in
    let volume_bytes = le_u64 region off_volume_length * 2 ^ shift in
    let partition_bytes = extent.sector_count * sector_size in
    let length_error =
      if ltb partition_bytes volume_bytes
      then some (volume_longer_than_partition volume_bytes partition_bytes)
      else if fats == 2
      then some tex_fat
      else none in
    if ltb max_revision_byte major || ltb max_revision_byte minor
    then some (revision_out_of_range major minor)
    else if not (major == supported_major_revision)
    then some (revision_unsupported major minor)
    else elim which [
      | main ↦
          elim (check_main_only_fields (le_u16 region off_volume_flags)
            (byte region off_percent_in_use) fats) [ some e ↦ some e | none ↦ length_error ]
      | backup ↦ length_error
    ]

unfoldable pub volume_observations : ℕ → ℕ → List ExFatObservation
volume_observations volume_bytes partition_bytes =
    if ltb volume_bytes partition_bytes
    then volume_shorter_than_partition volume_bytes partition_bytes ∷ []
    else []

unfoldable pub main_only : BootRegion → ℕ → Option ℕ
main_only main value = some value
main_only backup value = none

unfoldable pub exfat_boot_of : List ℕ → ℕ → BootRegion → VolumeExtent → ExFatBootSector
exfat_boot_of region shift which extent = record {
  region = which;
  bytes_per_sector_shift = shift;
  sectors_per_cluster_shift = byte region off_sectors_per_cluster_shift;
  volume_length = le_u64 region off_volume_length;
  fat_offset = le_u32 region off_fat_offset;
  fat_length = le_u32 region off_fat_length;
  cluster_heap_offset = le_u32 region off_cluster_heap_offset;
  cluster_count = le_u32 region off_cluster_count;
  root_cluster = le_u32 region off_root_cluster;
  volume_serial = le_u32 region off_volume_serial;
  revision_minor = byte region off_revision_minor;
  volume_flags = main_only which (le_u16 region off_volume_flags);
  percent_in_use = main_only which (byte region off_percent_in_use);
  observations =
      volume_observations (le_u64 region off_volume_length * 2 ^ shift)
        (extent.sector_count * sector_size);
  located_by_search = false;
}

infixl 5 ◌else_check◌
-- One test after another: the first refusal stands.
abbrev pub ◌else_check◌ : Option ExFatError → Option ExFatError → Option ExFatError
some e else_check next = some e
none else_check next = next

-- Every test, in the source's order.
unfoldable pub check_region : List ℕ → BootRegion → VolumeExtent → Option ExFatError
check_region region which extent =
    let shift = byte region off_bytes_per_sector_shift in
    check_size region
    else_check check_checksum region shift (2 ^ shift)
    else_check check_identity region shift
    else_check check_geometry (read_exfat_geometry region shift)
    else_check check_volume region shift which extent

unfoldable pub validate_region :
    List ℕ → BootRegion → VolumeExtent → Result ExFatError ExFatBootSector
validate_region region which extent = elim (check_region region which extent) [
  | some e ↦ err e
  | none ↦ ok (exfat_boot_of region (byte region off_bytes_per_sector_shift) which extent)
]
