-- ===== src/Tests/BootRegions.antt =====
-- The theorems on exFAT boot regions, on a concrete one.
use taphonomy.Prelude.{
  ℕ, List, inl, inr, ok, set, byte, le_u16, le_u32, le_u64, bytes_eq, div_ceil, arith, ◌≡◌, ◌≢◌,
  refl,
}
use taphonomy.Partition.{sector_size}
use taphonomy.Exfat.Data.{main}
use taphonomy.Exfat.Checksum.{
  is_skipped, checksum_step, checksum_from, boot_checksum, differing_word, check_checksum,
}
use taphonomy.Exfat.Checksum.Detects.{boot_checksum-set_skipped, boot_checksum-ne-set}
use taphonomy.Exfat.Geometry.{
  minimum_fat_length, fat_end, heap_limit, expected_clusters, check_geometry,
}
use taphonomy.Exfat.Region.{
  shift_in_range, first_nonzero, check_size, check_identity, read_exfat_geometry,
  check_main_only_fields, check_volume, volume_observations, main_only, exfat_boot_of, check_region,
  validate_region,
}
use taphonomy.Exfat.Region.Sound.{IsExFat, IsSummed, validate_region-IsExFat}
use taphonomy.Exfat.Search.{
  volume_start, available, read_and_validate, settle_main, parse_from_head, parse_boot_region,
}
use taphonomy.Exfat.Search.Located.{Located, parse_boot_region-Located}
use taphonomy.Tests.Regions.{exfat_region, exfat_region-Bytes, exfat_disk, exfat_extent, exfat_boot}

region_validates : validate_region exfat_region main exfat_extent ≡ ok exfat_boot
unfolding validate_region check_region exfat_boot_of main_only volume_observations check_volume
    check_main_only_fields read_exfat_geometry check_identity check_size first_nonzero
    shift_in_range check_geometry minimum_fat_length fat_end heap_limit expected_clusters
    check_checksum differing_word boot_checksum checksum_from checksum_step is_skipped byte le_u16
    le_u32 le_u64 bytes_eq div_ceil
region_validates = refl

validate_region-IsExFat_example :
    IsExFat exfat_extent exfat_boot × IsSummed exfat_region 9 × (main ≡ main)
validate_region-IsExFat_example =
    validate_region-IsExFat exfat_region main exfat_extent exfat_boot region_validates

boot_checksum-set_skipped_example :
    boot_checksum (set exfat_region 107 50) 9 ≡ boot_checksum exfat_region 9
boot_checksum-set_skipped_example = boot_checksum-set_skipped exfat_region 9 107 50 (inr (inl refl))

boot_checksum-ne-set_example :
    boot_checksum (set exfat_region 96 5) 9 ≢ boot_checksum exfat_region 9
unfolding byte
boot_checksum-ne-set_example =
    boot_checksum-ne-set exfat_region 9 96 5 exfat_region-Bytes (omega arith) (omega arith)
      (omega arith) (λ e. omega arith) (λ e. omega arith) (λ e. omega arith) (λ e. omega arith)

boot_region_parses : parse_boot_region exfat_disk exfat_extent ≡ ok exfat_boot
unfolding parse_boot_region parse_from_head settle_main read_and_validate available volume_start
    validate_region check_region exfat_boot_of main_only volume_observations check_volume
    check_main_only_fields read_exfat_geometry check_identity check_size first_nonzero
    shift_in_range check_geometry minimum_fat_length fat_end heap_limit expected_clusters
    check_checksum differing_word boot_checksum checksum_from checksum_step is_skipped byte le_u16
    le_u32 le_u64 bytes_eq div_ceil
boot_region_parses = refl

parse_boot_region-Located_example :
    (head : List ℕ) × (exfat_disk.read_exact_at (volume_start exfat_disk exfat_extent) sector_size
      ≡ ok head)
    × Located exfat_disk exfat_extent head exfat_boot
parse_boot_region-Located_example =
    parse_boot_region-Located exfat_disk exfat_extent exfat_boot boot_region_parses
