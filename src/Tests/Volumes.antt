-- ===== src/Tests/Volumes.antt =====
-- The theorems on boot sectors, on a concrete one.
use taphonomy.Prelude.{
  ℕ, ◌+◌, ◌*◌, ◌≤◌, checked_mul, [], ◌∷◌, some, ok, length, slice, Bytes, arith, ◌≡◌, refl,
  bytes_eq, byte, le_u16, le_u32, is_printable, trim_spaces, is_power_of_two, div_ceil,
  saturating_add, saturating_mul, checked_sub, checked_add,
}
use taphonomy.Filesystem.{
  vbr_size, off_signature, signature, fat32, identified, printable_ascii, declared_type_matches,
  expected,
}
use taphonomy.Fat.{
  read_bpb, total_sectors_of, fat_size_of, check_fields, root_dir_sectors_of, metadata_sectors_of,
  data_sectors_of, geometry_of, read_geometry, variant, type_observations, field_observations,
  identify_fat, data_clusters, first_data_sector,
}
use taphonomy.Identify.{identify, identify_oem, oem_observations}
use taphonomy.Identify.Sound.{Establishes, identify-Establishes}
use taphonomy.Fat.Geometry.{IsGeometry, read_geometry-IsGeometry, first_data_sector_exact}
use taphonomy.Fat32.{
  parse_boot_sector, parse_fat32, fat32_geometry, read_declared, check_declared, check_extent,
  observe, boot_of, label_present, last_cluster, is_mirrored, active_index,
}
use taphonomy.Fat32.Sound.{IsBoot, parse_boot_sector-IsBoot}
use taphonomy.Tests.Sectors.{boot_record, are_bytes-Bytes}
use taphonomy.Fat32.{first_data_sector_absolute, fat32_entry_bytes}
use taphonomy.Fat32.Sound.{IsExtent}
use taphonomy.Fat.{cluster_bytes}
use taphonomy.Directory.Offsets.{cluster_offset, cluster_position, fat_entry_offset}
use taphonomy.Directory.Offsets.Layout.{
  fat_sector, cluster_offset_within, cluster_offset_disjoint, fat_entry_offset_within,
}
use taphonomy.Tests.Disk.{geometry, extent, boot, disk}

boot_record-Bytes : Bytes boot_record
boot_record-Bytes = are_bytes-Bytes boot_record refl

geometry_reads : read_geometry (read_bpb boot_record) ≡ ok geometry
unfolding read_geometry read_bpb check_fields total_sectors_of fat_size_of root_dir_sectors_of
    metadata_sectors_of data_sectors_of geometry_of byte le_u16 le_u32 is_power_of_two div_ceil
    checked_sub checked_add saturating_add saturating_mul data_clusters
geometry_reads = refl

identifies :
    identify boot_record
    ≡ identified fat32 (some geometry) (some (77 ∷ 83 ∷ 68 ∷ 79 ∷ 83 ∷ 53 ∷ 46 ∷ 48 ∷ [])) []
unfolding identify identify_oem oem_observations identify_fat read_geometry read_bpb check_fields
    total_sectors_of fat_size_of root_dir_sectors_of metadata_sectors_of data_sectors_of geometry_of
    byte le_u16 le_u32 is_power_of_two div_ceil checked_sub checked_add saturating_add
    saturating_mul data_clusters bytes_eq printable_ascii is_printable trim_spaces variant
    type_observations field_observations declared_type_matches expected
identifies = refl

boot_parses : parse_boot_sector boot_record extent ≡ ok boot
unfolding parse_boot_sector parse_fat32 fat32_geometry read_declared check_declared check_extent
    observe boot_of label_present last_cluster is_mirrored active_index identify identify_oem
    oem_observations identify_fat read_geometry read_bpb check_fields total_sectors_of fat_size_of
    root_dir_sectors_of metadata_sectors_of data_sectors_of geometry_of byte le_u16 le_u32
    is_power_of_two div_ceil checked_sub checked_add saturating_add saturating_mul data_clusters
    bytes_eq printable_ascii is_printable trim_spaces variant type_observations field_observations
    declared_type_matches expected
boot_parses = refl

read_geometry-IsGeometry_example : IsGeometry geometry
read_geometry-IsGeometry_example =
    read_geometry-IsGeometry boot_record geometry boot_record-Bytes geometry_reads

identify-Establishes_example :
    (vbr_size ≤ length boot_record)
    × (slice boot_record off_signature 2 ≡ signature)
    × Establishes boot_record fat32 (some geometry)
identify-Establishes_example =
    identify-Establishes boot_record boot_record-Bytes fat32 (some geometry)
      (some (77 ∷ 83 ∷ 68 ∷ 79 ∷ 83 ∷ 53 ∷ 46 ∷ 48 ∷ [])) [] identifies

parse_boot_sector-IsBoot_example : IsBoot extent boot
parse_boot_sector-IsBoot_example =
    parse_boot_sector-IsBoot boot_record extent boot boot_record-Bytes boot_parses

pub boot-IsBoot : IsBoot extent boot
boot-IsBoot = parse_boot_sector-IsBoot boot_record extent boot boot_record-Bytes boot_parses

pub extent-IsExtent : IsExtent extent
extent-IsExtent = record { start_word = omega arith; count_word = omega arith }

first_data_sector_exact_example : first_data_sector geometry + 68874 ≡ 70000
first_data_sector_exact_example = first_data_sector_exact geometry boot-IsBoot.geometry

cluster_offset_within_example :
    (offset : ℕ) × (cluster_offset disk boot extent 5 ≡ ok offset)
    × ((2048 + first_data_sector geometry) * 512 ≤ offset)
    × (offset + cluster_bytes geometry ≤ (2048 + 70000) * 512)
cluster_offset_within_example =
    cluster_offset_within boot extent boot-IsBoot extent-IsExtent disk 5 (omega arith, omega arith)

cluster_offset_disjoint_example : 1_626_624 + cluster_bytes geometry ≤ 1_627_136
unfolding cluster_offset cluster_position first_data_sector_absolute checked_sub checked_mul
    checked_add first_data_sector
cluster_offset_disjoint_example =
    cluster_offset_disjoint boot extent boot-IsBoot extent-IsExtent disk 5 6 1_626_624 1_627_136
      (omega arith, omega arith) (omega arith, omega arith) (omega arith) refl refl

fat_entry_offset_within_example :
    (offset : ℕ) × (fat_entry_offset disk boot extent 0 5 ≡ ok offset)
    × (fat_sector boot extent boot-IsBoot extent-IsExtent 0 * 512 ≤ offset)
    × (offset + fat32_entry_bytes
        ≤ (fat_sector boot extent boot-IsBoot extent-IsExtent 0 + 547) * 512)
    × (offset + fat32_entry_bytes ≤ (2048 + first_data_sector geometry) * 512)
fat_entry_offset_within_example =
    fat_entry_offset_within boot extent boot-IsBoot extent-IsExtent disk 0 5 (omega arith)
      (omega arith)
