-- ===== src/Exfat/Region/Sound.antt =====
-- src/exfat_boot.rs `validate_region`: the boot region that it accepts.
use taphonomy.Prelude.{
  ℕ, ◌+◌, ◌-◌, ◌*◌, ◌^◌, ◌≤◌, false, Option, none, some, List, ok, ◌==◌, length, slice, byte,
  le_u32, le_u64, arith, ◌≡◌, refl, ◌⊎◌, inl, inr, Option-cases,
}
use taphonomy.Partition.{sector_size}
use taphonomy.Filesystem.{VolumeExtent}
use taphonomy.Exfat.Data.{
  checksum_sectors, region_sectors, off_bytes_per_sector_shift, off_sectors_per_cluster_shift,
  off_number_of_fats, off_volume_length, BootRegion, ExFatBootSector, ExFatError,
}
use taphonomy.Exfat.Checksum.{boot_checksum, check_checksum}
use taphonomy.Exfat.Geometry.{Geometry, check_geometry}
use taphonomy.Exfat.Geometry.Consistent.{IsConsistent, check_geometry-IsConsistent}
use taphonomy.Exfat.Region.{
  shift_in_range, check_size, check_identity, read_exfat_geometry, check_volume, exfat_boot_of,
  ◌else_check◌, check_region, validate_region,
}

-- The geometry that a boot sector holds, with one FAT.
abbrev pub geometry_of_boot : ExFatBootSector → Geometry
geometry_of_boot b = record {
  volume_length = b.volume_length;
  fat_offset = b.fat_offset;
  fat_length = b.fat_length;
  cluster_heap_offset = b.cluster_heap_offset;
  cluster_count = b.cluster_count;
  root_cluster = b.root_cluster;
  shift = b.bytes_per_sector_shift;
  cluster_shift = b.sectors_per_cluster_shift;
  fats = 1;
}

pub record IsExFat (extent : VolumeExtent) (b : ExFatBootSector) : Type 0 where
  pub sector_shift : (9 ≤ b.bytes_per_sector_shift) × (b.bytes_per_sector_shift ≤ 12)
  pub cluster_limit : b.bytes_per_sector_shift + b.sectors_per_cluster_shift ≤ 25
  pub consistent : IsConsistent (geometry_of_boot b)
  pub volume_in_partition :
      b.volume_length * 2 ^ b.bytes_per_sector_shift ≤ extent.sector_count * sector_size
  pub heap_in_partition :
      (b.cluster_heap_offset + b.cluster_count * 2 ^ b.sectors_per_cluster_shift)
        * 2 ^ b.bytes_per_sector_shift
      ≤ extent.sector_count * sector_size

-- The checksum that the region stores is the one that it computes.
abbrev pub IsSummed : List ℕ → ℕ → Type 0
IsSummed region shift =
    boot_checksum region shift ≡ le_u32 (slice region (checksum_sectors * 2 ^ shift) (2 ^ shift)) 0

else_check-none : (a b : Option ExFatError) → (a else_check b) ≡ none → (a ≡ none) × (b ≡ none)
else_check-none none b h = (refl, h)
else_check-none (some e) b h = cc

module _ (region : List ℕ) (shift : ℕ) where
  check_size-none :
      check_size region ≡ none
      → (9 ≤ byte region off_bytes_per_sector_shift)
        × (byte region off_bytes_per_sector_shift ≤ 12)
        × (region_sectors * 2 ^ byte region off_bytes_per_sector_shift ≤ length region)
  unfolding check_size shift_in_range
  check_size-none h = ground arith

  check_checksum-none : check_checksum region shift (2 ^ shift) ≡ none → IsSummed region shift
  unfolding check_checksum
  check_checksum-none h = ground arith

  check_identity-none :
      check_identity region shift ≡ none
      → (byte region off_sectors_per_cluster_shift ≤ 25 - shift)
        × ((byte region off_number_of_fats ≡ 1) ⊎ (byte region off_number_of_fats ≡ 2))
  unfolding check_identity
  check_identity-none h = ground arith

  check_volume-none :
      (which : BootRegion) (extent : VolumeExtent)
      → check_volume region shift which extent ≡ none
      → (le_u64 region off_volume_length * 2 ^ shift ≤ extent.sector_count * sector_size)
        × ((byte region off_number_of_fats == 2) ≡ false)
  unfolding check_volume
  check_volume-none which extent h = ground arith

-- What the tests together say of a region, at its own sector size.
record Checked (region : List ℕ) (which : BootRegion) (extent : VolumeExtent) : Type 0 where
  size : check_size region ≡ none
  sums :
      check_checksum region
        (byte region off_bytes_per_sector_shift)
        (2 ^ byte region off_bytes_per_sector_shift)
      ≡ none
  identity : check_identity region (byte region off_bytes_per_sector_shift) ≡ none
  geometry :
      check_geometry (read_exfat_geometry region (byte region off_bytes_per_sector_shift)) ≡ none
  volume : check_volume region (byte region off_bytes_per_sector_shift) which extent ≡ none

heap_bytes :
    (heap volume sector total : ℕ) → heap ≤ volume → volume * sector ≤ total → heap * sector ≤ total
heap_bytes heap volume sector total le h = grind arith

module _ (region : List ℕ) (which : BootRegion) (extent : VolumeExtent) where
  abbrev shift : ℕ
  shift = byte region off_bytes_per_sector_shift

  check_region-Checked : check_region region which extent ≡ none → Checked region which extent
  unfolding check_region
  check_region-Checked h =
      let (h3, volume) = else_check-none _ (check_volume region shift which extent) h in
      let (h2, geometry) =
        else_check-none _ (check_geometry (read_exfat_geometry region shift)) h3 in
      let (h1, identity) = else_check-none _ (check_identity region shift) h2 in
      let (size, sums) =
        else_check-none (check_size region) (check_checksum region shift (2 ^ shift)) h1 in
      record { size = size; sums = sums; identity = identity; geometry = geometry; volume = volume }

  one_fat : Checked region which extent → byte region off_number_of_fats ≡ 1
  one_fat c =
      let (bounded, fats) = check_identity-none region shift c.identity in
      let (fits, not_two) = check_volume-none region shift which extent c.volume in grind arith

  Checked-IsExFat :
      Checked region which extent → IsExFat extent (exfat_boot_of region shift which extent)
  unfolding exfat_boot_of read_exfat_geometry
  Checked-IsExFat c =
      let (from, to, long) = check_size-none region shift c.size in
      let (bounded, fats) = check_identity-none region shift c.identity in
      let (fits, not_two) = check_volume-none region shift which extent c.volume in
      let is =
        rw (one_fat c) at
          (check_geometry-IsConsistent (read_exfat_geometry region shift) c.geometry) in
      record {
        sector_shift = (from, to);
        cluster_limit = omega arith;
        consistent = is;
        volume_in_partition = fits;
        heap_in_partition =
            heap_bytes _ (le_u64 region off_volume_length) (2 ^ shift) _ is.heap_in_volume fits;
      }

  -- A boot region that `validate_region` accepts, main or backup, stores the checksum that it computes,
  -- and its geometry is sound: sector and cluster sizes within the specification, one FAT that begins
  -- behind both boot regions and describes every cluster, the cluster heap behind the FAT and as large as
  -- the volume allows, the root directory in the heap, and the whole volume inside the partition.
  pub validate_region-IsExFat :
      (b : ExFatBootSector)
      → validate_region region which extent ≡ ok b
      → IsExFat extent b × IsSummed region b.bytes_per_sector_shift × (b.region ≡ which)
  unfolding validate_region exfat_boot_of
  validate_region-IsExFat b h = elim (Option-cases (check_region region which extent)) [
    | inr (e, refused) ↦ let h' = rw (refused, validate_region) at h in cc
    | inl passes ↦
        let c = check_region-Checked passes in
        let same : b ≡ exfat_boot_of region shift which extent =
          cc (rw (passes, validate_region) at h) in
        rw same (Checked-IsExFat c, check_checksum-none region shift c.sums, refl)
  ]
