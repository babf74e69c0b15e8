-- ===== src/Directory/Offsets/Layout.antt =====
-- src/fat_directory.rs `cluster_offset` and `fat_entry_offset`, on an accepted boot sector.
use taphonomy.Prelude.{ℕ, ◌+◌, ◌-◌, ◌*◌, ◌≤◌, ◌<◌, some, ok, u32_mod, arith, ◌≡◌, refl, ◌∙◌, ap}
use taphonomy.Filesystem.{VolumeExtent}
use taphonomy.Fat.{first_data_cluster, first_data_sector, cluster_bytes}
use taphonomy.Fat.Geometry.{first_data_sector_exact, cluster_bytes_exact, clusters_fit}
use taphonomy.Fat32.{Fat32BootSector, first_data_sector_absolute, fat32_entry_bytes}
use taphonomy.Fat32.Sound.{IsExtent, IsBoot}
use taphonomy.Evidence.{EvidenceReader}
use taphonomy.Directory.Offsets.{cluster_position, fat_position, cluster_offset, fat_entry_offset}

module _ (boot : Fat32BootSector) (extent : VolumeExtent) (v : IsBoot extent boot)
    (w : IsExtent extent) where
  open boot use {geometry as g}

  -- A cluster number of the data region.
  abbrev pub InData : ℕ → Type 0
  InData cluster = (first_data_cluster ≤ cluster) × (cluster < g.cluster_count + first_data_cluster)

  -- Where a cluster begins, as a number of sectors of the evidence.
  abbrev pub cluster_sector : ℕ → ℕ
  cluster_sector cluster =
      (cluster - first_data_cluster) * g.sectors_per_cluster
      + (extent.start_lba + first_data_sector g)

  -- The cluster's last sector is a sector of the volume.
  pub cluster_sector-le :
      (cluster : ℕ)
      → InData cluster
      → cluster_sector cluster + g.sectors_per_cluster ≤ extent.start_lba + extent.sector_count
  cluster_sector-le cluster (from, to) =
      let ends = first_data_sector_exact g v.geometry in
      let fit = clusters_fit g v.geometry in
      let inside = v.in_extent in
      let before : cluster - first_data_cluster + 1 ≤ g.cluster_count = omega arith in
      let product : (cluster - first_data_cluster + 1) * g.sectors_per_cluster
          ≤ g.cluster_count * g.sectors_per_cluster =
        grind arith in
      omega arith

  cluster_bytes_512 : cluster_bytes g ≡ 512 * g.sectors_per_cluster
  cluster_bytes_512 =
      cluster_bytes_exact g v.geometry ∙ ap (λ (s : ℕ). s * g.sectors_per_cluster) v.sector_512

  cluster_position-some :
      (cluster : ℕ)
      → InData cluster
      → cluster_position boot extent cluster ≡ some (cluster_sector cluster * 512)
  unfolding cluster_position first_data_sector_absolute
  cluster_position-some cluster i =
      let bound = cluster_sector-le cluster i in
      let size = v.sector_512 in
      let start = w.start_word in let count = w.count_word in ground arith

  -- The first sector of a FAT, as a number of sectors of the evidence.
  abbrev pub fat_sector : ℕ → ℕ
  fat_sector fat_index = fat_index * g.fat_size + g.reserved_sectors + extent.start_lba

  fat_sector_bounds :
      (fat_index : ℕ)
      → fat_index < g.fat_count
      → (fat_sector fat_index + g.fat_size ≤ extent.start_lba + first_data_sector g)
        × (extent.start_lba + first_data_sector g ≤ 2 * u32_mod)
  fat_sector_bounds fat_index lt =
      let ends = first_data_sector_exact g v.geometry in
      let sum = v.geometry.regions in
      let count = w.start_word in
      let total = v.geometry.total_word in
      let product : (fat_index + 1) * g.fat_size ≤ g.fat_count * g.fat_size = grind arith in
      omega arith

  fat_position-some :
      (fat_index cluster : ℕ)
      → fat_index < g.fat_count
      → cluster < g.cluster_count + first_data_cluster
      → fat_position boot extent fat_index cluster
        ≡ some (cluster * fat32_entry_bytes + fat_sector fat_index * 512)
  unfolding fat_position
  fat_position-some fat_index cluster lt to =
      let bounds = fat_sector_bounds fat_index lt in
      let size = v.sector_512 in let holds = v.fat_holds in ground arith

  module _ {E : Type 0} (reader : EvidenceReader E) where
    -- The offset of a cluster of the data region is computed without overflow, and the whole cluster
    -- lies between the start of the data region and the end of the volume's extent.
    pub cluster_offset_within :
        (cluster : ℕ)
        → InData cluster
        → (offset : ℕ) × (cluster_offset reader boot extent cluster ≡ ok offset)
          × ((extent.start_lba + first_data_sector g) * 512 ≤ offset)
          × (offset + cluster_bytes g ≤ (extent.start_lba + extent.sector_count) * 512)
    unfolding cluster_offset
    cluster_offset_within cluster i =
        let bound = cluster_sector-le cluster i in
        let bytes = cluster_bytes_512 in
        (
          cluster_sector cluster * 512,
          rw (cluster_position-some cluster i) refl,
          omega arith,
          omega arith,
        )

    -- Two clusters of the data region never share a byte: the later one begins where the earlier one
    -- has ended, or after.
    pub cluster_offset_disjoint :
        (c d a b : ℕ)
        → InData c
        → InData d
        → c < d
        → cluster_offset reader boot extent c ≡ ok a
        → cluster_offset reader boot extent d ≡ ok b
        → a + cluster_bytes g ≤ b
    unfolding cluster_offset
    cluster_offset_disjoint c d a b ic id lt ha hb =
        let at_c = rw (cluster_position-some c ic) at ha in
        let at_d = rw (cluster_position-some d id) at hb in
        let a_is : cluster_sector c * 512 ≡ a = ground arith in
        let b_is : cluster_sector d * 512 ≡ b = ground arith in
        let bytes = cluster_bytes_512 in
        let product : (c - first_data_cluster + 1) * g.sectors_per_cluster
            ≤ (d - first_data_cluster) * g.sectors_per_cluster =
          grind arith in
        omega arith

    -- The offset of a cluster's entry in a FAT of the volume is computed without overflow, and the
    -- entry's four bytes lie in that FAT, before the data region.
    pub fat_entry_offset_within :
        (fat_index cluster : ℕ)
        → fat_index < g.fat_count
        → cluster < g.cluster_count + first_data_cluster
        → (offset : ℕ) × (fat_entry_offset reader boot extent fat_index cluster ≡ ok offset)
          × (fat_sector fat_index * 512 ≤ offset)
          × (offset + fat32_entry_bytes ≤ (fat_sector fat_index + g.fat_size) * 512)
          × (offset + fat32_entry_bytes ≤ (extent.start_lba + first_data_sector g) * 512)
    unfolding fat_entry_offset
    fat_entry_offset_within fat_index cluster lt to =
        let bounds = fat_sector_bounds fat_index lt in
        let holds = v.fat_holds in
        (
          cluster * fat32_entry_bytes + fat_sector fat_index * 512,
          rw (fat_position-some fat_index cluster lt to) refl,
          omega arith,
          omega arith,
          omega arith,
        )
