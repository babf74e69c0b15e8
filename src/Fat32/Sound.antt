-- ===== src/Fat32/Sound.antt =====
-- src/fat32.rs: the FAT32 boot sector that `parse_boot_sector` accepts.
use taphonomy.Prelude.{
  ℕ, ◌+◌, ◌*◌, ◌≤◌, ◌<◌, false, Option, none, some, List, ok, Bytes, arith, ◌≡◌, refl, ◌≢◌, ◌⊎◌,
  inl, inr, Option-cases, u32_mod,
}
use taphonomy.Filesystem.{
  Filesystem, fat12, fat16, fat32, exfat, ntfs, FatGeometry, Identification, Observation,
  identified, unknown, VolumeExtent,
}
use taphonomy.Fat.{first_data_cluster, fat16_max_clusters}
use taphonomy.Fat.Geometry.{IsGeometry}
use taphonomy.Identify.{identify}
use taphonomy.Identify.Sound.{Establishes, identify-Establishes}
use taphonomy.Fat32.{
  Fat32BootSector, Declared, no_sector, fat32_entry_bytes, check_declared, check_extent, boot_of,
  parse_fat32, fat32_geometry, parse_boot_sector, is_mirrored, active_index, active_fat,
  read_declared,
}

-- The extent's fields are 32-bit words.
pub record IsExtent (e : VolumeExtent) : Type 0 where
  pub start_word : e.start_lba < u32_mod
  pub count_word : e.sector_count < u32_mod

-- A structure of the reserved region is absent or lies there.
abbrev pub IsReserved : ℕ → ℕ → Type 0
IsReserved reserved s = (s ≡ no_sector) ⊎ (s < reserved)

pub record IsBoot (extent : VolumeExtent) (b : Fat32BootSector) : Type 0 where
  pub geometry : IsGeometry b.geometry
  pub sector_512 : b.geometry.bytes_per_sector ≡ 512
  pub no_fixed_root : b.geometry.root_entry_count ≡ 0
  pub fat32_count : fat16_max_clusters ≤ b.geometry.cluster_count
  pub in_extent : b.geometry.total_sectors ≤ extent.sector_count
  pub root_from : first_data_cluster ≤ b.root_cluster
  pub root_to : b.root_cluster < b.geometry.cluster_count + first_data_cluster
  pub fat_holds :
      (b.geometry.cluster_count + first_data_cluster) * fat32_entry_bytes
      ≤ b.geometry.fat_size * 512
  pub info : IsReserved b.geometry.reserved_sectors b.fs_info_sector
  pub info_nonzero : b.fs_info_sector ≢ 0
  pub backup : IsReserved b.geometry.reserved_sectors b.backup_boot_sector
  pub active : (i : ℕ) → active_fat b ≡ some i → i < b.geometry.fat_count

module _ (g : FatGeometry) (d : Declared) (extent : VolumeExtent) where
  -- What passing the checks says of the declared fields.
  record Passes : Type 0 where
    sector_512 : g.bytes_per_sector ≡ 512
    no_fixed_root : g.root_entry_count ≡ 0
    info : IsReserved g.reserved_sectors d.fs_info_sector
    info_nonzero : d.fs_info_sector ≢ 0
    backup :
        (d.backup_boot_sector ≡ 0)
        ⊎ (d.backup_boot_sector ≡ no_sector)
        ⊎ (d.backup_boot_sector < g.reserved_sectors)

  record Fits : Type 0 where
    in_extent : g.total_sectors ≤ extent.sector_count
    root_from : first_data_cluster ≤ d.root_cluster
    root_to : d.root_cluster < g.cluster_count + first_data_cluster
    fat_holds :
        (g.cluster_count + first_data_cluster) * fat32_entry_bytes ≤ g.fat_size * g.bytes_per_sector
    active : is_mirrored d.ext_flags ≡ false → active_index d.ext_flags < g.fat_count

  check_declared-Passes : check_declared g d ≡ none → Passes
  unfolding check_declared
  check_declared-Passes h = ground arith

  check_extent-Fits : check_extent g d extent ≡ none → Fits
  unfolding check_extent
  check_extent-Fits h = ground arith

fat32_geometry-Establishes :
    (sector : List ℕ) (i : Identification) (g : FatGeometry)
    → ((fs : Filesystem) (geometry : Option FatGeometry) (oem : Option (List ℕ))
          (obs : List Observation)
        → i ≡ identified fs geometry oem obs
        → Establishes sector fs geometry)
    → fat32_geometry i ≡ some g
    → IsGeometry g × (fat16_max_clusters ≤ g.cluster_count)
unfolding fat32_geometry
fat32_geometry-Establishes sector (identified fat32 (some g') oem obs) g says h =
    let same : g' ≡ g = cc in rw (← same) (says fat32 (some g') oem obs refl)
fat32_geometry-Establishes sector (identified fat32 none oem obs) g says h = cc
fat32_geometry-Establishes sector (identified fat12 geometry oem obs) g says h = cc
fat32_geometry-Establishes sector (identified fat16 geometry oem obs) g says h = cc
fat32_geometry-Establishes sector (identified exfat geometry oem obs) g says h = cc
fat32_geometry-Establishes sector (identified ntfs geometry oem obs) g says h = cc
fat32_geometry-Establishes sector (unknown reason) g says h = cc

boot_of-active :
    (sector : List ℕ) (g : FatGeometry) (d : Declared) (extent : VolumeExtent)
    → Fits g d extent
    → (i : ℕ) → active_fat (boot_of sector g d extent) ≡ some i
    → i < g.fat_count
unfolding active_fat boot_of
boot_of-active sector g d extent f i h = ground (arith, f.active)

boot_of-IsBoot :
    (sector : List ℕ) (g : FatGeometry) (d : Declared) (extent : VolumeExtent)
    → IsGeometry g
    → fat16_max_clusters ≤ g.cluster_count
    → Passes g d extent
    → Fits g d extent
    → IsBoot extent (boot_of sector g d extent)
boot_of-IsBoot sector g d extent v big p f =
    unfold boot_of in
    record {
      geometry = v;
      sector_512 = p.sector_512;
      no_fixed_root = p.no_fixed_root;
      fat32_count = big;
      in_extent = f.in_extent;
      root_from = f.root_from;
      root_to = f.root_to;
      fat_holds = rw (← p.sector_512) f.fat_holds;
      info = p.info;
      info_nonzero = p.info_nonzero;
      backup = ground (arith, p.backup, v.reserved);
      active = boot_of-active sector g d extent f;
    }

parse_fat32-IsBoot :
    (sector : List ℕ) (g : FatGeometry) (d : Declared) (extent : VolumeExtent) (b : Fat32BootSector)
    → IsGeometry g
    → fat16_max_clusters ≤ g.cluster_count
    → parse_fat32 sector g d extent ≡ ok b
    → IsBoot extent b
unfolding parse_fat32
parse_fat32-IsBoot sector g d extent b v big h = elim (Option-cases (check_declared g d)) [
  | inr (x, e) ↦ let h' = rw (e, parse_fat32) at h in cc
  | inl e ↦ elim (Option-cases (check_extent g d extent)) [
    | inr (x, f) ↦ let h' = rw (e, f, parse_fat32) at h in cc
    | inl f ↦
        let same : b ≡ boot_of sector g d extent = cc (rw (e, f, parse_fat32) at h) in
        rw same (
          boot_of-IsBoot sector g d extent v big (check_declared-Passes g d extent e)
            (check_extent-Fits g d extent f))
  ]
]

-- A boot sector that `parse_boot_sector` accepts has a sound geometry of 512-byte sectors with a
-- FAT32 cluster count, fits its extent, has its root cluster in the data region and a FAT entry for
-- every cluster, its structures in the reserved region, and an active FAT that exists.
pub parse_boot_sector-IsBoot :
    (sector : List ℕ) (extent : VolumeExtent) (b : Fat32BootSector)
    → Bytes sector
    → parse_boot_sector sector extent ≡ ok b
    → IsBoot extent b
unfolding parse_boot_sector
parse_boot_sector-IsBoot sector extent b bytes h =
    elim (Option-cases (fat32_geometry (identify sector))) [
      | inl e ↦ let h' = rw (e, parse_boot_sector) at h in cc
      | inr (g, e) ↦
          let (v, big) =
            fat32_geometry-Establishes sector (identify sector) g
              (λ fs geometry oem obs i. (identify-Establishes sector bytes fs geometry oem obs i).2)
              e in
          parse_fat32-IsBoot sector g (read_declared sector) extent b v big
            (rw (e, parse_boot_sector) at h)
    ]
