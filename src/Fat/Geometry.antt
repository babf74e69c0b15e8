-- ===== src/Fat/Geometry.antt =====
-- src/fat.rs: the geometry of an identified FAT volume.
use taphonomy.Prelude.{
  ℕ, ◌+◌, ◌*◌, ◌/◌, ◌%◌, ◌≤◌, ◌<◌, none, some, List, ok, byte-lt, le_u16-lt, le_u32-lt, u32_mod,
  Bytes, arith, ◌≡◌, refl, ◌⊎◌, inl, inr, Result-cases, Option-cases,
}
use taphonomy.Filesystem.{FatGeometry}
use taphonomy.Fat.{
  Bpb, read_bpb, check_fields, total_sectors_of, fat_size_of, root_dir_sectors_of,
  metadata_sectors_of, data_sectors_of, geometry_of, read_geometry, cluster_bytes,
  first_data_sector, max_cluster_bytes,
}

-- The metadata and the data region fill the declared sectors exactly, and a cluster is a positive
-- number of bytes within the specification's limit.
pub record IsGeometry (g : FatGeometry) : Type 0 where
  pub sector_bytes : (512 ≤ g.bytes_per_sector) × (g.bytes_per_sector ≤ 4096)
  pub sector_whole : g.bytes_per_sector % 512 ≡ 0
  pub cluster_sectors : (1 ≤ g.sectors_per_cluster) × (g.sectors_per_cluster ≤ 128)
  pub cluster_limit : g.bytes_per_sector * g.sectors_per_cluster ≤ max_cluster_bytes
  pub reserved : 1 ≤ g.reserved_sectors
  pub fats : 1 ≤ g.fat_count
  pub fat_sectors : 1 ≤ g.fat_size
  pub regions :
      g.reserved_sectors + g.fat_count * g.fat_size + g.root_dir_sectors + g.data_sectors
      ≡ g.total_sectors
  pub data_present : 1 ≤ g.data_sectors
  pub total_word : g.total_sectors < u32_mod
  pub count : g.cluster_count ≡ g.data_sectors / g.sectors_per_cluster

-- The declared fields are words of their widths.
pub record IsBpb (b : Bpb) : Type 0 where
  pub sector_word : b.bytes_per_sector < 0x1_0000
  pub cluster_byte : b.sectors_per_cluster < 256
  pub total_16 : b.total_sectors_16 < 0x1_0000
  pub total_32 : b.total_sectors_32 < u32_mod

read_bpb-IsBpb : (sector : List ℕ) → Bytes sector → IsBpb (read_bpb sector)
unfolding read_bpb
read_bpb-IsBpb sector h = record {
  sector_word = le_u16-lt sector _ h;
  cluster_byte = byte-lt sector _ h;
  total_16 = le_u16-lt sector _ h;
  total_32 = le_u32-lt sector _ h;
}

-- What the checks of the fields establish.
pub record IsChecked (b : Bpb) : Type 0 where
  pub sizes :
      (b.bytes_per_sector ≡ 512)
      ⊎ (b.bytes_per_sector ≡ 1024)
      ⊎ (b.bytes_per_sector ≡ 2048)
      ⊎ (b.bytes_per_sector ≡ 4096)
  pub clusters : (1 ≤ b.sectors_per_cluster) × (b.sectors_per_cluster ≤ 128)
  pub limit : b.bytes_per_sector * b.sectors_per_cluster % u32_mod ≤ max_cluster_bytes
  pub reserved : 1 ≤ b.reserved_sectors
  pub fats : 1 ≤ b.fat_count
  pub total : 1 ≤ total_sectors_of b
  pub fat_size : 1 ≤ fat_size_of b

check_fields-IsChecked : (b : Bpb) → check_fields b ≡ none → IsChecked b
unfolding check_fields
check_fields-IsChecked b h = ground arith

total_sectors_of-lt : (b : Bpb) → IsBpb b → total_sectors_of b < u32_mod
unfolding total_sectors_of
total_sectors_of-lt b h = ground arith

-- Where the metadata sum does not overflow it is exact, the saturating product included.
metadata_sectors_of-some :
    (b : Bpb) (m : ℕ)
    → 1 ≤ b.reserved_sectors
    → metadata_sectors_of b ≡ some m
    → b.reserved_sectors + b.fat_count * fat_size_of b + root_dir_sectors_of b ≡ m
unfolding metadata_sectors_of
metadata_sectors_of-some b m r h = ground arith

data_sectors_of-ok :
    (b : Bpb) (d : ℕ)
    → 1 ≤ b.reserved_sectors
    → data_sectors_of b ≡ ok d
    → (b.reserved_sectors + b.fat_count * fat_size_of b + root_dir_sectors_of b + d
        ≡ total_sectors_of b)
      × (1 ≤ d)
unfolding data_sectors_of
data_sectors_of-ok b d r h = elim (Option-cases (metadata_sectors_of b)) [
  | inl e ↦ let h' = rw (e, data_sectors_of) at h in cc
  | inr (m, e) ↦
      let h' = rw (e, data_sectors_of) at h in ground (arith, metadata_sectors_of-some b m r e)
]

read_geometry-eq-ok :
    (b : Bpb) (g : FatGeometry)
    → read_geometry b ≡ ok g
    → IsChecked b × ((d : ℕ) × (data_sectors_of b ≡ ok d) × (g ≡ geometry_of b d))
unfolding read_geometry
read_geometry-eq-ok b g h = elim (Option-cases (check_fields b)) [
  | inr (x, e) ↦ let h' = rw (e, read_geometry) at h in absurd (ground arith)
  | inl e ↦ (
    check_fields-IsChecked b e,
    elim (Result-cases (data_sectors_of b)) [
      | inl (d, f) ↦ (d, f, ground (arith, e, f))
      | inr (x, f) ↦ absurd (ground (arith, e, f))
    ],
  )
]

geometry_of-IsGeometry :
    (b : Bpb) (d : ℕ)
    → IsBpb b
    → IsChecked b
    → data_sectors_of b ≡ ok d
    → IsGeometry (geometry_of b d)
unfolding geometry_of
geometry_of-IsGeometry b d w c h =
    let sum = data_sectors_of-ok b d c.reserved h in
    record {
      sector_bytes = ground (arith, c.sizes);
      sector_whole = ground (arith, c.sizes);
      cluster_sectors = c.clusters;
      cluster_limit = ground (arith, c.sizes);
      reserved = c.reserved;
      fats = c.fats;
      fat_sectors = c.fat_size;
      regions = sum.0;
      data_present = sum.1;
      total_word = total_sectors_of-lt b w;
      count = refl;
    }

-- A BIOS parameter block that `read_geometry` accepts gives a sound geometry: its reserved sectors, FATs,
-- root directory and data region fill the declared sectors exactly, the data region is not empty, and
-- sectors and clusters have sizes that the specification allows.
pub read_geometry-IsGeometry :
    (sector : List ℕ) (g : FatGeometry)
    → Bytes sector
    → read_geometry (read_bpb sector) ≡ ok g
    → IsGeometry g
read_geometry-IsGeometry sector g bytes h =
    let (c, (d, e, f)) = read_geometry-eq-ok (read_bpb sector) g h in
    rw f (geometry_of-IsGeometry (read_bpb sector) d (read_bpb-IsBpb sector bytes) c e)

module _ (g : FatGeometry) (v : IsGeometry g) where
  -- On a sound geometry `first_data_sector` does not wrap: the data region starts where the metadata ends
  -- and reaches the last declared sector.
  pub first_data_sector_exact : first_data_sector g + g.data_sectors ≡ g.total_sectors
  unfolding first_data_sector
  first_data_sector_exact = ground (arith, v.regions, v.total_word)

  pub cluster_bytes_exact : cluster_bytes g ≡ g.bytes_per_sector * g.sectors_per_cluster
  unfolding cluster_bytes
  cluster_bytes_exact = ground (arith, v.cluster_limit)

  pub cluster_bytes_bounds : (512 ≤ cluster_bytes g) × (cluster_bytes g ≤ max_cluster_bytes)
  cluster_bytes_bounds = rw cluster_bytes_exact (grind arith, v.cluster_limit)

  pub clusters_fit : g.cluster_count * g.sectors_per_cluster ≤ g.data_sectors
  clusters_fit = grind (arith, v.count)
