-- ===== src/Exfat/Geometry.antt =====
-- src/exfat_boot.rs `Geometry` and `check_geometry`.
pub mod Consistent
use taphonomy.Prelude.{
  ℕ, ◌+◌, ◌-◌, ◌*◌, ◌/◌, ◌^◌, Bool, not, ◌||◌, Option, none, some, ltb, ◌==◌, if◌then◌else◌, min,
  div_ceil, u32_max,
}
use taphonomy.Exfat.Data.{
  min_volume_bytes, min_fat_offset, fat_entry_bytes, max_cluster_count, base_clusters, ExFatError,
  volume_length_too_small, fat_offset_too_small, fat_length_too_small, cluster_heap_before_fat_end,
  cluster_heap_offset_too_large, cluster_count_too_large, cluster_count_too_small,
  cluster_count_mismatch, root_cluster_out_of_range,
}

pub record Geometry : Type 0 where
  pub volume_length : ℕ
  pub fat_offset : ℕ
  pub fat_length : ℕ
  pub cluster_heap_offset : ℕ
  pub cluster_count : ℕ
  pub root_cluster : ℕ
  pub shift : ℕ
  pub cluster_shift : ℕ
  pub fats : ℕ

unfoldable pub minimum_fat_length : Geometry → ℕ
unfolding div_ceil
minimum_fat_length g = div_ceil ((g.cluster_count + 2) * fat_entry_bytes) (2 ^ g.shift)

unfoldable pub fat_end : Geometry → ℕ
fat_end g = g.fat_offset + g.fat_length * g.fats

-- `saturating_sub`, then the least with `u32::MAX`
unfoldable pub heap_limit : Geometry → ℕ
heap_limit g = min (g.volume_length - g.cluster_count * 2 ^ g.cluster_shift) u32_max

unfoldable pub expected_clusters : Geometry → ℕ
expected_clusters g =
    min ((g.volume_length - g.cluster_heap_offset) / 2 ^ g.cluster_shift) max_cluster_count

-- The checks in the source's order. No sum or product here reaches 2^64: the fields are 32-bit words
-- but the volume's length, which is only divided and compared, and a shift is at most 25.
unfoldable pub check_geometry : Geometry → Option ExFatError
check_geometry g =
    if ltb g.volume_length (min_volume_bytes / 2 ^ g.shift)
    then some (volume_length_too_small g.volume_length (min_volume_bytes / 2 ^ g.shift))
    else if ltb g.fat_offset min_fat_offset
    then some (fat_offset_too_small g.fat_offset min_fat_offset)
    else if ltb g.fat_length (minimum_fat_length g)
    then some (fat_length_too_small g.fat_length (minimum_fat_length g))
    else if ltb g.cluster_heap_offset (fat_end g)
    then some (cluster_heap_before_fat_end g.cluster_heap_offset (fat_end g))
    else if ltb (heap_limit g) g.cluster_heap_offset
    then some (cluster_heap_offset_too_large g.cluster_heap_offset (heap_limit g))
    else if ltb max_cluster_count g.cluster_count
    then some (cluster_count_too_large g.cluster_count)
    else if ltb g.cluster_count (base_clusters + g.fats)
    then some (cluster_count_too_small g.cluster_count (base_clusters + g.fats))
    else if not (g.cluster_count == expected_clusters g)
    then some (cluster_count_mismatch g.cluster_count (expected_clusters g))
    else if ltb g.root_cluster 2 || ltb (g.cluster_count + 1) g.root_cluster
    then some (root_cluster_out_of_range g.root_cluster (g.cluster_count + 1))
    else none
