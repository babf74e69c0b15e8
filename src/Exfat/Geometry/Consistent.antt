-- ===== src/Exfat/Geometry/Consistent.antt =====
-- src/exfat_boot.rs `check_geometry`: the geometry that it accepts.
use taphonomy.Prelude.{
  zero, suc, ltb→lt, ltb→le, ℕ, ◌+◌, ◌-◌, ◌*◌, ◌/◌, ◌^◌, ◌≤◌, ◌<◌, none, ltb, min, div_ceil, arith,
  ◌≡◌, ◌⊎◌, inl, inr, Bool-cases,
}
use taphonomy.Exfat.Data.{fat_entry_bytes, max_cluster_count}
use taphonomy.Exfat.Geometry.{
  Geometry, minimum_fat_length, fat_end, heap_limit, expected_clusters, check_geometry,
}

-- The regions of the volume follow each other without overlap, and the FAT describes every cluster.
pub record IsConsistent (g : Geometry) : Type 0 where
  pub fat_start : 24 ≤ g.fat_offset
  pub fat_holds : (g.cluster_count + 2) * fat_entry_bytes ≤ g.fat_length * 2 ^ g.shift
  pub fats_before_heap : g.fat_offset + g.fat_length * g.fats ≤ g.cluster_heap_offset
  pub heap_in_volume :
      g.cluster_heap_offset + g.cluster_count * 2 ^ g.cluster_shift ≤ g.volume_length
  pub heap_full :
      (g.cluster_count ≡ max_cluster_count)
      ⊎ (g.volume_length < g.cluster_heap_offset + (g.cluster_count + 1) * 2 ^ g.cluster_shift)
  pub some_clusters : 2 + g.fats ≤ g.cluster_count
  pub count_word : g.cluster_count ≤ max_cluster_count
  pub root_from : 2 ≤ g.root_cluster
  pub root_to : g.root_cluster < g.cluster_count + 2

-- What passing the tests says, in their own terms.
record Passes (g : Geometry) : Type 0 where
  start : 24 ≤ g.fat_offset
  fat : minimum_fat_length g ≤ g.fat_length
  before : fat_end g ≤ g.cluster_heap_offset
  limit : g.cluster_heap_offset ≤ heap_limit g
  most : g.cluster_count ≤ max_cluster_count
  least : 2 + g.fats ≤ g.cluster_count
  exact : g.cluster_count ≡ expected_clusters g
  root : (2 ≤ g.root_cluster) × (g.root_cluster ≤ g.cluster_count + 1)

check_geometry-Passes : (g : Geometry) → check_geometry g ≡ none → Passes g
unfolding check_geometry
check_geometry-Passes g h = ground arith

covers : (a b c : ℕ) → 1 ≤ b → div_ceil a b ≤ c → a ≤ c * b
unfolding div_ceil
covers a b c pos h = grind arith

positive_power : (n : ℕ) → 1 ≤ 2 ^ n
positive_power zero = omega arith
positive_power (suc n) = let rest = positive_power n in omega arith

fits : (v h p : ℕ) → 1 ≤ h → h ≤ v - p → h + p ≤ v
fits v h p pos le = omega arith

quotient_lt : (a b q : ℕ) → 1 ≤ b → q ≡ a / b → a < (q + 1) * b
quotient_lt a b q pos e = grind arith

full : (v h n b m : ℕ) → 1 ≤ b → h ≤ v → n ≡ min ((v - h) / b) m → (n ≡ m) ⊎ (v < h + (n + 1) * b)
full v h n b m pos le e = elim (Bool-cases (ltb ((v - h) / b) m)) [
  | inl lt ↦
      let below = ltb→lt ((v - h) / b) m lt in
      let same : n ≡ (v - h) / b = omega arith in
      let bound = quotient_lt (v - h) b n pos same in inr (omega arith)
  | inr ge ↦ let above = ltb→le ((v - h) / b) m ge in inl (omega arith)
]

pub check_geometry-IsConsistent : (g : Geometry) → check_geometry g ≡ none → IsConsistent g
unfolding minimum_fat_length fat_end heap_limit expected_clusters
check_geometry-IsConsistent g h =
    let p = check_geometry-Passes g h in
    let start = p.start in
    let before = p.before in
    let limit = p.limit in
    let root = p.root in
    let some_heap : 1 ≤ g.cluster_heap_offset = omega arith in
    let product = g.cluster_count * 2 ^ g.cluster_shift in
    let inside = fits g.volume_length g.cluster_heap_offset product some_heap (omega arith) in
    record {
      fat_start = start;
      fat_holds =
          covers ((g.cluster_count + 2) * fat_entry_bytes) (2 ^ g.shift) g.fat_length
            (positive_power g.shift) p.fat;
      fats_before_heap = before;
      heap_in_volume = inside;
      heap_full =
          full g.volume_length g.cluster_heap_offset g.cluster_count (2 ^ g.cluster_shift)
            max_cluster_count (positive_power g.cluster_shift) (omega arith) p.exact;
      some_clusters = p.least;
      count_word = p.most;
      root_from = root.0;
      root_to = omega arith;
    }
