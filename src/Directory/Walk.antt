-- ===== src/Directory/Walk.antt =====
-- src/fat_directory.rs `enumerate`: a directory read cluster by cluster along its chain.
pub mod Ends
pub mod Chains
pub mod Scan
pub mod Listing
pub mod Sizes
pub mod First
use taphonomy.Prelude.{
  ℕ, zero, suc, ◌+◌, ◌*◌, ◌/◌, Bool, true, false, ◌||◌, not, Option, none, some, List, [], ◌∷◌,
  ◌++◌, Result, ok, err, ◌>>=◌, map_err, ltb, leb, ◌==◌, if◌then◌else◌, any, length, take, drop,
  div_ceil,
}
use taphonomy.Filesystem.{VolumeExtent, FatGeometry}
use taphonomy.Fat.{cluster_bytes, first_data_cluster}
use taphonomy.Fat32.{Fat32BootSector, active_fat, last_cluster}
use taphonomy.Evidence.{EvidenceReader}
use taphonomy.Directory.Entry.{Entry, EntryKind, terminator, classify, entry_bytes}
use taphonomy.Directory.Offsets.{
  DirectoryError, too_large, cyclic_chain, cluster_out_of_range, bad_cluster, reserved_chain_link,
  evidence, stuck, cluster_offset, read_fat_entry, max_entries, fat_end_of_chain, fat_bad_cluster,
}

pub data DirectoryObservation : Type 0 where
  content_after_terminator : ℕ → ℕ → ℕ → DirectoryObservation
  name_not_printable_ascii : ℕ → ℕ → List ℕ → DirectoryObservation
  invalid_attribute : ℕ → ℕ → ℕ → DirectoryObservation

pub record Directory : Type 0 where
  pub entries : List Entry
  pub residue : List Entry
  pub clusters : List ℕ
  pub observations : List DirectoryObservation

pub data Chain : Type 0 where
  follow first_cluster_only : Chain

-- The vectors and the flag that the loop carries, less the clusters.
pub record Walk : Type 0 where
  pub entries : List Entry
  pub residue : List Entry
  pub observations : List DirectoryObservation
  pub terminated : Bool

-- The two variables of one cluster's scan.
pub record Tail : Type 0 where
  pub residue_first : Option ℕ
  pub residue_slots : ℕ

-- `as_chunks::<32>().0`, for `n` whole chunks
unfoldable pub as_chunks : ℕ → List ℕ → List (List ℕ)
as_chunks zero bs = []
as_chunks (suc n) bs = take entry_bytes bs ∷ as_chunks n (drop entry_bytes bs)

-- What the match on a listed entry's kind pushes.
unfoldable pub kind_observations : ℕ → ℕ → EntryKind → List DirectoryObservation
kind_observations cluster slot (EntryKind.short_name none raw directory first size nt) =
    name_not_printable_ascii cluster slot raw ∷ []
kind_observations cluster slot (EntryKind.volume_label none raw) =
    name_not_printable_ascii cluster slot raw ∷ []
kind_observations cluster slot (EntryKind.invalid attr) = invalid_attribute cluster slot attr ∷ []
kind_observations cluster slot _ = []

-- `Option::get_or_insert`
unfoldable pub get_or_insert : Option ℕ → ℕ → Option ℕ
get_or_insert none slot = some slot
get_or_insert (some first) slot = some first

abbrev pub is_nonzero : List ℕ → Bool
is_nonzero raw = any (λ b. not (b == 0)) raw

-- A slot past the terminator.
unfoldable pub scan_residue : ℕ → ℕ → List ℕ → Walk → Tail → Walk × Tail
unfolding get_or_insert
scan_residue cluster slot raw w t =
    if is_nonzero raw
    then (
      record w {
        residue =
            w.residue ++ (record { cluster = cluster; slot = slot; kind = classify raw } ∷ []);
      },
      record {
        residue_first = get_or_insert t.residue_first slot;
        residue_slots = t.residue_slots + 1;
      },
    )
    else (w, t)

unfoldable pub is_terminator : EntryKind → Bool
is_terminator terminator = true
is_terminator _ = false

-- The observation that ends a cluster's scan.
unfoldable pub close_cluster : ℕ → Walk × Tail → Walk
close_cluster cluster (w, t) = elim t.residue_first [
  | none ↦ w
  | some first ↦ record w {
    observations = w.observations ++ (content_after_terminator cluster first t.residue_slots ∷ []);
  }
]

module _ {E : Type 0} where
  -- A slot before the terminator, or the terminator itself.
  unfoldable pub scan_entry : ℕ → ℕ → EntryKind → Walk → Result (DirectoryError E) Walk
  unfolding is_terminator
  scan_entry cluster slot kind w =
      if is_terminator kind
      then ok (record w { terminated = true })
      else if leb max_entries (length w.entries)
      then err (too_large (length w.entries))
      else ok (record w {
        entries = w.entries ++ (record { cluster = cluster; slot = slot; kind = kind } ∷ []);
        observations = w.observations ++ kind_observations cluster slot kind;
      })

  unfoldable pub scan_slot : ℕ → ℕ → List ℕ → Walk → Tail → Result (DirectoryError E) (Walk × Tail)
  scan_slot cluster slot raw w t =
      if w.terminated
      then ok (scan_residue cluster slot raw w t)
      else (do w' ← scan_entry cluster slot (classify raw) w; ok (w', t))

  -- The loop over the slots of one cluster.
  unfoldable pub scan_slots :
      ℕ → ℕ → List (List ℕ) → Walk → Tail → Result (DirectoryError E) (Walk × Tail)
  scan_slots cluster slot [] w t = ok (w, t)
  scan_slots cluster slot (raw ∷ rest) w t = do
    next ← scan_slot cluster slot raw w t
    scan_slots cluster (slot + 1) rest next.0 next.1

  unfoldable pub scan_cluster : ℕ → ℕ → List ℕ → Walk → Result (DirectoryError E) Walk
  scan_cluster cluster slots buffer w = do
    found ←
        scan_slots cluster 0 (as_chunks slots buffer) w
          (record { residue_first = none; residue_slots = 0 })
    ok (close_cluster cluster found)

-- `clusters.contains(&cluster)`
abbrev pub contains : List ℕ → ℕ → Bool
contains clusters cluster = any (λ c. c == cluster) clusters

module _ {E : Type 0} (reader : EvidenceReader E) (boot : Fat32BootSector)
    (extent : VolumeExtent) where
  unfoldable pub slots_per_cluster : ℕ
  slots_per_cluster = cluster_bytes boot.geometry / entry_bytes

  -- A boot sector that the checks accept has at least sixteen slots in a cluster, so nothing is divided by 0.
  unfoldable pub max_clusters : ℕ
  max_clusters = div_ceil max_entries slots_per_cluster

  -- `boot.active_fat().unwrap_or(0)`
  unfoldable pub fat_index : ℕ
  unfolding active_fat
  fat_index = elim (active_fat boot) [ none ↦ 0 | some index ↦ index ]

  unfoldable pub out_of_range : ℕ → Bool
  unfolding last_cluster
  out_of_range cluster = ltb cluster first_data_cluster || leb (last_cluster boot.geometry) cluster

  -- The three tests before a cluster is visited.
  unfoldable pub check_cluster : List ℕ → ℕ → Option (DirectoryError E)
  unfolding out_of_range
  check_cluster clusters cluster =
      if out_of_range cluster
      then some (cluster_out_of_range cluster boot.geometry.cluster_count)
      else if contains clusters cluster
      then some (cyclic_chain cluster)
      else if leb max_clusters (length clusters)
      then some (too_large (length clusters * slots_per_cluster))
      else none

  unfoldable pub read_cluster : ℕ → Result (DirectoryError E) (List ℕ)
  read_cluster cluster = do
    offset ← cluster_offset reader boot extent cluster
    map_err evidence (reader.read_exact_at offset (cluster_bytes boot.geometry))

  -- The tests on the link that follows a cluster; `none` is the end of the chain.
  unfoldable pub judge_link : ℕ → ℕ → Result (DirectoryError E) (Option ℕ)
  judge_link cluster next =
      if leb fat_end_of_chain next
      then ok none
      else if next == fat_bad_cluster
      then err (bad_cluster next)
      else if ltb next first_data_cluster
      then err (reserved_chain_link cluster next)
      else ok (some next)

  unfoldable pub next_cluster : Chain → ℕ → Result (DirectoryError E) (Option ℕ)
  next_cluster first_cluster_only cluster = ok none
  next_cluster follow cluster = do
    next ← read_fat_entry reader boot extent fat_index cluster
    judge_link cluster next

  -- One cluster: the tests, the read, the scan, and where the walk goes on.
  unfoldable pub visit : Chain → List ℕ → ℕ → Walk → Result (DirectoryError E) (Walk × Option ℕ)
  visit chain clusters cluster w = elim (check_cluster clusters cluster) [
    | some e ↦ err e
    | none ↦ do
      buffer ← read_cluster cluster
      w' ← scan_cluster cluster slots_per_cluster buffer w
      next ← next_cluster chain cluster
      ok (w', next)
  ]

  abbrev pub directory_of : List ℕ → Walk → Directory
  directory_of clusters w = record {
    entries = w.entries;
    residue = w.residue;
    clusters = clusters;
    observations = w.observations;
  }

  unfoldable pub enumerate_loop :
      ℕ → Chain → List ℕ → ℕ → Walk → Result (DirectoryError E) (Directory × Bool)
  enumerate_loop zero chain clusters cluster w = err stuck
  enumerate_loop (suc fuel) chain clusters cluster w = elim (visit chain clusters cluster w) [
    | err e ↦ err e
    | ok (w', next) ↦ elim next [
      | none ↦ ok (directory_of (clusters ++ (cluster ∷ [])) w', w'.terminated)
      | some c ↦ enumerate_loop fuel chain (clusters ++ (cluster ∷ [])) c w'
    ]
  ]

  -- Each round visits one more cluster, and the walk refuses to visit more than `max_clusters`.
  unfoldable pub enumerate : ℕ → Chain → Result (DirectoryError E) (Directory × Bool)
  enumerate first_cluster chain =
      enumerate_loop (max_clusters + 1) chain [] first_cluster
        (record { entries = []; residue = []; observations = []; terminated = false })

  unfoldable pub enumerate_directory : ℕ → Result (DirectoryError E) Directory
  enumerate_directory first_cluster = do found ← enumerate first_cluster follow; ok found.0

  unfoldable pub enumerate_root : Result (DirectoryError E) Directory
  enumerate_root = do found ← enumerate boot.root_cluster follow; ok found.0
