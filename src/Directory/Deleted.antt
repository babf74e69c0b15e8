-- ===== src/Directory/Deleted.antt =====
-- src/fat_directory.rs: reading a deleted directory's first cluster, and the tests that a cluster
-- begins a directory.
pub mod Dots
pub mod Reads
use taphonomy.Prelude.{
  ℕ, ◌*◌, Bool, true, false, ◌&&◌, not, Option, none, some, List, [], ◌∷◌, Result, ok, err, ◌>>=◌,
  map_err, ◌==◌, if◌then◌else◌, bytes_eq, take, drop,
}
use taphonomy.Filesystem.{VolumeExtent}
use taphonomy.Fat32.{Fat32BootSector}
use taphonomy.Evidence.{EvidenceReader}
use taphonomy.Directory.Entry.{Entry, EntryKind, classify, entry_bytes}
use taphonomy.Directory.Offsets.{
  DirectoryError, cluster_out_of_range, evidence, cluster_offset, read_fat_entry,
}
use taphonomy.Directory.Walk.{Directory, first_cluster_only, fat_index, out_of_range, enumerate}

-- ".          " and "..         "
abbrev pub dot_name : List ℕ
dot_name = 0x2E ∷ 0x20 ∷ 0x20 ∷ 0x20 ∷ 0x20 ∷ 0x20 ∷ 0x20 ∷ 0x20 ∷ 0x20 ∷ 0x20 ∷ 0x20 ∷ []

abbrev pub dot_dot_name : List ℕ
dot_dot_name = 0x2E ∷ 0x2E ∷ 0x20 ∷ 0x20 ∷ 0x20 ∷ 0x20 ∷ 0x20 ∷ 0x20 ∷ 0x20 ∷ 0x20 ∷ 0x20 ∷ []

pub data DeletedDirectoryRefusal : Type 0 where
  in_use : ℕ → DeletedDirectoryRefusal
  no_self_entry : DeletedDirectoryRefusal
  no_parent_entry : DeletedDirectoryRefusal

-- read: listing, may_continue
pub data DeletedDirectory : Type 0 where
  read : Directory → Bool → DeletedDirectory
  refused : DeletedDirectoryRefusal → DeletedDirectory

-- A directory entry of that raw name, pointing at `cluster`.
unfoldable pub is_dot_of : EntryKind → ℕ → Bool
is_dot_of (EntryKind.short_name name raw_name true first_cluster size nt) cluster =
    bytes_eq raw_name dot_name && first_cluster == cluster
is_dot_of _ cluster = false

unfoldable pub is_dot_dot : EntryKind → Bool
is_dot_dot (EntryKind.short_name name raw_name true first_cluster size nt) =
    bytes_eq raw_name dot_dot_name
is_dot_dot _ = false

unfoldable pub names_itself : Entry → ℕ → Bool
names_itself entry cluster = entry.slot == 0 && is_dot_of entry.kind cluster

unfoldable pub names_parent : Entry → Bool
names_parent entry = entry.slot == 1 && is_dot_dot entry.kind

-- `slots.next().is_some_and(…)`, on the first two entries
unfoldable pub check_dots : List Entry → ℕ → Option DeletedDirectoryRefusal
check_dots [] cluster = some no_self_entry
check_dots (self ∷ []) cluster =
    if names_itself self cluster then some no_parent_entry else some no_self_entry
check_dots (self ∷ parent ∷ rest) cluster =
    if not (names_itself self cluster)
    then some no_self_entry
    else if not (names_parent parent)
    then some no_parent_entry
    else none

unfoldable pub judge_deleted : Directory → Bool → ℕ → DeletedDirectory
judge_deleted listing terminated cluster = elim (check_dots listing.entries cluster) [
  | some refusal ↦ refused refusal
  | none ↦ read listing (not terminated)
]

module _ {E : Type 0} (reader : EvidenceReader E) (boot : Fat32BootSector)
    (extent : VolumeExtent) where
  -- After the range check: the FAT's answer, and the first cluster where it is free.
  unfoldable pub read_deleted : ℕ → Result (DirectoryError E) DeletedDirectory
  read_deleted first_cluster = do
    fat_entry ← read_fat_entry reader boot extent (fat_index reader boot extent) first_cluster
    if not (fat_entry == 0) then ok (refused (in_use fat_entry)) else do
      found ← enumerate reader boot extent first_cluster first_cluster_only
      ok (judge_deleted found.0 found.1 first_cluster)

  unfoldable pub enumerate_deleted_directory : ℕ → Result (DirectoryError E) DeletedDirectory
  enumerate_deleted_directory first_cluster =
      if out_of_range reader boot extent first_cluster
      then err (cluster_out_of_range first_cluster boot.geometry.cluster_count)
      else read_deleted first_cluster

  unfoldable pub begins_directory : ℕ → Result (DirectoryError E) Bool
  begins_directory cluster =
      if out_of_range reader boot extent cluster
      then err (cluster_out_of_range cluster boot.geometry.cluster_count)
      else do
        offset ← cluster_offset reader boot extent cluster
        raw ← map_err evidence (reader.read_exact_at offset (2 * entry_bytes))
        ok (
            is_dot_of (classify (take entry_bytes raw)) cluster
            && is_dot_dot (classify (take entry_bytes (drop entry_bytes raw))))
