-- ===== src/Recovery.antt =====
-- src/fat_recovery.rs: the run of clusters that a deleted entry implies, its check against the FAT,
-- and the reading of its content.
pub mod Run
pub mod Assess
pub mod Content
pub mod Extract
use taphonomy.Prelude.{
  ℕ, zero, suc, ◌+◌, ◌-◌, ◌*◌, ◌%◌, Bool, true, false, not, Option, none, some, List, [], ◌∷◌, ◌++◌,
  Result, ok, err, ◌>>=◌, map_err, ltb, leb, ◌==◌, if◌then◌else◌, length, take, min, div_ceil,
  saturating_add, u32_mod,
}
use taphonomy.Filesystem.{VolumeExtent}
use taphonomy.Fat.{cluster_bytes, first_data_cluster}
use taphonomy.Fat32.{Fat32BootSector, last_cluster}
use taphonomy.Evidence.{EvidenceReader}
use taphonomy.Directory.Entry.{Entry, EntryKind, DeletedKind, deleted}
use taphonomy.Directory.Offsets.{DirectoryError, cluster_offset, read_fat_entry}
use taphonomy.Directory.Walk.{fat_index}

pub record ClusterRun : Type 0 where
  pub first_cluster : ℕ
  pub cluster_count : ℕ
  pub file_size : ℕ
  pub slack_bytes : ℕ

-- `ClusterRun::last_cluster`, in saturating `u32` arithmetic
unfoldable pub last_of_run : ClusterRun → ℕ
unfolding saturating_add
last_of_run run = saturating_add run.first_cluster run.cluster_count - 1

pub data Ineligible : Type 0 where
  directory : Ineligible
  volume_label : Ineligible
  long_name_component : Ineligible
  invalid_entry : ℕ → Ineligible
  empty_file : Ineligible
  reserved_first_cluster : ℕ → Ineligible
  run_out_of_range : ℕ → ℕ → Ineligible

pub data Listing : Type 0 where
  walked orphaned : Listing

-- `refused` and `run` of the source's `Eligibility`
pub data Eligibility : Type 0 where
  refused : Ineligible → Eligibility
  run : ClusterRun → Eligibility

-- What the entry's kind answers before its fields are judged: nothing, a refusal, or the fields
-- directory, first_cluster and file_size.
pub data Asked : Type 0 where
  not_asked : Asked
  refuse : Ineligible → Asked
  fields : Bool → ℕ → ℕ → Asked

unfoldable pub asked_deleted : DeletedKind → Asked
asked_deleted (DeletedKind.long_name checksum) = refuse long_name_component
asked_deleted (DeletedKind.volume_label surviving) = refuse volume_label
asked_deleted (DeletedKind.invalid attr) = refuse (invalid_entry attr)
asked_deleted (DeletedKind.short_name surviving is_directory first size nt) =
    fields is_directory first size

-- The match on the entry's kind and the listing.
unfoldable pub asked : EntryKind → Listing → Asked
unfolding asked_deleted
asked (deleted was) listing = asked_deleted was
asked (EntryKind.short_name name raw false first size nt) orphaned = fields false first size
asked _ listing = not_asked

-- The run of a size that is not zero, from a cluster that is not reserved. `u64` arithmetic; the two
-- conversions to `u32` keep the low bits.
unfoldable pub implied_run : Fat32BootSector → ℕ → ℕ → Eligibility
unfolding div_ceil last_cluster
implied_run boot first_cluster file_size =
    let bytes = cluster_bytes boot.geometry in
    let clusters_needed = div_ceil file_size bytes in
    let last_in_run = first_cluster + clusters_needed - 1 in
    if leb (last_cluster boot.geometry) last_in_run
    then refused (run_out_of_range last_in_run boot.geometry.cluster_count)
    else run (record {
      first_cluster = first_cluster;
      cluster_count = clusters_needed % u32_mod;
      file_size = file_size;
      slack_bytes = (clusters_needed * bytes - file_size) % u32_mod;
    })

unfoldable pub judge_fields : Fat32BootSector → Bool → ℕ → ℕ → Eligibility
judge_fields boot is_directory first_cluster file_size =
    if is_directory
    then refused directory
    else if file_size == 0
    then refused empty_file
    else if ltb first_cluster first_data_cluster
    then refused (reserved_first_cluster first_cluster)
    else implied_run boot first_cluster file_size

unfoldable pub eligibility : Entry → Listing → Fat32BootSector → Option Eligibility
eligibility entry listing boot = elim (asked entry.kind listing) [
  | not_asked ↦ none
  | refuse reason ↦ some (refused reason)
  | fields is_directory first size ↦ some (judge_fields boot is_directory first size)
]

-- The source lets `assess` alone build an `UnallocatedRun`.
pub record UnallocatedRun : Type 0 where
  pub inner : ClusterRun

pub data Assessment : Type 0 where
  ineligible : Ineligible → Assessment
  run_broken : ClusterRun → ℕ → Assessment
  recoverable : UnallocatedRun → Assessment

-- `RecoveryError` less the failure to remove a partial file, which is a failure of the destination.
pub data RecoveryError (E : Type 0) : Type 0 where
  directory_error : DirectoryError E → RecoveryError E
  evidence_error : E → RecoveryError E

-- The clusters `from..=to`.
unfoldable pub run_length : ClusterRun → ℕ
run_length r = last_of_run r + 1 - r.first_cluster

module _ {E : Type 0} (reader : EvidenceReader E) (boot : Fat32BootSector)
    (extent : VolumeExtent) where
  -- The loop over the run's clusters: the first whose FAT entry is not zero.
  unfoldable pub first_allocated : ℕ → ℕ → Result (DirectoryError E) (Option ℕ)
  first_allocated zero cluster = ok none
  first_allocated (suc left) cluster =
      let rest = first_allocated left (cluster + 1) in
      do
        entry ← read_fat_entry reader boot extent (fat_index reader boot extent) cluster
        if not (entry == 0) then ok (some cluster) else rest

  unfoldable pub assess_run : ClusterRun → Result (RecoveryError E) (Option Assessment)
  assess_run r = elim (first_allocated (run_length r) r.first_cluster) [
    | err e ↦ err (directory_error e)
    | ok found ↦ elim found [
      | some cluster ↦ ok (some (run_broken r cluster))
      | none ↦ ok (some (recoverable (record { inner = r })))
    ]
  ]

  unfoldable pub assess_listed : Entry → Listing → Result (RecoveryError E) (Option Assessment)
  assess_listed entry listing = elim (eligibility entry listing boot) [
    | none ↦ ok none
    | some e ↦ elim e [ refused reason ↦ ok (some (ineligible reason)) | run r ↦ assess_run r ]
  ]

  unfoldable pub assess : Entry → Result (RecoveryError E) (Option Assessment)
  assess entry = assess_listed entry walked

  -- One data cluster, whole.
  unfoldable pub read_data : ℕ → Result (RecoveryError E) (List ℕ)
  read_data cluster = do
    offset ← map_err directory_error (cluster_offset reader boot extent cluster)
    map_err evidence_error (reader.read_exact_at offset (cluster_bytes boot.geometry))

  -- The loop of `stream`. What it hands to the writer, in order, is a list of slices.
  unfoldable pub stream_loop : ℕ → ℕ → ℕ → List (List ℕ) → Result (RecoveryError E) (List (List ℕ))
  stream_loop zero cluster remaining pushed = ok pushed
  stream_loop (suc left) cluster remaining pushed = do
    buffer ← read_data cluster
    let n = min remaining (cluster_bytes boot.geometry)
    stream_loop left (cluster + 1) (remaining - n) (pushed ++ (take n buffer ∷ []))

  unfoldable pub stream : UnallocatedRun → Result (RecoveryError E) (List (List ℕ))
  stream found =
      stream_loop (run_length found.inner) found.inner.first_cluster found.inner.file_size []
