-- ===== src/Analysis/Walk.antt =====
-- src/analysis.rs `queue_subdirectories`, `deleted_segment` and `report_subdirectory`: one directory below
-- the root, read and reported.
pub mod Reads
pub mod Listed
pub mod Loop
use taphonomy.Prelude.{
  ℕ, ◌+◌, Bool, true, false, Option, none, some, List, [], ◌∷◌, ◌++◌, Result, ok, err, ltb, ◌==◌,
  any, if◌then◌else◌,
}
use taphonomy.Filesystem.{VolumeExtent}
use taphonomy.Fat32.{Fat32BootSector}
use taphonomy.Evidence.{EvidenceReader}
use taphonomy.Directory.Name.{recovered_name}
use taphonomy.Directory.Entry.{Entry, EntryKind, deleted, DeletedKind}
use taphonomy.Directory.Associate.{FirstByte, associate}
use taphonomy.Directory.Offsets.{DirectoryError}
use taphonomy.Directory.Walk.{Directory, contains, enumerate_directory}
use taphonomy.Directory.Deleted.{DeletedDirectory, enumerate_deleted_directory}
use taphonomy.Directory.Counts.{is_dot_entry}
use taphonomy.Hash.Hasher.{Sha256}
use taphonomy.Extraction.System.{FileSystem}
use taphonomy.Extraction.Destination.{decimal}
use taphonomy.Recovery.{walked}
use taphonomy.Analysis.Counts.{Options}
use taphonomy.Analysis.Events.{
  Reached, walked_to, in_entries, in_residue, NotReadReason, too_deep, already_read,
  not_a_directory, enumeration, Event, directory_read, directory_not_read, listing_may_continue,
}
use taphonomy.Analysis.Report.{Log, record_event, report_recovery}

abbrev pub max_depth : ℕ
max_depth = 128

pub record Pending : Type 0 where
  pub first_cluster : ℕ
  pub path : List ℕ
  pub depth : ℕ
  pub deleted : Bool

-- What an entry names, if it names a directory: its first cluster, its name where it has one, and whether
-- it is deleted.
pub record Named : Type 0 where
  pub first_cluster : ℕ
  pub segment : Option (List ℕ)
  pub deleted : Bool

-- The first byte recovered, or "?"
unfoldable pub first_or_unknown : Option FirstByte → ℕ
first_or_unknown (some (FirstByte.recovered b)) = b
first_or_unknown _ = 0x3F

unfoldable pub deleted_segment : List Entry → ℕ → List ℕ → Option (List ℕ)
deleted_segment slots index surviving =
    recovered_name (first_or_unknown (associate slots index)) surviving

-- The match on an entry's kind.
unfoldable pub named_by : List Entry → ℕ → EntryKind → Option Named
named_by slots index (EntryKind.short_name name raw true first size nt) =
    some (record { first_cluster = first; segment = name; deleted = false })
named_by slots index (deleted (DeletedKind.short_name surviving true first size nt)) =
    some (record {
      first_cluster = first;
      segment = deleted_segment slots index surviving;
      deleted = true;
    })
named_by slots index _ = none

-- `unwrap_or_else(|| format!("c{first_cluster}"))`
unfoldable pub segment_or_cluster : Named → List ℕ
segment_or_cluster n = elim n.segment [ none ↦ 0x63 ∷ decimal n.first_cluster | some name ↦ name ]

-- What one round of the inner loop pushes.
unfoldable pub pending_of : List ℕ → ℕ → Option Named → List Pending
pending_of parent depth none = []
pending_of parent depth (some n) =
    record {
      first_cluster = n.first_cluster;
      path = parent ++ (0x2F ∷ segment_or_cluster n);
      depth = depth + 1;
      deleted = n.deleted;
    }
    ∷ []

-- The inner loop over one list of entries.
unfoldable pub queue_slots : List Entry → List ℕ → ℕ → ℕ → List Entry → List Pending
queue_slots slots parent depth index [] = []
queue_slots slots parent depth index (entry ∷ entries) =
    (if is_dot_entry entry.kind
      then []
      else pending_of parent depth (named_by slots index entry.kind))
    ++ queue_slots slots parent depth (index + 1) entries

unfoldable pub queue_subdirectories : Directory → List ℕ → ℕ → List Pending
queue_subdirectories directory parent depth =
    queue_slots directory.entries parent depth 0 directory.entries
    ++ queue_slots directory.residue parent depth 0 directory.residue

-- `find`: the first cluster that was read before.
unfoldable pub shared_cluster : List ℕ → List ℕ → Option ℕ
shared_cluster seen [] = none
shared_cluster seen (c ∷ cs) =
    let rest = shared_cluster seen cs in if contains seen c then some c else rest

-- What the walk carries: the clusters read, the directories named and not yet read, and the log.
pub record Walking (E State PathBuf : Type 0) : Type 0 where
  pub seen : List ℕ
  pub pending : List Pending
  pub log : Log E State PathBuf

unfoldable pub reached_by : Pending → Reached
reached_by next = walked_to next.path next.deleted

-- A directory that is not read: the event and the count.
unfoldable pub report_not_read :
    {E State PathBuf : Type 0}
    → Pending
    → NotReadReason E
    → Log E State PathBuf
    → Log E State PathBuf
report_not_read next reason log =
    let log' = record_event (directory_not_read (reached_by next) reason) log in
    record log' {
      counts = record log.counts { directories_unread = log.counts.directories_unread + 1 };
    }

-- The match on a deleted directory's listing.
unfoldable pub deleted_listing :
    {E : Type 0}
    → Result (DirectoryError E) DeletedDirectory
    → Result (NotReadReason E) (Directory × Bool)
deleted_listing (ok (DeletedDirectory.read listing may_continue)) = ok (listing, may_continue)
deleted_listing (ok (DeletedDirectory.refused reason)) = err (not_a_directory reason)
deleted_listing (err e) = err (enumeration e)

-- The match on a live directory's listing.
unfoldable pub live_listing :
    {E : Type 0} → Result (DirectoryError E) Directory → Result (NotReadReason E) (Directory × Bool)
live_listing (ok listing) = ok (listing, false)
live_listing (err e) = err (enumeration e)

-- The event and the count of a listing that may continue.
unfoldable pub report_may_continue :
    {E State PathBuf : Type 0} → ℕ → Bool → Log E State PathBuf → Log E State PathBuf
report_may_continue cluster false log = log
report_may_continue cluster true log =
    let log' = record_event (listing_may_continue cluster) log in
    record log' {
      counts = record log.counts { listings_may_continue = log.counts.listings_may_continue + 1 };
    }

module _ {E : Type 0} (reader : EvidenceReader E) (boot : Fat32BootSector)
    (extent : VolumeExtent) where
  unfoldable pub read_listing : Pending → Result (NotReadReason E) (Directory × Bool)
  read_listing next =
      if next.deleted
      then deleted_listing (enumerate_deleted_directory reader boot extent next.first_cluster)
      else live_listing (enumerate_directory reader boot extent next.first_cluster)

module _ {E Inner State File PathBuf : Type 0} (reader : EvidenceReader E) (sha : Sha256 Inner)
    (fs : FileSystem State File PathBuf) (options : Options PathBuf) (boot : Fat32BootSector)
    (extent : VolumeExtent) (partition : ℕ) where
  -- The two calls of `report_recovery` on a directory of the walk.
  unfoldable pub report_parts : Directory → Log E State PathBuf → Option (Log E State PathBuf)
  report_parts directory log =
      elim (report_recovery reader sha fs options boot extent partition walked in_entries
        directory.entries log) [
          | none ↦ none
          | some log' ↦
              report_recovery reader sha fs options boot extent partition walked in_residue
                directory.residue log'
        ]

  -- A directory that was read.
  unfoldable pub report_listing :
      Pending → Directory → Bool → Walking E State PathBuf → Option (Walking E State PathBuf)
  report_listing next directory may_continue w =
      let log = record_event (directory_read (reached_by next) directory) w.log in
      elim (report_parts directory (report_may_continue next.first_cluster may_continue log)) [
        | none ↦ none
        | some log' ↦ some (record {
          seen = w.seen ++ directory.clusters;
          pending = w.pending ++ queue_subdirectories directory next.path next.depth;
          log = log';
        })
      ]

  unfoldable pub report_subdirectory :
      Pending → Walking E State PathBuf → Option (Walking E State PathBuf)
  report_subdirectory next w =
      if ltb max_depth next.depth
      then some (record w { log = report_not_read next too_deep w.log })
      else if contains w.seen next.first_cluster
      then some (record w { log = report_not_read next (already_read next.first_cluster) w.log })
      else elim (read_listing reader boot extent next) [
        | err reason ↦ some (record w { log = report_not_read next reason w.log })
        | ok (directory, may_continue) ↦ elim (shared_cluster w.seen directory.clusters) [
          | some shared ↦ some (record w { log = report_not_read next (already_read shared) w.log })
          | none ↦ report_listing next directory may_continue w
        ]
      ]
