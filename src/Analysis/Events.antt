-- ===== src/Analysis/Events.antt =====
-- src/analysis.rs `Event`, what it is made of, and the sink. A sink is the list of the events recorded.
use taphonomy.Prelude.{ℕ, Bool, Option, List}
use taphonomy.Partition.{MbrPartition, Anomaly, ParseError}
use taphonomy.Filesystem.{Identification}
use taphonomy.Fat32.{Fat32Error, Fat32BootSector}
use taphonomy.Directory.Entry.{Entry}
use taphonomy.Directory.Offsets.{DirectoryError}
use taphonomy.Directory.Walk.{Directory}
use taphonomy.Directory.Deleted.{DeletedDirectoryRefusal}
use taphonomy.Recovery.{ClusterRun, Ineligible, Listing, RecoveryError}
use taphonomy.Recovery.Extract.{ExtractError}
use taphonomy.Extraction.Writer.{Extraction}
use taphonomy.Validation.{Validation}

-- A path from the root is its bytes.
pub data Reached : Type 0 where
  root : Reached
  walked_to : List ℕ → Bool → Reached
  orphaned_at : ℕ → Option ℕ → Reached

pub data DirectoryPart : Type 0 where
  in_entries in_residue : DirectoryPart

pub data NotReadReason (E : Type 0) : Type 0 where
  too_deep : NotReadReason E
  already_read : ℕ → NotReadReason E
  not_a_directory : DeletedDirectoryRefusal → NotReadReason E
  enumeration : DirectoryError E → NotReadReason E

pub data Event (E PathBuf : Type 0) : Type 0 where
  table_unread : E → Event E PathBuf
  table_rejected : ParseError → Event E PathBuf
  disk_signature : ℕ → Event E PathBuf
  partition_listed : MbrPartition → Event E PathBuf
  partitions_listed : Event E PathBuf
  gpt_detected : Event E PathBuf
  anomalies : List Anomaly → Event E PathBuf
  partition_unread : MbrPartition → E → Event E PathBuf
  partition_identified : MbrPartition → Identification → Option Bool → Event E PathBuf
  boot_sector_rejected : Fat32Error → Event E PathBuf
  boot_sector : Fat32BootSector → Event E PathBuf
  root_directory_unread : DirectoryError E → Event E PathBuf
  directory_read : Reached → Directory → Event E PathBuf
  directory_not_read : Reached → NotReadReason E → Event E PathBuf
  listing_may_continue : ℕ → Event E PathBuf
  orphan_search_stopped : ℕ → DirectoryError E → Event E PathBuf
  orphaned_listing_unread : ℕ → List ℕ → ℕ → Event E PathBuf
  not_assessed : Listing → DirectoryPart → Entry → RecoveryError E → Event E PathBuf
  found_ineligible : Listing → DirectoryPart → Entry → Ineligible → Event E PathBuf
  found_broken : Listing → DirectoryPart → Entry → ClusterRun → ℕ → Event E PathBuf
  found_free : Listing → DirectoryPart → Entry → ClusterRun → Event E PathBuf
  was_extracted :
      Listing
      → DirectoryPart
      → Entry
      → Extraction PathBuf
      → Validation
      → Option Bool
      → Event E PathBuf
  not_extracted : Listing → DirectoryPart → Entry → ExtractError E PathBuf → Event E PathBuf
