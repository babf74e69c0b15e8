-- ===== src/Analysis/Report.antt =====
-- src/analysis.rs `report_recovery`: what the volume says of each deleted entry's content. The counts, the
-- events recorded and the file system's state are passed on together.
pub mod Books
pub mod Accounted
use taphonomy.Prelude.{
  ℕ, ◌+◌, Bool, true, false, Option, none, some, List, [], ◌∷◌, ◌++◌, Result, ok, err,
  if◌then◌else◌, bytes_eq,
}
use taphonomy.Filesystem.{VolumeExtent}
use taphonomy.Fat32.{Fat32BootSector}
use taphonomy.Evidence.{EvidenceReader}
use taphonomy.Directory.Entry.{Entry}
use taphonomy.Hash.Hasher.{Sha256}
use taphonomy.Extraction.System.{FileSystem}
use taphonomy.Extraction.Writer.{
  Output, written, unverified, exists_already, not_created, failed, Extraction,
}
use taphonomy.Extraction.Destination.{Destination}
use taphonomy.Validation.{Outcome, same_digest, Validation, validate}
use taphonomy.Recovery.{
  Ineligible, empty_file, reserved_first_cluster, run_out_of_range, Listing, UnallocatedRun,
  Assessment, RecoveryError, assess_listed,
}
use taphonomy.Recovery.Extract.{ExtractError, extract}
use taphonomy.Analysis.Counts.{Options, RunCounts}
use taphonomy.Analysis.Events.{
  DirectoryPart, Event, not_assessed, found_ineligible, found_broken, found_free, was_extracted,
  not_extracted,
}

pub record Log (E State PathBuf : Type 0) : Type 0 where
  pub counts : RunCounts
  pub events : List (Event E PathBuf)
  pub files : State

-- `sink.record`
unfoldable pub record_event :
    {E State PathBuf : Type 0} → Event E PathBuf → Log E State PathBuf → Log E State PathBuf
record_event event log = record log { events = log.events ++ (event ∷ []) }

unfoldable pub count_ineligible : Ineligible → RunCounts → RunCounts
count_ineligible empty_file c = record c { empty = c.empty + 1 }
count_ineligible (reserved_first_cluster cluster) c = record c {
  reserved_cluster = c.reserved_cluster + 1;
}
count_ineligible (run_out_of_range last clusters) c = record c {
  run_out_of_range = c.run_out_of_range + 1;
}
count_ineligible _ c = c

unfoldable pub count_output : {PathBuf : Type 0} → Option (Output PathBuf) → RunCounts → RunCounts
count_output none c = c
count_output (some (written path readback)) c = c
count_output (some (unverified path message)) c = c
count_output (some (exists_already path)) c = record c { not_delivered = c.not_delivered + 1 }
count_output (some (not_created path message)) c = record c { not_delivered = c.not_delivered + 1 }
count_output (some (failed path message removed)) c = record c {
  not_delivered = c.not_delivered + 1;
}

unfoldable pub readback_matches :
    {PathBuf : Type 0} → List ℕ → Option (Output PathBuf) → Option Bool
readback_matches digest (some (written path readback)) = some (bytes_eq readback digest)
readback_matches digest _ = none

unfoldable pub count_outcome : Outcome → RunCounts → RunCounts
count_outcome same_digest c = record c { matched = c.matched + 1 }
count_outcome _ c = c

module _ {E Inner State File PathBuf : Type 0} (reader : EvidenceReader E) (sha : Sha256 Inner)
    (fs : FileSystem State File PathBuf) (options : Options PathBuf) (boot : Fat32BootSector)
    (extent : VolumeExtent) (partition : ℕ) (listing : Listing) (part : DirectoryPart) where
  unfoldable pub destination_of : Entry → Option (Destination PathBuf)
  destination_of entry = elim options.output [
    | none ↦ none
    | some directory ↦ some (record {
      directory = directory;
      partition = partition;
      cluster = entry.cluster;
      slot = entry.slot;
    })
  ]

  -- The match on what `extract` answers.
  unfoldable pub report_answer :
      Entry
      → Result (ExtractError E PathBuf) (Extraction PathBuf)
      → Log E State PathBuf
      → Log E State PathBuf
  report_answer entry (ok extracted) log =
      let validation = validate extracted.digest extracted.bytes_hashed options.reference in
      let counts = count_outcome validation.outcome (count_output extracted.output log.counts) in
      record_event
        (was_extracted listing part entry extracted validation
          (readback_matches extracted.digest extracted.output))
        (record log { counts = counts })
  report_answer entry (err e) log =
      let log' = record_event (not_extracted listing part entry e) log in
      record log' { counts = record log.counts { not_extracted = log.counts.not_extracted + 1 } }

  -- `if options.recover`, with the run's event recorded.
  unfoldable pub read_free :
      Bool → Entry → UnallocatedRun → Log E State PathBuf → Option (Log E State PathBuf)
  read_free false entry found log = some log
  read_free true entry found log =
      elim (extract reader boot extent sha fs found (destination_of entry) log.files) [
        | none ↦ none
        | some (answer, files) ↦ some (report_answer entry answer (record log { files = files }))
      ]

  -- What is done with a run that is free.
  unfoldable pub report_free :
      Entry → UnallocatedRun → Log E State PathBuf → Option (Log E State PathBuf)
  report_free entry found log = read_free options.recover entry found (
      record_event (found_free listing part entry found.inner)
        (record log { counts = record log.counts { free_runs = log.counts.free_runs + 1 } }))

  -- The match on an assessment.
  unfoldable pub report_assessment :
      Entry → Assessment → Log E State PathBuf → Option (Log E State PathBuf)
  report_assessment entry (Assessment.ineligible reason) log =
      let log' = record_event (found_ineligible listing part entry reason) log in
      some (record log' { counts = count_ineligible reason log.counts })
  report_assessment entry (Assessment.run_broken run first_allocated) log =
      let log' = record_event (found_broken listing part entry run first_allocated) log in
      some (record log' { counts = record log.counts { refused = log.counts.refused + 1 } })
  report_assessment entry (Assessment.recoverable found) log = report_free entry found log

  -- One round of the loop over the entries.
  unfoldable pub report_entry : Entry → Log E State PathBuf → Option (Log E State PathBuf)
  report_entry entry log = elim (assess_listed reader boot extent entry listing) [
    | err e ↦
        let log' = record_event (not_assessed listing part entry e) log in
        some (record log' {
          counts = record log.counts { not_assessed = log.counts.not_assessed + 1 };
        })
    | ok assessed ↦ elim assessed [
      | none ↦ some log
      | some assessment ↦ report_assessment entry assessment log
    ]
  ]

  unfoldable pub report_recovery : List Entry → Log E State PathBuf → Option (Log E State PathBuf)
  report_recovery [] log = some log
  report_recovery (entry ∷ entries) log = elim (report_entry entry log) [
    | none ↦ none
    | some log' ↦ report_recovery entries log'
  ]
