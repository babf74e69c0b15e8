-- ===== src/Analysis/Tally.antt =====
-- src/analysis.rs `RunCounts`: the counts that a list of events stands for, described apart from the code
-- that keeps them.
use taphonomy.Prelude.{
  ℕ, ◌+◌, Bool, true, false, Option, none, some, List, [], ◌∷◌, ◌++◌, if◌then◌else◌, arith, ◌≡◌,
  refl,
}
use taphonomy.Partition.{Anomaly, partition_beyond_end, zero_length_partition}
use taphonomy.Filesystem.{Filesystem, fat32, Identification, identified, unknown}
use taphonomy.Extraction.Writer.{Output, written, unverified, exists_already, not_created, failed}
use taphonomy.Validation.{Outcome, same_digest}
use taphonomy.Recovery.{Ineligible, empty_file, reserved_first_cluster, run_out_of_range}
use taphonomy.Analysis.Counts.{RunCounts}
use taphonomy.Analysis.Events.{
  Reached, root, Event, table_unread, table_rejected, gpt_detected, disk_signature,
  partition_listed, partitions_listed, anomalies, partition_unread, partition_identified,
  boot_sector_rejected, boot_sector, root_directory_unread, directory_read, directory_not_read,
  listing_may_continue, orphan_search_stopped, orphaned_listing_unread, not_assessed,
  found_ineligible, found_broken, found_free, was_extracted, not_extracted,
}

-- An entry of the table that was dropped, as beyond the image's end or as empty.
unfoldable pub is_dropped : Anomaly → Bool
is_dropped (partition_beyond_end index start sectors image) = true
is_dropped (zero_length_partition index start) = true
is_dropped _ = false

unfoldable pub dropped_in : List Anomaly → ℕ
dropped_in [] = 0
dropped_in (a ∷ found) = (if is_dropped a then 1 else 0) + dropped_in found

unfoldable pub is_fat32 : Filesystem → Bool
is_fat32 fat32 = true
is_fat32 _ = false

unfoldable pub counted_identification : Identification → RunCounts → RunCounts
counted_identification (identified fs geometry oem observations) c = record c {
  unsupported = c.unsupported + (if is_fat32 fs then 0 else 1);
}
counted_identification (unknown reason) c = record c { unidentified = c.unidentified + 1 }

unfoldable pub counted_reason : Ineligible → RunCounts → RunCounts
counted_reason empty_file c = record c { empty = c.empty + 1 }
counted_reason (reserved_first_cluster cluster) c = record c {
  reserved_cluster = c.reserved_cluster + 1;
}
counted_reason (run_out_of_range last clusters) c = record c {
  run_out_of_range = c.run_out_of_range + 1;
}
counted_reason _ c = c

-- An artifact that was read, asked for, and not handed over.
unfoldable pub undelivered : {PathBuf : Type 0} → Option (Output PathBuf) → ℕ
undelivered none = 0
undelivered (some (written path readback)) = 0
undelivered (some (unverified path message)) = 0
undelivered (some (exists_already path)) = 1
undelivered (some (not_created path message)) = 1
undelivered (some (failed path message removed)) = 1

unfoldable pub matches : Outcome → ℕ
matches same_digest = 1
matches _ = 0

unfoldable pub is_root : Reached → ℕ
is_root root = 1
is_root _ = 0

module _ {E PathBuf : Type 0} where
  -- What one event adds.
  unfoldable pub counted : Event E PathBuf → RunCounts → RunCounts
  counted (table_unread e) c = record c { table_unread = c.table_unread + 1 }
  counted (table_rejected e) c = record c { table_rejected = c.table_rejected + 1 }
  counted (disk_signature n) c = c
  counted (partition_listed p) c = c
  counted partitions_listed c = c
  counted gpt_detected c = record c { gpt = c.gpt + 1 }
  counted (anomalies found) c = record c {
    partitions_anomalous = c.partitions_anomalous + dropped_in found;
  }
  counted (partition_unread p e) c = record c { partition_unread = c.partition_unread + 1 }
  counted (partition_identified p id matching) c = counted_identification id c
  counted (boot_sector_rejected e) c = record c { boot_rejected = c.boot_rejected + 1 }
  counted (boot_sector b) c = c
  counted (root_directory_unread e) c = record c { root_unread = c.root_unread + 1 }
  counted (directory_read reached d) c = record c {
    volumes_analysed = c.volumes_analysed + is_root reached;
  }
  counted (directory_not_read reached reason) c = record c {
    directories_unread = c.directories_unread + 1;
  }
  counted (listing_may_continue cluster) c = record c {
    listings_may_continue = c.listings_may_continue + 1;
  }
  counted (orphan_search_stopped cluster e) c = record c {
    orphan_search_stopped = c.orphan_search_stopped + 1;
  }
  counted (orphaned_listing_unread holder name first) c = record c {
    directories_unread = c.directories_unread + 1;
  }
  counted (not_assessed l p entry e) c = record c { not_assessed = c.not_assessed + 1 }
  counted (found_ineligible l p entry reason) c = counted_reason reason c
  counted (found_broken l p entry run first) c = record c { refused = c.refused + 1 }
  counted (found_free l p entry run) c = record c { free_runs = c.free_runs + 1 }
  counted (was_extracted l p entry x v rb) c = record c {
    not_delivered = c.not_delivered + undelivered x.output;
    matched = c.matched + matches v.outcome;
  }
  counted (not_extracted l p entry e) c = record c { not_extracted = c.not_extracted + 1 }

  unfoldable pub tally_from : RunCounts → List (Event E PathBuf) → RunCounts
  tally_from c [] = c
  tally_from c (e ∷ es) = tally_from (counted e c) es

  pub tally_from-append :
      (c : RunCounts) (es : List (Event E PathBuf)) (e : Event E PathBuf)
      → tally_from c (es ++ (e ∷ [])) ≡ counted e (tally_from c es)
  unfolding tally_from
  tally_from-append c [] e = refl
  tally_from-append c (d ∷ es) e = tally_from-append (counted d c) es e

  -- The extractions that succeeded.
  unfoldable pub extraction_of : Event E PathBuf → ℕ
  extraction_of (was_extracted l p entry x v rb) = 1
  extraction_of _ = 0

  unfoldable pub extractions : List (Event E PathBuf) → ℕ
  extractions [] = 0
  extractions (e ∷ es) = extraction_of e + extractions es

  pub extractions-append :
      (es : List (Event E PathBuf)) (e : Event E PathBuf)
      → extractions (es ++ (e ∷ [])) ≡ extractions es + extraction_of e
  unfolding extractions
  extractions-append [] e = omega arith
  extractions-append (d ∷ es) e = let rest = extractions-append es e in omega arith
