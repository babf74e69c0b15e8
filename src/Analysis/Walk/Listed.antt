-- ===== src/Analysis/Walk/Listed.antt =====
-- src/analysis.rs `report_subdirectory`: counts and events of a directory below
-- the root, and what is left of the walk.
use taphonomy.Prelude.{
  ◌≤◌, ◌<◌, ℕ, ◌+◌, Bool, true, false, some, ◌++◌, ltb, arith, ◌≡◌, refl, inl, inr, Bool-cases,
  Option-cases, Result-cases,
}
use mathlib.Core.Path.{subst}
use taphonomy.Filesystem.{VolumeExtent}
use taphonomy.Fat.Geometry.{IsGeometry}
use taphonomy.Fat32.{Fat32BootSector}
use taphonomy.Evidence.{EvidenceReader}
use taphonomy.Directory.Walk.{Directory, contains}
use taphonomy.Directory.Walk.First.{contains-append, contains-append_right}
use taphonomy.Fat.{first_data_cluster}
use taphonomy.Hash.Hasher.{Sha256}
use taphonomy.Extraction.System.{FileSystem}
use taphonomy.Recovery.{walked}
use taphonomy.Analysis.Counts.{Options}
use taphonomy.Analysis.Events.{
  in_entries, in_residue, NotReadReason, too_deep, already_read, Event, directory_read,
  directory_not_read, listing_may_continue,
}
use taphonomy.Analysis.Tally.{counted, is_root, extraction_of}
use taphonomy.Analysis.Report.{Log, record_event}
use taphonomy.Analysis.Report.Books.{IsAccounted, after, after-IsAccounted}
use taphonomy.Analysis.Report.Accounted.{report_recovery-IsAccounted}
use taphonomy.Analysis.Walk.Reads.{AreSized, read_listing-IsListing}
use taphonomy.Analysis.Walk.{
  queue_subdirectories, max_depth, Pending, shared_cluster, Walking, reached_by, report_not_read,
  report_may_continue, read_listing, report_parts, report_listing, report_subdirectory,
}

counted_walked :
    {E State PathBuf : Type 0} (next : Pending) (d : Directory) (log : Log E State PathBuf)
    → counted {E = E} {PathBuf = PathBuf} (directory_read (reached_by next) d) log.counts
      ≡ log.counts
unfolding counted is_root reached_by
counted_walked next d log =
    let same : log.counts.volumes_analysed + 0 ≡ log.counts.volumes_analysed = omega arith in
    rw same refl

module _ {E State PathBuf : Type 0} (recover : Bool) where
  not_read-IsAccounted :
      (next : Pending) (reason : NotReadReason E) (log : Log E State PathBuf)
      → IsAccounted recover log
      → IsAccounted recover (report_not_read next reason log)
  unfolding report_not_read record_event counted extraction_of
  not_read-IsAccounted next reason log is =
      after-IsAccounted recover log (directory_not_read (reached_by next) reason) is
        (record { frees = refl; fails = refl; match = refl; no_extraction = refl })

  may_continue-IsAccounted :
      (cluster : ℕ) (may_continue : Bool) (log : Log E State PathBuf)
      → IsAccounted recover log
      → IsAccounted recover (report_may_continue cluster may_continue log)
  unfolding report_may_continue record_event counted extraction_of
  may_continue-IsAccounted cluster false log is = is
  may_continue-IsAccounted cluster true log is =
      after-IsAccounted recover log (listing_may_continue cluster) is
        (record { frees = refl; fails = refl; match = refl; no_extraction = refl })

  directory_read-IsAccounted :
      (next : Pending) (d : Directory) (log : Log E State PathBuf)
      → IsAccounted recover log
      → IsAccounted recover (record_event (directory_read (reached_by next) d) log)
  unfolding record_event counted extraction_of is_root reached_by
  directory_read-IsAccounted next d log is =
      let e : Event E PathBuf = directory_read (reached_by next) d in
      subst (λ c. IsAccounted recover (after log e c log.files)) (counted_walked next d log)
        (after-IsAccounted recover log e is
          (record { frees = refl; fails = refl; match = refl; no_extraction = refl }))

-- The walk without the directory.
abbrev declined :
    {E State PathBuf : Type 0}
    → Pending
    → NotReadReason E
    → Walking E State PathBuf
    → Walking E State PathBuf
declined next reason w = record w { log = report_not_read next reason w.log }

-- What one step of the walk does to what is left of it: nothing, or a new cluster of the data region is read.
pub data Steps {E State PathBuf : Type 0} (boot : Fat32BootSector) (w w' : Walking E State PathBuf)
    : Type 0 where
  stays : w'.pending ≡ w.pending → w'.seen ≡ w.seen → Steps boot w w'
  grows :
      (c : ℕ)
      → first_data_cluster ≤ c
      → c < boot.geometry.cluster_count + first_data_cluster
      → contains w.seen c ≡ false
      → contains w'.seen c ≡ true
      → ((x : ℕ) → contains w.seen x ≡ true → contains w'.seen x ≡ true)
      → Steps boot w w'

module _ {E Inner State File PathBuf : Type 0} (reader : EvidenceReader E) (sha : Sha256 Inner)
    (fs : FileSystem State File PathBuf) (options : Options PathBuf) (boot : Fat32BootSector)
    (extent : VolumeExtent) (partition : ℕ) where
  report_parts-IsAccounted :
      (d : Directory) (log : Log E State PathBuf)
      → IsGeometry boot.geometry
      → AreSized d
      → IsAccounted options.recover log
      → (log' : Log E State PathBuf) × (report_parts reader sha fs options boot extent partition d
            log
          ≡ some log')
        × IsAccounted options.recover log'
  unfolding report_parts
  report_parts-IsAccounted d log sound (entries, residue) is =
      let (log1, first, is1) =
        report_recovery-IsAccounted reader sha fs options boot extent partition walked in_entries
          d.entries log sound entries is in
      let (log2, second, is2) =
        report_recovery-IsAccounted reader sha fs options boot extent partition walked in_residue
          d.residue log1 sound residue is1 in
      (log2, rw (first, report_parts) second, is2)

  report_listing-IsAccounted :
      (next : Pending) (d : Directory) (m : Bool) (w : Walking E State PathBuf)
      → IsGeometry boot.geometry
      → AreSized d
      → IsAccounted options.recover w.log
      → (w' : Walking E State PathBuf) × (report_listing reader sha fs options boot extent partition
            next d m w
          ≡ some w')
        × IsAccounted options.recover w'.log
        × (w'.seen ≡ w.seen ++ d.clusters)
  unfolding report_listing
  report_listing-IsAccounted next d m w sound sized is =
      let (log', reports, is') = report_parts-IsAccounted d _ sound sized (
        may_continue-IsAccounted options.recover next.first_cluster m _
          (directory_read-IsAccounted options.recover next d w.log is)) in
      (
        record {
          seen = w.seen ++ d.clusters;
          pending = w.pending ++ queue_subdirectories d next.path next.depth;
          log = log';
        },
        rw (reports, report_listing) refl,
        is',
        refl,
      )

  pub report_subdirectory-Steps :
      (next : Pending) (w : Walking E State PathBuf)
      → IsGeometry boot.geometry
      → IsAccounted options.recover w.log
      → (w' : Walking E State PathBuf) × (report_subdirectory reader sha fs options boot extent
            partition next w
          ≡ some w')
        × IsAccounted options.recover w'.log
        × Steps boot w w'
  unfolding report_subdirectory
  report_subdirectory-Steps next w sound is =
      let left = λ (reason : NotReadReason E). declined next reason w in
      let declines =
        λ (reason : NotReadReason E). not_read-IsAccounted options.recover next reason w.log is in
      elim (Bool-cases (ltb max_depth next.depth)) [
        | inl deep ↦
            (left too_deep, rw (deep, report_subdirectory) refl, declines too_deep, stays refl refl)
        | inr level ↦ elim (Bool-cases (contains w.seen next.first_cluster)) [
          | inl again ↦ (
            left (already_read next.first_cluster),
            rw (level, again, report_subdirectory) refl,
            declines (already_read next.first_cluster),
            stays refl refl,
          )
          | inr new ↦ elim (Result-cases (read_listing reader boot extent next)) [
            | inr (reason, refuses) ↦ (
              left reason,
              rw (level, new, refuses, report_subdirectory) refl,
              declines reason,
              stays refl refl,
            )
            | inl ((d, m), reads) ↦ elim (Option-cases (shared_cluster w.seen d.clusters)) [
              | inr (shared, crosses) ↦ (
                left (already_read shared),
                rw (level, new, reads, crosses, report_subdirectory) refl,
                declines (already_read shared),
                stays refl refl,
              )
              | inl apart ↦
                  let listing = read_listing-IsListing reader boot extent next d m reads in
                  let (w', reports, is', grown) =
                    report_listing-IsAccounted next d m w sound listing.sized is in
                  (
                    w',
                    rw (level, new, reads, apart, report_subdirectory) reports,
                    is',
                    grows next.first_cluster listing.from listing.to new
                        (rw grown (
                          contains-append_right w.seen d.clusters next.first_cluster
                            listing.visited))
                        (λ x. λ held. rw grown (contains-append w.seen d.clusters x held)),
                  )
            ]
          ]
        ]
      ]

  -- `report_subdirectory` always comes to an end, and keeps the books, whether the directory is read,
  -- refused, too deep, read before or unreadable.
  pub report_subdirectory-IsAccounted :
      (next : Pending) (w : Walking E State PathBuf)
      → IsGeometry boot.geometry
      → IsAccounted options.recover w.log
      → (w' : Walking E State PathBuf) × (report_subdirectory reader sha fs options boot extent
            partition next w
          ≡ some w')
        × IsAccounted options.recover w'.log
  report_subdirectory-IsAccounted next w sound is =
      let (w', reports, is', steps) = report_subdirectory-Steps next w sound is in
      (w', reports, is')
