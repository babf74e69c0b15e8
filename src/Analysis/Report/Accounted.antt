-- ===== src/Analysis/Report/Accounted.antt =====
-- src/analysis.rs `report_recovery`: its counts and its events.
use taphonomy.Prelude.{
  ℕ, ◌+◌, ◌<◌, Bool, true, false, some, List, [], ◌∷◌, ◌++◌, Result, ok, err, All, u32_mod, arith,
  ◌≡◌, refl, sym, ap, ◌∙◌, inl, inr, Option-cases, Result-cases,
}
use mathlib.Core.Path.{subst}
use taphonomy.Filesystem.{VolumeExtent}
use taphonomy.Fat.Geometry.{IsGeometry}
use taphonomy.Recovery.Run.{States, eligibility-IsRun}
use taphonomy.Fat32.{Fat32BootSector}
use taphonomy.Evidence.{EvidenceReader}
use taphonomy.Directory.Entry.{Entry, EntryKind, deleted, DeletedKind}
use taphonomy.Directory.Walk.Sizes.{FitsSize, HasSize}
use taphonomy.Hash.Hasher.{Sha256}
use taphonomy.Extraction.System.{FileSystem}
use taphonomy.Extraction.Writer.{Extraction}
use taphonomy.Validation.{validate}
use taphonomy.Recovery.{
  ClusterRun, recoverable, Listing, orphaned, UnallocatedRun, Assessment, Eligibility, eligibility,
  assess_run, assess_listed,
}
use taphonomy.Recovery.Extract.{ExtractError}
use taphonomy.Recovery.Extract.Refines.{extract-Extracted}
use taphonomy.Analysis.Counts.{Options, RunCounts}
use taphonomy.Analysis.Events.{
  DirectoryPart, Event, not_assessed, found_ineligible, found_broken, found_free, not_extracted,
}
use taphonomy.Analysis.Tally.{matches, counted, extraction_of}
use taphonomy.Analysis.Report.Books.{
  count_output-eq, count_outcome-eq, matches-le, count_ineligible-eq, found_ineligible-IsQuiet,
  IsAccounted, after, after-IsAccounted, free-IsAccounted, both-IsAccounted,
}
use taphonomy.Analysis.Report.{
  Log, destination_of, record_event, count_output, report_answer, read_free, report_free,
  report_assessment, report_entry, report_recovery,
}

States-small :
    (kind : EntryKind) (listing : Listing) (first size : ℕ)
    → States kind listing first size
    → FitsSize kind
    → size < u32_mod
States-small (deleted (DeletedKind.short_name s false f z nt)) listing first size (hf, hz) small =
    omega arith
States-small (EntryKind.short_name name raw false f z nt) orphaned first size (hf, hz) small =
    omega arith
States-small kind listing first size h small = elim h [ ]

module _ {E Inner State File PathBuf : Type 0} (reader : EvidenceReader E) (sha : Sha256 Inner)
    (fs : FileSystem State File PathBuf) (options : Options PathBuf) (boot : Fat32BootSector)
    (extent : VolumeExtent) (partition : ℕ) (listing : Listing) (part : DirectoryPart) where
  -- A free run's log before it is read.
  abbrev freed : Entry → ClusterRun → Log E State PathBuf → State → Log E State PathBuf
  freed entry r log files = record {
    counts = record log.counts { free_runs = log.counts.free_runs + 1 };
    events = log.events ++ (found_free listing part entry r ∷ []);
    files = files;
  }

  report_answer-IsAccounted :
      (entry : Entry) (r : ClusterRun)
      (answer : Result (ExtractError E PathBuf) (Extraction PathBuf)) (log : Log E State PathBuf)
      (files : State)
      → IsAccounted true log
      → IsAccounted true (
          report_answer reader sha fs options boot extent partition listing part entry answer
            (freed entry r log files))
  unfolding report_answer record_event counted extraction_of
  report_answer-IsAccounted entry r (err e) log files is =
      both-IsAccounted log listing part entry r (not_extracted listing part entry e) _ files is refl
        refl (omega arith) (omega arith)
  report_answer-IsAccounted entry r (ok x) log files is =
      let v = validate x.digest x.bytes_hashed options.reference in
      let c = record log.counts { free_runs = log.counts.free_runs + 1 } in
      let outputs = count_output-eq x.output c in
      let outcomes = count_outcome-eq v.outcome (count_output x.output c) in
      let both =
        outcomes
        ∙ ap {A = RunCounts} {B = RunCounts}
            (λ d. record d { matched = d.matched + matches v.outcome }) outputs in
      let frees = ap (λ d. d.free_runs) both in
      let fails = ap (λ d. d.not_extracted) both in
      let compares = ap (λ d. d.matched) both in
      let most = matches-le v.outcome in
      both-IsAccounted log listing part entry r _ _ files is both frees (omega arith) (omega arith)

  read_free-IsAccounted :
      (recover : Bool) (entry : Entry) (found : UnallocatedRun) (log : Log E State PathBuf)
      → found.inner.file_size < u32_mod
      → IsAccounted recover log
      → (log' : Log E State PathBuf) × (read_free reader sha fs options boot extent partition
            listing part recover entry found
            (freed entry found.inner log log.files)
          ≡ some log')
        × IsAccounted recover log'
  unfolding read_free
  read_free-IsAccounted false entry found log small is = (
    freed entry found.inner log log.files,
    refl,
    free-IsAccounted log listing part entry found.inner is,
  )
  read_free-IsAccounted true entry found log small is =
      let (answer, files, extracts, how) =
        extract-Extracted reader boot extent sha fs found
          (destination_of reader sha fs options boot extent partition listing part entry) log.files
          (omega arith) in
      (
        report_answer reader sha fs options boot extent partition listing part entry answer
            (freed entry found.inner log files),
        rw (extracts, read_free) refl,
        report_answer-IsAccounted entry found.inner answer log files is,
      )

  report_assessment-IsAccounted :
      (entry : Entry) (assessment : Assessment) (log : Log E State PathBuf)
      → ((found : UnallocatedRun)
          → assessment ≡ recoverable found
          → found.inner.file_size < u32_mod)
      → IsAccounted options.recover log
      → (log' : Log E State PathBuf) × (report_assessment reader sha fs options boot extent
            partition listing part entry assessment log
          ≡ some log')
        × IsAccounted options.recover log'
  unfolding report_assessment record_event report_free counted extraction_of
  report_assessment-IsAccounted entry (Assessment.recoverable found) log small is =
      read_free-IsAccounted options.recover entry found log (small found refl) is
  report_assessment-IsAccounted entry (Assessment.run_broken r first) log small is = (
    _,
    refl,
    after-IsAccounted options.recover log (found_broken listing part entry r first) is
        (record { frees = refl; fails = refl; match = refl; no_extraction = refl }),
  )
  report_assessment-IsAccounted entry (Assessment.ineligible reason) log small is =
      let e : Event E PathBuf = found_ineligible listing part entry reason in
      (
        _,
        refl,
        subst (λ c. IsAccounted options.recover (after log e c log.files))
            (sym (count_ineligible-eq reason log.counts))
            (after-IsAccounted options.recover log e is
              (found_ineligible-IsQuiet log.counts listing part entry reason)),
      )

  assess_run-inner :
      (r : ClusterRun) (found : UnallocatedRun)
      → assess_run reader boot extent r ≡ ok (some (recoverable found))
      → found.inner ≡ r
  unfolding assess_run
  assess_run-inner r found h = ground arith

  assess_listed-small :
      (entry : Entry) (found : UnallocatedRun)
      → IsGeometry boot.geometry
      → HasSize entry
      → assess_listed reader boot extent entry listing ≡ ok (some (recoverable found))
      → found.inner.file_size < u32_mod
  unfolding assess_listed
  assess_listed-small entry found sound small h =
      elim (Option-cases (eligibility entry listing boot)) [
        | inl none_asked ↦ let h' = rw (none_asked, assess_listed) at h in cc
        | inr (eligible, is) ↦ go eligible is
      ]
    where
      go :
          (e : Eligibility)
          → eligibility entry listing boot ≡ some e
          → found.inner.file_size < u32_mod
      go (Eligibility.refused reason) is = let h' = rw (is, assess_listed) at h in cc
      go (Eligibility.run r) is =
          let h' : assess_run reader boot extent r ≡ ok (some (recoverable found)) =
            rw (is, assess_listed) at h in
          let states = (eligibility-IsRun boot sound entry listing r is).1 in
          rw (assess_run-inner r found h')
            (States-small entry.kind listing r.first_cluster r.file_size states small)

  report_entry-IsAccounted :
      (entry : Entry) (log : Log E State PathBuf)
      → IsGeometry boot.geometry
      → HasSize entry
      → IsAccounted options.recover log
      → (log' : Log E State PathBuf) × (report_entry reader sha fs options boot extent partition
            listing part entry log
          ≡ some log')
        × IsAccounted options.recover log'
  unfolding report_entry record_event counted extraction_of
  report_entry-IsAccounted entry log sound small is =
      elim (Result-cases (assess_listed reader boot extent entry listing)) [
        | inr (e, fails) ↦ (
          _,
          rw (fails, report_entry) refl,
          after-IsAccounted options.recover log (not_assessed listing part entry e) is
              (record { frees = refl; fails = refl; match = refl; no_extraction = refl }),
        )
        | inl (assessed, assesses) ↦ elim (Option-cases assessed) [
          | inl nothing ↦ (log, rw (assesses, nothing, report_entry) refl, is)
          | inr (assessment, some_of) ↦
              let (log', reports, is') =
                report_assessment-IsAccounted entry assessment log
                  (λ found. λ free.
                    assess_listed-small entry found sound small
                      (assesses ∙ ap ok some_of ∙ ap (λ a. ok (some a)) free))
                  is in
              (log', rw (assesses, some_of, report_entry) reports, is')
        ]
      ]

  -- `report_recovery` always comes to an end, and keeps the books: whatever the entries, the volume and the
  -- destination hold, every count of the run is still the number of the events that it stands for; with
  -- `recover`, the free runs are those extracted and those counted as not extracted; without, none was
  -- read; and no more runs match the reference than were extracted.
  pub report_recovery-IsAccounted :
      (entries : List Entry) (log : Log E State PathBuf)
      → IsGeometry boot.geometry
      → All HasSize entries
      → IsAccounted options.recover log
      → (log' : Log E State PathBuf) × (report_recovery reader sha fs options boot extent partition
            listing part entries log
          ≡ some log')
        × IsAccounted options.recover log'
  unfolding report_recovery
  report_recovery-IsAccounted [] log sound small is = (log, refl, is)
  report_recovery-IsAccounted (entry ∷ entries) log sound (first, rest) is =
      let (log1, reports, is1) = report_entry-IsAccounted entry log sound first is in
      let (log', others, is') = report_recovery-IsAccounted entries log1 sound rest is1 in
      (log', rw (reports, report_recovery) others, is')
