-- ===== src/Analysis/Report/Books.antt =====
-- src/analysis.rs `report_recovery`: when the counts account for the events, and what keeps them so.
use taphonomy.Prelude.{
  ◌+◌, ◌≤◌, Bool, true, false, Option, none, some, [], ◌∷◌, ◌++◌, arith, ◌≡◌, refl, sym, ap, ◌∙◌,
  inl, inr, Bool-cases,
}
use taphonomy.Directory.Entry.{Entry}
use taphonomy.Extraction.Writer.{Output, written, unverified, exists_already, not_created, failed}
use taphonomy.Validation.{Outcome, same_digest, differs, not_attempted}
use taphonomy.Recovery.{
  ClusterRun, Ineligible, directory, volume_label, long_name_component, invalid_entry, empty_file,
  reserved_first_cluster, run_out_of_range, Listing,
}
use taphonomy.Analysis.Counts.{
  Options, RunCounts, no_counts, is_given, artifacts, not_read, differed,
}
use taphonomy.Analysis.Events.{DirectoryPart, Event, found_ineligible, found_free}
use taphonomy.Analysis.Tally.{
  counted_reason, undelivered, matches, counted, tally_from, tally_from-append, extraction_of,
  extractions, extractions-append,
}
use taphonomy.Analysis.Report.{Log, count_ineligible, count_output, count_outcome}

pub count_output-eq :
    {PathBuf : Type 0} (o : Option (Output PathBuf)) (c : RunCounts)
    → count_output o c ≡ record c { not_delivered = c.not_delivered + undelivered o }
unfolding count_output undelivered
count_output-eq none c =
    let e : c.not_delivered ≡ c.not_delivered + 0 = omega arith in rw (← e) refl
count_output-eq (some (written path readback)) c =
    let e : c.not_delivered ≡ c.not_delivered + 0 = omega arith in rw (← e) refl
count_output-eq (some (unverified path message)) c =
    let e : c.not_delivered ≡ c.not_delivered + 0 = omega arith in rw (← e) refl
count_output-eq (some (exists_already path)) c = refl
count_output-eq (some (not_created path message)) c = refl
count_output-eq (some (failed path message removed)) c = refl

pub count_outcome-eq :
    (v : Outcome) (c : RunCounts) → count_outcome v c ≡ record c { matched = c.matched + matches v }
unfolding count_outcome matches
count_outcome-eq same_digest c = refl
count_outcome-eq differs c = let e : c.matched ≡ c.matched + 0 = omega arith in rw (← e) refl
count_outcome-eq not_attempted c = let e : c.matched ≡ c.matched + 0 = omega arith in rw (← e) refl

pub matches-le : (v : Outcome) → matches v ≤ 1
unfolding matches
matches-le same_digest = omega arith
matches-le differs = omega arith
matches-le not_attempted = omega arith

-- An event that is neither an extraction nor the failure of one, nor a free run.
pub record IsQuiet {E PathBuf : Type 0} (c : RunCounts) (e : Event E PathBuf) : Type 0 where
  pub frees : (counted e c).free_runs ≡ c.free_runs
  pub fails : (counted e c).not_extracted ≡ c.not_extracted
  pub match : (counted e c).matched ≡ c.matched
  pub no_extraction : extraction_of e ≡ 0

pub count_ineligible-eq :
    (reason : Ineligible) (c : RunCounts) → count_ineligible reason c ≡ counted_reason reason c
unfolding count_ineligible counted_reason
count_ineligible-eq directory c = refl
count_ineligible-eq volume_label c = refl
count_ineligible-eq long_name_component c = refl
count_ineligible-eq (invalid_entry attr) c = refl
count_ineligible-eq empty_file c = refl
count_ineligible-eq (reserved_first_cluster cluster) c = refl
count_ineligible-eq (run_out_of_range last clusters) c = refl

pub found_ineligible-IsQuiet :
    {E PathBuf : Type 0} (c : RunCounts) (l : Listing) (p : DirectoryPart) (entry : Entry)
    (reason : Ineligible)
    → IsQuiet {E = E} {PathBuf = PathBuf} c (found_ineligible l p entry reason)
unfolding counted counted_reason extraction_of
found_ineligible-IsQuiet c l p entry directory = record {
  frees = refl;
  fails = refl;
  match = refl;
  no_extraction = refl;
}
found_ineligible-IsQuiet c l p entry volume_label = record {
  frees = refl;
  fails = refl;
  match = refl;
  no_extraction = refl;
}
found_ineligible-IsQuiet c l p entry long_name_component = record {
  frees = refl;
  fails = refl;
  match = refl;
  no_extraction = refl;
}
found_ineligible-IsQuiet c l p entry (invalid_entry attr) = record {
  frees = refl;
  fails = refl;
  match = refl;
  no_extraction = refl;
}
found_ineligible-IsQuiet c l p entry empty_file = record {
  frees = refl;
  fails = refl;
  match = refl;
  no_extraction = refl;
}
found_ineligible-IsQuiet c l p entry (reserved_first_cluster cluster) = record {
  frees = refl;
  fails = refl;
  match = refl;
  no_extraction = refl;
}
found_ineligible-IsQuiet c l p entry (run_out_of_range last clusters) = record {
  frees = refl;
  fails = refl;
  match = refl;
  no_extraction = refl;
}

module _ {E State PathBuf : Type 0} where
  -- Every count is the one that the events stand for; with `recover`, each free run was extracted or is
  -- counted as not extracted, and without, none was read; and only what was extracted can match.
  pub record IsAccounted (recover : Bool) (log : Log E State PathBuf) : Type 0 where
    pub tallied : log.counts ≡ tally_from no_counts log.events
    pub settled :
        recover ≡ true → log.counts.free_runs ≡ extractions log.events + log.counts.not_extracted
    pub unread : recover ≡ false → (extractions log.events ≡ 0) × (log.counts.not_extracted ≡ 0)
    pub compared : log.counts.matched ≤ extractions log.events

  -- The log after one event that counts as c.
  abbrev pub after : Log E State PathBuf → Event E PathBuf → RunCounts → State → Log E State PathBuf
  after log e c files = record { counts = c; events = log.events ++ (e ∷ []); files = files }

  pub after-IsAccounted :
      (recover : Bool) (log : Log E State PathBuf) (e : Event E PathBuf)
      → IsAccounted recover log
      → IsQuiet log.counts e
      → IsAccounted recover (after log e (counted e log.counts) log.files)
  after-IsAccounted recover log e is quiet =
      let grown = extractions-append log.events e in
      let frees = quiet.frees in
      let fails = quiet.fails in
      let same_match = quiet.match in
      let zero_more = quiet.no_extraction in
      let compared = is.compared in
      record {
        tallied = ap (counted e) is.tallied ∙ sym (tally_from-append no_counts log.events e);
        settled = λ r. let before = is.settled r in omega arith;
        unread = λ r. let (none_read, none_failed) = is.unread r in (omega arith, omega arith);
        compared = omega arith;
      }

  -- A free run that is not read.
  pub free-IsAccounted :
      (log : Log E State PathBuf) (l : Listing) (p : DirectoryPart) (entry : Entry) (r : ClusterRun)
      → IsAccounted false log
      → IsAccounted false (
          after log
            (found_free l p entry r)
            (record log.counts { free_runs = log.counts.free_runs + 1 })
            log.files)
  unfolding counted extraction_of
  free-IsAccounted log l p entry r is =
      let e : Event E PathBuf = found_free l p entry r in
      let grown = extractions-append log.events e in
      let compared = is.compared in
      record {
        tallied = ap (counted e) is.tallied ∙ sym (tally_from-append no_counts log.events e);
        settled = λ h. cc;
        unread = λ h. let (none_read, none_failed) = is.unread h in (omega arith, none_failed);
        compared = omega arith;
      }

  -- A free run and, behind it, its extraction or the failure of it.
  pub both-IsAccounted :
      (log : Log E State PathBuf) (l : Listing) (p : DirectoryPart) (entry : Entry) (r : ClusterRun)
      (x : Event E PathBuf) (c : RunCounts) (files : State)
      → IsAccounted true log
      → c ≡ counted x (record log.counts { free_runs = log.counts.free_runs + 1 })
      → c.free_runs ≡ log.counts.free_runs + 1
      → extraction_of x + c.not_extracted ≡ log.counts.not_extracted + 1
      → c.matched ≤ log.counts.matched + extraction_of x
      → IsAccounted true (record {
        counts = c;
        events = (log.events ++ (found_free l p entry r ∷ [])) ++ (x ∷ []);
        files = files;
      })
  unfolding counted extraction_of
  both-IsAccounted log l p entry r x c files is same frees fails compares =
      let e : Event E PathBuf = found_free l p entry r in
      let first = extractions-append log.events e in
      let second = extractions-append (log.events ++ (e ∷ [])) x in
      let compared = is.compared in
      let before = is.settled refl in
      record {
        tallied =
            same
            ∙ ap (counted x)
                (ap (counted e) is.tallied ∙ sym (tally_from-append no_counts log.events e))
            ∙ sym (tally_from-append no_counts (log.events ++ (e ∷ [])) x);
        settled = λ h. omega arith;
        unread = λ h. cc;
        compared = omega arith;
      }

module _ {E State PathBuf : Type 0} (options : Options PathBuf) (log : Log E State PathBuf) where
  -- Where the books are kept, the counts derived from them are exact, their saturating subtractions
  -- included: `artifacts` is the number of extractions reported; with a reference, each of these either
  -- matched it or is in `differed`; and `not_read` is every free run where nothing was read.
  pub artifacts-exact :
      IsAccounted options.recover log
      → (artifacts options log.counts ≡ extractions log.events)
        × (is_given options.reference ≡ true
            → differed options log.counts + log.counts.matched ≡ extractions log.events)
        × (not_read options log.counts + artifacts options log.counts + log.counts.not_extracted
            ≡ log.counts.free_runs)
  unfolding artifacts differed not_read
  artifacts-exact is = elim (Bool-cases options.recover) [
    | inl recovers ↦
        let settled = is.settled recovers in
        let compared = is.compared in (ground arith, λ given. ground arith, ground arith)
    | inr reports ↦
        let (none_read, none_failed) = is.unread reports in
        let compared = is.compared in (ground arith, λ given. ground arith, ground arith)
  ]
