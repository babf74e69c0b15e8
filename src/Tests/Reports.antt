-- ===== src/Tests/Reports.antt =====
-- The theorems on the analysis' counts, on a concrete disk and file system.
use taphonomy.Prelude.{ℕ, ◌+◌, true, false, none, some, List, [], ◌∷◌, arith, ◌≡◌, refl}
use taphonomy.Recovery.{walked}
use taphonomy.Analysis.Counts.{Options, is_given, artifacts, not_read, differed, no_counts}
use taphonomy.Analysis.Events.{in_entries, found_free}
use taphonomy.Analysis.Tally.{counted, tally_from, extraction_of, extractions}
use taphonomy.Analysis.Report.{Log, report_recovery}
use taphonomy.Analysis.Report.Books.{IsAccounted, artifacts-exact}
use taphonomy.Analysis.Report.Accounted.{report_recovery-IsAccounted}
use taphonomy.Analysis.Walk.{Pending, Walking}
use taphonomy.Analysis.Walk.Loop.{walk}
use taphonomy.Analysis.Walk.Loop.Ends.{walk-Ends}
use taphonomy.Tests.Drive.{sums, Drive, drive}
use taphonomy.Tests.Disk.{disk, extent, boot, lost_entry, lost_run}
use taphonomy.Tests.Volumes.{boot-IsBoot}

abbrev recovering : Options (List ℕ)
recovering = record { recover = true; reference = some (0 ∷ []); output = some (0x64 ∷ []) }

abbrev bare : Drive
bare path = none

abbrev nothing_yet : Log (Unit {0}) Drive (List ℕ)
nothing_yet = record { counts = no_counts; events = []; files = bare }

nothing_yet-IsAccounted : IsAccounted true nothing_yet
unfolding tally_from extractions
nothing_yet-IsAccounted = record {
  tallied = refl;
  settled = λ h. omega arith;
  unread = λ h. cc;
  compared = omega arith;
}

report_recovery-IsAccounted_example :
    (log' : Log (Unit {0}) Drive (List ℕ)) × (report_recovery disk sums drive recovering boot extent
        1 walked in_entries
        (lost_entry ∷ [])
        nothing_yet
      ≡ some log')
    × IsAccounted true log'
report_recovery-IsAccounted_example =
    report_recovery-IsAccounted disk sums drive recovering boot extent 1 walked in_entries
      (lost_entry ∷ []) nothing_yet boot-IsBoot.geometry (omega arith, tt) nothing_yet-IsAccounted

abbrev reporting : Options (List ℕ)
reporting = record { recover = false; reference = some (0 ∷ []); output = none }

abbrev one_free : Log (Unit {0}) Drive (List ℕ)
one_free = record {
  counts = record no_counts { free_runs = 1 };
  events = found_free walked in_entries lost_entry lost_run ∷ [];
  files = bare;
}

one_free-IsAccounted : IsAccounted false one_free
unfolding tally_from extractions counted extraction_of
one_free-IsAccounted = record {
  tallied = refl;
  settled = λ h. cc;
  unread = λ h. (refl, refl);
  compared = omega arith;
}

artifacts-exact_example :
    (artifacts reporting one_free.counts ≡ extractions one_free.events)
    × (is_given reporting.reference ≡ true
        → differed reporting one_free.counts + one_free.counts.matched
          ≡ extractions one_free.events)
    × (not_read reporting one_free.counts
          + artifacts reporting one_free.counts
          + one_free.counts.not_extracted
        ≡ one_free.counts.free_runs)
artifacts-exact_example = artifacts-exact reporting one_free one_free-IsAccounted

-- A deleted directory of the disk, named at the root.
abbrev named_directory : Pending
named_directory = record { first_cluster = 7; path = 0x2F ∷ 0x44 ∷ []; depth = 1; deleted = true }

abbrev at_root : Walking (Unit {0}) Drive (List ℕ)
at_root = record { seen = 2 ∷ []; pending = named_directory ∷ []; log = nothing_yet }

walk-Ends_example :
    (fuel : ℕ) × (named' : List ℕ) × (w' : Walking (Unit {0}) Drive (List ℕ)) × (walk disk sums
        drive recovering boot extent 1 fuel [] at_root
      ≡ some (named', w'))
    × IsAccounted true w'.log
walk-Ends_example =
    walk-Ends disk sums drive recovering boot extent 1 [] at_root boot-IsBoot.geometry
      nothing_yet-IsAccounted
