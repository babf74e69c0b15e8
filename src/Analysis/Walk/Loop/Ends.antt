-- ===== src/Analysis/Walk/Loop/Ends.antt =====
-- src/analysis.rs `report_root_directory`: the end of the loop over the directories.
use taphonomy.Prelude.{
  ℕ, zero, suc, ◌+◌, ◌≤◌, ◌<◌, true, false, some, List, [], ◌∷◌, ◌++◌, if◌then◌else◌, ◌==◌, arith,
  ◌≡◌, refl, sym, inl, inr, Bool-cases, ==→≡,
}
use mathlib.Core.Path.{subst}
use taphonomy.Filesystem.{VolumeExtent}
use taphonomy.Fat.{first_data_cluster}
use taphonomy.Fat.Geometry.{IsGeometry}
use taphonomy.Fat32.{Fat32BootSector}
use taphonomy.Evidence.{EvidenceReader}
use taphonomy.Directory.Walk.{contains}
use taphonomy.Hash.Hasher.{Sha256}
use taphonomy.Extraction.System.{FileSystem}
use taphonomy.Analysis.Counts.{Options}
use taphonomy.Analysis.Report.Books.{IsAccounted}
use taphonomy.Analysis.Walk.{Pending, Walking, report_subdirectory}
use taphonomy.Analysis.Walk.Listed.{stays, grows, report_subdirectory-Steps}
use taphonomy.Analysis.Walk.Loop.{walk_pending, walk}

-- How many clusters below a bound are not among these.
unseen : List ℕ → ℕ → ℕ
unseen seen zero = 0
unseen seen (suc n) = (if contains seen n then 0 else 1) + unseen seen n

unseen-le :
    (seen more : List ℕ) (n : ℕ)
    → ((x : ℕ) → contains seen x ≡ true → contains more x ≡ true)
    → unseen more n ≤ unseen seen n
unfolding unseen
unseen-le seen more zero keeps = omega arith
unseen-le seen more (suc n) keeps =
    let rest = unseen-le seen more n keeps in
    elim (Bool-cases (contains seen n)) [
      | inl held ↦ rw (held, keeps n held) (omega arith)
      | inr new ↦ elim (Bool-cases (contains more n)) [
        | inl now ↦ rw (new, now) (omega arith)
        | inr not_yet ↦ rw (new, not_yet) (omega arith)
      ]
    ]

unseen-lt :
    (seen more : List ℕ) (n c : ℕ)
    → ((x : ℕ) → contains seen x ≡ true → contains more x ≡ true)
    → c < n
    → contains seen c ≡ false
    → contains more c ≡ true
    → unseen more n < unseen seen n
unfolding unseen
unseen-lt seen more zero c keeps below new now = absurd (omega arith)
unseen-lt seen more (suc n) c keeps below new now = elim (Bool-cases (c == n)) [
  | inl same ↦
      let is : c ≡ n = ==→≡ c n same in
      let rest = unseen-le seen more n keeps in rw (rw is at new, rw is at now) (omega arith)
  | inr other ↦
      let rest = unseen-lt seen more n c keeps (ground arith) new now in
      elim (Bool-cases (contains seen n)) [
        | inl held ↦ rw (held, keeps n held) (omega arith)
        | inr absent ↦ elim (Bool-cases (contains more n)) [
          | inl present ↦ rw (absent, present) (omega arith)
          | inr not_yet ↦ rw (absent, not_yet) (omega arith)
        ]
      ]
]

module _ {E Inner State File PathBuf : Type 0} (reader : EvidenceReader E) (sha : Sha256 Inner)
    (fs : FileSystem State File PathBuf) (options : Options PathBuf) (boot : Fat32BootSector)
    (extent : VolumeExtent) (partition : ℕ) where
  -- The loop ends, with this much fuel.
  record Ended (named : List ℕ) (pending : List Pending) (w : Walking E State PathBuf)
      : Type 0 where
    fuel : ℕ
    at_end : List ℕ × Walking E State PathBuf
    ends :
        walk_pending reader sha fs options boot extent partition fuel named pending w ≡ some at_end
    accounted : IsAccounted options.recover at_end.1.log

  abbrev limit : ℕ
  limit = boot.geometry.cluster_count + first_data_cluster

  one_more :
      (named : List ℕ) (next : Pending) (rest : List Pending) (w w' : Walking E State PathBuf)
      → report_subdirectory reader sha fs options boot extent partition next
          (record w { pending = rest })
        ≡ some w'
      → Ended (named ++ (next.first_cluster ∷ [])) w'.pending w'
      → Ended named (next ∷ rest) w
  unfolding walk_pending
  one_more named next rest w w' reports later = record {
    fuel = suc later.fuel;
    at_end = later.at_end;
    ends = rw (reports, walk_pending) later.ends;
    accounted = later.accounted;
  }

  walk_pending-Ended :
      (n : ℕ) (pending : List Pending) (named : List ℕ) (w : Walking E State PathBuf)
      → IsGeometry boot.geometry
      → IsAccounted options.recover w.log
      → unseen w.seen limit < n
      → Ended named pending w
  unfolding walk_pending
  walk_pending-Ended zero pending named w sound is room = absurd (omega arith)
  walk_pending-Ended (suc n) [] named w sound is room = record {
    fuel = 1;
    at_end = (named, w);
    ends = refl;
    accounted = is;
  }
  walk_pending-Ended (suc n) (next ∷ rest) named w sound is room =
      let again = walk_pending-Ended (suc n) rest in
      let deeper = walk_pending-Ended n in
      let (w', reports, is', steps) =
        report_subdirectory-Steps reader sha fs options boot extent partition next
          (record w { pending = rest }) sound is in
      one_more named next rest w w' reports (elim steps [
        | stays same_pending same_seen ↦
            subst (λ p. Ended (named ++ (next.first_cluster ∷ [])) p w') (sym same_pending)
              (again (named ++ (next.first_cluster ∷ [])) w' sound is' (rw same_seen room))
        | grows c from to new now keeps ↦
            let fewer = unseen-lt w.seen w'.seen limit c keeps to new now in
            deeper w'.pending (named ++ (next.first_cluster ∷ [])) w' sound is' (omega arith)
      ])

  -- The walk over the directories named below the root comes to an end, whatever the volume holds, cycles
  -- of directories and cross-linked chains included, and keeps the books: from some amount of fuel the loop
  -- gives a result, in which every count is that of its events.
  pub walk-Ends :
      (named : List ℕ) (w : Walking E State PathBuf)
      → IsGeometry boot.geometry
      → IsAccounted options.recover w.log
      → (fuel : ℕ) × (named' : List ℕ) × (w' : Walking E State PathBuf) × (walk reader sha fs
            options boot extent partition fuel named w
          ≡ some (named', w'))
        × IsAccounted options.recover w'.log
  unfolding walk
  walk-Ends named w sound is =
      let done =
        walk_pending-Ended (unseen w.seen limit + 1) w.pending named w sound is (omega arith) in
      (done.fuel, done.at_end.0, done.at_end.1, done.ends, done.accounted)
