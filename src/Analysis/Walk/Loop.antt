-- ===== src/Analysis/Walk/Loop.antt =====
-- src/analysis.rs `report_root_directory`: the loop over the directories named and not yet read.
pub mod Ends
use taphonomy.Prelude.{ℕ, zero, suc, Option, none, some, List, [], ◌∷◌, ◌++◌}
use taphonomy.Filesystem.{VolumeExtent}
use taphonomy.Fat32.{Fat32BootSector}
use taphonomy.Evidence.{EvidenceReader}
use taphonomy.Hash.Hasher.{Sha256}
use taphonomy.Extraction.System.{FileSystem}
use taphonomy.Analysis.Counts.{Options}
use taphonomy.Analysis.Walk.{Pending, Walking, report_subdirectory}

module _ {E Inner State File PathBuf : Type 0} (reader : EvidenceReader E) (sha : Sha256 Inner)
    (fs : FileSystem State File PathBuf) (options : Options PathBuf) (boot : Fat32BootSector)
    (extent : VolumeExtent) (partition : ℕ) where
  -- `while let Some(next) = pending.pop_front()`, with the first clusters named so far. `none` is a panic,
  -- or the end of the fuel.
  unfoldable pub walk_pending :
      ℕ
      → List ℕ
      → List Pending
      → Walking E State PathBuf
      → Option (List ℕ × Walking E State PathBuf)
  walk_pending zero named pending w = none
  walk_pending (suc fuel) named [] w = some (named, w)
  walk_pending (suc fuel) named (next ∷ rest) w =
      elim (report_subdirectory reader sha fs options boot extent partition next
        (record w { pending = rest })) [
          | none ↦ none
          | some w' ↦ walk_pending fuel (named ++ (next.first_cluster ∷ [])) w'.pending w'
        ]

  unfoldable pub walk :
      ℕ → List ℕ → Walking E State PathBuf → Option (List ℕ × Walking E State PathBuf)
  walk fuel named w = walk_pending fuel named w.pending w
