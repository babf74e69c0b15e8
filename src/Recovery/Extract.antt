-- ===== src/Recovery/Extract.antt =====
-- src/fat_recovery.rs `extract`, and `stream` as it drives the artifact writer.
pub mod Refines
use taphonomy.Prelude.{ℕ, zero, suc, ◌+◌, ◌-◌, Option, none, some, List, Result, ok, err, take, min}
use taphonomy.Filesystem.{VolumeExtent}
use taphonomy.Fat.{cluster_bytes}
use taphonomy.Fat32.{Fat32BootSector}
use taphonomy.Evidence.{EvidenceReader}
use taphonomy.Hash.Hasher.{Sha256}
use taphonomy.Extraction.System.{FileSystem}
use taphonomy.Extraction.Writer.{
  Extraction, Leftover, ArtifactWriter, begin, push, finish_artifact, abort,
}
use taphonomy.Extraction.Destination.{Destination, path_for}
use taphonomy.Recovery.{UnallocatedRun, RecoveryError, run_length, read_data}

-- `RecoveryError` as `extract` gives it: the evidence's failure, alone or, in `PartialLeft`, with the
-- partial file that could not be removed and why.
pub data ExtractError (E PathBuf : Type 0) : Type 0 where
  stopped : RecoveryError E → ExtractError E PathBuf
  partial_left : RecoveryError E → PathBuf → List ℕ → ExtractError E PathBuf

-- `destination.map(|d| d.path(run.first_cluster))`
unfoldable pub path_of_run :
    {State File PathBuf : Type 0}
    → FileSystem State File PathBuf
    → ℕ
    → Option (Destination PathBuf)
    → Option PathBuf
path_of_run fs first none = none
path_of_run fs first (some d) = some (path_for fs d first)

-- The match on what `abort` answers.
unfoldable pub abort_error :
    {E PathBuf : Type 0} → RecoveryError E → Option (Leftover PathBuf) → ExtractError E PathBuf
abort_error e none = stopped e
abort_error e (some left) = partial_left e left.path left.removal

module _ {E Inner State File PathBuf : Type 0} (reader : EvidenceReader E) (boot : Fat32BootSector)
    (extent : VolumeExtent) (sha : Sha256 Inner) (fs : FileSystem State File PathBuf) where
  -- The loop of `stream`, with the writer and the file system's state. `none` is a panic of the writer.
  unfoldable pub stream_into :
      ℕ
      → ℕ
      → ℕ
      → ArtifactWriter Inner File PathBuf
      → State
      → Option (Result (RecoveryError E) (Unit {0}) × ArtifactWriter Inner File PathBuf × State)
  stream_into zero cluster remaining writer s = some (ok tt, writer, s)
  stream_into (suc left) cluster remaining writer s = elim (read_data reader boot extent cluster) [
    | err e ↦ some (err e, writer, s)
    | ok buffer ↦
        let n = min remaining (cluster_bytes boot.geometry) in
        elim (push sha fs writer (take n buffer) s) [
          | none ↦ none
          | some (writer', s') ↦ stream_into left (cluster + 1) (remaining - n) writer' s'
        ]
  ]

  -- Behind the call of `stream`.
  unfoldable pub end_artifact :
      ℕ
      → Result (RecoveryError E) (Unit {0})
      → ArtifactWriter Inner File PathBuf
      → State
      → Option (Result (ExtractError E PathBuf) (Extraction PathBuf) × State)
  end_artifact slack_bytes (err e) writer s =
      let (left, s') = abort sha fs writer s in some (err (abort_error e left), s')
  end_artifact slack_bytes (ok done) writer s = elim (finish_artifact sha fs writer slack_bytes s) [
    | none ↦ none
    | some (extraction, s') ↦ some (ok extraction, s')
  ]

  unfoldable pub extract :
      UnallocatedRun
      → Option (Destination PathBuf)
      → State
      → Option (Result (ExtractError E PathBuf) (Extraction PathBuf) × State)
  extract found destination s =
      let run = found.inner in
      let (writer, s1) = begin sha fs (path_of_run fs run.first_cluster destination) s in
      elim (stream_into (run_length run) run.first_cluster run.file_size writer s1) [
        | none ↦ none
        | some (result, writer', s2) ↦ end_artifact run.slack_bytes result writer' s2
      ]
