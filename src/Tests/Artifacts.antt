-- ===== src/Tests/Artifacts.antt =====
-- The theorems on hashing and on the writing of artifacts, on a concrete file system and disk.
use taphonomy.Prelude.{
  ℕ, Option, none, some, List, [], ◌∷◌, ◌++◌, Result, ok, err, length, joined, folded, bytes_eq,
  arith, ◌≡◌, refl,
}
use taphonomy.Hash.Hasher.{IoError, interrupted, Reads, is_interrupted, hash_reader}
use taphonomy.Hash.Hasher.Reader.{slices_of, failure_of, outcome, hash_reader-outcome}
use taphonomy.Extraction.Writer.{
  Output, Extraction, opened, ArtifactWriter, push, finish_artifact, abort,
}
use taphonomy.Extraction.Writer.Holds.{writing, Holds, push-Holds}
use taphonomy.Extraction.Writer.Settled.{Settled, finish-Settled}
use taphonomy.Extraction.Writer.Aborted.{Aborted, abort-Aborted}
use taphonomy.Extraction.Destination.{Destination}
use taphonomy.Extraction.Destination.Distinct.{file_name-injective}
use taphonomy.Recovery.{stream}
use taphonomy.Recovery.Extract.{ExtractError, path_of_run, extract}
use taphonomy.Recovery.Extract.Refines.{Extracted, extract-Extracted}
use taphonomy.Tests.Drive.{sums, Drive, put, put-other, drive}
use taphonomy.Tests.Disk.{disk, extent, boot, lost, lost_run}

abbrev interrupted_error : IoError
interrupted_error = record { kind = interrupted; message = [] }

abbrev reads : Reads
reads = ok (1 ∷ 2 ∷ []) ∷ err interrupted_error ∷ ok (3 ∷ []) ∷ []

hash_reader-outcome_example :
    hash_reader sums reads ≡ some (outcome sums (slices_of reads) (failure_of reads))
unfolding slices_of is_interrupted joined
hash_reader-outcome_example = hash_reader-outcome sums reads (omega arith)

abbrev empty_drive : Drive
empty_drive path = none

abbrev artifact_path : List ℕ
artifact_path = 0x64 ∷ 0x2F ∷ 0x61 ∷ []

abbrev pushed : List (List ℕ)
pushed = (1 ∷ 2 ∷ []) ∷ []

abbrev half_written : Drive
half_written = put artifact_path (some (1 ∷ 2 ∷ [])) empty_drive

abbrev half_writer : ArtifactWriter (List ℕ) (List ℕ) (List ℕ)
half_writer = record {
  hasher = record { inner = 1 ∷ 2 ∷ []; bytes_read = 2 };
  sink = opened artifact_path;
  path = some artifact_path;
}

half_writer-Holds : Holds drive sums empty_drive half_written pushed half_writer
unfolding joined folded bytes_eq
half_writer-Holds = record {
  hasher = record { inner = refl; bytes_read = refl };
  sink =
      writing {file = artifact_path} {path = artifact_path} refl refl refl
        (put-other artifact_path (some (1 ∷ 2 ∷ [])) empty_drive);
}

push-Holds_example :
    (writer' : ArtifactWriter (List ℕ) (List ℕ) (List ℕ)) × (s' : Drive) × (push sums drive
        half_writer
        (3 ∷ [])
        half_written
      ≡ some (writer', s'))
    × Holds drive sums empty_drive s' (pushed ++ ((3 ∷ []) ∷ [])) writer'
    × (writer'.path ≡ half_writer.path)
unfolding joined
push-Holds_example =
    push-Holds drive sums empty_drive half_written pushed half_writer (3 ∷ []) half_writer-Holds
      (omega arith)

finish-Settled_example :
    (output : Option (Output (List ℕ))) × (s' : Drive) × (finish_artifact sums drive half_writer 510
        half_written
      ≡ some (
        record {
          digest = sums.digest (joined pushed);
          bytes_hashed = length (joined pushed);
          slack_bytes = 510;
          output = output;
        },
        s',
      ))
    × Settled sums drive empty_drive s' pushed half_writer.path output
unfolding joined
finish-Settled_example =
    finish-Settled sums drive empty_drive half_written pushed half_writer 510 half_writer-Holds
      (omega arith)

abort-Aborted_example :
    Aborted sums drive empty_drive
      ((abort sums drive half_writer half_written).1)
      half_writer.path
      ((abort sums drive half_writer half_written).0)
abort-Aborted_example =
    abort-Aborted sums drive empty_drive half_written pushed half_writer half_writer-Holds

abbrev destination : Destination (List ℕ)
destination = record { directory = 0x64 ∷ []; partition = 1; cluster = 2; slot = 3 }

extract-Extracted_example :
    (answer : Result (ExtractError (Unit {0}) (List ℕ)) (Extraction (List ℕ))) × (s' : Drive)
    × (extract disk boot extent sums drive lost (some destination) empty_drive ≡ some (answer, s'))
    × Extracted disk boot extent sums drive empty_drive s'
        (path_of_run drive lost_run.first_cluster (some destination))
        lost_run.slack_bytes
        (stream disk boot extent lost)
        answer
extract-Extracted_example =
    extract-Extracted disk boot extent sums drive lost (some destination) empty_drive (omega arith)

abbrev directory_cluster : ℕ
directory_cluster = 23

abbrev first_of_run : ℕ
first_of_run = 507

file_name-injective_example :
    (directory_cluster ≡ directory_cluster)
    × (first_of_run ≡ first_of_run)
    × (directory_cluster ≡ directory_cluster)
    × (first_of_run ≡ first_of_run)
file_name-injective_example =
    file_name-injective directory_cluster first_of_run directory_cluster first_of_run
      directory_cluster first_of_run directory_cluster first_of_run refl
