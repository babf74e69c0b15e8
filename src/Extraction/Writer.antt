-- ===== src/Extraction/Writer.antt =====
-- src/extraction.rs: `ArtifactWriter` and what became of the file. The state of the file system is passed
-- on explicitly; `none` in the place of a result is a panic of the hasher's byte count.
pub mod Holds
pub mod ReadBack
pub mod Settled
pub mod Aborted
use taphonomy.Prelude.{
  ℕ, Bool, true, false, Option, none, some, List, [], ◌∷◌, Result, ok, err, if◌then◌else◌,
}
use taphonomy.Hash.Hasher.{
  Sha256, Sha256Hasher, HashResult, ErrorKind, already_exists, not_found, IoError, Reads,
  new_hasher, hash_update, hash_finish,
}
use taphonomy.Extraction.System.{FileSystem}

-- `Output`; a digest is its bytes. The last of `failed` is whether the partial file was removed.
pub data Output (PathBuf : Type 0) : Type 0 where
  written : PathBuf → List ℕ → Output PathBuf
  unverified : PathBuf → List ℕ → Output PathBuf
  exists_already : PathBuf → Output PathBuf
  not_created : PathBuf → List ℕ → Output PathBuf
  failed : PathBuf → List ℕ → Bool → Output PathBuf

pub record Extraction (PathBuf : Type 0) : Type 0 where
  pub digest : List ℕ
  pub bytes_hashed : ℕ
  pub slack_bytes : ℕ
  pub output : Option (Output PathBuf)

pub record Leftover (PathBuf : Type 0) : Type 0 where
  pub path : PathBuf
  pub removal : List ℕ

pub data Sink (File : Type 0) : Type 0 where
  absent : Sink File
  opened : File → Sink File
  taken : Sink File
  unopened : List ℕ → Sink File
  broken : List ℕ → Sink File

pub record ArtifactWriter (Inner File PathBuf : Type 0) : Type 0 where
  pub hasher : Sha256Hasher Inner
  pub sink : Sink File
  pub path : Option PathBuf

unfoldable pub is_already_exists : ErrorKind → Bool
is_already_exists already_exists = true
is_already_exists _ = false

unfoldable pub is_not_found : ErrorKind → Bool
is_not_found not_found = true
is_not_found _ = false

unfoldable pub is_ok : Result IoError (Unit {0}) → Bool
is_ok (ok done) = true
is_ok (err e) = false

module _ {Inner State File PathBuf : Type 0} (sha : Sha256 Inner)
    (fs : FileSystem State File PathBuf) where
  unfoldable pub sink_of : Result IoError File → Sink File
  sink_of (ok file) = opened file
  sink_of (err e) = if is_already_exists e.kind then taken else unopened e.message

  unfoldable pub open_sink : Option PathBuf → State → Sink File × State
  open_sink none s = (absent, s)
  open_sink (some path) s = let (file, s') = fs.create_new path s in (sink_of file, s')

  unfoldable pub begin : Option PathBuf → State → ArtifactWriter Inner File PathBuf × State
  begin path s =
      let (sink, s') = open_sink path s in
      (record { hasher = new_hasher sha; sink = sink; path = path }, s')

  -- The sink after a write to its file.
  unfoldable pub sink_after : File → Result IoError (Unit {0}) → Sink File
  sink_after file (ok done) = opened file
  sink_after file (err e) = broken e.message

  unfoldable pub write_sink : Sink File → List ℕ → State → Sink File × State
  write_sink (opened file) bytes s =
      let (result, s') = fs.write_all file bytes s in (sink_after file result, s')
  write_sink absent bytes s = (absent, s)
  write_sink taken bytes s = (taken, s)
  write_sink (unopened message) bytes s = (unopened message, s)
  write_sink (broken message) bytes s = (broken message, s)

  unfoldable pub push :
      ArtifactWriter Inner File PathBuf
      → List ℕ
      → State
      → Option (ArtifactWriter Inner File PathBuf × State)
  push writer bytes s = elim (hash_update sha writer.hasher bytes) [
    | none ↦ none
    | some hasher ↦
        let (sink, s') = write_sink writer.sink bytes s in
        some (record { hasher = hasher; sink = sink; path = writer.path }, s')
  ]

  -- The loop of `read_back`: every error ends it.
  unfoldable pub read_back_loop : Sha256Hasher Inner → Reads → Option (Result IoError (List ℕ))
  read_back_loop hasher [] = some (ok ((hash_finish sha hasher).digest))
  read_back_loop hasher (err e ∷ reads) = some (err e)
  read_back_loop hasher (ok [] ∷ reads) = some (ok ((hash_finish sha hasher).digest))
  read_back_loop hasher (ok (b ∷ bs) ∷ reads) = elim (hash_update sha hasher (b ∷ bs)) [
    | none ↦ none
    | some hasher' ↦ read_back_loop hasher' reads
  ]

  unfoldable pub read_back : PathBuf → State → Option (Result IoError (List ℕ))
  read_back path s = elim (fs.open_file path s) [
    | err e ↦ some (err e)
    | ok reads ↦ read_back_loop (new_hasher sha) reads
  ]

  -- The removal of a file that a write or the flush failed on.
  unfoldable pub fail_written : PathBuf → List ℕ → State → Output PathBuf × State
  fail_written path message s =
      let (result, s') = fs.remove_file path s in (failed path message (is_ok result), s')

  unfoldable pub read_output : PathBuf → Result IoError (List ℕ) → Output PathBuf
  read_output path (ok readback) = written path readback
  read_output path (err e) = unverified path e.message

  -- What is left of `settle` once the file is flushed, or not, and closed.
  unfoldable pub settle_flushed :
      PathBuf → Result IoError (Unit {0}) → State → Option (Output PathBuf × State)
  settle_flushed path (err e) s = some (fail_written path e.message s)
  settle_flushed path (ok done) s = elim (read_back path s) [
    | none ↦ none
    | some result ↦ some (read_output path result, s)
  ]

  unfoldable pub settle_at : Sink File → PathBuf → State → Option (Option (Output PathBuf) × State)
  settle_at absent path s = some (none, s)
  settle_at taken path s = some (some (exists_already path), s)
  settle_at (unopened message) path s = some (some (not_created path message), s)
  settle_at (broken message) path s =
      let (output, s') = fail_written path message s in some (some output, s')
  settle_at (opened file) path s =
      let (flushed, s') = fs.sync_all file s in
      elim (settle_flushed path flushed (fs.close file s')) [
        | none ↦ none
        | some (output, s'') ↦ some (some output, s'')
      ]

  unfoldable pub settle :
      Sink File → Option PathBuf → State → Option (Option (Output PathBuf) × State)
  settle sink none s = some (none, s)
  settle sink (some path) s = settle_at sink path s

  unfoldable pub finish_artifact :
      ArtifactWriter Inner File PathBuf → ℕ → State → Option (Extraction PathBuf × State)
  finish_artifact writer slack_bytes s =
      let hashed = hash_finish sha writer.hasher in
      elim (settle writer.sink writer.path s) [
        | none ↦ none
        | some (output, s') ↦ some (
          record {
            digest = hashed.digest;
            bytes_hashed = hashed.bytes_read;
            slack_bytes = slack_bytes;
            output = output;
          },
          s',
        )
      ]

  -- The match on the result of a removal: why the file remains, if it does.
  unfoldable pub why_left : Result IoError (Unit {0}) → Option (List ℕ)
  why_left (ok done) = none
  why_left (err e) = if is_not_found e.kind then none else some e.message

  unfoldable pub remove_partial : PathBuf → State → Option (List ℕ) × State
  remove_partial path s = let (result, s') = fs.remove_file path s in (why_left result, s')

  unfoldable pub discard : Sink File → Option PathBuf → State → Option (List ℕ) × State
  discard sink none s = (none, s)
  discard (opened file) (some path) s = remove_partial path (fs.close file s)
  discard (broken message) (some path) s = remove_partial path s
  discard absent (some path) s = (none, s)
  discard taken (some path) s = (none, s)
  discard (unopened message) (some path) s = (none, s)

  unfoldable pub leftover_of : Option (List ℕ) → Option PathBuf → Option (Leftover PathBuf)
  leftover_of (some removal) (some path) = some (record { path = path; removal = removal })
  leftover_of (some removal) none = none
  leftover_of none path = none

  unfoldable pub abort :
      ArtifactWriter Inner File PathBuf → State → Option (Leftover PathBuf) × State
  abort writer s =
      let (removal, s') = discard writer.sink writer.path s in (leftover_of removal writer.path, s')
