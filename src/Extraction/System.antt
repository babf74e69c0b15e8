-- ===== src/Extraction/System.antt =====
-- The file system as src/extraction.rs uses it (`std::fs`): a parameter. Its operations take the state
-- and give the next one, on success and on failure. What the source relies on is stated in terms of what
-- the file at a path holds, `none` where there is no file.
use taphonomy.Prelude.{ℕ, Option, none, some, List, [], ◌++◌, Result, ok, err, joined, ◌≡◌, ◌≢◌}
use taphonomy.Hash.Hasher.{IoError, not_found, Reads}
use taphonomy.Hash.Hasher.Reader.{slices_of, failure_of}

-- `join` is `Path::join` with a file name. `create_new` opens for writing, and fails where the path is
-- taken. `open_file` gives the reads of the file from its beginning. `close` is the drop of a file. No one else
-- writes to the file: what a write adds stands behind what was written before. A `sync_all` that succeeds
-- leaves the file as it was written; after one that fails nothing is known of that file, whose unwritten
-- pages may be gone (the doc of `Output::Failed`).
-- `stored` is what the device holds of a file, which may lag behind its content until a `sync_all` succeeds.
pub record FileSystem (State File PathBuf : Type 0) : Type 0 where
  pub join : PathBuf → List ℕ → PathBuf
  pub create_new : PathBuf → State → Result IoError File × State
  pub write_all : File → List ℕ → State → Result IoError (Unit {0}) × State
  pub sync_all : File → State → Result IoError (Unit {0}) × State
  pub close : File → State → State
  pub remove_file : PathBuf → State → Result IoError (Unit {0}) × State
  pub open_file : PathBuf → State → Result IoError Reads
  pub content : State → PathBuf → Option (List ℕ)
  pub stored : State → PathBuf → Option (List ℕ)
  pub path_of : File → PathBuf
  pub creates :
      (path : PathBuf) (s : State) (file : File) (s' : State)
      → create_new path s ≡ (ok file, s')
      → (path_of file ≡ path)
        × (content s path ≡ none)
        × (content s' path ≡ some [])
        × ((q : PathBuf) → q ≢ path → content s' q ≡ content s q)
  pub create_fails :
      (path : PathBuf) (s : State) (e : IoError) (s' : State)
      → create_new path s ≡ (err e, s')
      → (q : PathBuf) → content s' q ≡ content s q
  pub writes :
      (file : File) (bytes before : List ℕ) (s s' : State)
      → write_all file bytes s ≡ (ok tt, s')
      → content s (path_of file) ≡ some before
      → content s' (path_of file) ≡ some (before ++ bytes)
  pub write_keeps :
      (file : File) (bytes : List ℕ) (s : State) (q : PathBuf)
      → q ≢ path_of file
      → content ((write_all file bytes s).1) q ≡ content s q
  pub syncs :
      (file : File) (s s' : State)
      → sync_all file s ≡ (ok tt, s')
      → (content s' (path_of file) ≡ content s (path_of file))
        × (stored s' (path_of file) ≡ content s (path_of file))
  pub sync_keeps :
      (file : File) (s : State) (q : PathBuf)
      → q ≢ path_of file
      → content ((sync_all file s).1) q ≡ content s q
  pub close_keeps : (file : File) (s : State) (q : PathBuf) → content (close file s) q ≡ content s q
  pub close_stored :
      (file : File) (s : State)
      → stored s (path_of file) ≡ content s (path_of file)
      → stored (close file s) (path_of file) ≡ stored s (path_of file)
  pub removes :
      (path : PathBuf) (s s' : State) → remove_file path s ≡ (ok tt, s') → content s' path ≡ none
  pub remove_missing :
      (path : PathBuf) (s : State) (e : IoError) (s' : State)
      → remove_file path s ≡ (err e, s')
      → e.kind ≡ not_found
      → content s' path ≡ none
  pub remove_keeps :
      (path : PathBuf) (s : State) (q : PathBuf)
      → q ≢ path
      → content ((remove_file path s).1) q ≡ content s q
  pub reads_content :
      (path : PathBuf) (s : State) (reads : Reads) (bytes : List ℕ)
      → open_file path s ≡ ok reads
      → content s path ≡ some bytes
      → (rest : List ℕ) × (bytes ≡ joined (slices_of reads) ++ rest)
        × (failure_of reads ≡ none → rest ≡ [])
