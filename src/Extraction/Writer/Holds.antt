-- ===== src/Extraction/Writer/Holds.antt =====
-- src/extraction.rs `ArtifactWriter::begin` and `push`: what the writer's file holds while it is written.
use taphonomy.Prelude.{
  ℕ, ◌+◌, ◌<◌, true, false, Option, none, some, List, [], ◌∷◌, ◌++◌, ok, err, length, joined,
  joined-append, u64_mod, ◌≡◌, ◌≢◌, refl, sym, ap, ◌∙◌, inl, inr, Bool-cases, Result-cases,
}
use taphonomy.Hash.Hasher.{
  Sha256, IoError, ErrorKind, already_exists, not_found, interrupted, other_kind,
}
use taphonomy.Hash.Hasher.Reader.{HasTaken, new_hasher-HasTaken, hash_update-HasTaken}
use taphonomy.Extraction.System.{FileSystem}
use taphonomy.Extraction.Writer.{
  Sink, absent, opened, taken, unopened, broken, ArtifactWriter, is_already_exists, sink_of,
  open_sink, begin, sink_after, write_sink, push,
}

is_already_exists→≡ : (k : ErrorKind) → is_already_exists k ≡ true → k ≡ already_exists
unfolding is_already_exists
is_already_exists→≡ already_exists h = refl
is_already_exists→≡ not_found h = cc
is_already_exists→≡ interrupted h = cc
is_already_exists→≡ other_kind h = cc

is_already_exists→≢ : (k : ErrorKind) → is_already_exists k ≡ false → k ≢ already_exists
unfolding is_already_exists
is_already_exists→≢ k h same = let h' = rw same at h in cc

module _ {State File PathBuf : Type 0} (fs : FileSystem State File PathBuf) where
  -- Every file but the one at the path, and every file, is as it was.
  abbrev pub SameElsewhere : PathBuf → State → State → Type 0
  SameElsewhere path s0 s = (q : PathBuf) → q ≢ path → fs.content s q ≡ fs.content s0 q

  abbrev pub Same : State → State → Type 0
  Same s0 s = (q : PathBuf) → fs.content s q ≡ fs.content s0 q

  -- Creating the file failed, with this error.
  pub record CreateFailed (s0 : State) (path : PathBuf) (e : IoError) : Type 0 where
    pub after : State
    pub refused : fs.create_new path s0 ≡ (err e, after)

  -- A write or the flush of the file at a path failed, with this message.
  pub data Broke (path : PathBuf) : List ℕ → Type 0 where
    by_write :
        (file : File) (bytes : List ℕ) (before after : State) (e : IoError)
        → fs.path_of file ≡ path
        → fs.write_all file bytes before ≡ (err e, after)
        → Broke path e.message
    by_flush :
        (file : File) (before after : State) (e : IoError)
        → fs.path_of file ≡ path
        → fs.sync_all file before ≡ (err e, after)
        → Broke path e.message

  -- The writer's sink in state s, begun in s0, after these slices.
  pub data Delivers (s0 s : State) (slices : List (List ℕ))
      : Sink File → Option PathBuf → Type 0 where
    nowhere : Same s0 s → Delivers s0 s slices absent none
    writing :
        {file : File} {path : PathBuf}
        → fs.path_of file ≡ path
        → fs.content s0 path ≡ none
        → fs.content s path ≡ some (joined slices)
        → SameElsewhere path s0 s
        → Delivers s0 s slices (opened file) (some path)
    was_taken :
        {path : PathBuf} {e : IoError}
        → CreateFailed s0 path e
        → e.kind ≡ already_exists
        → Same s0 s
        → Delivers s0 s slices taken (some path)
    not_opened :
        {path : PathBuf} {e : IoError}
        → CreateFailed s0 path e
        → e.kind ≢ already_exists
        → Same s0 s
        → Delivers s0 s slices (unopened e.message) (some path)
    cut_short :
        {path : PathBuf} {message : List ℕ}
        → Broke path message
        → fs.content s0 path ≡ none
        → SameElsewhere path s0 s
        → Delivers s0 s slices (broken message) (some path)

  module _ {Inner : Type 0} (sha : Sha256 Inner) where
    pub record Holds (s0 s : State) (slices : List (List ℕ))
        (writer : ArtifactWriter Inner File PathBuf) : Type 0 where
      pub hasher : HasTaken sha writer.hasher slices
      pub sink : Delivers s0 s slices writer.sink writer.path

    open_sink-Delivers :
        (path : Option PathBuf) (s0 : State)
        → Delivers s0 ((open_sink sha fs path s0).1) [] ((open_sink sha fs path s0).0) path
    unfolding open_sink sink_of joined
    open_sink-Delivers none s0 = nowhere (λ q. refl)
    open_sink-Delivers (some path) s0 = elim (Result-cases ((fs.create_new path s0).0)) [
      | inl (file, created) ↦
          let s1 = (fs.create_new path s0).1 in
          let both : fs.create_new path s0 ≡ (ok file, s1) = ap (λ r. (r, s1)) created in
          let (at, free, begun, others) = fs.creates path s0 file s1 both in
          rw (created) (writing at free begun others)
      | inr (e, refused) ↦
          let s1 = (fs.create_new path s0).1 in
          let both : fs.create_new path s0 ≡ (err e, s1) = ap (λ r. (r, s1)) refused in
          let same = fs.create_fails path s0 e s1 both in
          elim (Bool-cases (is_already_exists e.kind)) [
            | inl exists ↦
                rw (refused, exists)
                  (was_taken (record { after = s1; refused = both })
                    (is_already_exists→≡ e.kind exists) same)
            | inr other ↦
                rw (refused, other)
                  (not_opened (record { after = s1; refused = both })
                    (is_already_exists→≢ e.kind other) same)
          ]
    ]

    -- A writer just begun holds nothing yet.
    pub begin-Holds :
        (path : Option PathBuf) (s0 : State)
        → Holds s0 ((begin sha fs path s0).1) [] ((begin sha fs path s0).0)
    unfolding begin
    begin-Holds path s0 = record {
      hasher = new_hasher-HasTaken sha;
      sink = open_sink-Delivers path s0;
    }

    write_sink-Delivers :
        (s0 s : State) (slices : List (List ℕ)) (bytes : List ℕ) (sink : Sink File)
        (path : Option PathBuf)
        → Delivers s0 s slices sink path
        → Delivers s0
            ((write_sink sha fs sink bytes s).1)
            (slices ++ (bytes ∷ []))
            ((write_sink sha fs sink bytes s).0)
            path
    unfolding write_sink sink_after
    write_sink-Delivers s0 s slices bytes absent none (nowhere same) = nowhere same
    write_sink-Delivers s0 s slices bytes taken (some path) (was_taken refused exists same) =
        was_taken refused exists same
    write_sink-Delivers s0 s slices bytes (unopened message) (some path)
          (not_opened refused other same) =
        not_opened refused other same
    write_sink-Delivers s0 s slices bytes (broken message) (some path) (cut_short why free others) =
        cut_short why free others
    write_sink-Delivers s0 s slices bytes absent (some path) d = elim d [ ]
    write_sink-Delivers s0 s slices bytes (opened file) none d = elim d [ ]
    write_sink-Delivers s0 s slices bytes taken none d = elim d [ ]
    write_sink-Delivers s0 s slices bytes (unopened message) none d = elim d [ ]
    write_sink-Delivers s0 s slices bytes (broken message) none d = elim d [ ]
    write_sink-Delivers s0 s slices bytes (opened file) (some path) (writing at free holds others) =
        let s1 = (fs.write_all file bytes s).1 in
        let elsewhere : SameElsewhere path s0 s1 = λ q.
          λ differs. fs.write_keeps file bytes s q (λ e. differs (e ∙ at)) ∙ others q differs in
        elim (Result-cases ((fs.write_all file bytes s).0)) [
          | inr (e, failed) ↦
              let both : fs.write_all file bytes s ≡ (err e, s1) = ap (λ r. (r, s1)) failed in
              rw (failed) (cut_short (by_write file bytes s s1 e at both) free elsewhere)
          | inl (done, wrote) ↦
              let both : fs.write_all file bytes s ≡ (ok tt, s1) = ap (λ r. (r, s1)) wrote in
              let added =
                fs.writes file bytes (joined slices) s s1 both (ap (fs.content s) at ∙ holds) in
              rw (wrote) (
                writing at free
                  (sym (ap (fs.content s1) at) ∙ added ∙ ap some (sym (joined-append slices bytes)))
                  elsewhere)
        ]

    -- `push` keeps a writer's promise. While fewer than 2^64 bytes are pushed it does not panic; the hasher
    -- has taken exactly the slices pushed, in order, and the sink stands as before or is broken by a failed
    -- write: an open file holds exactly the bytes pushed, a path that was taken or that could not be opened is untouched,
    -- and no other file has changed since the writer was begun.
    pub push-Holds :
        (s0 s : State) (slices : List (List ℕ)) (writer : ArtifactWriter Inner File PathBuf)
        (bytes : List ℕ)
        → Holds s0 s slices writer
        → length (joined slices) + length bytes < u64_mod
        → (writer' : ArtifactWriter Inner File PathBuf) × (s' : State) × (push sha fs writer bytes s
            ≡ some (writer', s'))
          × Holds s0 s' (slices ++ (bytes ∷ [])) writer'
          × (writer'.path ≡ writer.path)
    unfolding push
    push-Holds s0 s slices writer bytes holds fits =
        let (hasher, hashed, took) =
          hash_update-HasTaken sha writer.hasher slices bytes holds.hasher fits in
        let (sink, s') = write_sink sha fs writer.sink bytes s in
        (
          record { hasher = hasher; sink = sink; path = writer.path },
          s',
          rw (hashed, push) refl,
          record {
            hasher = took;
            sink = write_sink-Delivers s0 s slices bytes writer.sink writer.path holds.sink;
          },
          refl,
        )
