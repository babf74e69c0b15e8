-- ===== src/Extraction/Writer/Settled.antt =====
-- src/extraction.rs `ArtifactWriter::finish`: what becomes of the file.
use taphonomy.Prelude.{
  ℕ, ◌<◌, true, false, ◌≢◌, err, Option, none, some, List, ok, length, joined, u64_mod, ◌≡◌, refl,
  sym, ap, ◌∙◌, inl, inr, Result-cases,
}
use taphonomy.Hash.Hasher.{Sha256, IoError, already_exists}
use taphonomy.Hash.Hasher.Reader.{hash_finish-HasTaken}
use taphonomy.Extraction.System.{FileSystem}
use taphonomy.Extraction.Writer.{
  Output, written, unverified, exists_already, not_created, failed, Sink, absent, opened, taken,
  unopened, broken, ArtifactWriter, is_ok, fail_written, read_output, settle_flushed, settle_at,
  settle, finish_artifact,
}
use taphonomy.Extraction.Writer.Holds.{
  SameElsewhere, Same, CreateFailed, Broke, by_flush, Delivers, nowhere, writing, was_taken,
  not_opened, cut_short, Holds,
}
use taphonomy.Extraction.Writer.ReadBack.{Unread, read_back-digest}

module _ {Inner State File PathBuf : Type 0} (sha : Sha256 Inner)
    (fs : FileSystem State File PathBuf) where
  -- What the output says of a file, for a writer begun in s0 and ended in s' that was given these slices.
  pub data Settled (s0 s' : State) (slices : List (List ℕ))
      : Option PathBuf → Option (Output PathBuf) → Type 0 where
    not_asked : Same fs s0 s' → Settled s0 s' slices none none
    delivered :
        {path : PathBuf}
        → fs.content s0 path ≡ none
        → fs.content s' path ≡ some (joined slices)
        → fs.stored s' path ≡ some (joined slices)
        → SameElsewhere fs path s0 s'
        → Settled s0 s' slices (some path) (some (written path (sha.digest (joined slices))))
    not_reread :
        {path : PathBuf} {e : IoError}
        → Unread sha fs path s' e
        → fs.content s0 path ≡ none
        → fs.content s' path ≡ some (joined slices)
        → fs.stored s' path ≡ some (joined slices)
        → SameElsewhere fs path s0 s'
        → Settled s0 s' slices (some path) (some (unverified path e.message))
    left_alone :
        {path : PathBuf} {e : IoError}
        → CreateFailed fs s0 path e
        → e.kind ≡ already_exists
        → Same fs s0 s'
        → Settled s0 s' slices (some path) (some (exists_already path))
    never_created :
        {path : PathBuf} {e : IoError}
        → CreateFailed fs s0 path e
        → e.kind ≢ already_exists
        → Same fs s0 s'
        → Settled s0 s' slices (some path) (some (not_created path e.message))
    removed_partial :
        {path : PathBuf} {message : List ℕ}
        → Broke fs path message
        → fs.content s0 path ≡ none
        → fs.content s' path ≡ none
        → SameElsewhere fs path s0 s'
        → Settled s0 s' slices (some path) (some (failed path message true))
    left_partial :
        {path : PathBuf} {message : List ℕ} {before : State} {remains : IoError}
        → Broke fs path message
        → fs.remove_file path before ≡ (err remains, s')
        → fs.content s0 path ≡ none
        → SameElsewhere fs path s0 s'
        → Settled s0 s' slices (some path) (some (failed path message false))

  fail_written-Settled :
      (s0 s : State) (slices : List (List ℕ)) (path : PathBuf) (message : List ℕ)
      → Broke fs path message
      → fs.content s0 path ≡ none
      → SameElsewhere fs path s0 s
      → Settled s0
          ((fail_written sha fs path message s).1)
          slices
          (some path)
          (some ((fail_written sha fs path message s).0))
  unfolding fail_written is_ok
  fail_written-Settled s0 s slices path message why free others =
      let s1 = (fs.remove_file path s).1 in
      let elsewhere : SameElsewhere fs path s0 s1 =
        λ q. λ differs. fs.remove_keeps path s q differs ∙ others q differs in
      elim (Result-cases ((fs.remove_file path s).0)) [
        | inl (done, removed) ↦
            let both : fs.remove_file path s ≡ (ok tt, s1) = ap (λ r. (r, s1)) removed in
            rw (removed) (removed_partial why free (fs.removes path s s1 both) elsewhere)
        | inr (e, remains) ↦
            let both : fs.remove_file path s ≡ (err e, s1) = ap (λ r. (r, s1)) remains in
            rw (remains) (left_partial why both free elsewhere)
      ]

  -- What a flush has stored is still stored when the file is closed.
  stored_through :
      (file : File) (s s1 : State)
      → fs.sync_all file s ≡ (ok tt, s1)
      → fs.stored (fs.close file s1) (fs.path_of file) ≡ fs.content s (fs.path_of file)
  stored_through file s s1 both =
      let (kept, flushed) = fs.syncs file s s1 both in
      fs.close_stored file s1 (flushed ∙ sym kept) ∙ flushed

  settle_at-Settled :
      (s0 s : State) (slices : List (List ℕ)) (sink : Sink File) (path : PathBuf)
      → Delivers fs s0 s slices sink (some path)
      → length (joined slices) < u64_mod
      → (output : Option (Output PathBuf)) × (s' : State) × (settle_at sha fs sink path s
          ≡ some (output, s'))
        × Settled s0 s' slices (some path) output
  unfolding settle_at settle_flushed read_output
  settle_at-Settled s0 s slices taken path (was_taken refused exists same) fits =
      (some (exists_already path), s, refl, left_alone refused exists same)
  settle_at-Settled s0 s slices (unopened message) path (not_opened refused other same) fits =
      (some (not_created path message), s, refl, never_created refused other same)
  settle_at-Settled s0 s slices (broken message) path (cut_short why free others) fits =
      let (output, s') = fail_written sha fs path message s in
      (some output, s', refl, fail_written-Settled s0 s slices path message why free others)
  settle_at-Settled s0 s slices (opened file) path (writing at free holds others) fits =
      let s1 = (fs.sync_all file s).1 in
      let s2 = fs.close file s1 in
      let elsewhere : SameElsewhere fs path s0 s2 = λ q. λ differs.
        fs.close_keeps file s1 q
        ∙ fs.sync_keeps file s q (λ e. differs (e ∙ at))
        ∙ others q differs in
      elim (Result-cases ((fs.sync_all file s).0)) [
        | inr (e, unflushed) ↦
            let both : fs.sync_all file s ≡ (err e, s1) = ap (λ r. (r, s1)) unflushed in
            let (output, s') = fail_written sha fs path e.message s2 in
            (
              some output,
              s',
              rw (unflushed, settle_at) refl,
              fail_written-Settled s0 s2 slices path e.message (by_flush file s s1 e at both) free
                  elsewhere,
            )
        | inl (done, flushed) ↦
            let both : fs.sync_all file s ≡ (ok tt, s1) = ap (λ r. (r, s1)) flushed in
            let still : fs.content s2 path ≡ some (joined slices) =
              fs.close_keeps file s1 path ∙ rw at at ((fs.syncs file s s1 both).0) ∙ holds in
            let stored : fs.stored s2 path ≡ some (joined slices) =
              rw at at (stored_through file s s1 both) ∙ holds in
            elim (read_back-digest sha fs path s2 (joined slices) still fits) [
              | inl (e, stops, fails) ↦ (
                some (unverified path e.message),
                s2,
                rw (flushed, settle_at, fails) refl,
                not_reread stops free still stored elsewhere,
              )
              | inr reads ↦ (
                some (written path (sha.digest (joined slices))),
                s2,
                rw (flushed, settle_at, reads) refl,
                delivered free still stored elsewhere,
              )
            ]
      ]
  settle_at-Settled s0 s slices absent path d fits = elim d [ ]

  settle-Settled :
      (s0 s : State) (slices : List (List ℕ)) (sink : Sink File) (path : Option PathBuf)
      → Delivers fs s0 s slices sink path
      → length (joined slices) < u64_mod
      → (output : Option (Output PathBuf)) × (s' : State) × (settle sha fs sink path s
          ≡ some (output, s'))
        × Settled s0 s' slices path output
  unfolding settle
  settle-Settled s0 s slices sink (some path) d fits =
      settle_at-Settled s0 s slices sink path d fits
  settle-Settled s0 s slices absent none (nowhere same) fits = (none, s, refl, not_asked same)
  settle-Settled s0 s slices (opened file) none d fits = elim d [ ]
  settle-Settled s0 s slices taken none d fits = elim d [ ]
  settle-Settled s0 s slices (unopened message) none d fits = elim d [ ]
  settle-Settled s0 s slices (broken message) none d fits = elim d [ ]

  -- `finish` always answers, for a writer given fewer than 2^64 bytes: the digest is that of exactly the
  -- bytes pushed and the count is their number, whatever became of the file; and the output is true of the
  -- file. Written or unverified: it was new, it holds exactly the bytes pushed, and they are flushed to the
  -- device; written, the digest of its readback is theirs, and unverified, opening or reading it again
  -- failed. Existing or not created: creating it failed because it was there, or for another reason, and no
  -- file has changed. Failed: it was new, and a write or the flush of it failed; it is gone, or its removal
  -- failed and nothing is claimed of what it holds. No other file has changed.
  pub finish-Settled :
      (s0 s : State) (slices : List (List ℕ)) (writer : ArtifactWriter Inner File PathBuf)
      (slack_bytes : ℕ)
      → Holds fs sha s0 s slices writer
      → length (joined slices) < u64_mod
      → (output : Option (Output PathBuf)) × (s' : State) × (finish_artifact sha fs writer
            slack_bytes s
          ≡ some (
            record {
              digest = sha.digest (joined slices);
              bytes_hashed = length (joined slices);
              slack_bytes = slack_bytes;
              output = output;
            },
            s',
          ))
        × Settled s0 s' slices writer.path output
  unfolding finish_artifact
  finish-Settled s0 s slices writer slack_bytes holds fits =
      let (output, s', settles, is) =
        settle-Settled s0 s slices writer.sink writer.path holds.sink fits in
      let hashed = hash_finish-HasTaken sha writer.hasher slices holds.hasher in
      (output, s', rw (settles, finish_artifact, hashed) refl, is)
