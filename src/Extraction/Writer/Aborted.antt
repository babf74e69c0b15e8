-- ===== src/Extraction/Writer/Aborted.antt =====
-- src/extraction.rs `ArtifactWriter::abort`: what is left of the file.
use taphonomy.Prelude.{
  ℕ, true, false, ◌≢◌, Option, none, some, List, ok, err, ◌≡◌, refl, sym, ap, ◌∙◌, inl, inr,
  Bool-cases, Result-cases,
}
use taphonomy.Hash.Hasher.{
  Sha256, IoError, ErrorKind, already_exists, not_found, interrupted, other_kind,
}
use taphonomy.Extraction.System.{FileSystem}
use taphonomy.Extraction.Writer.{
  Leftover, Sink, absent, opened, taken, unopened, broken, ArtifactWriter, is_not_found, why_left,
  remove_partial, discard, leftover_of, abort,
}
use taphonomy.Extraction.Writer.Holds.{
  SameElsewhere, Same, Delivers, nowhere, writing, was_taken, not_opened, cut_short, Holds,
}

is_not_found→≡ : (k : ErrorKind) → is_not_found k ≡ true → k ≡ not_found
unfolding is_not_found
is_not_found→≡ not_found h = refl
is_not_found→≡ already_exists h = cc
is_not_found→≡ interrupted h = cc
is_not_found→≡ other_kind h = cc

is_not_found→≢ : (k : ErrorKind) → is_not_found k ≡ false → k ≢ not_found
unfolding is_not_found
is_not_found→≢ k h same = let h' = rw same at h in cc

module _ {Inner State File PathBuf : Type 0} (sha : Sha256 Inner)
    (fs : FileSystem State File PathBuf) where
  -- After `abort`: the file system is as before the writer was begun, at the path too, or the file left
  -- behind is named, with the error that its removal ended with.
  pub data Aborted (s0 s' : State) : Option PathBuf → Option (Leftover PathBuf) → Type 0 where
    never_asked : Same fs s0 s' → Aborted s0 s' none none
    restored :
        {path : PathBuf}
        → fs.content s' path ≡ fs.content s0 path
        → SameElsewhere fs path s0 s'
        → Aborted s0 s' (some path) none
    remains :
        {path : PathBuf} {before : State} {e : IoError}
        → fs.remove_file path before ≡ (err e, s')
        → e.kind ≢ not_found
        → SameElsewhere fs path s0 s'
        → Aborted s0 s' (some path) (some (record { path = path; removal = e.message }))

  remove_partial-Aborted :
      (s0 s : State) (path : PathBuf)
      → fs.content s0 path ≡ none
      → SameElsewhere fs path s0 s
      → Aborted s0
          ((remove_partial sha fs path s).1)
          (some path)
          (leftover_of sha fs ((remove_partial sha fs path s).0) (some path))
  unfolding remove_partial why_left leftover_of
  remove_partial-Aborted s0 s path free others =
      let s1 = (fs.remove_file path s).1 in
      let elsewhere : SameElsewhere fs path s0 s1 =
        λ q. λ differs. fs.remove_keeps path s q differs ∙ others q differs in
      elim (Result-cases ((fs.remove_file path s).0)) [
        | inl (done, removed) ↦
            let both : fs.remove_file path s ≡ (ok tt, s1) = ap (λ r. (r, s1)) removed in
            rw (removed) (restored (fs.removes path s s1 both ∙ sym free) elsewhere)
        | inr (e, fails) ↦
            let both : fs.remove_file path s ≡ (err e, s1) = ap (λ r. (r, s1)) fails in
            elim (Bool-cases (is_not_found e.kind)) [
              | inl missing ↦
                  let gone = fs.remove_missing path s e s1 both (is_not_found→≡ e.kind missing) in
                  rw (fails, missing) (restored (gone ∙ sym free) elsewhere)
              | inr present ↦
                  rw (fails, present) (remains both (is_not_found→≢ e.kind present) elsewhere)
            ]
      ]

  discard-Aborted :
      (s0 s : State) (slices : List (List ℕ)) (sink : Sink File) (path : Option PathBuf)
      → Delivers fs s0 s slices sink path
      → Aborted s0
          ((discard sha fs sink path s).1)
          path
          (leftover_of sha fs ((discard sha fs sink path s).0) path)
  unfolding discard leftover_of
  discard-Aborted s0 s slices absent none (nowhere same) = never_asked same
  discard-Aborted s0 s slices taken (some path) (was_taken refused exists same) =
      restored (same path) (λ q. λ differs. same q)
  discard-Aborted s0 s slices (unopened message) (some path) (not_opened refused other same) =
      restored (same path) (λ q. λ differs. same q)
  discard-Aborted s0 s slices (broken message) (some path) (cut_short why free others) =
      remove_partial-Aborted s0 s path free others
  discard-Aborted s0 s slices (opened file) (some path) (writing at free holds others) =
      remove_partial-Aborted s0 (fs.close file s) path free
        (λ q. λ differs. fs.close_keeps file s q ∙ others q differs)
  discard-Aborted s0 s slices absent (some path) d = elim d [ ]
  discard-Aborted s0 s slices (opened file) none d = elim d [ ]
  discard-Aborted s0 s slices taken none d = elim d [ ]
  discard-Aborted s0 s slices (unopened message) none d = elim d [ ]
  discard-Aborted s0 s slices (broken message) none d = elim d [ ]

  -- `abort` leaves no trace, or says which file it leaves: no file has changed since the writer was begun,
  -- or the removal of the partial file failed, and the answer names it.
  pub abort-Aborted :
      (s0 s : State) (slices : List (List ℕ)) (writer : ArtifactWriter Inner File PathBuf)
      → Holds fs sha s0 s slices writer
      → Aborted s0 ((abort sha fs writer s).1) writer.path ((abort sha fs writer s).0)
  unfolding abort
  abort-Aborted s0 s slices writer holds =
      discard-Aborted s0 s slices writer.sink writer.path holds.sink
