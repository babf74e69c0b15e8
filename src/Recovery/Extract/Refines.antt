-- ===== src/Recovery/Extract/Refines.antt =====
-- src/fat_recovery.rs `extract`, beside the slices of `stream` and the artifact writer.
use taphonomy.Prelude.{
  ℕ, zero, suc, ◌+◌, ◌-◌, ◌<◌, ◌≤◌, Option, none, some, List, [], ◌∷◌, ◌++◌, Result, ok, err,
  length, take, min, joined, joined-append, length-append, length-take, u64_mod, arith, ◌≡◌, refl,
  ap, ◌∙◌, inl, inr, Result-cases,
}
use mathlib.Core.Path.{subst}
use taphonomy.Filesystem.{VolumeExtent}
use taphonomy.Fat.{cluster_bytes}
use taphonomy.Fat32.{Fat32BootSector}
use taphonomy.Evidence.{EvidenceReader}
use taphonomy.Hash.Hasher.{Sha256}
use taphonomy.Extraction.System.{FileSystem}
use taphonomy.Extraction.Writer.{Output, Extraction, Leftover, ArtifactWriter, begin, abort}
use taphonomy.Extraction.Writer.Holds.{Holds, begin-Holds, push-Holds}
use taphonomy.Extraction.Writer.Settled.{Settled, finish-Settled}
use taphonomy.Extraction.Writer.Aborted.{Aborted, abort-Aborted}
use taphonomy.Extraction.Destination.{Destination}
use taphonomy.Recovery.Extract.{
  ExtractError, path_of_run, abort_error, stream_into, end_artifact, extract,
}
use taphonomy.Recovery.{UnallocatedRun, RecoveryError, run_length, read_data, stream_loop, stream}

module _ {E Inner State File PathBuf : Type 0} (reader : EvidenceReader E) (boot : Fat32BootSector)
    (extent : VolumeExtent) (sha : Sha256 Inner) (fs : FileSystem State File PathBuf) where
  -- The writer's loop from state s, beside the loop over slices that gives `spec`: the same end, and the
  -- writer has taken the slices.
  data Streams (s0 : State) (path : Option PathBuf)
      (spec : Result (RecoveryError E) (List (List ℕ)))
      (result : Option
        (Result (RecoveryError E) (Unit {0}) × ArtifactWriter Inner File PathBuf × State))
      : Type 0 where
    streamed :
        (slices : List (List ℕ)) (writer : ArtifactWriter Inner File PathBuf) (s' : State)
        → spec ≡ ok slices
        → result ≡ some (ok tt, writer, s')
        → Holds fs sha s0 s' slices writer
        → writer.path ≡ path
        → length (joined slices) < u64_mod
        → Streams s0 path spec result
    interrupted_by :
        (e : RecoveryError E) (slices : List (List ℕ)) (writer : ArtifactWriter Inner File PathBuf)
        (s' : State)
        → spec ≡ err e
        → result ≡ some (err e, writer, s')
        → Holds fs sha s0 s' slices writer
        → writer.path ≡ path
        → Streams s0 path spec result

  stream_into-Streams :
      (left cluster remaining : ℕ) (slices : List (List ℕ))
      (writer : ArtifactWriter Inner File PathBuf) (s0 s : State)
      → Holds fs sha s0 s slices writer
      → length (joined slices) + remaining < u64_mod
      → Streams s0 writer.path
          (stream_loop reader boot extent left cluster remaining slices)
          (stream_into reader boot extent sha fs left cluster remaining writer s)
  unfolding stream_loop stream_into
  stream_into-Streams zero cluster remaining slices writer s0 s holds fits =
      streamed slices writer s refl refl holds refl (omega arith)
  stream_into-Streams (suc left) cluster remaining slices writer s0 s holds fits =
      elim (Result-cases (read_data reader boot extent cluster)) [
        | inr (e, fails) ↦
            rw (fails, stream_into) (interrupted_by e slices writer s refl refl holds refl)
        | inl (buffer, reads) ↦
            let n = min remaining (cluster_bytes boot.geometry) in
            let piece = take n buffer in
            let cut : length piece ≤ n = let exact = length-take n buffer in omega arith in
            let (writer', s', pushes, holds', same) =
              push-Holds fs sha s0 s slices writer piece holds (omega arith) in
            let longer =
              ap length (joined-append slices piece) ∙ length-append (joined slices) piece in
            let rest =
              stream_into-Streams left (cluster + 1) (remaining - n) (slices ++ (piece ∷ []))
                writer' s0 s' holds' (omega arith) in
            rw (reads, stream_into)
              (rw (pushes, stream_into)
                (subst
                  (λ p.
                    Streams s0 p
                      (stream_loop reader boot extent left (cluster + 1) (remaining - n)
                        (slices ++ (piece ∷ [])))
                      (stream_into reader boot extent sha fs left (cluster + 1) (remaining - n)
                        writer' s'))
                  same rest))
      ]

  -- The answer of `extract`, and the state that it leaves, against the slices that `stream` gives.
  pub data Extracted (s0 s' : State) (path : Option PathBuf) (slack_bytes : ℕ)
      (spec : Result (RecoveryError E) (List (List ℕ)))
      (answer : Result (ExtractError E PathBuf) (Extraction PathBuf)) : Type 0 where
    extracted :
        (slices : List (List ℕ)) (output : Option (Output PathBuf))
        → spec ≡ ok slices
        → answer
          ≡ ok (record {
            digest = sha.digest (joined slices);
            bytes_hashed = length (joined slices);
            slack_bytes = slack_bytes;
            output = output;
          })
        → Settled sha fs s0 s' slices path output
        → Extracted s0 s' path slack_bytes spec answer
    abandoned :
        (e : RecoveryError E) (left : Option (Leftover PathBuf))
        → spec ≡ err e
        → answer ≡ err (abort_error e left)
        → Aborted sha fs s0 s' path left
        → Extracted s0 s' path slack_bytes spec answer

  end_artifact-Extracted :
      (s0 : State) (path : Option PathBuf) (slack_bytes : ℕ)
      (spec : Result (RecoveryError E) (List (List ℕ)))
      (result : Option
        (Result (RecoveryError E) (Unit {0}) × ArtifactWriter Inner File PathBuf × State))
      → Streams s0 path spec result
      → (answer : Result (ExtractError E PathBuf) (Extraction PathBuf)) × (s' : State)
        × ((elim result [
          | none ↦ none
          | some (r, writer, s) ↦ end_artifact reader boot extent sha fs slack_bytes r writer s
        ])
            ≡ some (answer, s'))
        × Extracted s0 s' path slack_bytes spec answer
  unfolding end_artifact
  end_artifact-Extracted s0 path slack_bytes spec result
        (streamed slices writer s is ends holds same fits) =
      let (output, s', finishes, settled) =
        finish-Settled sha fs s0 s slices writer slack_bytes holds fits in
      (
        _,
        s',
        rw (ends, end_artifact, finishes) refl,
        extracted slices output is refl
            (subst (λ p. Settled sha fs s0 s' slices p output) same settled),
      )
  end_artifact-Extracted s0 path slack_bytes spec result
        (interrupted_by e slices writer s is ends holds same) =
      let (left, s') = abort sha fs writer s in
      (
        err (abort_error e left),
        s',
        rw ends refl,
        abandoned e left is refl (
            subst (λ p. Aborted sha fs s0 s' p left) same
              (abort-Aborted sha fs s0 s slices writer holds)),
      )

  -- `extract` always answers, and does what `stream` says: where every cluster of the run is read, its
  -- digest and count are those of the slices joined, and its output is true of the file that holds them;
  -- where the evidence fails, it reports that failure, and either no file has changed or the partial file
  -- that could not be removed is named.
  pub extract-Extracted :
      (found : UnallocatedRun) (destination : Option (Destination PathBuf)) (s0 : State)
      → found.inner.file_size < u64_mod
      → (answer : Result (ExtractError E PathBuf) (Extraction PathBuf)) × (s' : State) × (extract
            reader boot extent sha fs found destination s0
          ≡ some (answer, s'))
        × Extracted s0 s'
            (path_of_run fs found.inner.first_cluster destination)
            found.inner.slack_bytes
            (stream reader boot extent found)
            answer
  unfolding extract stream begin joined
  extract-Extracted found destination s0 fits =
      let path = path_of_run fs found.inner.first_cluster destination in
      let started = begin sha fs path s0 in
      end_artifact-Extracted s0 path found.inner.slack_bytes _ _ (
        stream_into-Streams (run_length found.inner) found.inner.first_cluster found.inner.file_size
          [] started.0 s0 started.1 (begin-Holds fs sha path s0) (omega arith))
