-- ===== src/Recovery/Content.antt =====
-- src/fat_recovery.rs `stream`: what is read of a recovered file.
use taphonomy.Prelude.{
  ℕ, zero, suc, ◌+◌, ◌-◌, ◌*◌, List, [], ◌∷◌, ◌++◌, ok, map_err, length, take, min, arith, ◌≡◌,
  refl, sym, ◌∙◌, ap, >>=-eq-ok, length-take, length-append, inl, inr, Result-cases, joined,
  joined-append,
}
use mathlib.Core.List.{append_assoc, append-nil}
use taphonomy.Filesystem.{VolumeExtent}
use taphonomy.Fat.{cluster_bytes}
use taphonomy.Fat32.{Fat32BootSector}
use taphonomy.Evidence.{EvidenceReader}
use taphonomy.Directory.Offsets.{cluster_offset}
use taphonomy.Recovery.Run.{IsRun, run_length_exact}
use taphonomy.Recovery.{UnallocatedRun, directory_error, run_length, read_data, stream_loop, stream}

-- A prefix of a joined list, cut at the first part's end.
take-append :
    (n m : ℕ) (xs ys : List ℕ)
    → m ≡ min n (length xs)
    → take n (xs ++ ys) ≡ take m xs ++ take (n - m) ys
take-append zero m xs ys e = let none_left : m ≡ 0 = omega arith in rw none_left refl
take-append (suc n) m [] ys e =
    let none_left : m ≡ 0 = omega arith in
    let all : suc n - 0 ≡ suc n = omega arith in rw (none_left, all) refl
take-append (suc n) zero (x ∷ xs) ys e = absurd (omega arith)
take-append (suc n) (suc m) (x ∷ xs) ys e =
    let same : suc n - suc m ≡ n - m = omega arith in
    rw same (ap (λ zs. x ∷ zs) (take-append n m xs ys (omega arith)))

take_nil : (n : ℕ) → take {A = ℕ} n [] ≡ []
take_nil zero = refl
take_nil (suc n) = refl

module _ {E : Type 0} (reader : EvidenceReader E) (boot : Fat32BootSector)
    (extent : VolumeExtent) where
  -- So many clusters from the given one on, read whole and joined.
  pub data Read : ℕ → ℕ → List ℕ → Type 0 where
    done : {from : ℕ} → Read from 0 []
    more :
        {from count : ℕ} {buffer rest : List ℕ}
        → read_data reader boot extent from ≡ ok buffer
        → Read (from + 1) count rest
        → Read from (suc count) (buffer ++ rest)

  read_data-length :
      (from : ℕ) (buffer : List ℕ)
      → read_data reader boot extent from ≡ ok buffer
      → length buffer ≡ cluster_bytes boot.geometry
  unfolding read_data
  read_data-length from buffer h =
      let (offset, at, h1) =
        >>=-eq-ok (map_err directory_error (cluster_offset reader boot extent from)) _ h in
      elim (Result-cases (reader.read_exact_at offset (cluster_bytes boot.geometry))) [
        | inl (bs, is) ↦
            let h2 = rw is at h1 in
            let same : bs ≡ buffer = cc in
            rw same at (reader.filled offset (cluster_bytes boot.geometry) bs is).0
        | inr (e, is) ↦ let h2 = rw is at h1 in cc
      ]

  Read-length :
      (from count : ℕ) (bytes : List ℕ)
      → Read from count bytes
      → length bytes ≡ count * cluster_bytes boot.geometry
  Read-length from zero [] done = omega arith
  Read-length from zero (_ ∷ _) r = elim r [ ]
  Read-length from (suc count) bytes (more {buffer = buffer} {rest} read others) =
      length-append buffer rest
      ∙ (let first = read_data-length from buffer read in
          let later = Read-length (from + 1) count rest others in grind arith)

  -- What is pushed, in terms of what is read.
  stream_loop-Read :
      (left from remaining : ℕ) (pushed out : List (List ℕ))
      → stream_loop reader boot extent left from remaining pushed ≡ ok out
      → (bytes : List ℕ) × Read from left bytes
        × (joined out ≡ joined pushed ++ take remaining bytes)
  unfolding stream_loop
  stream_loop-Read zero from remaining pushed out h =
      let same : out ≡ pushed = cc in
      (
        [],
        done,
        (ap joined same
            ∙ sym
                (ap (λ zs. joined pushed ++ zs) (take_nil remaining) ∙ append-nil (joined pushed))),
      )
  stream_loop-Read (suc left) from remaining pushed out h =
      let (buffer, read, h1) = >>=-eq-ok (read_data reader boot extent from) _ h in
      let n = min remaining (cluster_bytes boot.geometry) in
      let (rest, others, same) =
        stream_loop-Read left (from + 1) (remaining - n) (pushed ++ (take n buffer ∷ [])) out h1 in
      let filled = read_data-length from buffer read in
      let cut = take-append remaining n buffer rest (ap (min remaining) (sym filled)) in
      (
        buffer ++ rest,
        more read others,
        same
            ∙ ap (λ zs. zs ++ take (remaining - n) rest) (joined-append pushed (take n buffer))
            ∙ append_assoc (joined pushed) (take n buffer) (take (remaining - n) rest)
            ∙ ap (λ zs. joined pushed ++ zs) (sym cut),
      )

  -- Where the content of a run is read, what is written is the run's clusters, read whole and in order,
  -- cut at the file's size, and it is exactly that many bytes.
  pub stream-Read :
      (found : UnallocatedRun) (out : List (List ℕ))
      → IsRun boot found.inner
      → stream reader boot extent found ≡ ok out
      → (bytes : List ℕ) × Read found.inner.first_cluster found.inner.cluster_count bytes
        × (joined out ≡ take found.inner.file_size bytes)
        × (length (joined out) ≡ found.inner.file_size)
  unfolding stream joined
  stream-Read found out is h =
      let (bytes, read, same) =
        stream_loop-Read (run_length found.inner) found.inner.first_cluster found.inner.file_size []
          out h in
      let exact = run_length_exact boot found.inner is in
      let read' = rw exact at read in
      let same' : joined out ≡ take found.inner.file_size bytes = same in
      let whole =
        Read-length found.inner.first_cluster found.inner.cluster_count bytes read' ∙ is.covers in
      let cut = length-take found.inner.file_size bytes in
      (bytes, read', same', ap length same' ∙ cut ∙ omega arith)

  stream_loop_reads :
      (left from remaining : ℕ) (pushed : List (List ℕ)) (bytes : List ℕ)
      → Read from left bytes
      → (out : List (List ℕ)) × (stream_loop reader boot extent left from remaining pushed ≡ ok out)
  unfolding stream_loop
  stream_loop_reads zero from remaining pushed [] done = (pushed, refl)
  stream_loop_reads zero from remaining pushed (_ ∷ _) r = elim r [ ]
  stream_loop_reads (suc left) from remaining pushed bytes
        (more {buffer = buffer} {rest} read others) =
      let n = min remaining (cluster_bytes boot.geometry) in
      let (out, is) =
        stream_loop_reads left (from + 1) (remaining - n) (pushed ++ (take n buffer ∷ [])) rest
          others in
      (out, rw read is)

  -- Where every cluster of the run reads, the content is given.
  pub stream_reads :
      (found : UnallocatedRun) (bytes : List ℕ)
      → IsRun boot found.inner
      → Read found.inner.first_cluster found.inner.cluster_count bytes
      → (out : List (List ℕ)) × (stream reader boot extent found ≡ ok out)
  unfolding stream
  stream_reads found bytes is read =
      let exact = run_length_exact boot found.inner is in
      stream_loop_reads (run_length found.inner) found.inner.first_cluster found.inner.file_size []
        bytes (rw exact read)
