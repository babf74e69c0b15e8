-- ===== src/Extraction/Writer/ReadBack.antt =====
-- src/extraction.rs `read_back`: the digest of a written file.
use taphonomy.Prelude.{
  ℕ, ◌+◌, ◌<◌, Option, none, some, List, [], ◌∷◌, ◌++◌, Result, ok, err, length, length-append,
  joined, joined-append, u64_mod, Member, arith, ◌≡◌, refl, sym, ap, ◌∙◌, ◌⊎◌, inl, inr,
  Result-cases,
}
use mathlib.Core.List.{append_assoc, append-nil}
use taphonomy.Hash.Hasher.{Sha256, Sha256Hasher, IoError, Reads, new_hasher, hash_finish}
use taphonomy.Hash.Hasher.Reader.{
  HasTaken, new_hasher-HasTaken, hash_update-HasTaken, hash_finish-HasTaken, slices_of, failure_of,
}
use taphonomy.Extraction.System.{FileSystem}
use taphonomy.Extraction.Writer.{read_back_loop, read_back}

module _ {Inner State File PathBuf : Type 0} (sha : Sha256 Inner)
    (fs : FileSystem State File PathBuf) where
  digest_of :
      (hasher : Sha256Hasher Inner) (slices : List (List ℕ))
      → HasTaken sha hasher slices
      → (hash_finish sha hasher).digest ≡ sha.digest (joined slices)
  digest_of hasher slices fed = ap (λ r. r.digest) (hash_finish-HasTaken sha hasher slices fed)

  -- Reading back ends with an error, or with the digest of all that the reader gives.
  data ReadBack (reads : Reads) (whole : List (List ℕ)) (result : Option (Result IoError (List ℕ)))
      : Type 0 where
    unread :
        (e : IoError) → Member (err e) reads → result ≡ some (err e) → ReadBack reads whole result
    read_whole :
        failure_of reads ≡ none
        → result ≡ some (ok (sha.digest (joined whole)))
        → ReadBack reads whole result

  read_back_loop-ReadBack :
      (hasher : Sha256Hasher Inner) (slices : List (List ℕ)) (reads : Reads)
      → HasTaken sha hasher slices
      → length (joined slices) + length (joined (slices_of reads)) < u64_mod
      → ReadBack reads (slices ++ slices_of reads) (read_back_loop sha fs hasher reads)
  unfolding read_back_loop slices_of failure_of joined
  read_back_loop-ReadBack hasher slices [] fed fits =
      rw (append-nil slices) (read_whole refl (ap (λ d. some (ok d)) (digest_of hasher slices fed)))
  read_back_loop-ReadBack hasher slices (err e ∷ reads) fed fits = unread e (inl refl) refl
  read_back_loop-ReadBack hasher slices (ok [] ∷ reads) fed fits =
      rw (append-nil slices) (read_whole refl (ap (λ d. some (ok d)) (digest_of hasher slices fed)))
  read_back_loop-ReadBack hasher slices (ok (b ∷ bs) ∷ reads) fed fits =
      let bytes = b ∷ bs in
      let whole = length-append bytes (joined (slices_of reads)) in
      let (next, steps, took) = hash_update-HasTaken sha hasher slices bytes fed (omega arith) in
      let longer = ap length (joined-append slices bytes) ∙ length-append (joined slices) bytes in
      let rest = read_back_loop-ReadBack next (slices ++ (bytes ∷ [])) reads took (omega arith) in
      rw (steps, sym (append_assoc slices (bytes ∷ []) (slices_of reads)), read_back_loop)
        (elim rest [
          | unread e occurs is ↦ unread e (inr occurs) is
          | read_whole none_failed is ↦ read_whole none_failed is
        ])

  -- The file at a path cannot be opened for reading, or a read of it fails.
  pub data Unread (path : PathBuf) (s : State) (e : IoError) : Type 0 where
    not_reopened : fs.open_file path s ≡ err e → Unread path s e
    stopped :
        (reads : Reads) → fs.open_file path s ≡ ok reads → Member (err e) reads → Unread path s e

  -- A file that holds fewer than 2^64 bytes reads back with an error of its reads or with the digest of its bytes.
  pub read_back-digest :
      (path : PathBuf) (s : State) (bytes : List ℕ)
      → fs.content s path ≡ some bytes
      → length bytes < u64_mod
      → ((e : IoError) × Unread path s e × (read_back sha fs path s ≡ some (err e)))
        ⊎ (read_back sha fs path s ≡ some (ok (sha.digest bytes)))
  unfolding read_back joined
  read_back-digest path s bytes holds fits = elim (Result-cases (fs.open_file path s)) [
    | inr (e, refused) ↦ inl (e, not_reopened refused, rw (refused, read_back) refl)
    | inl (reads, opens) ↦
        let (rest, parts, ended) = fs.reads_content path s reads bytes opens holds in
        let long = length-append (joined (slices_of reads)) rest in
        let total = ap length parts in
        elim (read_back_loop-ReadBack (new_hasher sha) [] reads (new_hasher-HasTaken sha)
          (omega arith)) [
            | unread e occurs is ↦ inl (e, stopped reads opens occurs, rw (opens, read_back) is)
            | read_whole none_failed is ↦ inr (
                rw (opens, read_back)
                  (is
                    ∙ ap (λ bs. some (ok (sha.digest bs)))
                        (sym (
                          parts
                          ∙ ap (λ r. joined (slices_of reads) ++ r) (ended none_failed)
                          ∙ append-nil (joined (slices_of reads))))))
          ]
  ]
