-- ===== src/Hash/Hasher/Reader.antt =====
-- src/hash.rs `Sha256Hasher` and `hash_reader`: what is hashed.
use taphonomy.Prelude.{
  ℕ, ◌+◌, ◌<◌, Option, none, some, List, [], ◌∷◌, ◌++◌, Result, ok, err, if◌then◌else◌, length,
  joined, joined-append, folded, folded-append, length-append, u64_mod, checked_add, arith, ◌≡◌,
  refl, sym, ap, ◌∙◌, inl, inr, Bool-cases,
}
use mathlib.Core.List.{append_assoc, append-nil}
use taphonomy.Hash.Hasher.{
  Sha256, Sha256Hasher, HashResult, IoError, is_interrupted, Reads, new_hasher, hash_update,
  hash_finish, hash_loop, end_of, hash_reader,
}

-- What a reader gives before it ends or fails, as one slice for each read.
unfoldable pub slices_of : Reads → List (List ℕ)
slices_of [] = []
slices_of (err e ∷ reads) = if is_interrupted e.kind then slices_of reads else []
slices_of (ok [] ∷ reads) = []
slices_of (ok (b ∷ bs) ∷ reads) = (b ∷ bs) ∷ slices_of reads

-- The first error that is not an interruption, before the end of the input.
unfoldable pub failure_of : Reads → Option IoError
failure_of [] = none
failure_of (err e ∷ reads) = if is_interrupted e.kind then failure_of reads else some e
failure_of (ok [] ∷ reads) = none
failure_of (ok (b ∷ bs) ∷ reads) = failure_of reads

module _ {Inner : Type 0} (sha : Sha256 Inner) where
  -- A hasher that was given these slices.
  pub record HasTaken (hasher : Sha256Hasher Inner) (slices : List (List ℕ)) : Type 0 where
    pub inner : hasher.inner ≡ folded sha.update sha.new slices
    pub bytes_read : hasher.bytes_read ≡ length (joined slices)

  pub new_hasher-HasTaken : HasTaken (new_hasher sha) []
  unfolding new_hasher folded joined
  new_hasher-HasTaken = record { inner = refl; bytes_read = refl }

  pub hash_update-HasTaken :
      (hasher : Sha256Hasher Inner) (slices : List (List ℕ)) (bytes : List ℕ)
      → HasTaken hasher slices
      → length (joined slices) + length bytes < u64_mod
      → (next : Sha256Hasher Inner) × (hash_update sha hasher bytes ≡ some next)
        × HasTaken next (slices ++ (bytes ∷ []))
  unfolding hash_update checked_add
  hash_update-HasTaken hasher slices bytes taken fits =
      let count = taken.bytes_read in
      (
        record {
          inner = sha.update hasher.inner bytes;
          bytes_read = hasher.bytes_read + length bytes;
        },
        ground arith,
        record {
          inner =
              ap (λ i. sha.update i bytes) taken.inner
              ∙ sym (folded-append sha.update sha.new slices bytes);
          bytes_read =
              let both = length-append (joined slices) bytes in
              ap (λ n. n + length bytes) count
              ∙ sym both
              ∙ ap length (sym (joined-append slices bytes));
        },
      )

  pub hash_finish-HasTaken :
      (hasher : Sha256Hasher Inner) (slices : List (List ℕ))
      → HasTaken hasher slices
      → hash_finish sha hasher
        ≡ record { digest = sha.digest (joined slices); bytes_read = length (joined slices) }
  unfolding hash_finish
  hash_finish-HasTaken hasher slices taken =
      rw (taken.inner, taken.bytes_read, sha.incremental slices) refl

  -- What hashing so much input comes to.
  unfoldable pub outcome : List (List ℕ) → Option IoError → Result IoError HashResult
  outcome slices none =
      ok (record { digest = sha.digest (joined slices); bytes_read = length (joined slices) })
  outcome slices (some e) = err e

  hash_loop-outcome :
      (hasher : Sha256Hasher Inner) (slices : List (List ℕ)) (reads : Reads)
      → HasTaken hasher slices
      → length (joined slices) + length (joined (slices_of reads)) < u64_mod
      → end_of sha (hash_loop sha hasher reads)
        ≡ some (outcome (slices ++ slices_of reads) (failure_of reads))
  unfolding hash_loop end_of slices_of failure_of outcome joined
  hash_loop-outcome hasher slices [] taken fits =
      rw (append-nil slices) (ap (λ r. some (ok r)) (hash_finish-HasTaken hasher slices taken))
  hash_loop-outcome hasher slices (err e ∷ reads) taken fits =
      elim (Bool-cases (is_interrupted e.kind)) [
        | inl again ↦
            rw (again) (hash_loop-outcome hasher slices reads taken (rw (again, slices_of) at fits))
        | inr fatal ↦ rw (fatal) refl
      ]
  hash_loop-outcome hasher slices (ok [] ∷ reads) taken fits =
      rw (append-nil slices) (ap (λ r. some (ok r)) (hash_finish-HasTaken hasher slices taken))
  hash_loop-outcome hasher slices (ok (b ∷ bs) ∷ reads) taken fits =
      let bytes = b ∷ bs in
      let whole = length-append bytes (joined (slices_of reads)) in
      let (next, steps, took) = hash_update-HasTaken hasher slices bytes taken (omega arith) in
      let longer = ap length (joined-append slices bytes) ∙ length-append (joined slices) bytes in
      rw (steps, hash_loop, sym (append_assoc slices (bytes ∷ []) (slices_of reads)))
        (hash_loop-outcome next (slices ++ (bytes ∷ [])) reads took (omega arith))

  -- `hash_reader`, of a reader that gives less than 2^64 bytes, answers with the reader's first error that
  -- is not an interruption, or else with the digest of every byte up to the end of the input and their
  -- number, however the input was divided and wherever it was interrupted.
  pub hash_reader-outcome :
      (reads : Reads)
      → length (joined (slices_of reads)) < u64_mod
      → hash_reader sha reads ≡ some (outcome (slices_of reads) (failure_of reads))
  unfolding hash_reader joined
  hash_reader-outcome reads fits =
      hash_loop-outcome (new_hasher sha) [] reads new_hasher-HasTaken (omega arith)
