-- ===== src/Hash/Hasher.antt =====
-- src/hash.rs `Sha256Hasher` and `hash_reader`, over the crate sha2, which is a parameter.
pub mod Reader
use taphonomy.Prelude.{
  ℕ, zero, suc, ◌+◌, Bool, true, false, Option, none, some, List, [], ◌∷◌, Result, ok, err, ltb,
  ◌==◌, if◌then◌else◌, length, joined, folded, u64_mod, checked_add, ◌≡◌,
}
use taphonomy.Hash.{digest_len}

-- What the source asks of sha2: a state, to which bytes are added. However the input is divided, the
-- digest is that of the whole of it.
pub record Sha256 (Inner : Type 0) : Type 0 where
  pub new : Inner
  pub update : Inner → List ℕ → Inner
  pub finalize : Inner → List ℕ
  pub digest : List ℕ → List ℕ
  pub digest-length : (bytes : List ℕ) → length (digest bytes) ≡ digest_len
  pub incremental :
      (pieces : List (List ℕ)) → finalize (folded update new pieces) ≡ digest (joined pieces)

pub record Sha256Hasher (Inner : Type 0) : Type 0 where
  pub inner : Inner
  pub bytes_read : ℕ

pub record HashResult : Type 0 where
  pub digest : List ℕ
  pub bytes_read : ℕ

-- `io::ErrorKind`, as far as the source tells kinds apart.
pub data ErrorKind : Type 0 where
  already_exists not_found interrupted other_kind : ErrorKind

-- `io::Error`: its kind, and the text that `to_string` gives.
pub record IoError : Type 0 where
  pub kind : ErrorKind
  pub message : List ℕ

unfoldable pub is_interrupted : ErrorKind → Bool
is_interrupted interrupted = true
is_interrupted _ = false

-- A reader (`io::Read`) is the list of what its calls of `read` return, up to the end of its input.
abbrev pub Reads : Type 0
Reads = List (Result IoError (List ℕ))

module _ {Inner : Type 0} (sha : Sha256 Inner) where
  unfoldable pub new_hasher : Sha256Hasher Inner
  new_hasher = record { inner = sha.new; bytes_read = 0 }

  -- `none` is the panic of `expect`.
  unfoldable pub hash_update : Sha256Hasher Inner → List ℕ → Option (Sha256Hasher Inner)
  unfolding checked_add
  hash_update hasher bytes = elim (checked_add u64_mod hasher.bytes_read (length bytes)) [
    | none ↦ none
    | some count ↦ some (record { inner = sha.update hasher.inner bytes; bytes_read = count })
  ]

  unfoldable pub hash_finish : Sha256Hasher Inner → HashResult
  hash_finish hasher = record { digest = sha.finalize hasher.inner; bytes_read = hasher.bytes_read }

  -- The loop of `hash_reader`. A read of no bytes ends it, as the end of the input does.
  unfoldable pub hash_loop :
      Sha256Hasher Inner → Reads → Option (Result IoError (Sha256Hasher Inner))
  hash_loop hasher [] = some (ok hasher)
  hash_loop hasher (err e ∷ reads) =
      let rest = hash_loop hasher reads in if is_interrupted e.kind then rest else some (err e)
  hash_loop hasher (ok [] ∷ reads) = some (ok hasher)
  hash_loop hasher (ok (b ∷ bs) ∷ reads) = elim (hash_update hasher (b ∷ bs)) [
    | none ↦ none
    | some hasher' ↦ hash_loop hasher' reads
  ]

  -- `?` on the loop, and `Ok(hasher.finish())` behind it.
  unfoldable pub end_of :
      Option (Result IoError (Sha256Hasher Inner)) → Option (Result IoError HashResult)
  end_of none = none
  end_of (some (err e)) = some (err e)
  end_of (some (ok hasher)) = some (ok (hash_finish hasher))

  unfoldable pub hash_reader : Reads → Option (Result IoError HashResult)
  hash_reader reads = end_of (hash_loop new_hasher reads)
