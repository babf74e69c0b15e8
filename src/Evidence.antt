-- ===== src/Evidence.antt =====
-- src/evidence.rs: positional read access to evidence.
-- The trait `EvidenceReader` is a record: its one method, and what it obliges an implementor to, that
-- a successful read fills the whole buffer. The error type is a parameter. A read is a function of
-- its offset and length: nothing writes to evidence, and no cursor is visible to a caller.
use taphonomy.Prelude.{ℕ, List, Result, ok, length, Bytes, ◌≡◌}

pub record EvidenceReader (E : Type 0) : Type 0 where
  pub read_exact_at : ℕ → ℕ → Result E (List ℕ)
  pub filled :
      (offset n : ℕ) (bs : List ℕ) → read_exact_at offset n ≡ ok bs → (length bs ≡ n) × Bytes bs
