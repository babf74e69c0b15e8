-- ===== src/Validation.antt =====
-- src/validation.rs and src/confidence.rs: what a comparison with a reference digest established, and the
-- one level of confidence.
pub mod Compared
use taphonomy.Prelude.{ℕ, Option, none, some, List, bytes_eq, if◌then◌else◌}

pub data Outcome : Type 0 where
  same_digest differs not_attempted : Outcome

pub record Validation : Type 0 where
  pub outcome : Outcome
  pub recovered : List ℕ
  pub reference : Option (List ℕ)
  pub covers : ℕ

-- The match on the reference.
unfoldable pub outcome_of : List ℕ → Option (List ℕ) → Outcome
outcome_of recovered none = not_attempted
outcome_of recovered (some supplied) = if bytes_eq supplied recovered then same_digest else differs

unfoldable pub validate : List ℕ → ℕ → Option (List ℕ) → Validation
validate recovered covers reference = record {
  outcome = outcome_of recovered reference;
  recovered = recovered;
  reference = reference;
  covers = covers;
}

pub data Confidence : Type 0 where
  reconstructed : Confidence

-- `Confidence::of_inferred_run`
unfoldable pub of_inferred_run : Confidence
of_inferred_run = reconstructed
