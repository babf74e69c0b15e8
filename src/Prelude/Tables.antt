-- ===== src/Prelude/Tables.antt =====
-- Tests on every byte, by evaluation.
use Prim.Native.Nat.{ℕ, zero, suc, ◌<◌}
use mathlib.Core.Path.{◌≡◌}
use mathlib.Core.Bool.{Bool, true, ◌&&◌}
use native.Mathlib.Omega.{arith}

module _ (test : ℕ → Bool) where
  -- The test passes on every number below the bound, from the largest down.
  unfoldable pub passes_below : ℕ → Bool
  passes_below zero = true
  passes_below (suc bound) = passes_below bound && test bound

  pub passes_below_sound : (bound k : ℕ) → k < bound → passes_below bound ≡ true → test k ≡ true
  unfolding passes_below
  passes_below_sound zero k lt checked = absurd (omega arith)
  passes_below_sound (suc bound) k lt checked = ground (arith, passes_below_sound bound k)
