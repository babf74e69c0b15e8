-- ===== src/Prelude/Words.antt =====
-- Bytes, little-endian words and the checked arithmetic of `u32` and `u64`.
-- A slice is a list of bytes. The source reads it at constant offsets only after a length check, or
-- in a fixed-size array, so the value that `byte` gives past the end is never used.
use Prim.Native.Nat.{ℕ, ◌+◌, ◌-◌, ◌*◌, ◌/◌, ◌<◌, min}
use mathlib.Core.Bool.{Bool, ◌&&◌, ◌||◌}
use mathlib.Core.Option.{Option, none, some}
use mathlib.Core.List.{List, [], ◌∷◌}
use native.Mathlib.Omega.{arith}
use taphonomy.Prelude.Tests.{ltb, leb, ◌==◌, if◌then◌else◌}
use taphonomy.Prelude.Lists.{All, take, drop, get_or, get_or-All}

abbrev pub IsByte : ℕ → Type 0
IsByte b = b < 256

abbrev pub Bytes : List ℕ → Type 0
Bytes xs = All IsByte xs

abbrev pub u32_max : ℕ
u32_max = 0xffff_ffff

abbrev pub u32_mod : ℕ
u32_mod = 0x1_0000_0000

abbrev pub u64_mod : ℕ
u64_mod = 0x1_0000_0000_0000_0000

unfoldable pub byte : List ℕ → ℕ → ℕ
byte xs i = get_or xs i 0

-- `u16::from_le_bytes` and `u32::from_le_bytes` at an offset
unfoldable pub le_u16 : List ℕ → ℕ → ℕ
unfolding byte
le_u16 xs i = byte xs i + 256 * byte xs (i + 1)

unfoldable pub le_u32 : List ℕ → ℕ → ℕ
unfolding byte
le_u32 xs i =
    byte xs i + 0x100 * byte xs (i + 1) + 0x1_0000 * byte xs (i + 2) + 0x100_0000 * byte xs (i + 3)

unfoldable pub le_u64 : List ℕ → ℕ → ℕ
le_u64 xs i = le_u32 xs i + 0x1_0000_0000 * le_u32 xs (i + 4)

-- `&xs[from..from + n]`
abbrev pub slice : List ℕ → ℕ → ℕ → List ℕ
slice xs from n = take n (drop from xs)

pub byte-lt : (xs : List ℕ) (i : ℕ) → Bytes xs → byte xs i < 256
unfolding byte
byte-lt xs i h = get_or-All IsByte xs i 0 (omega arith) h

pub le_u16-lt : (xs : List ℕ) (i : ℕ) → Bytes xs → le_u16 xs i < 0x1_0000
unfolding le_u16
le_u16-lt xs i h = omega (arith, byte-lt xs i h, byte-lt xs (i + 1) h)

pub le_u32-lt : (xs : List ℕ) (i : ℕ) → Bytes xs → le_u32 xs i < u32_mod
unfolding le_u32
le_u32-lt xs i h =
    omega (arith, byte-lt xs i h, byte-lt xs (i + 1) h, byte-lt xs (i + 2) h, byte-lt xs (i + 3) h)

-- `checked_add`, `checked_sub` and `checked_mul` on words below `limit`
unfoldable pub checked_add : ℕ → ℕ → ℕ → Option ℕ
checked_add limit a b = if ltb (a + b) limit then some (a + b) else none

unfoldable pub checked_sub : ℕ → ℕ → Option ℕ
checked_sub a b = if ltb a b then none else some (a - b)

unfoldable pub checked_mul : ℕ → ℕ → ℕ → Option ℕ
checked_mul limit a b = if ltb (a * b) limit then some (a * b) else none

-- `u32::saturating_add`, `u32::saturating_mul`
unfoldable pub saturating_add : ℕ → ℕ → ℕ
saturating_add a b = min (a + b) u32_max

unfoldable pub saturating_mul : ℕ → ℕ → ℕ
saturating_mul a b = min (a * b) u32_max

-- `is_power_of_two` on a `u8`
unfoldable pub is_power_of_two : ℕ → Bool
is_power_of_two n =
    n == 1 || n == 2 || n == 4 || n == 8 || n == 16 || n == 32 || n == 64 || n == 128

-- `a.div_ceil(b)` for `0 < b`
unfoldable pub div_ceil : ℕ → ℕ → ℕ
div_ceil a b = (a + (b - 1)) / b

-- A byte is printable ASCII: `(0x20..=0x7E).contains(&b)`.
unfoldable pub is_printable : ℕ → Bool
is_printable b = leb 0x20 b && leb b 0x7E

-- Drops the spaces at the end.
unfoldable pub trim_spaces : List ℕ → List ℕ
trim_spaces [] = []
trim_spaces (b ∷ bs) = elim (trim_spaces bs) [
  | [] ↦ (if b == 0x20 then [] else b ∷ [])
  | c ∷ cs ↦ b ∷ c ∷ cs
]
