-- ===== src/Hash.antt =====
-- src/hash.rs: a digest in hexadecimal. The hasher is in Hash/Hasher.
-- A digest is its list of bytes, and text is its list of bytes.
pub mod Hex
pub mod Hasher
use taphonomy.Prelude.{
  ℕ, ◌+◌, ◌-◌, ◌*◌, ◌/◌, ◌%◌, Bool, true, false, ◌&&◌, not, Option, none, some, List, [], ◌∷◌,
  Result, ok, err, ◌>>=◌, ltb, leb, ◌==◌, if◌then◌else◌, length,
}

abbrev pub digest_len : ℕ
digest_len = 32

-- wrong_length: found; invalid_character: position
pub data DigestParseError : Type 0 where
  wrong_length : ℕ → DigestParseError
  invalid_character : ℕ → DigestParseError

-- The digit of a number below 16 that `{byte:02x}` prints.
unfoldable pub hex_digit : ℕ → ℕ
hex_digit n = if ltb n 10 then 0x30 + n else 0x57 + n

unfoldable pub to_hex : List ℕ → List ℕ
to_hex [] = []
to_hex (b ∷ bs) = hex_digit (b / 16) ∷ hex_digit (b % 16) ∷ to_hex bs

unfoldable pub nibble : ℕ → Option ℕ
nibble b =
    if leb 0x30 b && leb b 0x39
    then some (b - 0x30)
    else if leb 0x61 b && leb b 0x66
    then some (b - 0x61 + 10)
    else if leb 0x41 b && leb b 0x46
    then some (b - 0x41 + 10)
    else none

-- One round of the inner loop: `(value << 4) | n` on a `u8`, whose low four bits the shift has cleared.
unfoldable pub shift_in : ℕ → ℕ → ℕ → Result DigestParseError ℕ
shift_in position value character = elim (nibble character) [
  | none ↦ err (invalid_character position)
  | some n ↦ ok (value * 16 % 256 + n)
]

-- The loop over the pairs of characters. A last single character is no pair.
unfoldable pub parse_pairs : ℕ → List ℕ → Result DigestParseError (List ℕ)
parse_pairs index [] = ok []
parse_pairs index (last ∷ []) = ok []
parse_pairs index (high ∷ low ∷ rest) = do
  upper ← shift_in (index * 2) 0 high
  value ← shift_in (index * 2 + 1) upper low
  bytes ← parse_pairs (index + 1) rest
  ok (value ∷ bytes)

unfoldable pub from_hex : List ℕ → Result DigestParseError (List ℕ)
from_hex text =
    if not (length text == digest_len * 2)
    then err (wrong_length (length text))
    else parse_pairs 0 text
