-- ===== src/Tests/Digests.antt =====
-- The theorems on hexadecimal digests, on concrete ones.
use taphonomy.Prelude.{ℕ, List, ok, length, replicate, Bytes, ◌*◌, ◌≡◌, refl}
use taphonomy.Hash.{digest_len, to_hex, from_hex, parse_pairs, shift_in, nibble}
use taphonomy.Hash.Hex.{lowered, from_hex-to_hex, from_hex-ok}
use taphonomy.Tests.Sectors.{are_bytes-Bytes}

abbrev digest : List ℕ
digest = replicate 32 0xAB

-- "A", sixty-four times
abbrev upper_text : List ℕ
upper_text = replicate 64 0x41

abbrev parsed : List ℕ
parsed = replicate 32 0xAA

parses : from_hex upper_text ≡ ok parsed
unfolding from_hex parse_pairs shift_in nibble
parses = refl

from_hex-to_hex_example : from_hex (to_hex digest) ≡ ok digest
from_hex-to_hex_example = from_hex-to_hex digest refl (are_bytes-Bytes digest refl)

from_hex-ok_example :
    (length upper_text ≡ digest_len * 2)
    × (length parsed ≡ digest_len)
    × Bytes parsed
    × (to_hex parsed ≡ lowered upper_text)
from_hex-ok_example = from_hex-ok upper_text parsed parses
