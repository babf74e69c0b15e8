-- ===== src/Hash/Hex.antt =====
-- src/hash.rs: printing and parsing of hexadecimal digests.
use taphonomy.Prelude.{
  ℕ, ◌+◌, ◌-◌, ◌*◌, ◌/◌, ◌%◌, ◌<◌, true, ◌&&◌, some, List, [], ◌∷◌, ok, >>=-eq-ok, leb, ◌==◌,
  if◌then◌else◌, length, Bytes, arith, ◌≡◌, refl, ap, ◌∙◌, inl, inr, Bool-cases, Option-cases, ==→≡,
}
use taphonomy.Hash.{digest_len, hex_digit, to_hex, nibble, shift_in, parse_pairs, from_hex}

-- A letter from A to F in lower case.
abbrev pub lower : ℕ → ℕ
lower b = if leb 0x41 b && leb b 0x46 then b + 32 else b

abbrev pub lowered : List ℕ → List ℕ
lowered [] = []
lowered (b ∷ bs) = lower b ∷ lowered bs

length-lowered : (text : List ℕ) → length (lowered text) ≡ length text
length-lowered [] = refl
length-lowered (b ∷ bs) = omega (arith, length-lowered bs)

nibble-hex_digit : (n : ℕ) → n < 16 → nibble (hex_digit n) ≡ some n
unfolding nibble hex_digit
nibble-hex_digit n h = ground arith

hex_digit-nibble : (b n : ℕ) → nibble b ≡ some n → (n < 16) × (hex_digit n ≡ lower b)
unfolding nibble hex_digit
hex_digit-nibble b n h = ground arith

length-to_hex : (bs : List ℕ) → length (to_hex bs) ≡ length bs * 2
unfolding to_hex
length-to_hex [] = omega arith
length-to_hex (b ∷ bs) = omega (arith, length-to_hex bs)

shift_in-hex_digit :
    (position value n : ℕ)
    → n < 16
    → shift_in position value (hex_digit n) ≡ ok (value * 16 % 256 + n)
unfolding shift_in
shift_in-hex_digit position value n h = rw (nibble-hex_digit n h, shift_in) refl

halves : (b : ℕ) → b < 256 → (0 * 16 % 256 + b / 16) * 16 % 256 + b % 16 ≡ b
halves b h = omega arith

parse_pairs-to_hex : (index : ℕ) (bs : List ℕ) → Bytes bs → parse_pairs index (to_hex bs) ≡ ok bs
unfolding parse_pairs to_hex
parse_pairs-to_hex index [] h = refl
parse_pairs-to_hex index (b ∷ bs) (hb, h) =
    rw
      (
        shift_in-hex_digit (index * 2) 0 (b / 16) (omega arith),
        shift_in-hex_digit (index * 2 + 1) (0 * 16 % 256 + b / 16) (b % 16) (omega arith),
        parse_pairs-to_hex (index + 1) bs h,
        halves b hb,
      )
      refl

-- Parsing what is printed of a digest gives the digest.
pub from_hex-to_hex :
    (bs : List ℕ) → length bs ≡ digest_len → Bytes bs → from_hex (to_hex bs) ≡ ok bs
unfolding from_hex
from_hex-to_hex bs long h =
    let size : (length (to_hex bs) == digest_len * 2) ≡ true = grind (arith, length-to_hex bs) in
    rw (size, from_hex) (parse_pairs-to_hex 0 bs h)

shift_in-eq-ok :
    (position value character v : ℕ)
    → shift_in position value character ≡ ok v
    → (n : ℕ) × (n < 16) × (hex_digit n ≡ lower character) × (v ≡ value * 16 % 256 + n)
unfolding shift_in
shift_in-eq-ok position value character v h = elim (Option-cases (nibble character)) [
  | inl e ↦ let h' = rw (e, shift_in) at h in cc
  | inr (n, e) ↦
      let h' = rw (e, shift_in) at h in
      let (small, digit) = hex_digit-nibble character n e in (n, small, digit, cc)
]

-- What a successful parse returns.
record Parsed (text bs : List ℕ) : Type 0 where
  bytes : Bytes bs
  printed : to_hex bs ≡ lowered text

parse_pairs-Parsed :
    (index pairs : ℕ) (text bs : List ℕ)
    → length text ≡ pairs * 2
    → parse_pairs index text ≡ ok bs
    → Parsed text bs
unfolding parse_pairs to_hex
parse_pairs-Parsed index pairs [] bs even h =
    let same : bs ≡ [] = cc in rw same (record { bytes = tt; printed = refl })
parse_pairs-Parsed index pairs (last ∷ []) bs even h = absurd (omega arith)
parse_pairs-Parsed index pairs (high ∷ low ∷ rest) bs even h =
    let (upper, at_high, h1) = >>=-eq-ok (shift_in (index * 2) 0 high) _ h in
    let (value, at_low, h2) = >>=-eq-ok (shift_in (index * 2 + 1) upper low) _ h1 in
    let (others, found, h3) = >>=-eq-ok (parse_pairs (index + 1) rest) _ h2 in
    let same : bs ≡ value ∷ others = cc in
    let (n, small_n, digit_n, upper_is) = shift_in-eq-ok (index * 2) 0 high upper at_high in
    let (k, small_k, digit_k, value_is) = shift_in-eq-ok (index * 2 + 1) upper low value at_low in
    let ih = parse_pairs-Parsed (index + 1) (pairs - 1) rest others (omega arith) found in
    let is_high : value / 16 ≡ n = omega arith in
    let is_low : value % 16 ≡ k = omega arith in
    let small : value < 256 = omega arith in
    rw same (record {
      bytes = (small, ih.bytes);
      printed = rw (is_high, is_low, digit_n, digit_k, ih.printed) refl;
    })

-- A text that parses is 64 characters long; its digest is 32 bytes, and printed it is the text in
-- lower case.
pub from_hex-ok :
    (text bs : List ℕ)
    → from_hex text ≡ ok bs
    → (length text ≡ digest_len * 2)
      × (length bs ≡ digest_len)
      × Bytes bs
      × (to_hex bs ≡ lowered text)
unfolding from_hex
from_hex-ok text bs h = elim (Bool-cases (length text == digest_len * 2)) [
  | inr other ↦ let h' = rw (other, from_hex) at h in cc
  | inl fits ↦
      let long = ==→≡ (length text) (digest_len * 2) fits in
      let is = parse_pairs-Parsed 0 digest_len text bs long (rw (fits, from_hex) at h) in
      let same_length : length (to_hex bs) ≡ length text =
        ap length is.printed ∙ length-lowered text in
      (long, omega (arith, length-to_hex bs, same_length), is.bytes, is.printed)
]
