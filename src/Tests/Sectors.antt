-- ===== src/Tests/Sectors.antt =====
-- Sectors as lists of bytes: a record of zeros with fields written into it.
use taphonomy.Prelude.{
  ℕ, ◌+◌, Bool, true, List, [], ◌∷◌, ◌++◌, ltb, length, take, drop, replicate, all, Bytes, arith,
  ◌≡◌, ltb→lt,
}

-- Writes bytes at an offset.
abbrev pub patch : ℕ → List ℕ → List ℕ → List ℕ
patch at bs xs = take at xs ++ (bs ++ drop (at + length bs) xs)

abbrev zeros : List ℕ
zeros = replicate 512 0

abbrev signed : List ℕ
signed = patch 510 (0x55 ∷ 0xAA ∷ []) zeros

-- A bootable FAT32 partition of 70000 sectors at 2048.
abbrev first_entry : List ℕ
first_entry = 0x80 ∷ 0 ∷ 0 ∷ 0 ∷ 0x0C ∷ 0 ∷ 0 ∷ 0 ∷ 0 ∷ 8 ∷ 0 ∷ 0 ∷ 0x70 ∷ 0x11 ∷ 1 ∷ 0 ∷ []

-- An NTFS partition of 100 sectors at 3000, inside the first one.
abbrev nested_entry : List ℕ
nested_entry = 0 ∷ 0 ∷ 0 ∷ 0 ∷ 7 ∷ 0 ∷ 0 ∷ 0 ∷ 0xB8 ∷ 0x0B ∷ 0 ∷ 0 ∷ 100 ∷ 0 ∷ 0 ∷ 0 ∷ []

-- An NTFS partition of 100 sectors at 80000, behind the first one.
abbrev later_entry : List ℕ
later_entry = 0 ∷ 0 ∷ 0 ∷ 0 ∷ 7 ∷ 0 ∷ 0 ∷ 0 ∷ 0x80 ∷ 0x38 ∷ 1 ∷ 0 ∷ 100 ∷ 0 ∷ 0 ∷ 0 ∷ []

abbrev pub nested_table : List ℕ
nested_table = patch 446 (first_entry ++ nested_entry) signed

abbrev pub ordered_table : List ℕ
ordered_table = patch 446 (first_entry ++ later_entry) signed

abbrev pub unsigned_table : List ℕ
unsigned_table = patch 446 first_entry zeros

-- FAT32, 70000 sectors of 512 bytes, one sector per cluster, 32 reserved sectors, two FATs of 547
-- sectors, root cluster 2.
abbrev pub boot_record : List ℕ
boot_record = patch 0x52 (70 ∷ 65 ∷ 84 ∷ 51 ∷ 50 ∷ 32 ∷ 32 ∷ 32 ∷ []) (
    patch 0x42 (0x29 ∷ 1 ∷ 2 ∷ 3 ∷ 4 ∷ 75 ∷ 69 ∷ 89 ∷ 32 ∷ 32 ∷ 32 ∷ 32 ∷ 32 ∷ 32 ∷ 32 ∷ 32 ∷ []) (
      patch 0x1C
        (0 ∷ 8 ∷ 0 ∷ 0 ∷ 0x70 ∷ 0x11 ∷ 1 ∷ 0 ∷ 0x23 ∷ 2 ∷ 0 ∷ 0 ∷ 0 ∷ 0 ∷ 0 ∷ 0 ∷ 2 ∷ 0 ∷ 0 ∷ 0 ∷ 1
          ∷ 0 ∷ 6 ∷ 0 ∷ [])
        (patch 0
          (0xEB ∷ 0x58 ∷ 0x90 ∷ 77 ∷ 83 ∷ 68 ∷ 79 ∷ 83 ∷ 53 ∷ 46 ∷ 48 ∷ 0 ∷ 2 ∷ 1 ∷ 32 ∷ 0 ∷ 2 ∷ 0
            ∷ 0 ∷ 0 ∷ 0 ∷ 0xF8 ∷ [])
          signed)))

-- The bytes of a list that passes the test are bytes.
abbrev are_bytes : List ℕ → Bool
are_bytes bs = all (λ b. ltb b 256) bs

pub are_bytes-Bytes : (bs : List ℕ) → are_bytes bs ≡ true → Bytes bs
are_bytes-Bytes [] h = tt
are_bytes-Bytes (b ∷ bs) h =
    let parts : (ltb b 256 ≡ true) × (are_bytes bs ≡ true) = ground arith in
    (ltb→lt b 256 parts.0, are_bytes-Bytes bs parts.1)
