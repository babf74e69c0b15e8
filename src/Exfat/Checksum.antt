-- ===== src/Exfat/Checksum.antt =====
-- src/exfat_boot.rs `boot_checksum` and `check_checksum`.
pub mod Detects
use taphonomy.Prelude.{
  ℕ, zero, suc, ◌+◌, ◌-◌, ◌*◌, ◌/◌, ◌%◌, ◌^◌, Bool, true, false, not, Option, none, some, List, [],
  ◌∷◌, ◌==◌, any, if◌then◌else◌, take, slice, le_u32, u32_mod,
}
use taphonomy.Exfat.Data.{
  checksum_sectors, checksum_skipped, ExFatError, checksum_mismatch, checksum_not_repeated,
}

-- `CHECKSUM_SKIPPED.contains(&index)`
unfoldable pub is_skipped : ℕ → Bool
is_skipped index = any (λ s. s == index) checksum_skipped

-- The sum rotated right by one bit, plus the byte, in `u32`.
unfoldable pub checksum_step : ℕ → ℕ → ℕ
checksum_step checksum b =
    (((if checksum % 2 == 1 then 0x8000_0000 else 0) + checksum / 2) % u32_mod + b) % u32_mod

-- The loop over the covered bytes.
unfoldable pub checksum_from : ℕ → ℕ → List ℕ → ℕ
checksum_from index checksum [] = checksum
checksum_from index checksum (b ∷ bs) =
    checksum_from (index + 1) (if is_skipped index then checksum else checksum_step checksum b) bs

unfoldable pub boot_checksum : List ℕ → ℕ → ℕ
boot_checksum region shift = checksum_from 0 0 (take (checksum_sectors * 2 ^ shift) region)

-- The loop over the words of the checksum sector: the first that differs.
unfoldable pub differing_word : List ℕ → ℕ → ℕ → ℕ → Option ℕ
differing_word sector stored zero word = none
differing_word sector stored (suc left) word =
    let rest = differing_word sector stored left (word + 1) in
    if not (le_u32 sector (word * 4) == stored) then some word else rest

unfoldable pub check_checksum : List ℕ → ℕ → ℕ → Option ExFatError
check_checksum region shift sector_bytes =
    let computed = boot_checksum region shift in
    let sector = slice region (checksum_sectors * sector_bytes) sector_bytes in
    let stored = le_u32 sector 0 in
    if not (computed == stored)
    then some (checksum_mismatch computed stored)
    else elim (differing_word sector stored (sector_bytes / 4 - 1) 1) [
      | some word ↦ some (checksum_not_repeated word)
      | none ↦ none
    ]
