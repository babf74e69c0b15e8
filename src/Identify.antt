-- ===== src/Identify.antt =====
-- src/filesystem.rs `identify`: which filesystem a volume boot record holds.
pub mod Sound
use taphonomy.Prelude.{
  ℕ, Bool, true, false, ◌&&◌, not, Option, none, some, List, [], ◌∷◌, ltb, ◌==◌, if◌then◌else◌,
  bytes_eq, length, byte, slice,
}
use taphonomy.Filesystem.{
  vbr_size, off_jump, off_oem, off_signature, signature, Filesystem, exfat, ntfs, short_sector,
  no_signature, no_jump_instruction, Observation, unprintable_oem_name, Identification, identified,
  unknown, printable_ascii,
}
use taphonomy.Fat.{identify_fat}

-- "EXFAT   " and "NTFS    "
abbrev pub exfat_oem : List ℕ
exfat_oem = 0x45 ∷ 0x58 ∷ 0x46 ∷ 0x41 ∷ 0x54 ∷ 0x20 ∷ 0x20 ∷ 0x20 ∷ []

abbrev pub ntfs_oem : List ℕ
ntfs_oem = 0x4E ∷ 0x54 ∷ 0x46 ∷ 0x53 ∷ 0x20 ∷ 0x20 ∷ 0x20 ∷ 0x20 ∷ []

unfoldable pub oem_observations : Option (List ℕ) → List Observation
oem_observations none = unprintable_oem_name ∷ []
oem_observations (some name) = []

unfoldable pub identify_oem : List ℕ → List ℕ → Identification
identify_oem sector oem =
    let oem_name = printable_ascii oem in
    let observations = oem_observations oem_name in
    if bytes_eq oem exfat_oem
    then identified exfat none oem_name observations
    else if bytes_eq oem ntfs_oem
    then identified ntfs none oem_name observations
    else identify_fat sector oem_name observations

unfoldable pub identify : List ℕ → Identification
identify sector =
    if ltb (length sector) vbr_size
    then unknown (short_sector (length sector))
    else if not (bytes_eq (slice sector off_signature 2) signature)
    then unknown (no_signature (slice sector off_signature 2))
    else if not (byte sector off_jump == 0xEB) && not (byte sector off_jump == 0xE9)
    then unknown (no_jump_instruction (byte sector off_jump))
    else identify_oem sector (slice sector off_oem 8)
