-- ===== src/Directory/Name.antt =====
-- src/fat_directory.rs: the checksum of a short name, the first byte that deletion destroys, and the
-- rendering of 8.3 names. A name field is the list of its eleven bytes.
pub mod Recover
use taphonomy.Prelude.{
  ℕ, zero, suc, ◌+◌, ◌*◌, ◌/◌, ◌%◌, ◌^◌, Bool, true, false, ◌||◌, Option, none, some, List, [], ◌∷◌,
  ◌++◌, ◌==◌, if◌then◌else◌, all, is_printable, trim_spaces, take, drop, bit_and,
}

abbrev pub name_len : ℕ
name_len = 11

abbrev pub name_stem_len : ℕ
name_stem_len = 8

abbrev pub name_deleted : ℕ
name_deleted = 0xE5

abbrev pub name_terminator : ℕ
name_terminator = 0x00

abbrev pub name_escaped_e5 : ℕ
name_escaped_e5 = 0x05

-- One round: the sum rotated right by one bit, plus the byte, in `u8`.
unfoldable pub chksum_step : ℕ → ℕ → ℕ
chksum_step sum b = ((bit_and sum 1 * 2 ^ 7 % 256 + sum / 2) % 256 + b) % 256

unfoldable pub chksum_from : ℕ → List ℕ → ℕ
chksum_from sum [] = sum
chksum_from sum (b ∷ bs) = chksum_from (chksum_step sum b) bs

unfoldable pub chksum : List ℕ → ℕ
unfolding chksum_from
chksum name = chksum_from 0 name

-- The loop over the candidates that are left; a second match returns at once.
unfoldable pub try_candidates : ℕ → ℕ → List ℕ → ℕ → Option ℕ → Option ℕ
try_candidates zero candidate surviving checksum found = found
try_candidates (suc left) candidate surviving checksum found =
    let missed = try_candidates left (candidate + 1) surviving checksum found in
    let hit = try_candidates left (candidate + 1) surviving checksum (some candidate) in
    if chksum (candidate ∷ surviving) == checksum
    then elim found [ none ↦ hit | some _ ↦ none ]
    else missed

-- The final match, on what the loop found.
unfoldable pub plausible : Option ℕ → Option ℕ
plausible none = none
plausible (some b) = if b == name_terminator || b == name_deleted then none else some b

unfoldable pub recover_first_byte : List ℕ → ℕ → Option ℕ
unfolding plausible
recover_first_byte surviving checksum = plausible (try_candidates 256 0 surviving checksum none)

-- The escaped first byte stands for 0xE5, which is not printable.
unfoldable pub unescape : List ℕ → List ℕ
unescape [] = []
unescape (b ∷ bs) = (if b == name_escaped_e5 then name_deleted else b) ∷ bs

-- `STEM.EXT`, from a trimmed stem and a trimmed extension
unfoldable pub join : List ℕ → List ℕ → Option (List ℕ)
join [] ext = none
join (s ∷ stem) [] = some (s ∷ stem)
join (s ∷ stem) (e ∷ ext) = some ((s ∷ stem) ++ (0x2E ∷ e ∷ ext))

unfoldable pub short_name : List ℕ → Option (List ℕ)
unfolding unescape join trim_spaces
short_name raw =
    let bytes = unescape raw in
    if all is_printable bytes
    then join (trim_spaces (take name_stem_len bytes)) (trim_spaces (drop name_stem_len bytes))
    else none

unfoldable pub recovered_name : ℕ → List ℕ → Option (List ℕ)
unfolding short_name
recovered_name first surviving = short_name (first ∷ surviving)
