-- ===== src/Exfat/Search.antt =====
-- src/exfat_boot.rs `parse_boot_region` and `search_backup`: which of the two regions is used.
pub mod Candidates
pub mod Located
use taphonomy.Prelude.{
  ℕ, zero, suc, ◌+◌, ◌*◌, ◌^◌, Bool, true, false, not, ◌||◌, Option, none, some, List, [], ◌∷◌,
  ◌++◌, map, Result, ok, err, ◌>>=◌, map_err, ltb, ◌==◌, if◌then◌else◌, byte,
}
use taphonomy.Partition.{sector_size}
use taphonomy.Filesystem.{VolumeExtent}
use taphonomy.Evidence.{EvidenceReader}
use taphonomy.Exfat.Data.{
  region_sectors, off_bytes_per_sector_shift, BootRegion, main, backup, ExFatBootSector, ExFatError,
  region_outside_partition, backup_not_located, bad_bytes_per_sector_shift, tex_fat,
  ExFatBootFailure, unreadable, failed_tex_fat, rejected, ambiguous_backup,
}
use taphonomy.Exfat.Region.{shift_in_range, validate_region}

-- A sector size at which the backup validates, with the boot sector or, for two FATs, without.
pub record Candidate : Type 0 where
  pub shift : ℕ
  pub boot : Option ExFatBootSector

-- `Some(shift) == skip`
unfoldable pub is_skip : ℕ → Option ℕ → Bool
is_skip shift none = false
is_skip shift (some tried) = shift == tried

unfoldable pub is_tex_fat : ExFatError → Bool
is_tex_fat tex_fat = true
is_tex_fat _ = false

-- The match on a candidate's validation.
unfoldable pub candidate_of : ℕ → Result ExFatError ExFatBootSector → Option Candidate
candidate_of shift (ok boot) =
    some (record { shift = shift; boot = some (record boot { located_by_search = true }) })
candidate_of shift (err e) =
    if is_tex_fat e then some (record { shift = shift; boot = none }) else none

abbrev pub shift_of : Candidate → ℕ
shift_of c = c.shift

module _ {E : Type 0} (reader : EvidenceReader E) (extent : VolumeExtent) where
  unfoldable pub volume_start : ℕ
  volume_start = extent.start_lba * sector_size

  unfoldable pub available : ℕ
  available = extent.sector_count * sector_size

  -- One round of the search: nothing, or the candidate.
  unfoldable pub try_shift : Option ℕ → ℕ → Result (ExFatBootFailure E) (Option Candidate)
  try_shift skip shift =
      let region_bytes = region_sectors * 2 ^ shift in
      if is_skip shift skip || ltb available (2 * region_bytes) then ok none else do
        region ←
            map_err unreadable (reader.read_exact_at (volume_start + region_bytes) region_bytes)
        if not (byte region off_bytes_per_sector_shift == shift)
            then ok none
            else ok (candidate_of shift (validate_region region backup extent))

  -- The loop over the sector sizes, with the candidates that passed.
  unfoldable pub try_shifts :
      Option ℕ → ℕ → ℕ → List Candidate → Result (ExFatBootFailure E) (List Candidate)
  try_shifts skip zero shift passed = ok passed
  try_shifts skip (suc left) shift passed = do
    found ← try_shift skip shift
    elim found [
      | none ↦ try_shifts skip left (shift + 1) passed
      | some c ↦ try_shifts skip left (shift + 1) (passed ++ (c ∷ []))
    ]

  -- The match on how many candidates passed.
  unfoldable pub choose :
      List Candidate → ExFatError → ExFatError → Result (ExFatBootFailure E) ExFatBootSector
  choose [] main_error backup_error = err (rejected main_error backup_error)
  choose (c ∷ []) main_error backup_error = elim c.boot [
    | some boot ↦ ok boot
    | none ↦ err (failed_tex_fat backup)
  ]
  choose (c ∷ d ∷ cs) main_error backup_error = err (ambiguous_backup (map shift_of (c ∷ d ∷ cs)))

  unfoldable pub search_backup :
      Option ℕ → ExFatError → ExFatError → Result (ExFatBootFailure E) ExFatBootSector
  search_backup skip main_error backup_error = do
    passed ← try_shifts skip 4 9 []
    choose passed main_error backup_error

  unfoldable pub read_and_validate :
      ℕ → ℕ → BootRegion → Result (ExFatBootFailure E) (Result ExFatError ExFatBootSector)
  read_and_validate region_offset region_bytes which =
      if ltb available (region_offset + region_bytes)
      then ok (err (region_outside_partition (region_offset + region_bytes) available))
      else do
        region ←
            map_err unreadable (reader.read_exact_at (volume_start + region_offset) region_bytes)
        ok (validate_region region which extent)

  -- The match on the backup's result.
  unfoldable pub settle_backup :
      ℕ
      → ExFatError
      → Result ExFatError ExFatBootSector
      → Result (ExFatBootFailure E) ExFatBootSector
  settle_backup shift main_error (ok boot) = ok boot
  settle_backup shift main_error (err e) =
      if is_tex_fat e then err (failed_tex_fat backup) else search_backup (some shift) main_error e

  -- The match on the main region's result.
  unfoldable pub settle_main :
      ℕ → Result ExFatError ExFatBootSector → Result (ExFatBootFailure E) ExFatBootSector
  settle_main shift (ok boot) = ok boot
  settle_main shift (err e) = if is_tex_fat e then err (failed_tex_fat main) else do
    second ← read_and_validate (region_sectors * 2 ^ shift) (region_sectors * 2 ^ shift) backup
    settle_backup shift e second

  -- From the first sector on.
  unfoldable pub parse_from_head : List ℕ → Result (ExFatBootFailure E) ExFatBootSector
  parse_from_head head =
      let shift = byte head off_bytes_per_sector_shift in
      if not (shift_in_range shift)
      then search_backup none (bad_bytes_per_sector_shift shift) backup_not_located
      else do first ← read_and_validate 0 (region_sectors * 2 ^ shift) main; settle_main shift first

  unfoldable pub refused_everywhere : ExFatError → ExFatBootFailure E
  refused_everywhere e = rejected e e

  unfoldable pub parse_boot_region : Result (ExFatBootFailure E) ExFatBootSector
  parse_boot_region =
      if ltb available sector_size
      then err (refused_everywhere (region_outside_partition sector_size available))
      else do
        head ← map_err unreadable (reader.read_exact_at volume_start sector_size)
        parse_from_head head
