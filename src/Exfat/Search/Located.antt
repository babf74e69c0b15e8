-- ===== src/Exfat/Search/Located.antt =====
-- src/exfat_boot.rs `parse_boot_region`: where the boot sector that it answers with was read.
use taphonomy.Prelude.{
  ◌-◌, ℕ, ◌+◌, ◌≤◌, ◌<◌, ltb→lt, map_err-eq-ok, ◌≢◌, false, true, Option, none, some, List, [], ◌∷◌,
  Result, ok, err, >>=-eq-ok, map_err, ltb, byte, Member, arith, ◌≡◌, refl, sym, ap, ◌∙◌, inl, inr,
  Bool-cases, Option-cases, Result-cases, ltb→le,
}
use taphonomy.Partition.{sector_size}
use taphonomy.Filesystem.{VolumeExtent}
use taphonomy.Evidence.{EvidenceReader}
use taphonomy.Exfat.Data.{
  off_bytes_per_sector_shift, BootRegion, main, backup, ExFatBootSector, ExFatError, tex_fat,
  bad_bytes_per_sector_shift, backup_not_located, unreadable,
}
use taphonomy.Exfat.Region.{shift_in_range, check_region, exfat_boot_of, validate_region}
use taphonomy.Exfat.Region.Sound.{IsExFat, validate_region-IsExFat}
use taphonomy.Exfat.Search.Candidates.{
  region_size, ReadAt, try_shifts-IsCandidate, try_shifts-Member,
}
use taphonomy.Exfat.Search.{
  Candidate, is_tex_fat, shift_of, volume_start, available, try_shift, try_shifts, choose,
  search_backup, read_and_validate, settle_backup, settle_main, parse_from_head, parse_boot_region,
}

-- The sector size that a first sector declares, as a power of two.
abbrev pub shift_in : List ℕ → ℕ
shift_in head = byte head 108

-- From 512 bytes to 4096.
abbrev pub IsShift : ℕ → Type 0
IsShift shift = (9 ≤ shift) × (shift ≤ 12)

shift_in_range-IsShift : (shift : ℕ) → shift_in_range shift ≡ true → IsShift shift
unfolding shift_in_range
shift_in_range-IsShift shift h = ground arith

shift_in_range-excludes : (shift : ℕ) → shift_in_range shift ≡ false → ¬ IsShift shift
unfolding shift_in_range
shift_in_range-excludes shift h (from, to) = ground arith

not_tex_fat : (e : ExFatError) → is_tex_fat e ≡ false → e ≢ tex_fat
unfolding is_tex_fat
not_tex_fat e h same = let h' = rw same at h in cc

module _ {E : Type 0} (reader : EvidenceReader E) (extent : VolumeExtent) where
  -- A region is refused: it does not lie inside the partition, or it is read and not valid, for another
  -- reason than two FATs.
  pub data Refused (offset shift : ℕ) (which : BootRegion) : Type 0 where
    outside :
        available reader extent < offset + region_size reader extent shift
        → Refused offset shift which
    invalid :
        (region : List ℕ) (e : ExFatError)
        → ReadAt reader extent offset shift region
        → validate_region region which extent ≡ err e
        → e ≢ tex_fat
        → Refused offset shift which

  -- When a search begins, and the sector size that it leaves out: the first sector declares none that can
  -- be used, or both regions are refused at the one it declares.
  pub data Searched (head : List ℕ) : Option ℕ → Type 0 where
    none_declared : ¬ IsShift (shift_in head) → Searched head none
    both_refused :
        IsShift (shift_in head)
        → Refused 0 (shift_in head) main
        → Refused (region_size reader extent (shift_in head)) (shift_in head) backup
        → Searched head (some (shift_in head))

  -- The three ways in which a boot sector is found, with the first sector of the volume: the main region,
  -- at the sector size that the first sector declares; the backup where that sector size puts it, the main
  -- region refused; the backup found by search, where its own sector size puts it.
  pub data Located (head : List ℕ) (b : ExFatBootSector) : Type 0 where
    in_main :
        (region : List ℕ)
        → IsShift (shift_in head)
        → ReadAt reader extent 0 (shift_in head) region
        → validate_region region main extent ≡ ok b
        → Located head b
    in_backup :
        (region : List ℕ)
        → IsShift (shift_in head)
        → Refused 0 (shift_in head) main
        → ReadAt reader extent (region_size reader extent (shift_in head)) (shift_in head) region
        → validate_region region backup extent ≡ ok b
        → Located head b
    by_search :
        (region : List ℕ) (found : ExFatBootSector)
        → ReadAt reader extent
            (region_size reader extent b.bytes_per_sector_shift)
            b.bytes_per_sector_shift
            region
        → validate_region region backup extent ≡ ok found
        → b ≡ record found { located_by_search = true }
        → (skip : Option ℕ) → Searched head skip
        → ((s : ℕ) (c : Candidate)
            → 9 ≤ s
            → s ≤ 12
            → try_shift reader extent skip s ≡ ok (some c)
            → c.shift ≡ b.bytes_per_sector_shift)
        → Located head b

  read_and_validate-ReadAt :
      (offset shift : ℕ) (which : BootRegion) (b : ExFatBootSector)
      → read_and_validate reader extent offset (region_size reader extent shift) which ≡ ok (ok b)
      → (region : List ℕ) × ReadAt reader extent offset shift region
        × (validate_region region which extent ≡ ok b)
  unfolding read_and_validate
  read_and_validate-ReadAt offset shift which b h =
      elim (Bool-cases (ltb (available reader extent) (offset + region_size reader extent shift))) [
        | inl out ↦ let h' = rw (out, read_and_validate) at h in cc
        | inr fits ↦
            elim (Result-cases (
              reader.read_exact_at (volume_start reader extent + offset)
                (region_size reader extent shift))) [
                  | inr (e, is) ↦ let h' = rw (fits, is, read_and_validate) at h in cc
                  | inl (region, is) ↦
                      let h' = rw (fits, is, read_and_validate) at h in
                      (region, record { bytes = is; inside = ltb→le _ _ fits }, cc)
                ]
      ]

  read_and_validate-Refused :
      (offset shift : ℕ) (which : BootRegion) (e : ExFatError)
      → read_and_validate reader extent offset (region_size reader extent shift) which ≡ ok (err e)
      → is_tex_fat e ≡ false
      → Refused offset shift which
  unfolding read_and_validate
  read_and_validate-Refused offset shift which e h other =
      elim (Bool-cases (ltb (available reader extent) (offset + region_size reader extent shift))) [
        | inl out ↦ outside (ltb→lt _ _ out)
        | inr fits ↦
            elim (Result-cases (
              reader.read_exact_at (volume_start reader extent + offset)
                (region_size reader extent shift))) [
                  | inr (f, is) ↦ let h' = rw (fits, is, read_and_validate) at h in cc
                  | inl (region, is) ↦
                      let h' = rw (fits, is, read_and_validate) at h in
                      let refused : validate_region region which extent ≡ err e = cc in
                      invalid region e (record { bytes = is; inside = ltb→le _ _ fits }) refused
                        (not_tex_fat e other)
                ]
      ]

  own_shift :
      (region : List ℕ) (which : BootRegion) (b : ExFatBootSector)
      → validate_region region which extent ≡ ok b
      → b.bytes_per_sector_shift ≡ byte region off_bytes_per_sector_shift
  unfolding validate_region exfat_boot_of
  own_shift region which b h = elim (Option-cases (check_region region which extent)) [
    | inr (e, is) ↦ let h' = rw (is, validate_region) at h in cc
    | inl is ↦
        let same : b ≡ exfat_boot_of region (byte region off_bytes_per_sector_shift) which extent =
          cc (rw (is, validate_region) at h) in
        rw same refl
  ]

  choose-one :
      (passed : List Candidate) (m s : ExFatError) (b : ExFatBootSector)
      → choose reader extent passed m s ≡ ok b
      → (c : Candidate) × (passed ≡ c ∷ []) × (c.boot ≡ some b)
  unfolding choose
  choose-one [] m s b h = cc
  choose-one (c ∷ []) m s b h = elim (Option-cases c.boot) [
    | inl is ↦ let h' = rw (is, choose) at h in cc
    | inr (boot, is) ↦ let h' = rw (is, choose) at h in (c, refl, is ∙ cc)
  ]
  choose-one (c ∷ d ∷ cs) m s b h = cc

  search_backup-Located :
      (head : List ℕ) (skip : Option ℕ) (m s : ExFatError) (b : ExFatBootSector)
      → Searched head skip
      → search_backup reader extent skip m s ≡ ok b
      → Located head b
  unfolding search_backup
  search_backup-Located head skip m s b searched h =
      let (passed, tried, h1) = >>=-eq-ok (try_shifts reader extent skip 4 9 []) _ h in
      let (c, one, boot) = choose-one passed m s b h1 in
      let is = (rw one at (try_shifts-IsCandidate reader extent skip 4 9 [] passed tt tried)).0 in
      let (found, valid, marked) = is.valid b boot in
      let same_shift : b.bytes_per_sector_shift ≡ c.shift =
        rw marked (own_shift is.region backup found valid ∙ is.own) in
      by_search is.region found (rw same_shift is.at) valid marked skip searched (λ t d from to e.
        let k : 9 + (t - 9) ≡ t = omega arith in
        let member =
          try_shifts-Member reader extent skip 4 9 [] passed d tried
            (inr (t - 9, omega arith, rw k e)) in
        only c d (rw one at member) ∙ sym same_shift)
    where
      only : (c d : Candidate) → Member d (c ∷ []) → d.shift ≡ c.shift
      only c d (inl e) = ap shift_of e
      only c d (inr m) = elim m [ ]

  settle_backup-Located :
      (head : List ℕ) (m : ExFatError) (r : Result ExFatError ExFatBootSector) (b : ExFatBootSector)
      → IsShift (shift_in head)
      → Refused 0 (shift_in head) main
      → read_and_validate reader extent
          (region_size reader extent (shift_in head))
          (region_size reader extent (shift_in head))
          backup
        ≡ ok r
      → settle_backup reader extent (shift_in head) m r ≡ ok b
      → Located head b
  unfolding settle_backup
  settle_backup-Located head m (ok boot) b usable first second h =
      let same : boot ≡ b = cc in
      let (region, at, valid) =
        read_and_validate-ReadAt (region_size reader extent (shift_in head)) (shift_in head) backup
          b (rw same at second) in
      in_backup region usable first at valid
  settle_backup-Located head m (err e) b usable first second h = elim (Bool-cases (is_tex_fat e)) [
    | inl two ↦ let h' = rw (two, settle_backup) at h in cc
    | inr other ↦
        let refused =
          read_and_validate-Refused (region_size reader extent (shift_in head)) (shift_in head)
            backup e second other in
        search_backup-Located head (some (shift_in head)) m e b (both_refused usable first refused)
          (rw (other, settle_backup) at h)
  ]

  settle_main-Located :
      (head : List ℕ) (r : Result ExFatError ExFatBootSector) (b : ExFatBootSector)
      → IsShift (shift_in head)
      → read_and_validate reader extent 0 (region_size reader extent (shift_in head)) main ≡ ok r
      → settle_main reader extent (shift_in head) r ≡ ok b
      → Located head b
  unfolding settle_main
  settle_main-Located head (ok boot) b usable first h =
      let same : boot ≡ b = cc in
      let (region, at, valid) =
        read_and_validate-ReadAt 0 (shift_in head) main b (rw same at first) in
      in_main region usable at valid
  settle_main-Located head (err e) b usable first h = elim (Bool-cases (is_tex_fat e)) [
    | inl two ↦ let h' = rw (two, settle_main) at h in cc
    | inr other ↦
        let (r, second, h1) =
          >>=-eq-ok
            (read_and_validate reader extent (region_size reader extent (shift_in head))
              (region_size reader extent (shift_in head)) backup)
            _ (rw (other, settle_main) at h) in
        settle_backup-Located head e r b usable
          (read_and_validate-Refused 0 (shift_in head) main e first other) second h1
  ]

  parse_from_head-Located :
      (head : List ℕ) (b : ExFatBootSector)
      → parse_from_head reader extent head ≡ ok b
      → Located head b
  unfolding parse_from_head
  parse_from_head-Located head b h = elim (Bool-cases (shift_in_range (shift_in head))) [
    | inr out ↦
        search_backup-Located head none (bad_bytes_per_sector_shift (shift_in head))
          backup_not_located b (none_declared (shift_in_range-excludes (shift_in head) out))
          (rw (out, parse_from_head) at h)
    | inl inside ↦
        let (r, first, h1) =
          >>=-eq-ok
            (read_and_validate reader extent 0 (region_size reader extent (shift_in head)) main) _
            (rw (inside, parse_from_head) at h) in
        settle_main-Located head r b (shift_in_range-IsShift (shift_in head) inside) first h1
  ]

  -- A boot sector that `parse_boot_region` answers with was read from a region inside the partition that
  -- `validate_region` accepts. Where the first sector of the volume declares a sector size from 512 to
  -- 4096, it is the main region at that sector size; or, that being refused, the backup where that sector
  -- size puts it. Where both are refused, or the first sector declares no such size, it is a backup found
  -- by search, which is marked as such, lies where its own sector size puts it, and is the only candidate
  -- that passes at the sector sizes tried.
  pub parse_boot_region-Located :
      (b : ExFatBootSector)
      → parse_boot_region reader extent ≡ ok b
      → (head : List ℕ) × (reader.read_exact_at (volume_start reader extent) sector_size ≡ ok head)
        × Located head b
  unfolding parse_boot_region
  parse_boot_region-Located b h = elim (Bool-cases (ltb (available reader extent) sector_size)) [
    | inl short ↦ let h' = rw (short, parse_boot_region) at h in cc
    | inr long ↦
        let (head, read, h1) =
          >>=-eq-ok
            (map_err unreadable (reader.read_exact_at (volume_start reader extent) sector_size)) _
            (rw (long, parse_boot_region) at h) in
        (
          head,
          map_err-eq-ok unreadable (reader.read_exact_at (volume_start reader extent) sector_size)
              read,
          parse_from_head-Located head b h1,
        )
  ]

  set_search :
      (found : ExFatBootSector)
      → IsExFat extent found
      → IsExFat extent (record found { located_by_search = true })
  set_search found is = record {
    sector_shift = is.sector_shift;
    cluster_limit = is.cluster_limit;
    consistent = is.consistent;
    volume_in_partition = is.volume_in_partition;
    heap_in_partition = is.heap_in_partition;
  }

  -- Wherever it was read, the boot sector that `parse_boot_region` answers with is sound.
  pub parse_boot_region-IsExFat :
      (b : ExFatBootSector) → parse_boot_region reader extent ≡ ok b → IsExFat extent b
  parse_boot_region-IsExFat b h = elim ((parse_boot_region-Located b h).2) [
    | in_main region usable at valid ↦ (validate_region-IsExFat region main extent b valid).0
    | in_backup region usable first at valid ↦
        (validate_region-IsExFat region backup extent b valid).0
    | by_search region found at valid marked skip searched alone ↦
        rw marked (set_search found (validate_region-IsExFat region backup extent found valid).0)
  ]
