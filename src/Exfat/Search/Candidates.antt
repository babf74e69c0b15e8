-- ===== src/Exfat/Search/Candidates.antt =====
-- src/exfat_boot.rs `search_backup`: the candidates that its loop collects.
use taphonomy.Prelude.{
  ℕ, zero, suc, ◌+◌, ◌*◌, ◌^◌, ◌≤◌, ◌<◌, true, false, ◌||◌, Option, none, some, List, [], ◌∷◌, ◌++◌,
  Result, ok, err, >>=-eq-ok, map_err-eq-ok, map_err, ltb, ◌==◌, byte, All, All-append, Member,
  Member-append_left, Member-append_right, arith, ◌≡◌, refl, sym, ap, ◌∙◌, ◌⊎◌, inl, inr,
  Bool-cases, Option-cases, ==→≡,
}
use taphonomy.Filesystem.{VolumeExtent}
use taphonomy.Evidence.{EvidenceReader}
use taphonomy.Exfat.Data.{
  region_sectors, off_bytes_per_sector_shift, backup, ExFatBootSector, ExFatError, unreadable,
}
use taphonomy.Exfat.Region.{validate_region}
use taphonomy.Exfat.Search.{
  Candidate, candidate_of, is_tex_fat, shift_of, volume_start, available, try_shift, try_shifts,
  is_skip,
}

abbrev boot_of_candidate : Candidate → Option ExFatBootSector
boot_of_candidate c = c.boot

candidate_of-valid :
    (shift : ℕ) (r : Result ExFatError ExFatBootSector) (c : Candidate)
    → candidate_of shift r ≡ some c
    → (c.shift ≡ shift)
      × ((boot : ExFatBootSector)
          → c.boot ≡ some boot
          → (found : ExFatBootSector) × (r ≡ ok found)
            × (boot ≡ record found { located_by_search = true }))
unfolding candidate_of
candidate_of-valid shift (ok found) c h =
    let same : c
        ≡ record { shift = shift; boot = some (record found { located_by_search = true }) } =
      cc in
    (ap shift_of same, λ boot e. (found, refl, cc (sym e ∙ ap boot_of_candidate same)))
candidate_of-valid shift (err e) c h = elim (Bool-cases (is_tex_fat e)) [
  | inr other ↦ let h' = rw (other, candidate_of) at h in cc
  | inl two ↦
      let h' = rw (two, candidate_of) at h in
      let same : c ≡ record { shift = shift; boot = none } = cc in
      (ap shift_of same, λ boot e. let no_boot = sym e ∙ ap boot_of_candidate same in cc)
]

module _ {E : Type 0} (reader : EvidenceReader E) (extent : VolumeExtent) where
  abbrev pub region_size : ℕ → ℕ
  region_size shift = region_sectors * 2 ^ shift

  -- A region of that sector size, that many bytes into the volume, which lies inside the partition.
  pub record ReadAt (offset shift : ℕ) (region : List ℕ) : Type 0 where
    pub bytes :
        reader.read_exact_at (volume_start reader extent + offset) (region_size shift) ≡ ok region
    pub inside : offset + region_size shift ≤ available reader extent

  -- What a candidate is.
  pub record IsCandidate (c : Candidate) : Type 0 where
    pub region : List ℕ
    pub at : ReadAt (region_size c.shift) c.shift region
    pub own : byte region off_bytes_per_sector_shift ≡ c.shift
    pub valid :
        (boot : ExFatBootSector)
        → c.boot ≡ some boot
        → (found : ExFatBootSector) × (validate_region region backup extent ≡ ok found)
          × (boot ≡ record found { located_by_search = true })

  twice_inside :
      (skip : Option ℕ) (shift : ℕ)
      → (is_skip shift skip || ltb (available reader extent) (2 * region_size shift)) ≡ false
      → region_size shift + region_size shift ≤ available reader extent
  twice_inside skip shift h = grind arith

  try_shift-IsCandidate :
      (skip : Option ℕ) (shift : ℕ) (c : Candidate)
      → try_shift reader extent skip shift ≡ ok (some c)
      → IsCandidate c
  unfolding try_shift
  try_shift-IsCandidate skip shift c h =
      elim (Bool-cases
        (is_skip shift skip || ltb (available reader extent) (2 * region_size shift))) [
          | inl out ↦ let h' = rw (out, try_shift) at h in cc
          | inr inside ↦
              let (region, is, h1) =
                >>=-eq-ok
                  (map_err unreadable (
                    reader.read_exact_at (volume_start reader extent + region_size shift)
                      (region_size shift)))
                  _ (rw (inside, try_shift) at h) in
              elim (Bool-cases (byte region off_bytes_per_sector_shift == shift)) [
                | inr other ↦ let h' = rw other at h1 in cc
                | inl own ↦
                    let h2 = rw own at h1 in
                    let (same, valid) =
                      candidate_of-valid shift (validate_region region backup extent) c (cc) in
                    rw same (record {
                      region = region;
                      at = record {
                        bytes = map_err-eq-ok unreadable _ is;
                        inside = twice_inside skip shift inside;
                      };
                      own = ==→≡ _ shift own;
                      valid = valid;
                    })
              ]
        ]

  pub try_shifts-IsCandidate :
      (skip : Option ℕ) (left shift : ℕ) (passed out : List Candidate)
      → All IsCandidate passed
      → try_shifts reader extent skip left shift passed ≡ ok out
      → All IsCandidate out
  unfolding try_shifts
  try_shifts-IsCandidate skip zero shift passed out h run =
      let same : out ≡ passed = cc in rw same h
  try_shifts-IsCandidate skip (suc left) shift passed out h run =
      let (found, tried, run') = >>=-eq-ok (try_shift reader extent skip shift) _ run in
      elim (Option-cases found) [
        | inl nothing ↦
            try_shifts-IsCandidate skip left (shift + 1) passed out h (rw nothing at run')
        | inr (c, is) ↦
            let new = try_shift-IsCandidate skip shift c (rw is at tried) in
            try_shifts-IsCandidate skip left (shift + 1) (passed ++ (c ∷ [])) out
              (All-append IsCandidate passed (c ∷ []) h (new, tt)) (rw is at run')
      ]

  -- Every candidate that passes is among those returned.
  pub try_shifts-Member :
      (skip : Option ℕ) (left shift : ℕ) (passed out : List Candidate) (c : Candidate)
      → try_shifts reader extent skip left shift passed ≡ ok out
      → Member c passed
        ⊎ ((k : ℕ) × (k < left) × (try_shift reader extent skip (shift + k) ≡ ok (some c)))
      → Member c out
  unfolding try_shifts
  try_shifts-Member skip zero shift passed out c run (inl m) =
      let same : out ≡ passed = cc in rw same m
  try_shifts-Member skip zero shift passed out c run (inr (k, lt, e)) = absurd (omega arith)
  try_shifts-Member skip (suc left) shift passed out c run m =
      let (found, tried, run') = >>=-eq-ok (try_shift reader extent skip shift) _ run in
      elim (Option-cases found) [
        | inl nothing ↦
            try_shifts-Member skip left (shift + 1) passed out c (rw nothing at run')
              (later passed (λ old. old) (λ e. let e' = rw nothing at tried in cc) m)
        | inr (d, is) ↦
            try_shifts-Member skip left (shift + 1) (passed ++ (d ∷ [])) out c (rw is at run') (
              later (passed ++ (d ∷ [])) (λ old. Member-append_left c passed (d ∷ []) old)
                (λ e.
                  let same : c ≡ d = cc (sym e ∙ rw is at tried) in
                  Member-append_right c passed (d ∷ []) (inl same))
                m)
      ]
    where
      later :
          (now : List Candidate)
          → (Member c passed → Member c now)
          → (try_shift reader extent skip shift ≡ ok (some c) → Member c now)
          → Member c passed
            ⊎ ((k : ℕ) × (k < suc left) × (try_shift reader extent skip (shift + k) ≡ ok (some c)))
          → Member c now
            ⊎ ((k : ℕ) × (k < left) × (try_shift reader extent skip (shift + 1 + k) ≡ ok (some c)))
      later now keep here (inl old) = inl (keep old)
      later now keep here (inr (zero, lt, e)) =
          let at : shift + 0 ≡ shift = omega arith in inl (here (rw at at e))
      later now keep here (inr (suc k, lt, e)) =
          let at : shift + suc k ≡ shift + 1 + k = omega arith in inr (k, omega arith, rw at at e)
