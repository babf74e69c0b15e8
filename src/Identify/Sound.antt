-- ===== src/Identify/Sound.antt =====
-- src/filesystem.rs `identify`: what its answer is about.
use taphonomy.Prelude.{
  ℕ, ◌≤◌, ◌<◌, Option, none, some, List, ltb, ◌==◌, bytes_eq-cases, ltb→le, length, byte, slice,
  Bytes, arith, ◌≡◌, ◌⊎◌, inl, inr, Bool-cases, Result-cases, ◌&&◌, not,
}
use taphonomy.Filesystem.{
  vbr_size, off_jump, off_oem, off_signature, signature, Filesystem, fat12, fat16, fat32, exfat,
  ntfs, FatGeometry, Observation, identified,
}
use taphonomy.Fat.{
  read_bpb, read_geometry, variant, identify_fat, fat12_max_clusters, fat16_max_clusters,
}
use taphonomy.Fat.Geometry.{IsGeometry, read_geometry-IsGeometry}
use taphonomy.Identify.{exfat_oem, ntfs_oem, identify_oem, identify}

-- The cluster counts that the specification gives each FAT variant.
abbrev pub CountOf : Filesystem → ℕ → Type 0
CountOf fat12 n = n < fat12_max_clusters
CountOf fat16 n = (fat12_max_clusters ≤ n) × (n < fat16_max_clusters)
CountOf fat32 n = fat16_max_clusters ≤ n
CountOf exfat n = ⊥
CountOf ntfs n = ⊥

variant-CountOf : (n : ℕ) → CountOf (variant n) n
unfolding variant
variant-CountOf n = elim (Bool-cases (ltb n fat12_max_clusters)) [
  | inl e ↦ rw e (ground arith)
  | inr e ↦ elim (Bool-cases (ltb n fat16_max_clusters)) [
    | inl f ↦ rw (e, f) (ground arith)
    | inr f ↦ rw (e, f) (ground arith)
  ]
]

-- What an identification says: a FAT volume comes with a sound geometry whose cluster count is its
-- variant's; exFAT and NTFS come without one, and the record's name field is theirs.
abbrev pub Establishes : List ℕ → Filesystem → Option FatGeometry → Type 0
Establishes sector fs (some g) = IsGeometry g × CountOf fs g.cluster_count
Establishes sector fs none =
    (fs ≡ exfat) × (slice sector off_oem 8 ≡ exfat_oem)
    ⊎ (fs ≡ ntfs) × (slice sector off_oem 8 ≡ ntfs_oem)

module _ (sector : List ℕ) (bytes : Bytes sector) (fs : Filesystem) (geometry : Option FatGeometry)
    (oem : Option (List ℕ)) (obs : List Observation) where
  identify_fat-Establishes :
      (name : Option (List ℕ)) (before : List Observation)
      → identify_fat sector name before ≡ identified fs geometry oem obs
      → Establishes sector fs geometry
  unfolding identify_fat
  identify_fat-Establishes name before h = elim (Result-cases (read_geometry (read_bpb sector))) [
    | inl (g, e) ↦
        let h' = rw (e, identify_fat) at h in
        let same : geometry ≡ some g = cc in
        let fs_is : fs ≡ variant g.cluster_count = cc in
        rw (same, fs_is)
          (read_geometry-IsGeometry sector g bytes e, variant-CountOf g.cluster_count)
    | inr (x, e) ↦ let h' = rw (e, identify_fat) at h in cc
  ]

  identify_oem-Establishes :
      identify_oem sector (slice sector off_oem 8) ≡ identified fs geometry oem obs
      → Establishes sector fs geometry
  unfolding identify_oem
  identify_oem-Establishes h = elim (bytes_eq-cases (slice sector off_oem 8) exfat_oem) [
    | inl (e, is) ↦ let h' = rw e at h in let same : geometry ≡ none = cc in rw same (inl (cc, is))
    | inr (e, _) ↦ elim (bytes_eq-cases (slice sector off_oem 8) ntfs_oem) [
      | inl (f, is) ↦
          let h' = rw (e, f) at h in let same : geometry ≡ none = cc in rw same (inr (cc, is))
      | inr (f, _) ↦ identify_fat-Establishes _ _ (rw (e, f) at h)
    ]
  ]

  -- Whatever `identify` identifies, the record is long enough and signed, and the answer establishes
  -- what it says: a FAT volume has a sound geometry with its variant's cluster count, exFAT and NTFS
  -- have their name in the record.
  pub identify-Establishes :
      identify sector ≡ identified fs geometry oem obs
      → (vbr_size ≤ length sector)
        × (slice sector off_signature 2 ≡ signature)
        × Establishes sector fs geometry
  unfolding identify
  identify-Establishes h = elim (Bool-cases (ltb (length sector) vbr_size)) [
    | inl e ↦ let h' = rw e at h in cc
    | inr long ↦ elim (bytes_eq-cases (slice sector off_signature 2) signature) [
      | inr (e, _) ↦ let h' = rw (long, e) at h in cc
      | inl (e, signed) ↦
          elim (Bool-cases
            (not (byte sector off_jump == 0xEB) && not (byte sector off_jump == 0xE9))) [
              | inl f ↦ let h' = rw (long, e, f) at h in cc
              | inr f ↦ (
                ltb→le (length sector) vbr_size long,
                signed,
                identify_oem-Establishes (rw (long, e, f) at h),
              )
            ]
    ]
  ]
