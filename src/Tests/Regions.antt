-- ===== src/Tests/Regions.antt =====
-- An exFAT boot region of 512-byte sectors, and a disk that holds it at sector 2048.
use taphonomy.Prelude.{
  ℕ, zero, suc, ◌-◌, false, some, List, [], ◌∷◌, ◌++◌, Result, ok, length, drop, replicate,
  All-drop, IsByte, Bytes, arith, ◌≡◌, refl,
}
use taphonomy.Filesystem.{VolumeExtent}
use taphonomy.Evidence.{EvidenceReader}
use taphonomy.Exfat.Data.{main, ExFatBootSector}
use taphonomy.Tests.Sectors.{patch, are_bytes-Bytes}

abbrev boot_fields : List ℕ
boot_fields =
    0 ∷ 8 ∷ 0 ∷ 0 ∷ 0 ∷ 0 ∷ 0 ∷ 0 ∷ 0 ∷ 8 ∷ 0 ∷ 0 ∷ 0 ∷ 0 ∷ 0 ∷ 0 ∷ 0x18 ∷ 0 ∷ 0 ∷ 0 ∷ 0x10 ∷ 0 ∷ 0
    ∷ 0 ∷ 0x28 ∷ 0 ∷ 0 ∷ 0 ∷ 0xd8 ∷ 7 ∷ 0 ∷ 0 ∷ 4 ∷ 0 ∷ 0 ∷ 0 ∷ 0x78 ∷ 0x56 ∷ 0x34 ∷ 0x12 ∷ 0 ∷ 1
    ∷ 0 ∷ 0 ∷ 9 ∷ 0 ∷ 1 ∷ 0x80 ∷ 0xff ∷ []

abbrev boot_sector : List ℕ
boot_sector = patch 510 (0x55 ∷ 0xAA ∷ []) (
    patch 64 boot_fields (
      patch 0 (0xeb ∷ 0x76 ∷ 0x90 ∷ 0x45 ∷ 0x58 ∷ 0x46 ∷ 0x41 ∷ 0x54 ∷ 0x20 ∷ 0x20 ∷ 0x20 ∷ [])
        (replicate 512 0)))

abbrev words : ℕ → List ℕ
words zero = []
words (suc n) = 0xed ∷ 0xd2 ∷ 0x99 ∷ 0x12 ∷ words n

abbrev pub exfat_region : List ℕ
exfat_region = boot_sector ++ (replicate 5120 0 ++ words 128)

pub exfat_region-Bytes : Bytes exfat_region
exfat_region-Bytes = are_bytes-Bytes exfat_region refl

abbrev fit : ℕ → List ℕ → List ℕ
fit zero xs = []
fit (suc n) [] = 0 ∷ fit n []
fit (suc n) (x ∷ xs) = x ∷ fit n xs

fit-filled : (n : ℕ) (xs : List ℕ) → Bytes xs → (length (fit n xs) ≡ n) × Bytes (fit n xs)
fit-filled zero xs h = (omega arith, tt)
fit-filled (suc n) [] h =
    let (long, bytes) = fit-filled n [] tt in (omega arith, (omega arith, bytes))
fit-filled (suc n) (x ∷ xs) (hx, h) =
    let (long, bytes) = fit-filled n xs h in (omega arith, (hx, bytes))

abbrev read_exfat : ℕ → ℕ → Result (Unit {0}) (List ℕ)
read_exfat offset n = ok (fit n (drop (offset - 1_048_576) exfat_region))

pub read_exfat-filled :
    (offset n : ℕ) (bs : List ℕ) → read_exfat offset n ≡ ok bs → (length bs ≡ n) × Bytes bs
read_exfat-filled offset n bs h =
    let same : fit n (drop (offset - 1_048_576) exfat_region) ≡ bs = cc in
    rw (← same) (
      fit-filled n (drop (offset - 1_048_576) exfat_region)
        (All-drop IsByte (offset - 1_048_576) exfat_region exfat_region-Bytes))

abbrev pub exfat_disk : EvidenceReader (Unit {0})
exfat_disk = record { read_exact_at = read_exfat; filled = read_exfat-filled }

abbrev pub exfat_extent : VolumeExtent
exfat_extent = record { start_lba = 2048; sector_count = 2048 }

abbrev pub exfat_boot : ExFatBootSector
exfat_boot = record {
  region = main;
  bytes_per_sector_shift = 9;
  sectors_per_cluster_shift = 0;
  volume_length = 2048;
  fat_offset = 24;
  fat_length = 16;
  cluster_heap_offset = 40;
  cluster_count = 2008;
  root_cluster = 4;
  volume_serial = 0x1234_5678;
  revision_minor = 0;
  volume_flags = some 0;
  percent_in_use = some 0xFF;
  observations = [];
  located_by_search = false;
}
