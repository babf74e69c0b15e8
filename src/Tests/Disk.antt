-- ===== src/Tests/Disk.antt =====
-- A disk: its one volume begins at sector 2048, the root directory is the chain 2, 3 of the FAT, and
-- its first slot is a deleted file of 700 bytes in the free clusters 5 and 6. The free cluster 7 begins
-- a deleted directory.
use taphonomy.Prelude.{
  ℕ, zero, suc, ◌+◌, ◌-◌, ◌<◌, true, false, List, [], ◌∷◌, Result, ok, if◌then◌else◌, ltb, byte,
  byte-lt, length, Bytes, arith, ◌≡◌, refl, inl, inr, Bool-cases, replicate, some,
}
use taphonomy.Filesystem.{VolumeExtent, FatGeometry}
use taphonomy.Fat32.{Fat32BootSector}
use taphonomy.Evidence.{EvidenceReader}
use taphonomy.Directory.Entry.{Entry, EntryKind, DeletedKind, deleted}
use taphonomy.Directory.Walk.{Directory}
use taphonomy.Directory.Deleted.{dot_name, dot_dot_name}
use taphonomy.Recovery.{ClusterRun, UnallocatedRun}
use taphonomy.Tests.Sectors.{are_bytes-Bytes}

-- Bytes at three places of an otherwise empty disk: the first FAT, cluster 2 and cluster 7.
abbrev held : List ℕ → List ℕ → List ℕ → ℕ → ℕ
held fat root dots offset =
    if ltb offset 1_625_088
    then byte fat (offset - 1_064_960)
    else if ltb offset 1_627_648
    then byte root (offset - 1_625_088)
    else byte dots (offset - 1_627_648)

abbrev read_held : List ℕ → List ℕ → List ℕ → ℕ → ℕ → List ℕ
read_held fat root dots offset zero = []
read_held fat root dots offset (suc n) =
    held fat root dots offset ∷ read_held fat root dots (offset + 1) n

abbrev fat : List ℕ
fat =
    0xF8 ∷ 0xFF ∷ 0xFF ∷ 0x0F ∷ 0xFF ∷ 0xFF ∷ 0xFF ∷ 0x0F ∷ 3 ∷ 0 ∷ 0 ∷ 0 ∷ 0xFF ∷ 0xFF ∷ 0xFF
    ∷ 0x0F ∷ []

abbrev root : List ℕ
root =
    0xE5 ∷ 69 ∷ 76 ∷ 76 ∷ 79 ∷ 32 ∷ 32 ∷ 32 ∷ 84 ∷ 88 ∷ 84 ∷ 0x20 ∷ 0 ∷ 0 ∷ 0 ∷ 0 ∷ 0 ∷ 0 ∷ 0 ∷ 0
    ∷ 0 ∷ 0 ∷ 0 ∷ 0 ∷ 0 ∷ 0 ∷ 5 ∷ 0 ∷ 0xBC ∷ 2 ∷ 0 ∷ 0 ∷ []

-- The entries "." at cluster 7 and "..".
abbrev dots : List ℕ
dots =
    0x2E ∷ 32 ∷ 32 ∷ 32 ∷ 32 ∷ 32 ∷ 32 ∷ 32 ∷ 32 ∷ 32 ∷ 32 ∷ 0x10 ∷ 0 ∷ 0 ∷ 0 ∷ 0 ∷ 0 ∷ 0 ∷ 0 ∷ 0
    ∷ 0 ∷ 0 ∷ 0 ∷ 0 ∷ 0 ∷ 0 ∷ 7 ∷ 0 ∷ 0 ∷ 0 ∷ 0 ∷ 0 ∷ 0x2E ∷ 0x2E ∷ 32 ∷ 32 ∷ 32 ∷ 32 ∷ 32 ∷ 32 ∷ 32
    ∷ 32 ∷ 32 ∷ 0x10 ∷ []

held-lt : (f r d : List ℕ) (offset : ℕ) → Bytes f → Bytes r → Bytes d → held f r d offset < 256
held-lt f r d offset hf hr hd = elim (Bool-cases (ltb offset 1_625_088)) [
  | inl low ↦ rw low (byte-lt f (offset - 1_064_960) hf)
  | inr high ↦ elim (Bool-cases (ltb offset 1_627_648)) [
    | inl mid ↦ rw (high, mid) (byte-lt r (offset - 1_625_088) hr)
    | inr top ↦ rw (high, top) (byte-lt d (offset - 1_627_648) hd)
  ]
]

read_held-filled :
    (f r d : List ℕ) (offset n : ℕ)
    → Bytes f
    → Bytes r
    → Bytes d
    → (length (read_held f r d offset n) ≡ n) × Bytes (read_held f r d offset n)
read_held-filled f r d offset zero hf hr hd = (omega arith, tt)
read_held-filled f r d offset (suc n) hf hr hd =
    let (long, rest) = read_held-filled f r d (offset + 1) n hf hr hd in
    (omega arith, (held-lt f r d offset hf hr hd, rest))

abbrev read_disk : ℕ → ℕ → Result (Unit {0}) (List ℕ)
read_disk offset n = ok (read_held fat root dots offset n)

pub read_disk-filled :
    (offset n : ℕ) (bs : List ℕ) → read_disk offset n ≡ ok bs → (length bs ≡ n) × Bytes bs
read_disk-filled offset n bs h =
    let same : read_held fat root dots offset n ≡ bs = cc in
    rw (← same) (
      read_held-filled fat root dots offset n (are_bytes-Bytes fat refl) (are_bytes-Bytes root refl)
        (are_bytes-Bytes dots refl))

abbrev pub disk : EvidenceReader (Unit {0})
disk = record { read_exact_at = read_disk; filled = read_disk-filled }

abbrev pub extent : VolumeExtent
extent = record { start_lba = 2048; sector_count = 70000 }

abbrev pub geometry : FatGeometry
geometry = record {
  bytes_per_sector = 512;
  sectors_per_cluster = 1;
  reserved_sectors = 32;
  fat_count = 2;
  root_entry_count = 0;
  total_sectors = 70000;
  media_descriptor = 0xF8;
  fat_size = 547;
  root_dir_sectors = 0;
  data_sectors = 68874;
  cluster_count = 68874;
}

abbrev pub boot : Fat32BootSector
boot = record {
  geometry = geometry;
  hidden_sectors = 2048;
  ext_flags = 0;
  root_cluster = 2;
  fs_info_sector = 1;
  backup_boot_sector = 6;
  volume_id = some 0x0403_0201;
  volume_label = some (75 ∷ 69 ∷ 89 ∷ []);
  observations = [];
}

abbrev pub lost_entry : Entry
lost_entry = record {
  cluster = 2;
  slot = 0;
  kind =
      deleted (
        DeletedKind.short_name (69 ∷ 76 ∷ 76 ∷ 79 ∷ 32 ∷ 32 ∷ 32 ∷ 84 ∷ 88 ∷ 84 ∷ []) false 5 700
          0);
}

abbrev pub root_listing : Directory
root_listing = record {
  entries = lost_entry ∷ [];
  residue = [];
  clusters = 2 ∷ 3 ∷ [];
  observations = [];
}

abbrev pub lost_run : ClusterRun
lost_run = record { first_cluster = 5; cluster_count = 2; file_size = 700; slack_bytes = 324 }

abbrev pub lost : UnallocatedRun
lost = record { inner = lost_run }

-- The content of the lost file, as it is written.
abbrev pub lost_content : List (List ℕ)
lost_content = replicate 512 0 ∷ replicate 188 0 ∷ []

abbrev pub lost_directory : Directory
lost_directory = record {
  entries =
      record {
        cluster = 7;
        slot = 0;
        kind = EntryKind.short_name (some (46 ∷ [])) dot_name true 7 0 0;
      }
      ∷ record {
        cluster = 7;
        slot = 1;
        kind = EntryKind.short_name (some (46 ∷ 46 ∷ [])) dot_dot_name true 0 0 0;
      }
      ∷ [];
  residue = [];
  clusters = 7 ∷ [];
  observations = [];
}
