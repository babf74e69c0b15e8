-- ===== src/Directory/Offsets.antt =====
-- src/fat_directory.rs: the errors of enumeration, the offsets of clusters and FAT entries, and the
-- reading of one FAT entry. `stuck` is no value of the source: it is what a loop of the model returns
-- when it runs out of fuel.
pub mod Layout
use taphonomy.Prelude.{
  ℕ, ◌+◌, ◌*◌, Option, none, some, List, Result, ok, err, ◌>>=◌, map_err, le_u32, bit_and,
  checked_add, checked_sub, checked_mul, u64_mod,
}
use taphonomy.Filesystem.{VolumeExtent}
use taphonomy.Fat.{first_data_cluster}
use taphonomy.Fat32.{Fat32BootSector, first_data_sector_absolute, fat32_entry_bytes}
use taphonomy.Evidence.{EvidenceReader}

abbrev pub fat_entry_mask : ℕ
fat_entry_mask = 0x0FFF_FFFF

abbrev pub fat_end_of_chain : ℕ
fat_end_of_chain = 0x0FFF_FFF8

abbrev pub fat_bad_cluster : ℕ
fat_bad_cluster = 0x0FFF_FFF7

abbrev pub max_entries : ℕ
max_entries = 65536

pub data DirectoryError (E : Type 0) : Type 0 where
  too_large : ℕ → DirectoryError E
  cyclic_chain : ℕ → DirectoryError E
  cluster_out_of_range : ℕ → ℕ → DirectoryError E
  bad_cluster : ℕ → DirectoryError E
  reserved_chain_link : ℕ → ℕ → DirectoryError E
  offset_overflow : ℕ → DirectoryError E
  evidence : E → DirectoryError E
  stuck : DirectoryError E

infixl 5 ◌>?◌
-- `and_then` on an `Option`
abbrev ◌>?◌ : Option ℕ → (ℕ → Option ℕ) → Option ℕ
none >? f = none
some n >? f = f n

-- `ok_or_else`
abbrev pub ok_or {ℓ} : {E A : Type ℓ} → E → Option A → Result E A
ok_or e none = err e
ok_or e (some a) = ok a

-- The two chains of checked `u64` arithmetic.
unfoldable pub cluster_position : Fat32BootSector → VolumeExtent → ℕ → Option ℕ
unfolding checked_sub checked_mul checked_add
cluster_position boot extent cluster =
    checked_sub cluster first_data_cluster
    >? (λ n. checked_mul u64_mod n boot.geometry.sectors_per_cluster)
    >? (λ n. checked_add u64_mod n (first_data_sector_absolute boot extent))
    >? (λ n. checked_mul u64_mod n boot.geometry.bytes_per_sector)

unfoldable pub fat_position : Fat32BootSector → VolumeExtent → ℕ → ℕ → Option ℕ
unfolding checked_mul checked_add
fat_position boot extent fat_index cluster =
    (checked_mul u64_mod fat_index boot.geometry.fat_size
      >? (λ n. checked_add u64_mod n boot.geometry.reserved_sectors)
      >? (λ n. checked_add u64_mod n extent.start_lba)
      >? (λ n. checked_mul u64_mod n boot.geometry.bytes_per_sector))
    >? (λ fat_start.
        checked_mul u64_mod cluster fat32_entry_bytes >? (λ n. checked_add u64_mod n fat_start))

module _ {E : Type 0} (reader : EvidenceReader E) (boot : Fat32BootSector)
    (extent : VolumeExtent) where
  unfoldable pub cluster_offset : ℕ → Result (DirectoryError E) ℕ
  cluster_offset cluster = ok_or (offset_overflow cluster) (cluster_position boot extent cluster)

  unfoldable pub fat_entry_offset : ℕ → ℕ → Result (DirectoryError E) ℕ
  fat_entry_offset fat_index cluster =
      ok_or (offset_overflow cluster) (fat_position boot extent fat_index cluster)

  unfoldable pub read_fat_entry : ℕ → ℕ → Result (DirectoryError E) ℕ
  read_fat_entry fat_index cluster = do
    offset ← fat_entry_offset fat_index cluster
    raw ← map_err evidence (reader.read_exact_at offset fat32_entry_bytes)
    ok (bit_and (le_u32 raw 0) fat_entry_mask)
