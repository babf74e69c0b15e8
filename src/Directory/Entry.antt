-- ===== src/Directory/Entry.antt =====
-- src/fat_directory.rs: what a 32-byte directory entry contains.
pub mod Deletion
use taphonomy.Prelude.{
  ℕ, ◌+◌, ◌-◌, ◌*◌, ◌^◌, Bool, true, false, not, Option, none, some, List, [], ◌∷◌, ◌==◌,
  if◌then◌else◌, byte, le_u16, le_u32, slice, bit_and,
}
use taphonomy.Directory.Name
use taphonomy.Directory.Name.{name_len, name_deleted, name_terminator}

abbrev pub entry_bytes : ℕ
entry_bytes = 32

abbrev pub off_name : ℕ
off_name = 0x00

abbrev pub off_attr : ℕ
off_attr = 0x0B

abbrev pub off_nt_res : ℕ
off_nt_res = 0x0C

abbrev pub off_ldir_chksum : ℕ
off_ldir_chksum = 0x0D

abbrev pub off_fst_clus_hi : ℕ
off_fst_clus_hi = 0x14

abbrev pub off_fst_clus_lo : ℕ
off_fst_clus_lo = 0x1A

abbrev pub off_file_size : ℕ
off_file_size = 0x1C

abbrev pub attr_volume_id : ℕ
attr_volume_id = 0x08

abbrev pub attr_directory : ℕ
attr_directory = 0x10

-- attr_read_only | attr_hidden | attr_system | attr_volume_id
abbrev pub attr_long_name : ℕ
attr_long_name = 0x0F

-- attr_long_name | attr_directory | attr_archive
abbrev pub attr_long_name_mask : ℕ
attr_long_name_mask = 0x3F

-- attr_directory | attr_volume_id
abbrev pub attr_kind_mask : ℕ
attr_kind_mask = 0x18

abbrev pub ldir_ord_last : ℕ
ldir_ord_last = 0x40

-- The complement of `ldir_ord_last` in a byte.
abbrev pub ldir_ord_mask : ℕ
ldir_ord_mask = 0xBF

-- short_name: surviving_name, directory, first_cluster, file_size, nt_res
pub data DeletedKind : Type 0 where
  long_name : ℕ → DeletedKind
  volume_label : List ℕ → DeletedKind
  short_name : List ℕ → Bool → ℕ → ℕ → ℕ → DeletedKind
  invalid : ℕ → DeletedKind

-- long_name: ordinal, last, checksum; volume_label: name, raw_name; short_name: name, raw_name,
-- directory, first_cluster, file_size, nt_res
pub data EntryKind : Type 0 where
  terminator : EntryKind
  deleted : DeletedKind → EntryKind
  long_name : ℕ → Bool → ℕ → EntryKind
  volume_label : Option (List ℕ) → List ℕ → EntryKind
  short_name : Option (List ℕ) → List ℕ → Bool → ℕ → ℕ → ℕ → EntryKind
  invalid : ℕ → EntryKind

pub record Entry : Type 0 where
  pub cluster : ℕ
  pub slot : ℕ
  pub kind : EntryKind

unfoldable pub is_long_name : ℕ → Bool
is_long_name attr = bit_and attr attr_long_name_mask == attr_long_name

unfoldable pub is_directory : ℕ → Bool
is_directory attr = not (bit_and attr attr_directory == 0)

-- `(high << 16) | low` on two 16-bit words, whose bits do not meet.
unfoldable pub first_cluster_of : List ℕ → ℕ
first_cluster_of entry = le_u16 entry off_fst_clus_hi * 2 ^ 16 + le_u16 entry off_fst_clus_lo

unfoldable pub classify_deleted : List ℕ → ℕ → DeletedKind
unfolding is_long_name is_directory first_cluster_of
classify_deleted entry attr =
    let surviving_name = slice entry (off_name + 1) (name_len - 1) in
    let kind = bit_and attr attr_kind_mask in
    if is_long_name attr
    then DeletedKind.long_name (byte entry off_ldir_chksum)
    else if kind == attr_volume_id
    then DeletedKind.volume_label surviving_name
    else if kind == attr_kind_mask
    then DeletedKind.invalid attr
    else DeletedKind.short_name surviving_name (is_directory attr) (first_cluster_of entry)
        (le_u32 entry off_file_size) (byte entry off_nt_res)

unfoldable pub classify : List ℕ → EntryKind
unfolding is_long_name is_directory first_cluster_of classify_deleted
classify entry =
    let first = byte entry off_name in
    let attr = byte entry off_attr in
    let raw_name = slice entry off_name name_len in
    let kind = bit_and attr attr_kind_mask in
    if first == name_terminator
    then terminator
    else if first == name_deleted
    then deleted (classify_deleted entry attr)
    else if is_long_name attr
    then EntryKind.long_name (bit_and first ldir_ord_mask) (not (bit_and first ldir_ord_last == 0))
        (byte entry off_ldir_chksum)
    else if kind == attr_volume_id
    then EntryKind.volume_label (Name.short_name raw_name) raw_name
    else if kind == attr_kind_mask
    then EntryKind.invalid attr
    else EntryKind.short_name (Name.short_name raw_name) raw_name (is_directory attr)
        (first_cluster_of entry) (le_u32 entry off_file_size) (byte entry off_nt_res)
