-- ===== src/Directory/Entry/Deletion.antt =====
-- src/fat_directory.rs `classify`, before and after an entry's first byte is overwritten with 0xE5.
use taphonomy.Prelude.{ℕ, Option, none, some, List, ◌∷◌, byte, le_u16, le_u32, drop, arith, ◌≡◌}
use taphonomy.Directory.Name.{name_deleted}
use taphonomy.Directory.Entry.{EntryKind, DeletedKind, deleted, terminator, classify}

-- The fields that deletion leaves. A deleted entry and a terminator have no live classification.
unfoldable pub survivors : EntryKind → Option DeletedKind
survivors terminator = none
survivors (deleted was) = none
survivors (EntryKind.long_name ordinal last checksum) = some (DeletedKind.long_name checksum)
survivors (EntryKind.volume_label name raw_name) = some (DeletedKind.volume_label (drop 1 raw_name))
survivors (EntryKind.short_name name raw_name directory first_cluster file_size nt_res) =
    some (DeletedKind.short_name (drop 1 raw_name) directory first_cluster file_size nt_res)
survivors (EntryKind.invalid attr) = some (DeletedKind.invalid attr)

-- Whatever a live entry was classified as, after its first byte is overwritten with 0xE5 it is
-- classified as deleted, with exactly the fields that the first byte has no part in.
pub classify-survivors :
    (b : ℕ) (rest : List ℕ) (was : DeletedKind)
    → survivors (classify (b ∷ rest)) ≡ some was
    → classify (name_deleted ∷ rest) ≡ deleted was
unfolding classify survivors byte le_u16 le_u32
classify-survivors b rest was h = ground arith
