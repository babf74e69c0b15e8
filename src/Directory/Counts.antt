-- ===== src/Directory/Counts.antt =====
-- src/fat_directory.rs: the three counts over a listing, and `is_dot_entry`.
use taphonomy.Prelude.{
  ℕ, ◌+◌, ◌≤◌, Bool, true, false, ◌||◌, List, [], ◌∷◌, if◌then◌else◌, bytes_eq, length, arith,
}
use taphonomy.Directory.Entry.{Entry, EntryKind}
use taphonomy.Directory.Walk.{Directory}
use taphonomy.Directory.Deleted.{dot_name, dot_dot_name}

unfoldable pub is_short_name : EntryKind → Bool
is_short_name (EntryKind.short_name name raw directory first size nt) = true
is_short_name _ = false

unfoldable pub is_long_component : EntryKind → Bool
is_long_component (EntryKind.long_name ordinal last checksum) = true
is_long_component _ = false

unfoldable pub is_deleted : EntryKind → Bool
is_deleted (EntryKind.deleted was) = true
is_deleted _ = false

-- `iter().filter(…).count()`
unfoldable pub count_kinds : (EntryKind → Bool) → List Entry → ℕ
count_kinds wanted [] = 0
count_kinds wanted (e ∷ es) = (if wanted e.kind then 1 else 0) + count_kinds wanted es

unfoldable pub short_entry_count : Directory → ℕ
short_entry_count d = count_kinds is_short_name d.entries

unfoldable pub long_name_count : Directory → ℕ
long_name_count d = count_kinds is_long_component d.entries

unfoldable pub deleted_count : Directory → ℕ
deleted_count d = count_kinds is_deleted d.entries

unfoldable pub is_dot_entry : EntryKind → Bool
is_dot_entry (EntryKind.short_name name raw true first size nt) =
    bytes_eq raw dot_name || bytes_eq raw dot_dot_name
is_dot_entry _ = false

at_most_one :
    (kind : EntryKind)
    → (if is_short_name kind then 1 else 0)
        + (if is_long_component kind then 1 else 0)
        + (if is_deleted kind then 1 else 0)
      ≤ 1
unfolding is_short_name is_long_component is_deleted
at_most_one kind = ground arith

count_kinds-le :
    (es : List Entry)
    → count_kinds is_short_name es + count_kinds is_long_component es + count_kinds is_deleted es
      ≤ length es
unfolding count_kinds
count_kinds-le [] = omega arith
count_kinds-le (e ∷ es) =
    let rest = count_kinds-le es in let one = at_most_one e.kind in omega arith

-- The three counts count different entries: together they are at most the entries listed.
pub counts_bound :
    (d : Directory) → short_entry_count d + long_name_count d + deleted_count d ≤ length d.entries
unfolding short_entry_count long_name_count deleted_count
counts_bound d = count_kinds-le d.entries
