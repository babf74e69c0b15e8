-- ===== src/Directory/Associate.antt =====
-- src/fat_directory.rs `associate`: the first byte of a deleted short entry, from the deleted
-- long-name components that precede it.
pub mod Recovers
use taphonomy.Prelude.{
  ℕ, Bool, Option, none, some, List, [], ◌∷◌, ◌==◌, if◌then◌else◌, get_elem?, take,
}
use taphonomy.Directory.Name.{recover_first_byte}
use taphonomy.Directory.Entry.{Entry, EntryKind, DeletedKind, deleted}
use mathlib.Core.List.{reverse}

pub data FirstByte : Type 0 where
  recovered : ℕ → FirstByte
  destroyed : FirstByte
  not_associated : FirstByte

-- The surviving name, where the entry is a deleted short entry.
unfoldable pub surviving_name : EntryKind → Option (List ℕ)
surviving_name (deleted (DeletedKind.short_name surviving directory cluster size nt)) =
    some surviving
surviving_name _ = none

-- The checksum, where the entry is a deleted long-name component.
unfoldable pub component_checksum : EntryKind → Option ℕ
component_checksum (deleted (DeletedKind.long_name c)) = some c
component_checksum _ = none

-- The loop over the preceding entries, nearest first.
unfoldable pub set_checksum : List Entry → Option ℕ → Option ℕ
set_checksum [] checksum = checksum
set_checksum (candidate ∷ before) checksum = elim (component_checksum candidate.kind) [
  | none ↦ checksum
  | some c ↦ elim checksum [
    | none ↦ set_checksum before (some c)
    | some seen ↦ elim (seen == c) [
      | Bool.true ↦ set_checksum before (some seen)
      | Bool.false ↦ some seen
    ]
  ]
]

unfoldable pub derive : List ℕ → Option ℕ → FirstByte
derive surviving none = destroyed
derive surviving (some c) = elim (recover_first_byte surviving c) [
  | some b ↦ recovered b
  | none ↦ not_associated
]

unfoldable pub associate : List Entry → ℕ → Option FirstByte
associate entries index = elim (get_elem? entries index) [
  | none ↦ none
  | some entry ↦ elim (surviving_name entry.kind) [
    | none ↦ none
    | some surviving ↦ some (derive surviving (set_checksum (reverse (take index entries)) none))
  ]
]
