-- ===== src/Tests/Names.antt =====
-- The theorems on names, entries and their association, on a concrete pair of deleted entries.
use taphonomy.Prelude.{
  ℕ, ◌<◌, false, some, List, [], ◌∷◌, ◌++◌, Bytes, byte, le_u16, le_u32, length, arith, ◌≡◌, ◌≢◌,
  ◌↔◌, refl,
}
use taphonomy.Directory.Name.{chksum, recover_first_byte, name_terminator, name_deleted}
use taphonomy.Directory.Name.Recover.{recover_first_byte_iff}
use taphonomy.Directory.Entry.{
  Entry, DeletedKind, deleted, classify, classify_deleted, is_long_name, is_directory,
  first_cluster_of,
}
use taphonomy.Directory.Entry.Deletion.{survivors, classify-survivors}
use taphonomy.Directory.Associate.{associate, recovered, derive, component_checksum, surviving_name}
use taphonomy.Directory.Associate.Recovers.{associate_nearest, associate_recovers}
use taphonomy.Tests.Sectors.{are_bytes-Bytes}

-- "ELLO   TXT"
abbrev rest_of_name : List ℕ
rest_of_name = 69 ∷ 76 ∷ 76 ∷ 79 ∷ 32 ∷ 32 ∷ 32 ∷ 84 ∷ 88 ∷ 84 ∷ []

rest-Bytes : Bytes rest_of_name
rest-Bytes = are_bytes-Bytes rest_of_name refl

abbrev rest_of_entry : List ℕ
rest_of_entry =
    rest_of_name
    ++ (0x20 ∷ 0 ∷ 0 ∷ 0 ∷ 0 ∷ 0 ∷ 0 ∷ 0 ∷ 0 ∷ 0 ∷ 0 ∷ 0 ∷ 0 ∷ 0 ∷ 0 ∷ 5 ∷ 0 ∷ 0xBC ∷ 2 ∷ 0 ∷ 0
        ∷ [])

abbrev lost_kind : DeletedKind
lost_kind = DeletedKind.short_name rest_of_name false 5 700 0

recover_first_byte_iff_example : (recover_first_byte rest_of_name 0x20 ≡ some 72) ↔ (
    (72 < 256) × (chksum (72 ∷ rest_of_name) ≡ 0x20) × (72 ≢ name_terminator) × (72 ≢ name_deleted))
recover_first_byte_iff_example =
    recover_first_byte_iff rest_of_name 0x20 72 rest-Bytes (omega arith)

classify-survivors_example : classify (name_deleted ∷ rest_of_entry) ≡ deleted lost_kind
unfolding survivors classify classify_deleted is_long_name is_directory first_cluster_of byte le_u16
    le_u32
classify-survivors_example = classify-survivors 72 rest_of_entry lost_kind refl

abbrev component : Entry
component = record {
  cluster = 2;
  slot = 0;
  kind = deleted (DeletedKind.long_name (chksum (72 ∷ rest_of_name)));
}

abbrev short_entry : Entry
short_entry = record { cluster = 2; slot = 1; kind = deleted lost_kind }

associate_nearest_example :
    associate ([] ++ (component ∷ []) ++ (short_entry ∷ [])) (length ([] ++ (component ∷ [])))
    ≡ some (derive rest_of_name (some (chksum (72 ∷ rest_of_name))))
unfolding surviving_name component_checksum
associate_nearest_example = associate_nearest [] [] component short_entry rest_of_name refl

associate_recovers_example :
    associate ([] ++ (component ∷ []) ++ (short_entry ∷ [])) (length ([] ++ (component ∷ [])))
    ≡ some (recovered 72)
unfolding surviving_name component_checksum
associate_recovers_example =
    associate_recovers [] [] component short_entry rest_of_name 72 (omega arith) (λ e. omega arith)
      (λ e. omega arith) rest-Bytes refl refl
