-- ===== src/Directory/Walk/Sizes.antt =====
-- src/fat_directory.rs: the sizes that listed entries state.
use taphonomy.Prelude.{
  ℕ, zero, suc, ◌+◌, ◌<◌, Bool, List, [], ◌∷◌, ok, map_err-eq-ok, >>=-eq-ok, ◌==◌, bit_and, All,
  All-append, All-take, All-drop, IsByte, Bytes, u32_mod, byte, le_u32-lt, ◌≡◌, inl, inr,
  Bool-cases,
}
use taphonomy.Filesystem.{VolumeExtent}
use taphonomy.Fat.{cluster_bytes}
use taphonomy.Fat32.{Fat32BootSector}
use taphonomy.Evidence.{EvidenceReader}
use taphonomy.Directory.Name.{name_terminator, name_deleted}
use taphonomy.Directory.Entry.{
  entry_bytes, off_name, off_attr, off_file_size, attr_kind_mask, attr_volume_id, is_long_name,
  Entry, EntryKind, deleted, DeletedKind, classify_deleted, classify,
}
use taphonomy.Directory.Offsets.{evidence, cluster_offset}
use taphonomy.Directory.Walk.{
  Directory, Chain, as_chunks, is_terminator, is_nonzero, slots_per_cluster, read_cluster,
  enumerate,
}
use taphonomy.Directory.Walk.Scan.{Slot, listed, left_over, occupied, slots_of}
use taphonomy.Directory.Walk.Listing.{Contents, no_cluster, then_cluster, enumerate-Contents}

abbrev pub FitsSize : EntryKind → Type 0
FitsSize (EntryKind.short_name name raw is_dir first size nt) = size < u32_mod
FitsSize (deleted (DeletedKind.short_name surviving is_dir first size nt)) = size < u32_mod
FitsSize _ = Unit {0}

abbrev pub HasSize : Entry → Type 0
HasSize entry = FitsSize entry.kind

classify_deleted-FitsSize :
    (raw : List ℕ) (attr : ℕ) → Bytes raw → FitsSize (deleted (classify_deleted raw attr))
unfolding classify_deleted
classify_deleted-FitsSize raw attr bytes = elim (Bool-cases (is_long_name attr)) [
  | inl long ↦ rw long tt
  | inr short ↦ elim (Bool-cases (bit_and attr attr_kind_mask == attr_volume_id)) [
    | inl label ↦ rw (short, label) tt
    | inr other ↦ elim (Bool-cases (bit_and attr attr_kind_mask == attr_kind_mask)) [
      | inl invalid ↦ rw (short, other, invalid) tt
      | inr file ↦ rw (short, other, file) (le_u32-lt raw off_file_size bytes)
    ]
  ]
]

classify-FitsSize : (raw : List ℕ) → Bytes raw → FitsSize (classify raw)
unfolding classify
classify-FitsSize raw bytes = elim (Bool-cases (byte raw off_name == name_terminator)) [
  | inl ends ↦ rw ends tt
  | inr more ↦ elim (Bool-cases (byte raw off_name == name_deleted)) [
    | inl gone ↦ rw (more, gone) (classify_deleted-FitsSize raw (byte raw off_attr) bytes)
    | inr live ↦ elim (Bool-cases (is_long_name (byte raw off_attr))) [
      | inl long ↦ rw (more, live, long) tt
      | inr short ↦
          elim (Bool-cases (bit_and (byte raw off_attr) attr_kind_mask == attr_volume_id)) [
            | inl label ↦ rw (more, live, short, label) tt
            | inr other ↦
                elim (Bool-cases (bit_and (byte raw off_attr) attr_kind_mask == attr_kind_mask)) [
                  | inl invalid ↦ rw (more, live, short, other, invalid) tt
                  | inr file ↦
                      rw (more, live, short, other, file) (le_u32-lt raw off_file_size bytes)
                ]
          ]
    ]
  ]
]

abbrev IsRead : Slot → Type 0
IsRead x = Bytes x.raw

occupied-HasSize : (xs : List Slot) → All IsRead xs → All HasSize (occupied xs)
occupied-HasSize [] h = tt
occupied-HasSize (x ∷ xs) (bytes, h) = elim (Bool-cases (is_nonzero x.raw)) [
  | inl used ↦ rw used ((classify-FitsSize x.raw bytes, occupied-HasSize xs h))
  | inr empty ↦ rw empty (occupied-HasSize xs h)
]

listed-HasSize : (xs : List Slot) → All IsRead xs → All HasSize (listed xs)
listed-HasSize [] h = tt
listed-HasSize (x ∷ xs) (bytes, h) = elim (Bool-cases (is_terminator (classify x.raw))) [
  | inl ends ↦ rw ends tt
  | inr more ↦ rw more ((classify-FitsSize x.raw bytes, listed-HasSize xs h))
]

left_over-HasSize : (xs : List Slot) → All IsRead xs → All HasSize (left_over xs)
left_over-HasSize [] h = tt
left_over-HasSize (x ∷ xs) (bytes, h) = elim (Bool-cases (is_terminator (classify x.raw))) [
  | inl ends ↦ rw ends (occupied-HasSize xs h)
  | inr more ↦ rw more (left_over-HasSize xs h)
]

slots_of-IsRead :
    (c s n : ℕ) (buffer : List ℕ) → Bytes buffer → All IsRead (slots_of c s (as_chunks n buffer))
unfolding as_chunks
slots_of-IsRead c s zero buffer h = tt
slots_of-IsRead c s (suc n) buffer h = (
  All-take IsByte entry_bytes buffer h,
  slots_of-IsRead c (s + 1) n _ (All-drop IsByte entry_bytes buffer h),
)

module _ {E : Type 0} (reader : EvidenceReader E) (boot : Fat32BootSector)
    (extent : VolumeExtent) where
  read_cluster-Bytes :
      (c : ℕ) (buffer : List ℕ) → read_cluster reader boot extent c ≡ ok buffer → Bytes buffer
  unfolding read_cluster
  read_cluster-Bytes c buffer h =
      let (offset, at, h1) = >>=-eq-ok (cluster_offset reader boot extent c) _ h in
      (reader.filled offset (cluster_bytes boot.geometry) buffer
        (map_err-eq-ok evidence (reader.read_exact_at offset (cluster_bytes boot.geometry)) h1)).1

  Contents-IsRead :
      (cs : List ℕ) (slots : List Slot) → Contents reader boot extent cs slots → All IsRead slots
  Contents-IsRead [] slots no_cluster = tt
  Contents-IsRead (c ∷ cs) slots (then_cluster {buffer = buffer} {rest = rest} read others) =
      All-append IsRead _ rest
        (slots_of-IsRead c 0 (slots_per_cluster reader boot extent) buffer
          (read_cluster-Bytes c buffer read))
        (Contents-IsRead cs rest others)

  pub enumerate-HasSize :
      (first : ℕ) (chain : Chain) (d : Directory) (ended : Bool)
      → enumerate reader boot extent first chain ≡ ok (d, ended)
      → All HasSize d.entries × All HasSize d.residue
  enumerate-HasSize first chain d ended h =
      let (slots, contents, entries, residue, last) =
        enumerate-Contents reader boot extent first chain d ended h in
      let reads = Contents-IsRead d.clusters slots contents in
      (rw entries (listed-HasSize slots reads), rw residue (left_over-HasSize slots reads))
