-- ===== src/Partition.antt =====
-- src/partition.rs: the master boot record's partition table.
pub mod Bounds
pub mod Table
pub mod Overlap
use taphonomy.Prelude.{
  ℕ, zero, suc, ◌+◌, ◌*◌, Bool, false, ◌&&◌, ◌||◌, not, Option, none, some, List, [], ◌∷◌, ◌++◌,
  Result, ok, err, ltb, ◌==◌, if◌then◌else◌, bytes_eq, length, any, byte, le_u32, slice,
  checked_add, u64_mod,
}

abbrev pub sector_size : ℕ
sector_size = 512

abbrev pub table_offset : ℕ
table_offset = 0x1BE

abbrev pub signature_offset : ℕ
signature_offset = 0x1FE

abbrev pub entry_size : ℕ
entry_size = 16

abbrev pub entry_count : ℕ
entry_count = 4

abbrev pub signature : List ℕ
signature = 0x55 ∷ 0xAA ∷ []

abbrev pub type_gpt_protective : ℕ
type_gpt_protective = 0xEE

abbrev pub type_unused : ℕ
type_unused = 0x00

abbrev pub disk_signature_offset : ℕ
disk_signature_offset = 0x1B8

pub record MbrPartition : Type 0 where
  pub index : ℕ
  pub boot_indicator : ℕ
  pub partition_type : ℕ
  pub start_lba : ℕ
  pub sector_count : ℕ

unfoldable pub is_bootable : MbrPartition → Bool
is_bootable p = p.boot_indicator == 0x80

-- The products of two 32-bit numbers and 512 stay below 2^64.
unfoldable pub start_byte : MbrPartition → ℕ
start_byte p = p.start_lba * sector_size

unfoldable pub length_bytes : MbrPartition → ℕ
length_bytes p = p.sector_count * sector_size

unfoldable pub end_lba : MbrPartition → Option ℕ
unfolding checked_add
end_lba p = checked_add u64_mod p.start_lba p.sector_count

pub data PartitionTable : Type 0 where
  mbr : ℕ → List MbrPartition → PartitionTable
  gpt_protective : PartitionTable

pub data Anomaly : Type 0 where
  invalid_boot_indicator : ℕ → ℕ → Anomaly
  multiple_bootable_partitions : ℕ → Anomaly
  overlapping_partitions : ℕ → ℕ → Anomaly
  non_zero_unused_entry : ℕ → Anomaly
  entries_out_of_order : Anomaly
  partition_beyond_end : ℕ → ℕ → ℕ → ℕ → Anomaly
  zero_length_partition : ℕ → ℕ → Anomaly

pub data ParseError : Type 0 where
  short_sector : ℕ → ParseError
  missing_signature : List ℕ → ParseError
  length_overflow : ℕ → ℕ → ℕ → ParseError

pub record ParseOutcome : Type 0 where
  pub table : PartitionTable
  pub anomalies : List Anomaly

-- The fields of the 16 bytes at a slot, as the loop reads them.
unfoldable pub read_entry : List ℕ → ℕ → MbrPartition
unfolding byte le_u32
read_entry entry slot = record {
  index = slot + 1;
  boot_indicator = byte entry 0;
  partition_type = byte entry 4;
  start_lba = le_u32 entry 8;
  sector_count = le_u32 entry 12;
}

-- What one round of the loop over the slots does.
pub data Step : Type 0 where
  stop_gpt : Step
  skip : List Anomaly → Step
  list : MbrPartition → List Anomaly → Step
  fail : ParseError → Step

unfoldable pub boot_anomalies : MbrPartition → List Anomaly
boot_anomalies p =
    if not (p.boot_indicator == 0x00) && not (p.boot_indicator == 0x80)
    then invalid_boot_indicator p.index p.boot_indicator ∷ []
    else []

unfoldable pub judge_extent : MbrPartition → ℕ → Step
unfolding end_lba
judge_extent p image_sectors = elim (end_lba p) [
  | none ↦ fail (length_overflow p.index p.start_lba p.sector_count)
  | some end ↦
      if ltb image_sectors end
      then skip (partition_beyond_end p.index p.start_lba p.sector_count image_sectors ∷ [])
      else list p (boot_anomalies p)
]

-- The tests of the loop body, on the entry's bytes and its fields.
unfoldable pub judge : List ℕ → MbrPartition → ℕ → Step
unfolding judge_extent
judge entry p image_sectors =
    if p.partition_type == type_gpt_protective
    then stop_gpt
    else if p.partition_type == type_unused
    then skip (if any (λ b. not (b == 0)) entry then non_zero_unused_entry p.index ∷ [] else [])
    else if p.sector_count == 0
    then skip (zero_length_partition p.index p.partition_type ∷ [])
    else judge_extent p image_sectors

-- The loop over the slots, with the vectors that it pushes to. `none` is the GPT return.
abbrev pub Slots : Type 0
Slots = Result ParseError (Option (List MbrPartition) × List Anomaly)

unfoldable pub entry_at : List ℕ → ℕ → List ℕ
entry_at sector slot = slice sector (table_offset + slot * entry_size) entry_size

unfoldable pub parse_slots : List ℕ → ℕ → ℕ → ℕ → List MbrPartition → List Anomaly → Slots
parse_slots sector image_sectors zero slot partitions anomalies = ok (some partitions, anomalies)
parse_slots sector image_sectors (suc left) slot partitions anomalies =
    let entry = entry_at sector slot in
    elim (judge entry (read_entry entry slot) image_sectors) [
      | stop_gpt ↦ ok (none, anomalies)
      | skip found ↦
          parse_slots sector image_sectors left (slot + 1) partitions (anomalies ++ found)
      | list p found ↦
          parse_slots sector image_sectors left (slot + 1) (partitions ++ (p ∷ []))
            (anomalies ++ found)
      | fail e ↦ err e
    ]

unfoldable pub count_bootable : List MbrPartition → ℕ
unfolding is_bootable
count_bootable [] = 0
count_bootable (p ∷ ps) = (if is_bootable p then 1 else 0) + count_bootable ps

unfoldable pub bootable_anomalies : List MbrPartition → List Anomaly
unfolding count_bootable
bootable_anomalies ps =
    let bootable = count_bootable ps in
    if ltb 1 bootable then multiple_bootable_partitions bootable ∷ [] else []

-- The test of the inner loop over pairs.
unfoldable pub overlaps : MbrPartition → MbrPartition → Bool
unfolding end_lba
overlaps a b = elim (end_lba a) [
  | none ↦ false
  | some a_end ↦ elim (end_lba b) [
    | none ↦ false
    | some b_end ↦ ltb a.start_lba b_end && ltb b.start_lba a_end
  ]
]

-- `for j in (i + 1)..`, on the partitions behind `a`
unfoldable pub overlaps_with : MbrPartition → List MbrPartition → List Anomaly
unfolding overlaps
overlaps_with a [] = []
overlaps_with a (b ∷ bs) =
    (if overlaps a b then overlapping_partitions a.index b.index ∷ [] else []) ++ overlaps_with a bs

unfoldable pub overlap_anomalies : List MbrPartition → List Anomaly
unfolding overlaps_with
overlap_anomalies [] = []
overlap_anomalies (a ∷ bs) = overlaps_with a bs ++ overlap_anomalies bs

-- `windows(2).any(|w| w[0].start_lba > w[1].start_lba)`
unfoldable pub out_of_order : List MbrPartition → Bool
out_of_order [] = false
out_of_order (a ∷ []) = false
out_of_order (a ∷ b ∷ rest) = ltb b.start_lba a.start_lba || out_of_order (b ∷ rest)

unfoldable pub order_anomalies : List MbrPartition → List Anomaly
unfolding out_of_order
order_anomalies ps = if out_of_order ps then entries_out_of_order ∷ [] else []

-- What follows the loop.
unfoldable pub finish : ℕ → Option (List MbrPartition) × List Anomaly → ParseOutcome
finish disk_signature (none, anomalies) = record { table = gpt_protective; anomalies = anomalies }
finish disk_signature (some ps, anomalies) = record {
  table = mbr disk_signature ps;
  anomalies = anomalies ++ (bootable_anomalies ps ++ (overlap_anomalies ps ++ order_anomalies ps));
}

unfoldable pub parse_mbr : List ℕ → ℕ → Result ParseError ParseOutcome
parse_mbr sector image_sectors =
    if ltb (length sector) sector_size
    then err (short_sector (length sector))
    else if not (bytes_eq (slice sector signature_offset 2) signature)
    then err (missing_signature (slice sector signature_offset 2))
    else elim (parse_slots sector image_sectors entry_count 0 [] []) [
      | err e ↦ err e
      | ok found ↦ ok (finish (le_u32 sector disk_signature_offset) found)
    ]
