-- ===== src/Tests/Tables.antt =====
-- The theorems on partition tables, on concrete sectors.
use taphonomy.Prelude.{
  [], ◌∷◌, ok, err, any, All, le_u32, byte, Member, arith, ◌≡◌, ◌↔◌, refl, if◌then◌else◌, inl,
  checked_add, bytes_eq,
}
use taphonomy.Partition.{
  MbrPartition, mbr, gpt_protective, overlapping_partitions, missing_signature, ParseOutcome,
  parse_mbr, entry_count, entry_at, disk_signature_offset, parse_slots, finish, judge, judge_extent,
  read_entry, end_lba, boot_anomalies, order_anomalies, bootable_anomalies, count_bootable,
  is_bootable, overlap_anomalies, overlaps_with, overlaps, out_of_order,
}
use taphonomy.Partition.Bounds.{IsListed, parse_mbr-IsListed}
use taphonomy.Partition.Table.{declared, is_gpt, select, Refused, parse_mbr_table, parse_mbr-err}
use taphonomy.Partition.Overlap.{Separate, parse_mbr_overlap, parse_mbr-Separate}
use taphonomy.Tests.Sectors.{nested_table, ordered_table, unsigned_table, are_bytes-Bytes}

abbrev first_partition : MbrPartition
first_partition = record {
  index = 1;
  boot_indicator = 0x80;
  partition_type = 0x0C;
  start_lba = 2048;
  sector_count = 70000;
}

abbrev nested_partition : MbrPartition
nested_partition = record {
  index = 2;
  boot_indicator = 0;
  partition_type = 7;
  start_lba = 3000;
  sector_count = 100;
}

abbrev later_partition : MbrPartition
later_partition = record {
  index = 2;
  boot_indicator = 0;
  partition_type = 7;
  start_lba = 80000;
  sector_count = 100;
}

abbrev nested_outcome : ParseOutcome
nested_outcome = record {
  table = mbr 0 (first_partition ∷ nested_partition ∷ []);
  anomalies = overlapping_partitions 1 2 ∷ [];
}

abbrev ordered_outcome : ParseOutcome
ordered_outcome = record { table = mbr 0 (first_partition ∷ later_partition ∷ []); anomalies = [] }

nested_runs : parse_mbr nested_table 100000 ≡ ok nested_outcome
unfolding parse_mbr parse_slots finish judge judge_extent read_entry entry_at end_lba boot_anomalies
    bootable_anomalies count_bootable is_bootable overlap_anomalies overlaps_with overlaps
    order_anomalies out_of_order bytes_eq byte le_u32 checked_add
nested_runs = refl

ordered_runs : parse_mbr ordered_table 100000 ≡ ok ordered_outcome
unfolding parse_mbr parse_slots finish judge judge_extent read_entry entry_at end_lba boot_anomalies
    bootable_anomalies count_bootable is_bootable overlap_anomalies overlaps_with overlaps
    order_anomalies out_of_order bytes_eq byte le_u32 checked_add
ordered_runs = refl

unsigned_runs : parse_mbr unsigned_table 100000 ≡ err (missing_signature (0 ∷ 0 ∷ []))
unfolding parse_mbr parse_slots finish judge judge_extent read_entry entry_at end_lba boot_anomalies
    bootable_anomalies count_bootable is_bootable overlap_anomalies overlaps_with overlaps
    order_anomalies out_of_order bytes_eq byte le_u32 checked_add
unsigned_runs = refl

parse_mbr-IsListed_example : All (IsListed 100000) (first_partition ∷ nested_partition ∷ [])
parse_mbr-IsListed_example =
    parse_mbr-IsListed nested_table 100000 nested_outcome 0
      (first_partition ∷ nested_partition ∷ []) nested_runs refl

parse_mbr_table_example :
    (o : ParseOutcome) × (parse_mbr nested_table 100000 ≡ ok o)
    × (o.table ≡ (
        if any is_gpt (declared nested_table entry_count 0)
        then gpt_protective
        else mbr
            (le_u32 nested_table disk_signature_offset)
            (select 100000 (declared nested_table entry_count 0))))
parse_mbr_table_example =
    parse_mbr_table nested_table 100000 (are_bytes-Bytes nested_table refl) (omega arith) refl

parse_mbr-err_example :
    (parse_mbr unsigned_table 100000 ≡ err (missing_signature (0 ∷ 0 ∷ [])))
    ↔ Refused unsigned_table (missing_signature (0 ∷ 0 ∷ []))
parse_mbr-err_example =
    parse_mbr-err unsigned_table 100000 (are_bytes-Bytes unsigned_table refl)
      (missing_signature (0 ∷ 0 ∷ []))

parse_mbr_overlap_example : Member (overlapping_partitions 1 2) nested_outcome.anomalies
parse_mbr_overlap_example =
    parse_mbr_overlap 100000 (omega arith) nested_table nested_outcome 0
      (first_partition ∷ nested_partition ∷ []) nested_runs refl first_partition nested_partition
      3000 (inl (refl, inl refl)) (omega arith, omega arith) (omega arith, omega arith)

parse_mbr-Separate_example : Separate (first_partition ∷ later_partition ∷ [])
parse_mbr-Separate_example =
    parse_mbr-Separate 100000 (omega arith) ordered_table ordered_outcome 0
      (first_partition ∷ later_partition ∷ []) ordered_runs refl (λ i j m. m) (λ m. m)
