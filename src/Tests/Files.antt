-- ===== src/Tests/Files.antt =====
-- The theorems on directories and on recovery, on a concrete disk.
use taphonomy.Prelude.{
  ◌∷◌, true, bytes_eq, trim_spaces, is_printable, ◌<◌, ◌≤◌, false, replicate, ℕ, some, List, [],
  ◌++◌, joined, ok, err, length, take, div_ceil, saturating_add, checked_sub, checked_mul,
  checked_add, byte, le_u16, le_u32, arith, ◌≡◌, ◌≢◌, refl,
}
use taphonomy.Fat.{cluster_bytes, first_data_sector}
use taphonomy.Fat32.{
  first_data_sector_absolute, active_fat, is_mirrored, active_index, mirroring_enabled,
  last_cluster,
}
use taphonomy.Directory.Entry.{
  classify, classify_deleted, is_long_name, is_directory, first_cluster_of,
}
use taphonomy.Directory.Offsets.{
  cluster_offset, cluster_position, fat_entry_offset, fat_position, read_fat_entry, stuck,
}
use taphonomy.Directory.Walk.{
  as_chunks, kind_observations, get_or_insert, scan_residue, is_terminator, close_cluster,
  scan_entry, scan_slot, scan_slots, scan_cluster, slots_per_cluster, max_clusters, fat_index,
  out_of_range, check_cluster, read_cluster, judge_link, next_cluster, visit, enumerate_loop,
  enumerate, enumerate_directory, follow,
}
use taphonomy.Directory.Walk.Ends.{enumerate-ne-stuck}
use taphonomy.Directory.Walk.Chains.{IsWalked, enumerate_directory-IsWalked}
use taphonomy.Directory.Name.{short_name, unescape, join}
use taphonomy.Directory.Deleted.{
  enumerate_deleted_directory, read_deleted, judge_deleted, check_dots, names_itself, names_parent,
  is_dot_of, is_dot_dot, read,
}
use taphonomy.Directory.Deleted.Reads.{Answers, enumerate_deleted_directory-Answers}
use taphonomy.Directory.Walk.Scan.{Slot, listed, left_over, has_terminator}
use taphonomy.Directory.Walk.Listing.{Contents, enumerate-Contents}
use taphonomy.Recovery.{
  walked, run, recoverable, eligibility, judge_fields, implied_run, asked, asked_deleted,
  last_of_run, run_length, first_allocated, assess_run, assess_listed, read_data, stream_loop,
  stream,
}
use taphonomy.Recovery.Run.{IsRun, States, eligibility-IsRun, eligibility_offers, wide}
use taphonomy.Recovery.Assess.{Judged, assess_listed-Judged}
use taphonomy.Recovery.Content.{Read, done, more, stream-Read, stream_reads}
use taphonomy.Tests.Disk.{
  boot, extent, disk, root_listing, lost_entry, lost_run, lost, lost_content, lost_directory,
}
use taphonomy.Tests.Volumes.{boot-IsBoot}

root_enumerates : enumerate_directory disk boot extent 2 ≡ ok root_listing
unfolding enumerate_directory enumerate enumerate_loop visit next_cluster judge_link read_cluster
    check_cluster out_of_range fat_index max_clusters slots_per_cluster scan_cluster scan_slots
    scan_slot scan_entry close_cluster is_terminator scan_residue get_or_insert kind_observations
    as_chunks read_fat_entry fat_entry_offset fat_position cluster_offset cluster_position classify
    classify_deleted is_long_name is_directory first_cluster_of first_data_sector_absolute
    active_fat is_mirrored active_index mirroring_enabled last_cluster cluster_bytes
    first_data_sector div_ceil checked_sub checked_mul checked_add byte le_u16 le_u32
root_enumerates = refl

enumerate_directory-IsWalked_example : IsWalked disk boot extent 2 root_listing
enumerate_directory-IsWalked_example =
    enumerate_directory-IsWalked disk boot extent 2 root_listing root_enumerates

enumerate-ne-stuck_example : enumerate disk boot extent 2 follow ≢ err stuck
enumerate-ne-stuck_example = enumerate-ne-stuck disk boot extent 2 follow

lost_eligible : eligibility lost_entry walked boot ≡ some (run lost_run)
unfolding eligibility judge_fields implied_run asked asked_deleted div_ceil last_cluster
    cluster_bytes
lost_eligible = refl

lost_assessed : assess_listed disk boot extent lost_entry walked ≡ ok (some (recoverable lost))
unfolding assess_listed assess_run first_allocated run_length last_of_run saturating_add eligibility
    judge_fields implied_run asked asked_deleted div_ceil last_cluster cluster_bytes read_fat_entry
    fat_entry_offset fat_position fat_index active_fat is_mirrored active_index mirroring_enabled
    checked_mul checked_add le_u32 byte
lost_assessed = refl

lost_streams : stream disk boot extent lost ≡ ok lost_content
unfolding stream stream_loop read_data run_length last_of_run saturating_add cluster_offset
    cluster_position first_data_sector_absolute first_data_sector checked_sub checked_mul
    checked_add cluster_bytes byte
lost_streams = refl

lost_run-IsRun : IsRun boot lost_run
lost_run-IsRun =
    (eligibility-IsRun boot boot-IsBoot.geometry lost_entry walked lost_run lost_eligible).0

eligibility-IsRun_example : IsRun boot lost_run × States lost_entry.kind walked 5 700
eligibility-IsRun_example =
    eligibility-IsRun boot boot-IsBoot.geometry lost_entry walked lost_run lost_eligible

eligibility_offers_example :
    eligibility lost_entry walked boot ≡ some (run (wide boot boot-IsBoot.geometry 5 700))
unfolding div_ceil cluster_bytes
eligibility_offers_example =
    eligibility_offers boot boot-IsBoot.geometry lost_entry walked 5 700 (refl, refl) (omega arith)
      (omega arith) (omega arith)

assess_listed-Judged_example : Judged disk boot extent lost_entry walked (recoverable lost)
assess_listed-Judged_example =
    assess_listed-Judged disk boot extent boot-IsBoot.geometry lost_entry walked (recoverable lost)
      lost_assessed

stream-Read_example :
    (bytes : List ℕ) × Read disk boot extent 5 2 bytes
    × (joined lost_content ≡ take 700 bytes)
    × (length (joined lost_content) ≡ 700)
stream-Read_example = stream-Read disk boot extent lost lost_content lost_run-IsRun lost_streams

lost_reads : Read disk boot extent 5 2 (replicate 512 0 ++ (replicate 512 0 ++ []))
unfolding read_data cluster_offset cluster_position first_data_sector_absolute first_data_sector
    checked_sub checked_mul checked_add cluster_bytes byte
lost_reads = more refl (more refl done)

stream_reads_example : (out : List (List ℕ)) × (stream disk boot extent lost ≡ ok out)
stream_reads_example =
    stream_reads disk boot extent lost (replicate 512 0 ++ (replicate 512 0 ++ [])) lost_run-IsRun
      lost_reads

directory_reads : enumerate_deleted_directory disk boot extent 7 ≡ ok (read lost_directory false)
unfolding enumerate_deleted_directory read_deleted judge_deleted check_dots names_itself
    names_parent is_dot_of is_dot_dot bytes_eq short_name unescape join trim_spaces is_printable
    enumerate enumerate_loop visit next_cluster judge_link read_cluster check_cluster out_of_range
    fat_index max_clusters slots_per_cluster scan_cluster scan_slots scan_slot scan_entry
    close_cluster is_terminator scan_residue get_or_insert kind_observations as_chunks
    read_fat_entry fat_entry_offset fat_position cluster_offset cluster_position classify
    classify_deleted is_long_name is_directory first_cluster_of first_data_sector_absolute
    active_fat is_mirrored active_index mirroring_enabled last_cluster cluster_bytes
    first_data_sector div_ceil checked_sub checked_mul checked_add byte le_u16 le_u32
directory_reads = refl

enumerate_deleted_directory-Answers_example :
    (2 ≤ 7) × (7 < 68876) × Answers disk boot extent 7 (read lost_directory false)
enumerate_deleted_directory-Answers_example =
    enumerate_deleted_directory-Answers disk boot extent 7 (read lost_directory false)
      directory_reads

root_walked : enumerate disk boot extent 2 follow ≡ ok (root_listing, true)
unfolding enumerate enumerate_loop visit next_cluster judge_link read_cluster check_cluster
    out_of_range fat_index max_clusters slots_per_cluster scan_cluster scan_slots scan_slot
    scan_entry close_cluster is_terminator scan_residue get_or_insert kind_observations as_chunks
    read_fat_entry fat_entry_offset fat_position cluster_offset cluster_position classify
    classify_deleted is_long_name is_directory first_cluster_of first_data_sector_absolute
    active_fat is_mirrored active_index mirroring_enabled last_cluster cluster_bytes
    first_data_sector div_ceil checked_sub checked_mul checked_add byte le_u16 le_u32
root_walked = refl

enumerate-Contents_example :
    (slots : List Slot) × Contents disk boot extent (2 ∷ 3 ∷ []) slots
    × (lost_entry ∷ [] ≡ listed slots)
    × ([] ≡ left_over slots)
    × (true ≡ has_terminator slots)
enumerate-Contents_example =
    enumerate-Contents disk boot extent 2 follow root_listing true root_walked
