-- ===== src/Directory/Deleted/Reads.antt =====
-- src/fat_directory.rs `enumerate_deleted_directory`: what its answers mean.
use taphonomy.Prelude.{
  ℕ, ◌+◌, ◌≤◌, ◌<◌, Bool, true, false, not, some, ok, >>=-eq-ok, ◌==◌, arith, ◌≡◌, refl, ◌≢◌, inl,
  inr, Bool-cases, Option-cases, ==→≡,
}
use taphonomy.Filesystem.{VolumeExtent}
use taphonomy.Fat.{first_data_cluster}
use taphonomy.Fat32.{Fat32BootSector, last_cluster}
use taphonomy.Evidence.{EvidenceReader}
use taphonomy.Directory.Offsets.{read_fat_entry}
use taphonomy.Directory.Walk.{Directory, first_cluster_only, fat_index, out_of_range, enumerate}
use taphonomy.Directory.Deleted.{
  DeletedDirectoryRefusal, in_use, no_self_entry, no_parent_entry, DeletedDirectory, read, refused,
  check_dots, judge_deleted, read_deleted, enumerate_deleted_directory,
}
use taphonomy.Directory.Deleted.Dots.{
  OpensWithDots, check_dots-OpensWithDots, OpensWithDots-check_dots, check_dots-ne-in_use,
}

module _ {E : Type 0} (reader : EvidenceReader E) (boot : Fat32BootSector)
    (extent : VolumeExtent) where
  abbrev Holds : ℕ → ℕ → Type 0
  Holds cluster value =
      read_fat_entry reader boot extent (fat_index reader boot extent) cluster ≡ ok value

  -- The cluster, which the FAT marks free, is enumerated and does not open with dots.
  abbrev pub NoDirectory : ℕ → Type 0
  NoDirectory cluster =
      Holds cluster 0
      × ((found : Directory × Bool) × (enumerate reader boot extent cluster first_cluster_only
            ≡ ok found)
          × (¬ OpensWithDots found.0.entries cluster))

  -- What an answer says of the evidence.
  abbrev pub Answers : ℕ → DeletedDirectory → Type 0
  Answers cluster (read listing may_continue) =
      Holds cluster 0
      × OpensWithDots listing.entries cluster
      × (enumerate reader boot extent cluster first_cluster_only ≡ ok (listing, not may_continue))
  Answers cluster (refused (in_use value)) = Holds cluster value × (value ≢ 0)
  Answers cluster (refused no_self_entry) = NoDirectory cluster
  Answers cluster (refused no_parent_entry) = NoDirectory cluster

  not_twice : (b : Bool) → not (not b) ≡ b
  not_twice true = refl
  not_twice false = refl

  module _ (cluster : ℕ) (listing : Directory) (terminated : Bool) (free : Holds cluster 0)
      (found : enumerate reader boot extent cluster first_cluster_only
        ≡ ok (listing, terminated)) where
    refused-NoDirectory :
        {why : DeletedDirectoryRefusal}
        → check_dots listing.entries cluster ≡ some why
        → NoDirectory cluster
    refused-NoDirectory e = (
      free,
      (
        (listing, terminated),
        found,
        λ opens. let passes = OpensWithDots-check_dots listing.entries cluster opens in cc,
      ),
    )

    judge_deleted-Answers :
        (d : DeletedDirectory) → judge_deleted listing terminated cluster ≡ d → Answers cluster d
    unfolding judge_deleted
    judge_deleted-Answers d h = elim (Option-cases (check_dots listing.entries cluster)) [
      | inl passes ↦
          let same : d ≡ read listing (not terminated) = cc (rw (passes, judge_deleted) at h) in
          rw (same, not_twice terminated)
            (free, check_dots-OpensWithDots listing.entries cluster passes, found)
      | inr (in_use value, e) ↦ absurd (check_dots-ne-in_use listing.entries cluster value e)
      | inr (no_self_entry, e) ↦
          let same : d ≡ refused no_self_entry = cc (rw (e, judge_deleted) at h) in
          rw same (refused-NoDirectory e)
      | inr (no_parent_entry, e) ↦
          let same : d ≡ refused no_parent_entry = cc (rw (e, judge_deleted) at h) in
          rw same (refused-NoDirectory e)
    ]

  read_deleted-Answers :
      (cluster : ℕ) (d : DeletedDirectory)
      → read_deleted reader boot extent cluster ≡ ok d
      → Answers cluster d
  unfolding read_deleted
  read_deleted-Answers cluster d h =
      let (value, held, h1) =
        >>=-eq-ok (read_fat_entry reader boot extent (fat_index reader boot extent) cluster) _ h in
      elim (Bool-cases (value == 0)) [
        | inl free ↦
            let (found, listed, h2) =
              >>=-eq-ok (enumerate reader boot extent cluster first_cluster_only) _
                (rw free at h1) in
            let is_zero = ==→≡ value 0 free in
            judge_deleted-Answers cluster found.0 found.1 (rw is_zero at held) listed d (cc)
        | inr used ↦
            let h2 = rw used at h1 in
            let same : d ≡ refused (in_use value) = cc in rw same (held, λ z. grind arith)
      ]

  -- An answer about a deleted directory is right, whichever it is. The cluster is of the data region. A
  -- listing is that of a cluster that the active FAT marks free and that opens with "." at the cluster
  -- itself and ".." behind it, and it may continue exactly where the cluster holds no terminator. A
  -- refusal names the FAT entry of a cluster in use, or is about a free cluster that does not open so.
  pub enumerate_deleted_directory-Answers :
      (cluster : ℕ) (d : DeletedDirectory)
      → enumerate_deleted_directory reader boot extent cluster ≡ ok d
      → (first_data_cluster ≤ cluster)
        × (cluster < boot.geometry.cluster_count + first_data_cluster)
        × Answers cluster d
  unfolding enumerate_deleted_directory out_of_range last_cluster
  enumerate_deleted_directory-Answers cluster d h =
      elim (Bool-cases (out_of_range reader boot extent cluster)) [
        | inl out ↦ let h' = rw (out, enumerate_deleted_directory) at h in cc
        | inr inside ↦
            let bounds : (first_data_cluster ≤ cluster)
                × (cluster < boot.geometry.cluster_count + first_data_cluster) =
              ground arith in
            (
              bounds.0,
              bounds.1,
              read_deleted-Answers cluster d (rw (inside, enumerate_deleted_directory) at h),
            )
      ]
