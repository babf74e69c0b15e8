-- ===== src/Analysis/Walk/Reads.antt =====
-- src/analysis.rs `report_subdirectory`: the listing that it reads.
use taphonomy.Prelude.{
  ◌≤◌, ◌<◌, ℕ, ◌+◌, Bool, true, Result, ok, err, >>=-eq-ok, ◌==◌, if◌then◌else◌, All, ◌≡◌, refl,
  sym, ap, ◌∙◌, inl, inr, Bool-cases, Option-cases,
}
use taphonomy.Filesystem.{VolumeExtent}
use taphonomy.Fat32.{Fat32BootSector}
use taphonomy.Evidence.{EvidenceReader}
use taphonomy.Directory.Offsets.{DirectoryError, read_fat_entry}
use taphonomy.Directory.Walk.{
  Chain, Directory, contains, follow, first_cluster_only, fat_index, out_of_range, enumerate,
  enumerate_directory,
}
use taphonomy.Directory.Walk.First.{enumerate-first}
use taphonomy.Fat.{first_data_cluster}
use taphonomy.Directory.Walk.Sizes.{HasSize, enumerate-HasSize}
use taphonomy.Directory.Deleted.{
  DeletedDirectory, check_dots, judge_deleted, read_deleted, enumerate_deleted_directory,
}
use taphonomy.Analysis.Events.{NotReadReason}
use taphonomy.Analysis.Walk.{Pending, deleted_listing, live_listing, read_listing}

-- Every entry of a directory, before its terminator and behind it, states a size of 32 bits.
abbrev pub AreSized : Directory → Type 0
AreSized d = All HasSize d.entries × All HasSize d.residue

abbrev ok_pair : {E : Type 0} → Directory × Bool → Result (NotReadReason E) (Directory × Bool)
ok_pair pair = ok pair

ok-injective : {E : Type 0} {a b : Directory × Bool} → ok_pair {E = E} a ≡ ok b → a ≡ b
ok-injective h = cc

read-injective :
    (listing d : Directory) (n m : Bool)
    → DeletedDirectory.read listing n ≡ DeletedDirectory.read d m
    → listing ≡ d
read-injective listing d n m h = cc

judge_deleted-read :
    (listing d : Directory) (terminated : Bool) (cluster : ℕ) (m : Bool)
    → judge_deleted listing terminated cluster ≡ DeletedDirectory.read d m
    → listing ≡ d
unfolding judge_deleted
judge_deleted-read listing d terminated cluster m h =
    elim (Option-cases (check_dots listing.entries cluster)) [
      | inl passes ↦ read-injective listing d _ m (rw (passes, judge_deleted) at h)
      | inr (refusal, refused) ↦ let h' = rw (refused, judge_deleted) at h in cc
    ]

-- A listing that was read from this first cluster.
pub record IsListing (boot : Fat32BootSector) (first : ℕ) (d : Directory) : Type 0 where
  pub sized : AreSized d
  pub from : first_data_cluster ≤ first
  pub to : first < boot.geometry.cluster_count + first_data_cluster
  pub visited : contains d.clusters first ≡ true

enumerate-IsListing :
    {E : Type 0} (reader : EvidenceReader E) (boot : Fat32BootSector) (extent : VolumeExtent)
    (first : ℕ) (chain : Chain) (d : Directory) (ended : Bool)
    → enumerate reader boot extent first chain ≡ ok (d, ended)
    → IsListing boot first d
enumerate-IsListing reader boot extent first chain d ended h =
    let (from, to, visited) = enumerate-first reader boot extent first chain d ended h in
    record {
      sized = enumerate-HasSize reader boot extent first chain d ended h;
      from = from;
      to = to;
      visited = visited;
    }

module _ {E : Type 0} (reader : EvidenceReader E) (boot : Fat32BootSector)
    (extent : VolumeExtent) where
  live-IsListing :
      (first : ℕ) (d : Directory)
      → enumerate_directory reader boot extent first ≡ ok d
      → IsListing boot first d
  unfolding enumerate_directory
  live-IsListing first d h =
      let ((e, ended), found, same) = >>=-eq-ok (enumerate reader boot extent first follow) _ h in
      let is : e ≡ d = cc in
      rw is at (enumerate-IsListing reader boot extent first follow e ended found)

  deleted-IsListing :
      (first : ℕ) (d : Directory) (m : Bool)
      → enumerate_deleted_directory reader boot extent first ≡ ok (DeletedDirectory.read d m)
      → IsListing boot first d
  unfolding enumerate_deleted_directory read_deleted
  deleted-IsListing first d m h = elim (Bool-cases (out_of_range reader boot extent first)) [
    | inl out ↦ let h' = rw (out, enumerate_deleted_directory) at h in cc
    | inr inside ↦
        let h1 = rw (inside, enumerate_deleted_directory) at h in
        let (entry, free, h2) =
          >>=-eq-ok (read_fat_entry reader boot extent (fat_index reader boot extent) first) _ h1 in
        elim (Bool-cases (entry == 0)) [
          | inr used ↦ let h3 = rw used at h2 in cc
          | inl unused ↦
              let ((e, ended), found, judged) =
                >>=-eq-ok (enumerate reader boot extent first first_cluster_only) _
                  (rw unused at h2) in
              let is = judge_deleted-read e d ended first m cc in
              rw is at
                (enumerate-IsListing reader boot extent first first_cluster_only e ended found)
        ]
  ]

  deleted_listing-IsListing :
      (first : ℕ) (d : Directory) (m : Bool) (r : Result (DirectoryError E) DeletedDirectory)
      → enumerate_deleted_directory reader boot extent first ≡ r
      → deleted_listing r ≡ ok (d, m)
      → IsListing boot first d
  unfolding deleted_listing
  deleted_listing-IsListing first d m (ok (DeletedDirectory.read listing n)) is h =
      let pair = ok-injective h in rw (ap (λ r. r.0) pair) at (deleted-IsListing first listing n is)
  deleted_listing-IsListing first d m (ok (DeletedDirectory.refused reason)) is h = cc
  deleted_listing-IsListing first d m (err e) is h = cc

  live_listing-IsListing :
      (first : ℕ) (d : Directory) (m : Bool) (r : Result (DirectoryError E) Directory)
      → enumerate_directory reader boot extent first ≡ r
      → live_listing r ≡ ok (d, m)
      → IsListing boot first d
  unfolding live_listing
  live_listing-IsListing first d m (ok listing) is h =
      let pair = ok-injective h in rw (ap (λ r. r.0) pair) at (live-IsListing first listing is)
  live_listing-IsListing first d m (err e) is h = cc

  pub read_listing-IsListing :
      (next : Pending) (d : Directory) (m : Bool)
      → read_listing reader boot extent next ≡ ok (d, m)
      → IsListing boot next.first_cluster d
  unfolding read_listing
  read_listing-IsListing next d m h =
      let chosen = λ (b : Bool).
        if b
        then deleted_listing (enumerate_deleted_directory reader boot extent next.first_cluster)
        else live_listing (enumerate_directory reader boot extent next.first_cluster) in
      elim (Bool-cases next.deleted) [
        | inl gone ↦
            deleted_listing-IsListing next.first_cluster d m _ refl (sym (ap chosen gone) ∙ h)
        | inr live ↦ live_listing-IsListing next.first_cluster d m _ refl (sym (ap chosen live) ∙ h)
      ]
