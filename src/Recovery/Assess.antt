-- ===== src/Recovery/Assess.antt =====
-- src/fat_recovery.rs `assess_listed`: which answer it gives, and on what evidence.
use taphonomy.Prelude.{
  ℕ, zero, suc, ◌+◌, ◌-◌, ◌≤◌, ◌<◌, Option, none, some, ok, ◌==◌, arith, ◌≡◌, ◌⊎◌, inl, inr,
  Bool-cases, Option-cases, Result-cases, >>=-eq-ok, ==→≡, ◌≢◌,
}
use taphonomy.Filesystem.{VolumeExtent}
use taphonomy.Fat32.{Fat32BootSector}
use taphonomy.Evidence.{EvidenceReader}
use taphonomy.Directory.Entry.{Entry}
use taphonomy.Directory.Offsets.{read_fat_entry}
use taphonomy.Directory.Walk.{fat_index}
use taphonomy.Fat.Geometry.{IsGeometry}
use taphonomy.Recovery.Run.{IsRun, States, eligibility-IsRun, run_length_exact}
use taphonomy.Recovery.{
  ClusterRun, Listing, refused, run, eligibility, Assessment, ineligible, run_broken, recoverable,
  run_length, first_allocated, assess_run, assess_listed,
}

module _ {E : Type 0} (reader : EvidenceReader E) (boot : Fat32BootSector)
    (extent : VolumeExtent) where
  -- The active FAT's entry for a cluster, as it is read.
  abbrev pub Holds : ℕ → ℕ → Type 0
  Holds cluster value =
      read_fat_entry reader boot extent (fat_index reader boot extent) cluster ≡ ok value

  -- The FAT marks free each of so many clusters from the given one on.
  abbrev pub Free : ℕ → ℕ → Type 0
  Free from count = (k : ℕ) → k < count → Holds (from + k) 0

  step :
      (left from : ℕ) (found : Option ℕ)
      → first_allocated reader boot extent (suc left) from ≡ ok found
      → ((value : ℕ) × Holds from value × (value ≢ 0) × (found ≡ some from))
        ⊎ (Holds from 0 × (first_allocated reader boot extent left (from + 1) ≡ ok found))
  unfolding first_allocated
  step left from found h =
      let (value, held, h1) =
        >>=-eq-ok (read_fat_entry reader boot extent (fat_index reader boot extent) from) _ h in
      elim (Bool-cases (value == 0)) [
        | inl free ↦ let is_zero = ==→≡ value 0 free in inr (rw is_zero at held, rw free at h1)
        | inr used ↦ let h2 = rw used at h1 in inl (value, held, (λ z. grind arith), cc)
      ]

  Free-none : (from : ℕ) → Free from 0
  Free-none from k h = absurd (omega arith)

  Free-suc : (from count : ℕ) → Holds from 0 → Free (from + 1) count → Free from (count + 1)
  Free-suc from count first rest zero h = let same : from + 0 ≡ from = omega arith in rw same first
  Free-suc from count first rest (suc k) h =
      let same : from + suc k ≡ from + 1 + k = omega arith in rw same (rest k (omega arith))

  first_allocated-none :
      (left from : ℕ) → first_allocated reader boot extent left from ≡ ok none → Free from left
  first_allocated-none zero from h = Free-none from
  first_allocated-none (suc left) from h = elim (step left from none h) [
    | inl (value, held, nonzero, is) ↦ cc
    | inr (held, rest) ↦
        let all = Free-suc from left held (first_allocated-none left (from + 1) rest) in
        let same : left + 1 ≡ suc left = omega arith in rw same at all
  ]

  -- The first cluster from `from` on, of so many, that the FAT does not mark free.
  pub record IsFirstUsed (from count cluster : ℕ) : Type 0 where
    pub lower : from ≤ cluster
    pub upper : cluster < from + count
    pub value : ℕ
    pub used : (value ≢ 0) × Holds cluster value
    pub before : Free from (cluster - from)

  first_allocated-some :
      (left from cluster : ℕ)
      → first_allocated reader boot extent left from ≡ ok (some cluster)
      → IsFirstUsed from left cluster
  first_allocated-some zero from cluster h = unfold first_allocated in cc
  first_allocated-some (suc left) from cluster h = elim (step left from (some cluster) h) [
    | inl (value, held, nonzero, is) ↦
        let same : cluster ≡ from = cc in
        let gap : cluster - from ≡ 0 = omega arith in
        record {
          lower = omega arith;
          upper = omega arith;
          value = value;
          used = (nonzero, rw same held);
          before = rw gap (Free-none from);
        }
    | inr (held, rest) ↦
        let is = first_allocated-some left (from + 1) cluster rest in
        let from_next = is.lower in
        let to = is.upper in
        let gap : cluster - from ≡ cluster - (from + 1) + 1 = omega arith in
        record {
          lower = omega arith;
          upper = omega arith;
          value = is.value;
          used = is.used;
          before = rw gap (Free-suc from (cluster - (from + 1)) held is.before);
        }
  ]

  assess_run-cases :
      (r : ClusterRun) (a : Assessment)
      → assess_run reader boot extent r ≡ ok (some a)
      → ((a ≡ recoverable (record { inner = r })) × Free r.first_cluster (run_length r))
        ⊎ ((c : ℕ) × (a ≡ run_broken r c) × IsFirstUsed r.first_cluster (run_length r) c)
  unfolding assess_run
  assess_run-cases r a h =
      elim (Result-cases (first_allocated reader boot extent (run_length r) r.first_cluster)) [
        | inl (found, is) ↦ elim (Option-cases found) [
          | inl no_cluster ↦
              let h' = rw (is, no_cluster, assess_run) at h in
              inl (cc, first_allocated-none (run_length r) r.first_cluster (rw no_cluster at is))
          | inr (c, at_c) ↦
              let h' = rw (is, at_c, assess_run) at h in
              inr (c, cc, first_allocated-some (run_length r) r.first_cluster c (rw at_c at is))
        ]
        | inr (e, is) ↦ let h' = rw (is, assess_run) at h in cc
      ]

  -- What an assessment says of the entry, of the volume and of its FAT.
  abbrev pub Judged : Entry → Listing → Assessment → Type 0
  Judged entry listing (ineligible reason) = eligibility entry listing boot ≡ some (refused reason)
  Judged entry listing (run_broken r cluster) =
      IsRun boot r
      × States entry.kind listing r.first_cluster r.file_size
      × IsFirstUsed r.first_cluster r.cluster_count cluster
  Judged entry listing (recoverable found) =
      IsRun boot found.inner
      × States entry.kind listing found.inner.first_cluster found.inner.file_size
      × Free found.inner.first_cluster found.inner.cluster_count

  module _ (v : IsGeometry boot.geometry) (entry : Entry) (listing : Listing) where
    assess_run-Judged :
        (r : ClusterRun) (a : Assessment)
        → eligibility entry listing boot ≡ some (run r)
        → assess_run reader boot extent r ≡ ok (some a)
        → Judged entry listing a
    assess_run-Judged r a e h =
        let (is, stated) = eligibility-IsRun boot v entry listing r e in
        let exact = run_length_exact boot r is in
        elim (assess_run-cases r a h) [
          | inl (same, free) ↦ rw same (is, stated, rw exact at free)
          | inr (c, same, used) ↦ rw same (is, stated, rw exact at used)
        ]

    -- An assessment that is given is right, whichever it is: an ineligible entry is one that the
    -- eligibility test refuses with that reason; a recoverable one states a lost file, its run lies in
    -- the data region and holds that file, and the active FAT marks every cluster of the run free; a
    -- broken one is such a run too, and the cluster named is the first of the run whose FAT entry is
    -- not zero.
    pub assess_listed-Judged :
        (a : Assessment)
        → assess_listed reader boot extent entry listing ≡ ok (some a)
        → Judged entry listing a
    unfolding assess_listed
    assess_listed-Judged a h = elim (Option-cases (eligibility entry listing boot)) [
      | inl unasked ↦ let h' = rw (unasked, assess_listed) at h in cc
      | inr (refused reason, e) ↦
          let h' = rw (e, assess_listed) at h in let same : a ≡ ineligible reason = cc in rw same e
      | inr (run r, e) ↦ assess_run-Judged r a e (rw (e, assess_listed) at h)
    ]
