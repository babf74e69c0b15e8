-- ===== src/Recovery/Run.antt =====
-- src/fat_recovery.rs `eligibility`: the run that an entry implies.
use taphonomy.Prelude.{
  ℕ, ◌+◌, ◌-◌, ◌*◌, ◌%◌, ◌≤◌, ◌<◌, true, false, some, ltb, leb, ◌==◌, div_ceil, u32_mod, arith, ◌≡◌,
  refl, sym, ◌∙◌, ap, inl, inr, Bool-cases, leb→lt,
}
use taphonomy.Fat.{cluster_bytes, first_data_cluster}
use taphonomy.Fat.Geometry.{IsGeometry, cluster_bytes_bounds}
use taphonomy.Fat32.{Fat32BootSector, last_cluster}
use taphonomy.Directory.Entry.{Entry, EntryKind, DeletedKind, deleted}
use taphonomy.Recovery.{
  ClusterRun, last_of_run, Listing, orphaned, walked, run, Asked, not_asked, refuse, fields, asked,
  implied_run, judge_fields, eligibility, run_length,
}

div_ceil_bounds : (a b : ℕ) → 0 < b → (a ≤ div_ceil a b * b) × (div_ceil a b * b < a + b)
unfolding div_ceil
div_ceil_bounds a b h = grind arith

positive : (n b : ℕ) → 0 < n * b → 1 ≤ n
positive n b h = grind arith

-- What a run says of the entry and of the volume.
pub record IsRun (boot : Fat32BootSector) (r : ClusterRun) : Type 0 where
  pub data_from : first_data_cluster ≤ r.first_cluster
  pub data_to : r.first_cluster + r.cluster_count ≤ boot.geometry.cluster_count + first_data_cluster
  pub nonempty : (1 ≤ r.cluster_count) × (1 ≤ r.file_size)
  pub covers : r.cluster_count * cluster_bytes boot.geometry ≡ r.file_size + r.slack_bytes
  pub slack : r.slack_bytes < cluster_bytes boot.geometry
  pub last : last_of_run r + 1 ≡ r.first_cluster + r.cluster_count

-- The loops over a run's clusters take `cluster_count` steps.
pub run_length_exact :
    (boot : Fat32BootSector) (r : ClusterRun) → IsRun boot r → run_length r ≡ r.cluster_count
unfolding run_length
run_length_exact boot r is = omega (arith, is.last)

module _ (boot : Fat32BootSector) (v : IsGeometry boot.geometry) where
  few_clusters : boot.geometry.cluster_count + first_data_cluster < u32_mod
  few_clusters =
      let regions = v.regions in
      let total = v.total_word in
      let reserved = v.reserved in
      let data_present = v.data_present in
      let fats : 1 ≤ boot.geometry.fat_count * boot.geometry.fat_size =
        grind (arith, v.fats, v.fat_sectors) in
      let count : boot.geometry.cluster_count ≤ boot.geometry.data_sectors =
        grind (arith, v.count) in
      omega arith

  -- The run before its fields are narrowed to `u32`, which changes none of them.
  abbrev pub wide : ℕ → ℕ → ClusterRun
  wide first size = record {
    first_cluster = first;
    cluster_count = div_ceil size (cluster_bytes boot.geometry) % u32_mod;
    file_size = size;
    slack_bytes =
        (div_ceil size (cluster_bytes boot.geometry) * cluster_bytes boot.geometry - size)
        % u32_mod;
  }

  last_of_run_exact :
      (r : ClusterRun)
      → 1 ≤ r.cluster_count
      → r.first_cluster + r.cluster_count < u32_mod
      → last_of_run r + 1 ≡ r.first_cluster + r.cluster_count
  unfolding last_of_run
  last_of_run_exact r some_clusters word = ground arith

  wide-IsRun :
      (first size : ℕ)
      → first_data_cluster ≤ first
      → 1 ≤ size
      → first + div_ceil size (cluster_bytes boot.geometry) - 1
        < boot.geometry.cluster_count + first_data_cluster
      → IsRun boot (wide first size)
  wide-IsRun first size from some_bytes fits =
      let bytes = cluster_bytes_bounds boot.geometry v in
      let (covers, tight) = div_ceil_bounds size (cluster_bytes boot.geometry) (omega arith) in
      let few = few_clusters in
      let n = div_ceil size (cluster_bytes boot.geometry) in
      let n_pos : 1 ≤ n = positive n (cluster_bytes boot.geometry) (omega arith) in
      let exact : n % u32_mod ≡ n = omega arith in
      let slack_exact : (n * cluster_bytes boot.geometry - size) % u32_mod
          ≡ n * cluster_bytes boot.geometry - size =
        omega arith in
      record {
        data_from = from;
        data_to = omega arith;
        nonempty = (omega arith, some_bytes);
        covers =
            ap (λ (k : ℕ). k * cluster_bytes boot.geometry) exact
            ∙ (let sum : n * cluster_bytes boot.geometry
                    ≡ size + (n * cluster_bytes boot.geometry - size) =
                  omega arith in
                sum ∙ ap (λ (k : ℕ). size + k) (sym slack_exact));
        slack = omega arith;
        last = last_of_run_exact (wide first size) (omega arith) (omega arith);
      }

  implied_run-IsRun :
      (first size : ℕ) (r : ClusterRun)
      → first_data_cluster ≤ first
      → 1 ≤ size
      → implied_run boot first size ≡ run r
      → IsRun boot r × (r.first_cluster ≡ first) × (r.file_size ≡ size)
  unfolding implied_run
  implied_run-IsRun first size r from some_bytes h =
      elim (Bool-cases (
        leb (last_cluster boot.geometry)
          (first + div_ceil size (cluster_bytes boot.geometry) - 1))) [
            | inl past ↦ let h' = rw (past, implied_run) at h in cc
            | inr fits ↦
                let same : r ≡ wide first size = cc (rw (fits, implied_run) at h) in
                let inside = leb→lt _ _ fits in
                rw same (
                  wide-IsRun first size from some_bytes (unfold last_cluster in inside),
                  refl,
                  refl,
                )
          ]

-- The entry states a lost file's first cluster and size: a deleted file, or a live file that stands in
-- an orphaned listing. Directories, labels and long-name components state none.
abbrev pub States : EntryKind → Listing → ℕ → ℕ → Type 0
States (deleted (DeletedKind.short_name surviving false f z nt)) listing first size =
    (f ≡ first) × (z ≡ size)
States (EntryKind.short_name name raw false f z nt) orphaned first size = (f ≡ first) × (z ≡ size)
States _ listing first size = ⊥

asked-States :
    (kind : EntryKind) (listing : Listing) (first size : ℕ)
    → asked kind listing ≡ fields false first size
    → States kind listing first size
unfolding asked
asked-States (deleted (DeletedKind.short_name s false f z nt)) listing first size h = ground arith
asked-States (deleted (DeletedKind.short_name s true f z nt)) listing first size h = cc
asked-States (deleted (DeletedKind.long_name c)) listing first size h = cc
asked-States (deleted (DeletedKind.volume_label s)) listing first size h = cc
asked-States (deleted (DeletedKind.invalid a)) listing first size h = cc
asked-States (EntryKind.short_name name raw false f z nt) orphaned first size h = ground arith
asked-States (EntryKind.short_name name raw false f z nt) walked first size h = cc
asked-States (EntryKind.short_name name raw true f z nt) listing first size h = cc
asked-States EntryKind.terminator listing first size h = cc
asked-States (EntryKind.long_name o l c) listing first size h = cc
asked-States (EntryKind.volume_label n raw) listing first size h = cc
asked-States (EntryKind.invalid a) listing first size h = cc

States-asked :
    (kind : EntryKind) (listing : Listing) (first size : ℕ)
    → States kind listing first size
    → asked kind listing ≡ fields false first size
unfolding asked
States-asked (deleted (DeletedKind.short_name s false f z nt)) listing first size h = ground arith
States-asked (EntryKind.short_name name raw false f z nt) orphaned first size h = ground arith
States-asked kind listing first size h = elim h [ ]

module _ (boot : Fat32BootSector) (v : IsGeometry boot.geometry) where
  judge_fields-IsRun :
      (first size : ℕ) (r : ClusterRun)
      → judge_fields boot false first size ≡ run r
      → IsRun boot r × (r.first_cluster ≡ first) × (r.file_size ≡ size)
  unfolding judge_fields
  judge_fields-IsRun first size r h = elim (Bool-cases (size == 0)) [
    | inl empty ↦ let h' = rw (empty, judge_fields) at h in cc
    | inr some_bytes ↦ elim (Bool-cases (ltb first first_data_cluster)) [
      | inl low ↦ let h' = rw (some_bytes, low, judge_fields) at h in cc
      | inr high ↦
          implied_run-IsRun boot v first size r (grind arith) (grind arith)
            (rw (some_bytes, high, judge_fields) at h)
    ]
  ]

  module _ (entry : Entry) (listing : Listing) where
    -- Where an entry is found eligible, it states a lost file of at least one byte, and the run begins
    -- at the stated cluster, lies in the data region, and holds the stated size and its slack exactly,
    -- the slack less than a cluster.
    pub eligibility-IsRun :
        (r : ClusterRun)
        → eligibility entry listing boot ≡ some (run r)
        → IsRun boot r × States entry.kind listing r.first_cluster r.file_size
    unfolding eligibility judge_fields
    eligibility-IsRun r h = go (asked entry.kind listing) refl
      where
        go :
            (a : Asked)
            → asked entry.kind listing ≡ a
            → IsRun boot r × States entry.kind listing r.first_cluster r.file_size
        go not_asked e = let h' = rw (e, eligibility) at h in cc
        go (refuse reason) e = let h' = rw (e, eligibility) at h in cc
        go (fields true first size) e = let h' = rw (e, eligibility) at h in cc
        go (fields false first size) e =
            let h' : judge_fields boot false first size ≡ run r = cc (rw (e, eligibility) at h) in
            let (is, same_first, same_size) = judge_fields-IsRun first size r h' in
            (is, rw (same_first, same_size) (asked-States entry.kind listing first size e))

    -- An entry that states a lost file of at least one byte, whose first cluster is not reserved and
    -- whose clusters the data region holds, is found eligible.
    pub eligibility_offers :
        (first size : ℕ)
        → States entry.kind listing first size
        → 1 ≤ size
        → first_data_cluster ≤ first
        → first + div_ceil size (cluster_bytes boot.geometry)
          ≤ boot.geometry.cluster_count + first_data_cluster
        → eligibility entry listing boot ≡ some (run (wide boot v first size))
    unfolding eligibility judge_fields implied_run last_cluster
    eligibility_offers first size s some_bytes from fits =
        let e = States-asked entry.kind listing first size s in
        let e0 : (size == 0) ≡ false = grind arith in
        let e1 : ltb first first_data_cluster ≡ false = grind arith in
        let e2 : leb (boot.geometry.cluster_count + first_data_cluster)
              (first + div_ceil size (cluster_bytes boot.geometry) - 1)
            ≡ false =
          grind arith in
        rw (e, eligibility, judge_fields, e0, e1, implied_run, e2) refl
