-- ===== src/Partition/Overlap.antt =====
-- src/partition.rs `parse_mbr`: its overlap and order anomalies, and the listed partitions.
use taphonomy.Prelude.{
  ℕ, ◌+◌, ◌≤◌, ◌<◌, true, false, some, List, [], ◌∷◌, ◌++◌, ok, if◌then◌else◌, All, All-Member,
  Member, Member-append_left, Member-append_right, arith, ◌≡◌, refl, ◌⊎◌, inl, inr, All-map,
  not_true, u64_mod,
}
use taphonomy.Partition.{
  MbrPartition, Anomaly, ParseOutcome, mbr, overlapping_partitions, entries_out_of_order, overlaps,
  overlaps_with, overlap_anomalies, bootable_anomalies, out_of_order, order_anomalies, finish,
  parse_mbr,
}
use taphonomy.Partition.Bounds.{IsListed, parse_mbr-IsListed, parse_mbr-eq-ok, finish-eq-mbr}

-- `a` stands before `b` in the table.
abbrev pub Before : MbrPartition → MbrPartition → List MbrPartition → Type 0
Before a b [] = ⊥
Before a b (x ∷ xs) = (a ≡ x) × Member b xs ⊎ Before a b xs

-- A sector number lies in a partition's extent.
abbrev pub Holds : MbrPartition → ℕ → Type 0
Holds p x = (p.start_lba ≤ x) × (x < p.start_lba + p.sector_count)

-- Each partition ends at or before the start of every later one.
abbrev pub Separate : List MbrPartition → Type 0
Separate [] = Unit
Separate (a ∷ bs) = All (λ b. a.start_lba + a.sector_count ≤ b.start_lba) bs × Separate bs

module _ (n : ℕ) (word : n < u64_mod) where
  overlaps-Holds :
      (a b : MbrPartition) (x : ℕ)
      → IsListed n a
      → IsListed n b
      → Holds a x
      → Holds b x
      → overlaps a b ≡ true
  unfolding overlaps
  overlaps-Holds a b x la lb ha hb = ground arith

  apart :
      (a b : MbrPartition)
      → IsListed n a
      → IsListed n b
      → overlaps a b ≡ false
      → a.start_lba ≤ b.start_lba
      → a.start_lba + a.sector_count ≤ b.start_lba
  unfolding overlaps
  apart a b la lb h le = ground arith

  overlaps_with-Member :
      (a b : MbrPartition) (bs : List MbrPartition)
      → overlaps a b ≡ true
      → Member b bs
      → Member (overlapping_partitions a.index b.index) (overlaps_with a bs)
  unfolding overlaps_with
  overlaps_with-Member a b [] h m = elim m [ ]
  overlaps_with-Member a b (c ∷ cs) h (inl e) = rw (← e, h) (inl refl)
  overlaps_with-Member a b (c ∷ cs) h (inr m) =
      Member-append_right _
        (if overlaps a c then overlapping_partitions a.index c.index ∷ [] else [])
        (overlaps_with a cs) (overlaps_with-Member a b cs h m)

  overlap_anomalies-Member :
      (a b : MbrPartition) (ps : List MbrPartition)
      → overlaps a b ≡ true
      → Before a b ps
      → Member (overlapping_partitions a.index b.index) (overlap_anomalies ps)
  unfolding overlap_anomalies
  overlap_anomalies-Member a b [] h m = elim m [ ]
  overlap_anomalies-Member a b (c ∷ cs) h (inl (e, m)) =
      Member-append_left _ (overlaps_with c cs) (overlap_anomalies cs)
        (rw (← e) (overlaps_with-Member a b cs h m))
  overlap_anomalies-Member a b (c ∷ cs) h (inr m) =
      Member-append_right _ (overlaps_with c cs) (overlap_anomalies cs)
        (overlap_anomalies-Member a b cs h m)

  -- Members of the parts that `finish` appends.
  finish-anomalies :
      (x : Anomaly) (d : ℕ) (ps : List MbrPartition) (an : List Anomaly)
      → Member x (overlap_anomalies ps) ⊎ Member x (order_anomalies ps)
      → Member x (finish d (some ps, an)).anomalies
  unfolding finish
  finish-anomalies x d ps an m =
      let found = overlap_anomalies ps ++ order_anomalies ps in
      Member-append_right x an (bootable_anomalies ps ++ found)
        (Member-append_right x (bootable_anomalies ps) found (either m))
    where
      either :
          Member x (overlap_anomalies ps) ⊎ Member x (order_anomalies ps)
          → Member x (overlap_anomalies ps ++ order_anomalies ps)
      either (inl m) = Member-append_left x (overlap_anomalies ps) (order_anomalies ps) m
      either (inr m) = Member-append_right x (overlap_anomalies ps) (order_anomalies ps) m

  Before-Members :
      (a b : MbrPartition) (ps : List MbrPartition) → Before a b ps → Member a ps × Member b ps
  Before-Members a b [] h = elim h [ ]
  Before-Members a b (x ∷ xs) (inl (e, m)) = (inl e, inr m)
  Before-Members a b (x ∷ xs) (inr h) = let (ma, mb) = Before-Members a b xs h in (inr ma, inr mb)

  tail_in_order :
      (a : MbrPartition) (bs : List MbrPartition)
      → out_of_order (a ∷ bs) ≡ false
      → out_of_order bs ≡ false
  unfolding out_of_order
  tail_in_order a [] h = refl
  tail_in_order a (b ∷ bs) h = ground arith

  in_order_head :
      (a b : MbrPartition) (bs : List MbrPartition)
      → out_of_order (a ∷ b ∷ bs) ≡ false
      → a.start_lba ≤ b.start_lba
  unfolding out_of_order
  in_order_head a b bs h = ground arith

  -- A table in order, whose pairs do not overlap, is separate.
  starts_after :
      (a : MbrPartition) (bs : List MbrPartition)
      → out_of_order (a ∷ bs) ≡ false
      → All (λ b. a.start_lba ≤ b.start_lba) bs
  starts_after a [] h = tt
  starts_after a (b ∷ bs) h =
      let first : a.start_lba ≤ b.start_lba = ground (arith, in_order_head a b bs) in
      (first, All-map (λ c le. omega arith) bs (starts_after b bs (tail_in_order a (b ∷ bs) h)))

  apart_from :
      (a : MbrPartition) (bs : List MbrPartition)
      → IsListed n a
      → All (IsListed n) bs
      → All (λ b. a.start_lba ≤ b.start_lba) bs
      → ((b : MbrPartition) → Member b bs → overlaps a b ≡ false)
      → All (λ b. a.start_lba + a.sector_count ≤ b.start_lba) bs
  apart_from a [] la lbs le no_overlap = tt
  apart_from a (b ∷ bs) la (lb, lbs) (le, les) no_overlap = (
    apart a b la lb (no_overlap b (inl refl)) le,
    apart_from a bs la lbs les (λ c m. no_overlap c (inr m)),
  )

  in_order-Separate :
      (ps : List MbrPartition)
      → All (IsListed n) ps
      → out_of_order ps ≡ false
      → ((a b : MbrPartition) → Before a b ps → overlaps a b ≡ false)
      → Separate ps
  in_order-Separate [] l h no_overlap = tt
  in_order-Separate (a ∷ bs) (la, lbs) h no_overlap = (
    apart_from a bs la lbs (starts_after a bs h) (λ b m. no_overlap a b (inl (refl, m))),
    in_order-Separate bs lbs (tail_in_order a bs h) (λ c b m. no_overlap c b (inr m)),
  )

  module _ (sector : List ℕ) (o : ParseOutcome) (disk : ℕ) (ps : List MbrPartition)
      (parsed : parse_mbr sector n ≡ ok o) (table : o.table ≡ mbr disk ps) where
    reported :
        (x : Anomaly)
        → Member x (overlap_anomalies ps) ⊎ Member x (order_anomalies ps)
        → Member x o.anomalies
    reported x m =
        let (found, e, f) = parse_mbr-eq-ok sector n o parsed in
        let (an, g) = finish-eq-mbr _ disk found ps (rw f at table) in
        rw (f, g) (finish-anomalies x _ ps an m)

    listed : All (IsListed n) ps
    listed = parse_mbr-IsListed sector n o disk ps parsed table

    -- Whenever two listed partitions share a sector, `parse_mbr` reports the pair, the one that
    -- stands first in the table first.
    pub parse_mbr_overlap :
        (a b : MbrPartition) (x : ℕ)
        → Before a b ps
        → Holds a x
        → Holds b x
        → Member (overlapping_partitions a.index b.index) o.anomalies
    parse_mbr_overlap a b x before ha hb =
        let (ma, mb) = Before-Members a b ps before in
        let la = All-Member (IsListed n) a ps listed ma in
        let lb = All-Member (IsListed n) b ps listed mb in
        reported _ (inl (overlap_anomalies-Member a b ps (overlaps-Holds a b x la lb ha hb) before))

    out_of_order-Member : out_of_order ps ≡ true → Member entries_out_of_order (order_anomalies ps)
    unfolding order_anomalies
    out_of_order-Member h = rw h (inl refl)

    -- Where `parse_mbr` reports neither an overlap nor entries out of order, each listed partition
    -- ends at or before the start of every partition listed after it.
    pub parse_mbr-Separate :
        ((i j : ℕ) → ¬ Member (overlapping_partitions i j) o.anomalies)
        → ¬ Member entries_out_of_order o.anomalies
        → Separate ps
    parse_mbr-Separate quiet sorted =
        in_order-Separate ps listed
          (not_true (λ h. sorted (reported _ (inr (out_of_order-Member h)))))
          (λ a b before. not_true (λ h.
            quiet a.index b.index (reported _ (inl (overlap_anomalies-Member a b ps h before)))))
