-- ===== src/Partition/Bounds.antt =====
-- src/partition.rs `parse_mbr`: the partitions that it lists.
use taphonomy.Prelude.{
  ℕ, zero, suc, ◌+◌, ◌*◌, ◌≤◌, ◌<◌, Option, none, some, List, [], ◌∷◌, ◌++◌, ok, All, All-append,
  Bytes, drop, le_u32, le_u32-lt, u32_mod, arith, ◌≡◌, refl, ◌≢◌, ◌⊎◌, inl, inr, Result-cases,
  All-take, All-drop, IsByte,
}
use taphonomy.Partition.{
  MbrPartition, Anomaly, ParseError, ParseOutcome, Step, stop_gpt, skip, list, fail, mbr,
  entry_count, entry_size, table_offset, disk_signature_offset, read_entry, judge, judge_extent,
  entry_at, parse_slots, finish, parse_mbr,
}

-- What the table promises of an entry that it lists.
pub record IsListed (image_sectors : ℕ) (p : MbrPartition) : Type 0 where
  pub nonempty : 0 < p.sector_count
  pub within : p.start_lba + p.sector_count ≤ image_sectors
  pub used : p.partition_type ≢ 0
  pub plain : p.partition_type ≢ 0xEE

-- The entry's fields are 32-bit words.
abbrev pub IsWords : MbrPartition → Type 0
IsWords p = (p.start_lba < u32_mod) × (p.sector_count < u32_mod)

judge-IsListed :
    (entry : List ℕ) (p q : MbrPartition) (n : ℕ) (found : List Anomaly)
    → judge entry p n ≡ list q found
    → IsListed n q
unfolding judge judge_extent
judge-IsListed entry p q n found h = ground arith

judge-fail :
    (entry : List ℕ) (p : MbrPartition) (n : ℕ) (e : ParseError)
    → IsWords p
    → judge entry p n ≢ fail e
unfolding judge judge_extent
judge-fail entry p n e w h = ground arith

pub read_entry-IsWords : (entry : List ℕ) (slot : ℕ) → Bytes entry → IsWords (read_entry entry slot)
unfolding read_entry
read_entry-IsWords entry slot h = (le_u32-lt entry 8 h, le_u32-lt entry 12 h)

pub entry_at-Bytes : (sector : List ℕ) (slot : ℕ) → Bytes sector → Bytes (entry_at sector slot)
unfolding entry_at
entry_at-Bytes sector slot h =
    let from = table_offset + slot * entry_size in
    All-take IsByte entry_size (drop from sector) (All-drop IsByte from sector h)

pub Step-cases :
    (s : Step)
    → (s ≡ stop_gpt)
      ⊎ ((found : List Anomaly) × (s ≡ skip found))
      ⊎ ((p : MbrPartition) × (found : List Anomaly) × (s ≡ list p found))
      ⊎ ((e : ParseError) × (s ≡ fail e))
Step-cases stop_gpt = inl refl
Step-cases (skip found) = inr (inl (found, refl))
Step-cases (list p found) = inr (inr (inl (p, found, refl)))
Step-cases (fail e) = inr (inr (inr (e, refl)))

pub finish-eq-mbr :
    (d disk : ℕ) (found : Option (List MbrPartition) × List Anomaly) (ps : List MbrPartition)
    → (finish d found).table ≡ mbr disk ps
    → (an : List Anomaly) × (found ≡ (some ps, an))
unfolding finish
finish-eq-mbr d disk (none, an) ps h = cc
finish-eq-mbr d disk (some qs, an) ps h = (an, ground arith)

module _ (sector : List ℕ) (n : ℕ) where
  abbrev at_slot : ℕ → Step
  at_slot slot = judge (entry_at sector slot) (read_entry (entry_at sector slot) slot) n

  parse_slots-IsListed :
      (left slot : ℕ) (ps qs : List MbrPartition) (an found : List Anomaly)
      → All (IsListed n) ps
      → parse_slots sector n left slot ps an ≡ ok (some qs, found)
      → All (IsListed n) qs
  unfolding parse_slots
  parse_slots-IsListed zero slot ps qs an found h e = let same : ps ≡ qs = cc in rw (← same) h
  parse_slots-IsListed (suc left) slot ps qs an found h e = elim (Step-cases (at_slot slot)) [
    | inl j ↦ let k = rw (j, parse_slots) at e in cc
    | inr (inl (new, j)) ↦
        parse_slots-IsListed left (slot + 1) ps qs (an ++ new) found h (rw (j, parse_slots) at e)
    | inr (inr (inl (p, new, j))) ↦
        parse_slots-IsListed left (slot + 1) (ps ++ (p ∷ [])) qs (an ++ new) found
          (All-append (IsListed n) ps (p ∷ []) h (judge-IsListed _ _ p n new j, tt))
          (rw (j, parse_slots) at e)
    | inr (inr (inr (x, j))) ↦ let k = rw (j, parse_slots) at e in cc
  ]

  -- What a successful `parse_mbr` went through.
  pub parse_mbr-eq-ok :
      (o : ParseOutcome)
      → parse_mbr sector n ≡ ok o
      → (found : Option (List MbrPartition) × List Anomaly) × (parse_slots sector n entry_count 0 []
            []
          ≡ ok found)
        × (o ≡ finish (le_u32 sector disk_signature_offset) found)
  unfolding parse_mbr
  parse_mbr-eq-ok o h = elim (Result-cases (parse_slots sector n entry_count 0 [] [])) [
    | inl (found, e) ↦ (found, e, ground (arith, e))
    | inr (x, e) ↦ absurd (ground (arith, e))
  ]

  -- Every partition that `parse_mbr` lists has sectors, lies inside the evidence, and is neither an
  -- unused entry nor the protective entry of a GPT.
  pub parse_mbr-IsListed :
      (o : ParseOutcome) (disk : ℕ) (ps : List MbrPartition)
      → parse_mbr sector n ≡ ok o
      → o.table ≡ mbr disk ps
      → All (IsListed n) ps
  parse_mbr-IsListed o disk ps h t =
      let (found, e, f) = parse_mbr-eq-ok o h in
      let (an, g) = finish-eq-mbr (le_u32 sector disk_signature_offset) disk found ps (rw f at t) in
      parse_slots-IsListed entry_count 0 [] ps [] an tt (rw g at e)
