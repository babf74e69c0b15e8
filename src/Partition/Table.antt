-- ===== src/Partition/Table.antt =====
-- src/partition.rs `parse_mbr`: its table, described without the loop, and its errors.
use taphonomy.Prelude.{
  ℕ, zero, suc, ◌+◌, ◌≤◌, ◌<◌, Bool, true, false, ◌&&◌, not, Option, none, some, List, [], ◌∷◌,
  ◌++◌, ok, err, ltb, leb, ◌==◌, if◌then◌else◌, bytes_eq, bytes_eq-cases, ltb→lt, ltb→le, le→ltb,
  lt→ltb, ◌↔◌, err-injective, length, Bytes, le_u32, slice, any, arith, ◌≡◌, refl, ◌≢◌, ◌⊎◌, inl,
  inr, Bool-cases, ◌∙◌,
}
use taphonomy.Partition.{
  MbrPartition, Anomaly, ParseError, ParseOutcome, Slots, stop_gpt, skip, list, mbr, gpt_protective,
  short_sector, missing_signature, sector_size, entry_count, signature, signature_offset,
  disk_signature_offset, non_zero_unused_entry, zero_length_partition, partition_beyond_end,
  read_entry, judge, judge_extent, boot_anomalies, entry_at, parse_slots, finish, parse_mbr,
  type_gpt_protective,
}
use taphonomy.Partition.Bounds.{IsWords, read_entry-IsWords, entry_at-Bytes}
use mathlib.Core.List.{append_assoc, append-nil}

abbrev pub is_gpt : MbrPartition → Bool
is_gpt p = p.partition_type == type_gpt_protective

-- The entry is used, has sectors, and the evidence holds them.
abbrev pub is_listable : ℕ → MbrPartition → Bool
is_listable n p =
    not (p.partition_type == 0) && not (p.sector_count == 0) && leb (p.start_lba + p.sector_count) n

-- The entries of the slots from `slot` on.
unfoldable pub declared : List ℕ → ℕ → ℕ → List MbrPartition
declared sector zero slot = []
declared sector (suc left) slot =
    read_entry (entry_at sector slot) slot ∷ declared sector left (slot + 1)

unfoldable pub select : ℕ → List MbrPartition → List MbrPartition
select n [] = []
select n (p ∷ ps) = (if is_listable n p then p ∷ [] else []) ++ select n ps

abbrev skipped : List ℕ → MbrPartition → ℕ → List Anomaly
skipped entry p n =
    if p.partition_type == 0
    then (if any (λ b. not (b == 0)) entry then non_zero_unused_entry p.index ∷ [] else [])
    else if p.sector_count == 0
    then zero_length_partition p.index p.partition_type ∷ []
    else partition_beyond_end p.index p.start_lba p.sector_count n ∷ []

module _ (entry : List ℕ) (p : MbrPartition) (n : ℕ) where
  judge_gpt : is_gpt p ≡ true → judge entry p n ≡ stop_gpt
  unfolding judge
  judge_gpt g = ground arith

  judge_listable :
      IsWords p
      → is_gpt p ≡ false
      → is_listable n p ≡ true
      → judge entry p n ≡ list p (boot_anomalies p)
  unfolding judge judge_extent
  judge_listable w g l = ground arith

  judge-skipped :
      IsWords p
      → is_gpt p ≡ false
      → is_listable n p ≡ false
      → judge entry p n ≡ skip (skipped entry p n)
  unfolding judge judge_extent
  judge-skipped w g l = ground arith

-- The sectors that are refused, each with its error.
abbrev pub Refused : List ℕ → ParseError → Type 0
Refused sector x =
    (length sector < 512) × (x ≡ short_sector (length sector))
    ⊎ (512 ≤ length sector)
      × (slice sector 510 2 ≢ 0x55 ∷ 0xAA ∷ [])
      × (x ≡ missing_signature (slice sector 510 2))

module _ (sector : List ℕ) (n : ℕ) (bytes : Bytes sector) where
  abbrev here : ℕ → MbrPartition
  here slot = read_entry (entry_at sector slot) slot

  words : (slot : ℕ) → IsWords (here slot)
  words slot = read_entry-IsWords (entry_at sector slot) slot (entry_at-Bytes sector slot bytes)

  -- What the loop returns: the GPT answer, or the entries so far and those selected from the rest.
  abbrev Gives : List MbrPartition → List MbrPartition → Slots → Type 0
  Gives ds ps r =
      (an : List Anomaly) × (r
        ≡ ok (if any is_gpt ds then (none, an) else (some (ps ++ select n ds), an)))

  module _ (left slot : ℕ) (ps : List MbrPartition) (an : List Anomaly) where
    step_gpt :
        is_gpt (here slot) ≡ true → parse_slots sector n (suc left) slot ps an ≡ ok (none, an)
    unfolding parse_slots
    step_gpt g = rw (judge_gpt (entry_at sector slot) (here slot) n g, parse_slots) refl

    step_listable :
        is_gpt (here slot) ≡ false
        → is_listable n (here slot) ≡ true
        → parse_slots sector n (suc left) slot ps an
          ≡ parse_slots sector n left
              (slot + 1)
              (ps ++ (here slot ∷ []))
              (an ++ boot_anomalies (here slot))
    unfolding parse_slots
    step_listable g l =
        rw (judge_listable (entry_at sector slot) (here slot) n (words slot) g l, parse_slots) refl

    step_skipped :
        is_gpt (here slot) ≡ false
        → is_listable n (here slot) ≡ false
        → parse_slots sector n (suc left) slot ps an
          ≡ parse_slots sector n left
              (slot + 1)
              ps
              (an ++ skipped (entry_at sector slot) (here slot) n)
    unfolding parse_slots
    step_skipped g l =
        rw (judge-skipped (entry_at sector slot) (here slot) n (words slot) g l, parse_slots) refl

  parse_slots-Gives :
      (left slot : ℕ) (ps : List MbrPartition) (an : List Anomaly)
      → Gives (declared sector left slot) ps (parse_slots sector n left slot ps an)
  unfolding declared select
  parse_slots-Gives zero slot ps an = (an, unfold parse_slots in rw append-nil refl)
  parse_slots-Gives (suc left) slot ps an = elim (Bool-cases (is_gpt (here slot))) [
    | inl g ↦ (an, step_gpt left slot ps an g ∙ rw g refl)
    | inr g ↦ elim (Bool-cases (is_listable n (here slot))) [
      | inl l ↦
          let (an', e) =
            parse_slots-Gives left (slot + 1) (ps ++ (here slot ∷ []))
              (an ++ boot_anomalies (here slot)) in
          (an', step_listable left slot ps an g l ∙ e ∙ rw (g, l, append_assoc) refl)
      | inr l ↦
          let (an', e) =
            parse_slots-Gives left (slot + 1) ps
              (an ++ skipped (entry_at sector slot) (here slot) n) in
          (an', step_skipped left slot ps an g l ∙ e ∙ rw (g, l) refl)
    ]
  ]

  parse_mbr_runs :
      {found : Option (List MbrPartition) × List Anomaly}
      → sector_size ≤ length sector
      → slice sector signature_offset 2 ≡ signature
      → parse_slots sector n entry_count 0 [] [] ≡ ok found
      → parse_mbr sector n ≡ ok (finish (le_u32 sector disk_signature_offset) found)
  unfolding parse_mbr bytes_eq
  parse_mbr_runs long signed e = rw (le→ltb (length sector) sector_size long, signed, e) refl

  finish-table :
      (d : ℕ) (b : Bool) (ps : List MbrPartition) (an : List Anomaly)
      → (finish d (if b then (none, an) else (some ps, an))).table
        ≡ (if b then gpt_protective else mbr d ps)
  unfolding finish
  finish-table d true ps an = refl
  finish-table d false ps an = refl

  -- On a sector that is long enough and signed, `parse_mbr` succeeds. A GPT protective entry in any
  -- slot makes the answer GPT; otherwise the table lists, in slot order, exactly the entries that
  -- are used, have sectors and lie inside the evidence.
  pub parse_mbr_table :
      sector_size ≤ length sector
      → slice sector signature_offset 2 ≡ signature
      → (o : ParseOutcome) × (parse_mbr sector n ≡ ok o)
        × (o.table ≡ (
            if any is_gpt (declared sector entry_count 0)
            then gpt_protective
            else mbr
                (le_u32 sector disk_signature_offset)
                (select n (declared sector entry_count 0))))
  parse_mbr_table long signed =
      let (an, e) = parse_slots-Gives entry_count 0 [] [] in
      (
        _,
        parse_mbr_runs long signed e,
        finish-table (le_u32 sector disk_signature_offset)
            (any is_gpt (declared sector entry_count 0)) (select n (declared sector entry_count 0))
            an,
      )

  parse_mbr-Refused : (x : ParseError) → parse_mbr sector n ≡ err x → Refused sector x
  unfolding parse_mbr
  parse_mbr-Refused x h = elim (Bool-cases (ltb (length sector) sector_size)) [
    | inl short ↦ inl (ltb→lt (length sector) sector_size short, err-injective (rw short at h))
    | inr long ↦ elim (bytes_eq-cases (slice sector signature_offset 2) signature) [
      | inl (same, _) ↦
          let (an, e) = parse_slots-Gives entry_count 0 [] [] in
          let run = rw (long, same, e) at h in cc
      | inr (bad, unsigned) ↦
          inr
            (ltb→le (length sector) sector_size long, unsigned, err-injective (rw (long, bad) at h))
    ]
  ]

  Refused-parse_mbr : (x : ParseError) → Refused sector x → parse_mbr sector n ≡ err x
  unfolding parse_mbr
  Refused-parse_mbr x (inl (short, is)) = rw (lt→ltb (length sector) sector_size short, is) refl
  Refused-parse_mbr x (inr (long, unsigned, is)) =
      elim (bytes_eq-cases (slice sector signature_offset 2) signature) [
        | inl (_, same) ↦ absurd (unsigned same)
        | inr (bad, _) ↦ rw (le→ltb (length sector) sector_size long, bad, is) refl
      ]

  -- `parse_mbr` fails on exactly two kinds of sector: one that is shorter than 512 bytes, and one that is
  -- long enough but does not have 0x55 and 0xAA at 510; the error says which and with what was found. In
  -- particular it never reports a length overflow.
  pub parse_mbr-err : (x : ParseError) → (parse_mbr sector n ≡ err x) ↔ Refused sector x
  parse_mbr-err x = (parse_mbr-Refused x, Refused-parse_mbr x)
