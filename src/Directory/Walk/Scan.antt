-- ===== src/Directory/Walk/Scan.antt =====
-- src/fat_directory.rs `enumerate`: the scan of a cluster's slots, against what a list of slots holds.
use taphonomy.Prelude.{
  ℕ, ◌+◌, Bool, true, false, ◌||◌, List, [], ◌∷◌, ◌++◌, ok, ◌>>=◌, >>=-eq-ok, if◌then◌else◌, any,
  leb, length, arith, ◌≡◌, refl, sym, ◌∙◌, ap, inl, inr, Bool-cases, Option-cases,
}
use mathlib.Core.List.{append_assoc, append-nil}
use taphonomy.Directory.Entry.{Entry, classify}
use taphonomy.Directory.Offsets.{max_entries}
use taphonomy.Directory.Walk.{
  Walk, Tail, as_chunks, is_nonzero, is_terminator, scan_residue, scan_entry, scan_slot, scan_slots,
  close_cluster, kind_observations, scan_cluster,
}

-- The 32 bytes of a slot, and where they stand.
pub record Slot : Type 0 where
  pub cluster : ℕ
  pub slot : ℕ
  pub raw : List ℕ

abbrev entry_of : Slot → Entry
entry_of x = record { cluster = x.cluster; slot = x.slot; kind = classify x.raw }

abbrev ends : Slot → Bool
ends x = is_terminator (classify x.raw)

abbrev pub has_terminator : List Slot → Bool
has_terminator xs = any ends xs

-- The entries of the slots before the first terminator.
abbrev pub listed : List Slot → List Entry
listed [] = []
listed (x ∷ xs) = if ends x then [] else entry_of x ∷ listed xs

abbrev pub occupied : List Slot → List Entry
occupied [] = []
occupied (x ∷ xs) = if is_nonzero x.raw then entry_of x ∷ occupied xs else occupied xs

-- The entries of the slots after the first terminator that are not all zero.
abbrev pub left_over : List Slot → List Entry
left_over [] = []
left_over (x ∷ xs) = if ends x then occupied xs else left_over xs

has_terminator-snoc :
    (xs : List Slot) (x : Slot) → has_terminator (xs ++ (x ∷ [])) ≡ has_terminator xs || ends x
has_terminator-snoc [] x = ground arith
has_terminator-snoc (y ∷ ys) x = ground (arith, has_terminator-snoc ys x)

occupied-snoc :
    (xs : List Slot) (x : Slot)
    → occupied (xs ++ (x ∷ [])) ≡ occupied xs ++ (if is_nonzero x.raw then entry_of x ∷ [] else [])
occupied-snoc [] x = refl
occupied-snoc (y ∷ ys) x = elim (Bool-cases (is_nonzero y.raw)) [
  | inl e ↦ rw e (ap (λ es. entry_of y ∷ es) (occupied-snoc ys x))
  | inr e ↦ rw e (occupied-snoc ys x)
]

listed-snoc :
    (xs : List Slot) (x : Slot)
    → listed (xs ++ (x ∷ []))
      ≡ listed xs ++ (if has_terminator xs || ends x then [] else entry_of x ∷ [])
listed-snoc [] x = refl
listed-snoc (y ∷ ys) x = elim (Bool-cases (ends y)) [
  | inl e ↦ rw e refl
  | inr e ↦ rw e (ap (λ es. entry_of y ∷ es) (listed-snoc ys x))
]

left_over-snoc :
    (xs : List Slot) (x : Slot)
    → left_over (xs ++ (x ∷ []))
      ≡ left_over xs
        ++ (if has_terminator xs then (if is_nonzero x.raw then entry_of x ∷ [] else []) else [])
left_over-snoc [] x = elim (Bool-cases (ends x)) [ inl e ↦ rw e refl | inr e ↦ rw e refl ]
left_over-snoc (y ∷ ys) x = elim (Bool-cases (ends y)) [
  | inl e ↦ rw e (occupied-snoc ys x)
  | inr e ↦ rw e (left_over-snoc ys x)
]

-- The walk's vectors and flag, after these slots.
pub record Shows (xs : List Slot) (w : Walk) : Type 0 where
  pub entries : w.entries ≡ listed xs
  pub residue : w.residue ≡ left_over xs
  pub ended : w.terminated ≡ has_terminator xs

slot_of : ℕ → ℕ → List ℕ → Slot
slot_of c s raw = record { cluster = c; slot = s; raw = raw }

abbrev pub slots_of : ℕ → ℕ → List (List ℕ) → List Slot
slots_of c s [] = []
slots_of c s (raw ∷ rest) = record { cluster = c; slot = s; raw = raw } ∷ slots_of c (s + 1) rest

scan_residue-Shows :
    (xs : List Slot) (c s : ℕ) (raw : List ℕ) (w : Walk) (t : Tail)
    → w.terminated ≡ true
    → Shows xs w
    → Shows (xs ++ (slot_of c s raw ∷ [])) (scan_residue c s raw w t).0
unfolding scan_residue slot_of
scan_residue-Shows xs c s raw w t over h =
    let past : has_terminator xs ≡ true = sym h.ended ∙ over in
    let x = slot_of c s raw in
    elim (Bool-cases (is_nonzero raw)) [
      | inl e ↦
          rw (e, scan_residue)
            (record {
              entries = h.entries ∙ sym (rw (listed-snoc xs x, past) (append-nil (listed xs)));
              residue =
                  rw (left_over-snoc xs x, past, e) (ap (λ es. es ++ (entry_of x ∷ [])) h.residue);
              ended = rw (has_terminator-snoc xs x, past) over;
            })
      | inr e ↦
          rw (e, scan_residue)
            (record {
              entries = h.entries ∙ sym (rw (listed-snoc xs x, past) (append-nil (listed xs)));
              residue =
                  h.residue ∙ sym (rw (left_over-snoc xs x, past, e) (append-nil (left_over xs)));
              ended = rw (has_terminator-snoc xs x, past) over;
            })
    ]

close_cluster-Shows :
    (xs : List Slot) (c : ℕ) (w : Walk) (t : Tail) → Shows xs w → Shows xs (close_cluster c (w, t))
unfolding close_cluster
close_cluster-Shows xs c w t h = elim (Option-cases t.residue_first) [
  | inl none_left ↦ rw (none_left, close_cluster) h
  | inr (first, found) ↦
      rw (found, close_cluster)
        (record { entries = h.entries; residue = h.residue; ended = h.ended })
]

module _ {E : Type 0} where
  scan_entry-Shows :
      (xs : List Slot) (c s : ℕ) (raw : List ℕ) (w w' : Walk)
      → w.terminated ≡ false
      → Shows xs w
      → scan_entry {E = E} c s (classify raw) w ≡ ok w'
      → Shows (xs ++ (slot_of c s raw ∷ [])) w'
  unfolding scan_entry slot_of
  scan_entry-Shows xs c s raw w w' open_yet h run =
      let before : has_terminator xs ≡ false = sym h.ended ∙ open_yet in
      let x = slot_of c s raw in
      elim (Bool-cases (is_terminator (classify raw))) [
        | inl e ↦
            let same : w' ≡ record w { terminated = true } = cc (rw (e, scan_entry) at run) in
            rw same (record {
              entries = h.entries ∙ sym (rw (listed-snoc xs x, before, e) (append-nil (listed xs)));
              residue =
                  h.residue ∙ sym (rw (left_over-snoc xs x, before) (append-nil (left_over xs)));
              ended = rw (has_terminator-snoc xs x, before, e) refl;
            })
        | inr e ↦ elim (Bool-cases (leb max_entries (length w.entries))) [
          | inl full ↦ let run' = rw (e, full, scan_entry) at run in cc
          | inr room ↦
              let run' = rw (e, room, scan_entry) at run in
              let same : w' ≡ record w {
                entries = w.entries ++ (entry_of x ∷ []);
                observations = w.observations ++ kind_observations c s (classify raw);
              } =
                cc run' in
              rw same (record {
                entries =
                    rw (listed-snoc xs x, before, e) (ap (λ es. es ++ (entry_of x ∷ [])) h.entries);
                residue =
                    h.residue ∙ sym (rw (left_over-snoc xs x, before) (append-nil (left_over xs)));
                ended = open_yet ∙ sym (rw (has_terminator-snoc xs x, before, e) refl);
              })
        ]
      ]

  scan_slot-Shows :
      (xs : List Slot) (c s : ℕ) (raw : List ℕ) (w : Walk) (t : Tail) (r : Walk × Tail)
      → Shows xs w
      → scan_slot {E = E} c s raw w t ≡ ok r
      → Shows (xs ++ (slot_of c s raw ∷ [])) r.0
  unfolding scan_slot
  scan_slot-Shows xs c s raw w t r h run = elim (Bool-cases w.terminated) [
    | inl over ↦
        let same : r ≡ scan_residue c s raw w t = ground arith in
        rw same (scan_residue-Shows xs c s raw w t over h)
    | inr open_yet ↦
        let going : (scan_entry {E = E} c s (classify raw) w >>= (λ w'. ok (w', t))) ≡ ok r =
          ground arith in
        let (w', scanned, f) = >>=-eq-ok (scan_entry {E = E} c s (classify raw) w) _ going in
        let same : r ≡ (w', t) = cc in rw same (scan_entry-Shows xs c s raw w w' open_yet h scanned)
  ]

  scan_slots-Shows :
      (xs : List Slot) (c s : ℕ) (raws : List (List ℕ)) (w : Walk) (t : Tail) (r : Walk × Tail)
      → Shows xs w
      → scan_slots {E = E} c s raws w t ≡ ok r
      → Shows (xs ++ slots_of c s raws) r.0
  unfolding scan_slots slot_of
  scan_slots-Shows xs c s [] w t r h run = let same : r ≡ (w, t) = cc in rw (same, append-nil xs) h
  scan_slots-Shows xs c s (raw ∷ rest) w t r h run =
      let (m, scanned, run') = >>=-eq-ok (scan_slot {E = E} c s raw w t) _ run in
      let after =
        scan_slots-Shows (xs ++ (slot_of c s raw ∷ [])) c (s + 1) rest m.0 m.1 r
          (scan_slot-Shows xs c s raw w t m h scanned) run' in
      rw (append_assoc xs (slot_of c s raw ∷ []) (slots_of c (s + 1) rest)) at after

  pub scan_cluster-Shows :
      (xs : List Slot) (c n : ℕ) (buffer : List ℕ) (w w' : Walk)
      → Shows xs w
      → scan_cluster {E = E} c n buffer w ≡ ok w'
      → Shows (xs ++ slots_of c 0 (as_chunks n buffer)) w'
  unfolding scan_cluster
  scan_cluster-Shows xs c n buffer w w' h run =
      let (m, scanned, f) = >>=-eq-ok (scan_slots {E = E} c 0 (as_chunks n buffer) w _) _ run in
      let same : w' ≡ close_cluster c m = cc in
      rw same (
        close_cluster-Shows (xs ++ slots_of c 0 (as_chunks n buffer)) c m.0 m.1
          (scan_slots-Shows xs c 0 (as_chunks n buffer) w _ m h scanned))
