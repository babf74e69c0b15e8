-- ===== src/Directory/Walk/Listing.antt =====
-- src/fat_directory.rs `enumerate`: what it lists, as a function of the bytes of the clusters visited.
use taphonomy.Prelude.{
  ℕ, zero, suc, Bool, none, some, List, [], ◌∷◌, ◌++◌, ok, ◌≡◌, refl, sym, ◌∙◌, inl, inr,
}
use mathlib.Core.List.{append_assoc, append-nil}
use taphonomy.Filesystem.{VolumeExtent}
use taphonomy.Fat32.{Fat32BootSector}
use taphonomy.Evidence.{EvidenceReader}
use taphonomy.Directory.Walk.{
  Directory, Chain, Walk, as_chunks, slots_per_cluster, read_cluster, directory_of, enumerate_loop,
  enumerate,
}
use taphonomy.Directory.Walk.Scan.{
  Slot, listed, left_over, has_terminator, slots_of, Shows, scan_cluster-Shows,
}
use taphonomy.Directory.Walk.Ends.{visit-eq-ok, visit-cases, loop_err, loop_end, loop_more}

module _ {E : Type 0} (reader : EvidenceReader E) (boot : Fat32BootSector)
    (extent : VolumeExtent) where
  -- The slots of these clusters, as they are read.
  pub data Contents : List ℕ → List Slot → Type 0 where
    no_cluster : Contents [] []
    then_cluster :
        {c : ℕ} {cs : List ℕ} {buffer : List ℕ} {rest : List Slot}
        → read_cluster reader boot extent c ≡ ok buffer
        → Contents cs rest
        → Contents
            (c ∷ cs)
            (slots_of c 0 (as_chunks (slots_per_cluster reader boot extent) buffer) ++ rest)

  -- What the loop returns, of the slots before it and of those that it reads.
  record Lists (before : List Slot) (cs : List ℕ) (d : Directory) (ended : Bool) : Type 0 where
    visited : List ℕ
    slots : List Slot
    appended : d.clusters ≡ cs ++ visited
    contents : Contents visited slots
    entries : d.entries ≡ listed (before ++ slots)
    residue : d.residue ≡ left_over (before ++ slots)
    last : ended ≡ has_terminator (before ++ slots)

  enumerate_loop-Lists :
      (fuel : ℕ) (chain : Chain) (before : List Slot) (cs : List ℕ) (c : ℕ) (w : Walk)
      (d : Directory) (ended : Bool)
      → Shows before w
      → enumerate_loop reader boot extent fuel chain cs c w ≡ ok (d, ended)
      → Lists before cs d ended
  enumerate_loop-Lists zero chain before cs c w d ended k h = unfold enumerate_loop in cc
  enumerate_loop-Lists (suc fuel) chain before cs c w d ended k h =
      elim (visit-cases reader boot extent chain cs c w) [
        | inl (x, v) ↦ let h' = sym (loop_err reader boot extent fuel chain cs c w v) ∙ h in cc
        | inr (inl (w', v)) ↦
            let h' = sym (loop_end reader boot extent fuel chain cs c w v) ∙ h in
            let same : d ≡ directory_of reader boot extent (cs ++ (c ∷ [])) w' = cc in
            let same_end : ended ≡ w'.terminated = cc in
            let (a, (buffer, read, scanned, linked)) =
              visit-eq-ok reader boot extent chain cs c w w' none v in
            let here = slots_of c 0 (as_chunks (slots_per_cluster reader boot extent) buffer) in
            let k' = scan_cluster-Shows before c _ buffer w w' k scanned in
            rw (same, same_end)
              (record {
                visited = c ∷ [];
                slots = here ++ [];
                appended = refl;
                contents = then_cluster read no_cluster;
                entries = rw (append-nil here) k'.entries;
                residue = rw (append-nil here) k'.residue;
                last = rw (append-nil here) k'.ended;
              })
        | inr (inr (w', e, v)) ↦
            let h' = sym (loop_more reader boot extent fuel chain cs c w v) ∙ h in
            let (a, (buffer, read, scanned, linked)) =
              visit-eq-ok reader boot extent chain cs c w w' (some e) v in
            let here = slots_of c 0 (as_chunks (slots_per_cluster reader boot extent) buffer) in
            let k' = scan_cluster-Shows before c _ buffer w w' k scanned in
            let run =
              enumerate_loop-Lists fuel chain (before ++ here) (cs ++ (c ∷ [])) e w' d ended k'
                h' in
            record {
              visited = c ∷ run.visited;
              slots = here ++ run.slots;
              appended = run.appended ∙ append_assoc cs (c ∷ []) run.visited;
              contents = then_cluster read run.contents;
              entries = rw (← append_assoc before here run.slots) run.entries;
              residue = rw (← append_assoc before here run.slots) run.residue;
              last = rw (← append_assoc before here run.slots) run.last;
            }
      ]

  -- What an enumeration lists, along the chain or of the first cluster alone: of the slots of the
  -- clusters visited, read whole and in order, the entries before the first terminator, and as residue
  -- those behind it that are not all zero; the flag tells whether there is a terminator.
  pub enumerate-Contents :
      (first : ℕ) (chain : Chain) (d : Directory) (ended : Bool)
      → enumerate reader boot extent first chain ≡ ok (d, ended)
      → (slots : List Slot) × Contents d.clusters slots
        × (d.entries ≡ listed slots)
        × (d.residue ≡ left_over slots)
        × (ended ≡ has_terminator slots)
  unfolding enumerate
  enumerate-Contents first chain d ended h =
      let run =
        enumerate_loop-Lists _ chain [] [] first _ d ended
          (record { entries = refl; residue = refl; ended = refl }) h in
      (run.slots, rw (← run.appended) at run.contents, run.entries, run.residue, run.last)
