-- ===== src/Directory/Walk/Chains.antt =====
-- src/fat_directory.rs `enumerate`: which clusters it visits.
use taphonomy.Prelude.{
  ℕ, zero, suc, ◌+◌, ◌≤◌, ◌<◌, Bool, false, Option, none, some, List, [], ◌∷◌, ◌++◌, Result, ok,
  ◌>>=◌, >>=-eq-ok, All, All-append, length, length-append, arith, ◌≡◌, refl, sym, ◌∙◌, ap, ◌≢◌,
  inl, inr, Bool-cases,
}
use mathlib.Core.List.{append_assoc}
use taphonomy.Filesystem.{VolumeExtent}
use taphonomy.Fat.{first_data_cluster}
use taphonomy.Fat32.{Fat32BootSector}
use taphonomy.Evidence.{EvidenceReader}
use taphonomy.Directory.Entry.{EntryKind, classify}
use taphonomy.Directory.Offsets.{
  DirectoryError, read_fat_entry, max_entries, fat_end_of_chain, fat_bad_cluster,
}
use taphonomy.Directory.Walk.{
  Directory, follow, Walk, Tail, scan_entry, scan_residue, scan_slot, scan_slots, scan_cluster,
  close_cluster, as_chunks, contains, max_clusters, fat_index, judge_link, next_cluster, visit,
  directory_of, enumerate_loop, enumerate, enumerate_directory,
}
use taphonomy.Directory.Walk.Ends.{
  visit-eq-ok, visit-cases, loop_err, loop_end, loop_more, length-snoc,
}

-- No cluster occurs twice.
abbrev pub Distinct : List ℕ → Type 0
Distinct [] = Unit
Distinct (x ∷ xs) = (contains xs x ≡ false) × Distinct xs

contains-snoc :
    (xs : List ℕ) (x c : ℕ) → contains xs x ≡ false → x ≢ c → contains (xs ++ (c ∷ [])) x ≡ false
contains-snoc [] x c h ne = ground arith
contains-snoc (y ∷ ys) x c h ne = ground (arith, contains-snoc ys x c)

Distinct-snoc :
    (xs : List ℕ) (c : ℕ) → Distinct xs → contains xs c ≡ false → Distinct (xs ++ (c ∷ []))
Distinct-snoc [] c d h = (refl, tt)
Distinct-snoc (x ∷ xs) c (d, ds) h =
    let ne : x ≢ c = ground arith in
    let rest : contains xs c ≡ false = ground arith in
    (contains-snoc xs x c d ne, Distinct-snoc xs c ds rest)

abbrev Bounded : Walk → Type 0
Bounded w = length w.entries ≤ max_entries

scan_residue-Bounded :
    (c s : ℕ) (raw : List ℕ) (w : Walk) (t : Tail)
    → Bounded w
    → Bounded (scan_residue c s raw w t).0
unfolding scan_residue
scan_residue-Bounded c s raw w t b = ground arith

close_cluster-Bounded : (c : ℕ) (w : Walk) (t : Tail) → Bounded w → Bounded (close_cluster c (w, t))
unfolding close_cluster
close_cluster-Bounded c w t b = ground arith

module _ {E : Type 0} where
  scan_entry-Bounded :
      (c s : ℕ) (kind : EntryKind) (w w' : Walk)
      → Bounded w
      → scan_entry {E = E} c s kind w ≡ ok w'
      → Bounded w'
  unfolding scan_entry
  scan_entry-Bounded c s kind w w' b h =
      ground (arith, length-append w.entries (record { cluster = c; slot = s; kind = kind } ∷ []))

  scan_slot-Bounded :
      (c s : ℕ) (raw : List ℕ) (w : Walk) (t : Tail) (r : Walk × Tail)
      → Bounded w
      → scan_slot {E = E} c s raw w t ≡ ok r
      → Bounded r.0
  unfolding scan_slot
  scan_slot-Bounded c s raw w t r b h = elim (Bool-cases w.terminated) [
    | inl e ↦
        let same : r ≡ scan_residue c s raw w t = ground arith in
        rw same (scan_residue-Bounded c s raw w t b)
    | inr e ↦
        let run : (scan_entry {E = E} c s (classify raw) w >>= (λ w'. ok (w', t))) ≡ ok r =
          ground arith in
        let (w', scanned, f) = >>=-eq-ok (scan_entry {E = E} c s (classify raw) w) _ run in
        let same : r ≡ (w', t) = cc in
        rw same (scan_entry-Bounded c s (classify raw) w w' b scanned)
  ]

  scan_slots-Bounded :
      (c s : ℕ) (raws : List (List ℕ)) (w : Walk) (t : Tail) (r : Walk × Tail)
      → Bounded w
      → scan_slots {E = E} c s raws w t ≡ ok r
      → Bounded r.0
  unfolding scan_slots
  scan_slots-Bounded c s [] w t r b h = let same : r ≡ (w, t) = cc in rw same b
  scan_slots-Bounded c s (raw ∷ rest) w t r b h =
      let (m, scanned, h1) = >>=-eq-ok (scan_slot {E = E} c s raw w t) _ h in
      scan_slots-Bounded c (s + 1) rest m.0 m.1 r (scan_slot-Bounded c s raw w t m b scanned) h1

  scan_cluster-Bounded :
      (c n : ℕ) (buffer : List ℕ) (w w' : Walk)
      → Bounded w
      → scan_cluster {E = E} c n buffer w ≡ ok w'
      → Bounded w'
  unfolding scan_cluster
  scan_cluster-Bounded c n buffer w w' b h =
      let (m, scanned, h1) = >>=-eq-ok (scan_slots {E = E} c 0 (as_chunks n buffer) w _) _ h in
      let same : w' ≡ close_cluster c m = cc in
      rw same (
        close_cluster-Bounded c m.0 m.1
          (scan_slots-Bounded c 0 (as_chunks n buffer) w _ m b scanned))

module _ {E : Type 0} (reader : EvidenceReader E) (boot : Fat32BootSector)
    (extent : VolumeExtent) where
  abbrev entry_of : ℕ → Result (DirectoryError E) ℕ
  entry_of c = read_fat_entry reader boot extent (fat_index reader boot extent) c

  -- A cluster's FAT entry names the next one, or ends the chain.
  abbrev pub Links : ℕ → ℕ → Type 0
  Links c d = (entry_of c ≡ ok d) × (first_data_cluster ≤ d) × (d < fat_bad_cluster)

  abbrev pub IsLast : ℕ → Type 0
  IsLast c = (d : ℕ) × (entry_of c ≡ ok d) × (fat_end_of_chain ≤ d)

  -- The clusters of a chain that begins at `c`, each linked to the next, the last one ending it.
  abbrev pub IsRoute : ℕ → List ℕ → Type 0
  IsRoute c [] = ⊥
  IsRoute c (x ∷ []) = (x ≡ c) × IsLast c
  IsRoute c (x ∷ y ∷ rest) = (x ≡ c) × Links c y × IsRoute y (y ∷ rest)

  abbrev InVolume : ℕ → Type 0
  InVolume c = (first_data_cluster ≤ c) × (c < boot.geometry.cluster_count + first_data_cluster)

  next_cluster-some : (c d : ℕ) → next_cluster reader boot extent follow c ≡ ok (some d) → Links c d
  unfolding next_cluster judge_link
  next_cluster-some c d h =
      let (n, read, f) = >>=-eq-ok (entry_of c) _ h in
      let facts : (n ≡ d) × (first_data_cluster ≤ n) × (n < fat_bad_cluster) = ground arith in
      (read ∙ ap ok facts.0, rw (← facts.0) facts.1, rw (← facts.0) facts.2)

  next_cluster-none : (c : ℕ) → next_cluster reader boot extent follow c ≡ ok none → IsLast c
  unfolding next_cluster judge_link
  next_cluster-none c h = let (n, read, f) = >>=-eq-ok (entry_of c) _ h in (n, read, ground arith)

  -- What the loop keeps, and what it returns.
  record Keeps (cs : List ℕ) (w : Walk) : Type 0 where
    inside : All InVolume cs
    distinct : Distinct cs
    bounded : Bounded w

  pub record IsWalked (first : ℕ) (d : Directory) : Type 0 where
    pub route : IsRoute first d.clusters
    pub inside : All InVolume d.clusters
    pub distinct : Distinct d.clusters
    pub few : length d.clusters ≤ max_clusters reader boot extent
    pub bounded : length d.entries ≤ max_entries

  visit-Keeps :
      (cs : List ℕ) (c : ℕ) (w w' : Walk) (next : Option ℕ)
      → Keeps cs w
      → visit reader boot extent follow cs c w ≡ ok (w', next)
      → Keeps (cs ++ (c ∷ [])) w'
  visit-Keeps cs c w w' next k h =
      let (a, (buffer, read, scanned, linked)) =
        visit-eq-ok reader boot extent follow cs c w w' next h in
      record {
        inside = All-append InVolume cs (c ∷ []) k.inside ((a.from, a.to), tt);
        distinct = Distinct-snoc cs c k.distinct a.fresh;
        bounded = scan_cluster-Bounded c _ buffer w w' k.bounded scanned;
      }

  record Runs (cs : List ℕ) (c : ℕ) (d : Directory) : Type 0 where
    rest : List ℕ
    appended : d.clusters ≡ cs ++ rest
    route : IsRoute c rest
    inside : All InVolume d.clusters
    distinct : Distinct d.clusters
    few : length d.clusters ≤ max_clusters reader boot extent
    bounded : length d.entries ≤ max_entries

  IsRoute-cons : (c e : ℕ) (rest : List ℕ) → Links c e → IsRoute e rest → IsRoute c (c ∷ rest)
  IsRoute-cons c e [] link r = elim r [ ]
  IsRoute-cons c e (x ∷ []) link (same, last) = (refl, rw same link, rw same (refl, last))
  IsRoute-cons c e (x ∷ y ∷ rest) link (same, r, rs) = (refl, rw same link, (refl, rw same r, rs))

  enumerate_loop-Runs :
      (fuel : ℕ) (cs : List ℕ) (c : ℕ) (w : Walk) (d : Directory) (ended : Bool)
      → Keeps cs w
      → enumerate_loop reader boot extent fuel follow cs c w ≡ ok (d, ended)
      → Runs cs c d
  enumerate_loop-Runs zero cs c w d ended k h = unfold enumerate_loop in cc
  enumerate_loop-Runs (suc fuel) cs c w d ended k h =
      elim (visit-cases reader boot extent follow cs c w) [
        | inl (x, v) ↦ let h' = sym (loop_err reader boot extent fuel follow cs c w v) ∙ h in cc
        | inr (inl (w', v)) ↦
            let h' = sym (loop_end reader boot extent fuel follow cs c w v) ∙ h in
            let same : d ≡ directory_of reader boot extent (cs ++ (c ∷ [])) w' = cc in
            let (a, (buffer, read, scanned, linked)) =
              visit-eq-ok reader boot extent follow cs c w w' none v in
            let k' = visit-Keeps cs c w w' none k v in
            let longer = length-snoc reader boot extent cs c in
            rw same (record {
              rest = c ∷ [];
              appended = refl;
              route = (refl, next_cluster-none c linked);
              inside = k'.inside;
              distinct = k'.distinct;
              few = omega (arith, a.room);
              bounded = k'.bounded;
            })
        | inr (inr (w', e, v)) ↦
            let h' = sym (loop_more reader boot extent fuel follow cs c w v) ∙ h in
            let (a, (buffer, read, scanned, linked)) =
              visit-eq-ok reader boot extent follow cs c w w' (some e) v in
            let run =
              enumerate_loop-Runs fuel (cs ++ (c ∷ [])) e w' d ended
                (visit-Keeps cs c w w' (some e) k v) h' in
            record {
              rest = c ∷ run.rest;
              appended = run.appended ∙ append_assoc cs (c ∷ []) run.rest;
              route = IsRoute-cons c e run.rest (next_cluster-some c e linked) run.route;
              inside = run.inside;
              distinct = run.distinct;
              few = run.few;
              bounded = run.bounded;
            }
      ]

  -- A directory that is enumerated along its chain has visited exactly a chain of the active FAT from
  -- its first cluster to an end-of-chain mark, each cluster in the data region and visited once, and
  -- lists at most 65,536 entries.
  pub enumerate_directory-IsWalked :
      (first : ℕ) (d : Directory)
      → enumerate_directory reader boot extent first ≡ ok d
      → IsWalked first d
  unfolding enumerate_directory enumerate
  enumerate_directory-IsWalked first d h =
      let (r, found, same) = >>=-eq-ok (enumerate reader boot extent first follow) _ h in
      let is : r.0 ≡ d = cc in
      let run =
        enumerate_loop-Runs _ [] first _ r.0 r.1
          (record { inside = tt; distinct = tt; bounded = omega arith }) found in
      rw (← is) (record {
        route = rw run.appended run.route;
        inside = run.inside;
        distinct = run.distinct;
        few = run.few;
        bounded = run.bounded;
      })
