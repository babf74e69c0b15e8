-- ===== src/Directory/Walk/Ends.antt =====
-- src/fat_directory.rs `enumerate`: the cases of one round of its loop, and its termination.
use taphonomy.Prelude.{
  ℕ, zero, suc, ◌+◌, ◌≤◌, ◌<◌, Bool, true, false, Option, none, some, List, [], ◌∷◌, ◌++◌, Result,
  ok, err, ◌>>=◌, map_err, if◌then◌else◌, length, length-append, arith, ◌≡◌, refl, sym, ◌∙◌, ap,
  >>=-eq-ok, err-injective, ◌≢◌, ◌⊎◌, inl, inr, Option-cases,
}
use taphonomy.Filesystem.{VolumeExtent}
use taphonomy.Fat.{cluster_bytes, first_data_cluster}
use taphonomy.Fat32.{Fat32BootSector, last_cluster, fat32_entry_bytes}
use taphonomy.Evidence.{EvidenceReader}
use taphonomy.Directory.Entry.{EntryKind, classify}
use taphonomy.Directory.Offsets.{
  DirectoryError, evidence, stuck, cluster_offset, fat_entry_offset, read_fat_entry, ok_or,
  offset_overflow, fat_position, cluster_position,
}
use taphonomy.Directory.Walk.{
  Chain, follow, first_cluster_only, Walk, Tail, scan_residue, scan_entry, scan_slot, scan_slots,
  scan_cluster, contains, max_clusters, slots_per_cluster, fat_index, check_cluster, read_cluster,
  judge_link, next_cluster, visit, directory_of, enumerate_loop, enumerate,
}

module _ {E : Type 0} where
  abbrev Ends {ℓ} : {A : Type ℓ} → Result (DirectoryError E) A → Type ℓ
  Ends r = r ≢ err stuck

  Ends-bind :
      {A B : Type 0} (m : Result (DirectoryError E) A) (f : A → Result (DirectoryError E) B)
      → Ends m
      → ((a : A) → Ends (f a))
      → Ends (m >>= f)
  Ends-bind (ok a) f hm hf = hf a
  Ends-bind (err e) f hm hf = λ h. hm (cc)

  Ends-ok : {A : Type 0} (a : A) → Ends (ok a)
  Ends-ok a h = cc

  Ends-if :
      {A : Type 0} (b : Bool) {x y : Result (DirectoryError E) A}
      → Ends x
      → Ends y
      → Ends (if b then x else y)
  Ends-if true hx hy = hx
  Ends-if false hx hy = hy

  Ends-ok_or : {A : Type 0} (e : DirectoryError E) (o : Option A) → e ≢ stuck → Ends (ok_or e o)
  Ends-ok_or e none ne = λ h. ne (cc)
  Ends-ok_or e (some a) ne = λ h. cc

  Ends-evidence : {A : Type 0} (r : Result E A) → Ends (map_err evidence r)
  Ends-evidence (ok a) h = cc
  Ends-evidence (err e) h = cc

  scan_entry-Ends : (c s : ℕ) (kind : EntryKind) (w : Walk) → Ends (scan_entry c s kind w)
  unfolding scan_entry
  scan_entry-Ends c s kind w h = ground arith

  scan_slot-Ends : (c s : ℕ) (raw : List ℕ) (w : Walk) (t : Tail) → Ends (scan_slot c s raw w t)
  unfolding scan_slot
  scan_slot-Ends c s raw w t = Ends-if w.terminated (Ends-ok (scan_residue c s raw w t)) (
      Ends-bind (scan_entry c s (classify raw) w) _ (scan_entry-Ends c s (classify raw) w)
        (λ w'. Ends-ok (w', t)))

  scan_slots-Ends :
      (c s : ℕ) (raws : List (List ℕ)) (w : Walk) (t : Tail) → Ends (scan_slots c s raws w t)
  unfolding scan_slots
  scan_slots-Ends c s [] w t = Ends-ok _
  scan_slots-Ends c s (raw ∷ rest) w t =
      Ends-bind (scan_slot c s raw w t) _ (scan_slot-Ends c s raw w t)
        (λ next. scan_slots-Ends c (s + 1) rest next.0 next.1)

  scan_cluster-Ends : (c n : ℕ) (buffer : List ℕ) (w : Walk) → Ends (scan_cluster c n buffer w)
  unfolding scan_cluster
  scan_cluster-Ends c n buffer w = Ends-bind _ _ (scan_slots-Ends c 0 _ w _) (λ found. Ends-ok _)

module _ {E : Type 0} (reader : EvidenceReader E) (boot : Fat32BootSector)
    (extent : VolumeExtent) where
  fat_entry_offset-Ends : (i c : ℕ) → Ends (fat_entry_offset reader boot extent i c)
  unfolding fat_entry_offset
  fat_entry_offset-Ends i c =
      Ends-ok_or (offset_overflow c) (fat_position boot extent i c) (λ h. cc)

  cluster_offset-Ends : (c : ℕ) → Ends (cluster_offset reader boot extent c)
  unfolding cluster_offset
  cluster_offset-Ends c = Ends-ok_or (offset_overflow c) (cluster_position boot extent c) (λ h. cc)

  read_fat_entry-Ends : (i c : ℕ) → Ends (read_fat_entry reader boot extent i c)
  unfolding read_fat_entry
  read_fat_entry-Ends i c =
      Ends-bind (fat_entry_offset reader boot extent i c) _ (fat_entry_offset-Ends i c) (λ offset.
        Ends-bind (map_err evidence (reader.read_exact_at offset fat32_entry_bytes)) _
          (Ends-evidence (reader.read_exact_at offset fat32_entry_bytes)) (λ raw. Ends-ok _))

  read_cluster-Ends : (c : ℕ) → Ends (read_cluster reader boot extent c)
  unfolding read_cluster
  read_cluster-Ends c =
      Ends-bind (cluster_offset reader boot extent c) _ (cluster_offset-Ends c)
        (λ offset. Ends-evidence (reader.read_exact_at offset (cluster_bytes boot.geometry)))

  judge_link-Ends : (c next : ℕ) → Ends (judge_link reader boot extent c next)
  unfolding judge_link
  judge_link-Ends c next h = ground arith

  next_cluster-Ends : (chain : Chain) (c : ℕ) → Ends (next_cluster reader boot extent chain c)
  unfolding next_cluster
  next_cluster-Ends first_cluster_only c = Ends-ok none
  next_cluster-Ends follow c =
      Ends-bind (read_fat_entry reader boot extent (fat_index reader boot extent) c) _
        (read_fat_entry-Ends (fat_index reader boot extent) c) (λ next. judge_link-Ends c next)

  -- What the tests before a visit establish.
  pub record Admits (clusters : List ℕ) (cluster : ℕ) : Type 0 where
    pub from : first_data_cluster ≤ cluster
    pub to : cluster < boot.geometry.cluster_count + first_data_cluster
    pub fresh : contains clusters cluster ≡ false
    pub room : length clusters < max_clusters reader boot extent

  check_cluster-Admits :
      (clusters : List ℕ) (cluster : ℕ)
      → check_cluster reader boot extent clusters cluster ≡ none
      → Admits clusters cluster
  unfolding check_cluster last_cluster
  check_cluster-Admits clusters cluster h = ground arith

  check_cluster-ne-stuck :
      (clusters : List ℕ) (cluster : ℕ)
      → check_cluster reader boot extent clusters cluster ≢ some stuck
  unfolding check_cluster
  check_cluster-ne-stuck clusters cluster h = ground arith

  visit-Ends :
      (chain : Chain) (cs : List ℕ) (c : ℕ) (w : Walk)
      → Ends (visit reader boot extent chain cs c w)
  unfolding visit
  visit-Ends chain cs c w = elim (Option-cases (check_cluster reader boot extent cs c)) [
    | inr (e, is) ↦
        rw (is, visit) (λ h. check_cluster-ne-stuck cs c (is ∙ ap some (sym (err-injective h))))
    | inl is ↦
        rw (is, visit)
          (Ends-bind (read_cluster reader boot extent c) _ (read_cluster-Ends c) (λ buffer.
            Ends-bind (scan_cluster c (slots_per_cluster reader boot extent) buffer w) _
              (scan_cluster-Ends c (slots_per_cluster reader boot extent) buffer w)
              (λ w'.
                Ends-bind (next_cluster reader boot extent chain c) _ (next_cluster-Ends chain c)
                  (λ next. Ends-ok (w', next)))))
  ]

  -- A successful visit went through the tests, and through the read, the scan and the link.
  pub visit-eq-ok :
      (chain : Chain) (cs : List ℕ) (c : ℕ) (w w' : Walk) (next : Option ℕ)
      → visit reader boot extent chain cs c w ≡ ok (w', next)
      → Admits cs c
        × ((buffer : List ℕ) × (read_cluster reader boot extent c ≡ ok buffer)
            × (scan_cluster {E = E} c (slots_per_cluster reader boot extent) buffer w ≡ ok w')
            × (next_cluster reader boot extent chain c ≡ ok next))
  unfolding visit
  visit-eq-ok chain cs c w w' next h = elim (Option-cases (check_cluster reader boot extent cs c)) [
    | inr (e, is) ↦ let h' = rw (is, visit) at h in cc
    | inl is ↦
        let (buffer, read, h1) =
          >>=-eq-ok (read_cluster reader boot extent c) _ (rw (is, visit) at h) in
        let (w1, scanned, h2) =
          >>=-eq-ok (scan_cluster c (slots_per_cluster reader boot extent) buffer w) _ h1 in
        let (n1, linked, h3) = >>=-eq-ok (next_cluster reader boot extent chain c) _ h2 in
        let same_w : w1 ≡ w' = cc in
        let same_n : n1 ≡ next = cc in
        (check_cluster-Admits cs c is, (buffer, read, rw same_w at scanned, rw same_n at linked))
  ]

  -- The three ways in which a visit can go.
  pub visit-cases :
      (chain : Chain) (cs : List ℕ) (c : ℕ) (w : Walk)
      → ((e : DirectoryError E) × (visit reader boot extent chain cs c w ≡ err e))
        ⊎ ((w' : Walk) × (visit reader boot extent chain cs c w ≡ ok (w', none)))
        ⊎ ((w' : Walk) × (c' : ℕ) × (visit reader boot extent chain cs c w ≡ ok (w', some c')))
  visit-cases chain cs c w = go (visit reader boot extent chain cs c w) refl
    where
      go :
          (r : Result (DirectoryError E) (Walk × Option ℕ))
          → visit reader boot extent chain cs c w ≡ r
          → ((e : DirectoryError E) × (visit reader boot extent chain cs c w ≡ err e))
            ⊎ ((w' : Walk) × (visit reader boot extent chain cs c w ≡ ok (w', none)))
            ⊎ ((w' : Walk) × (c' : ℕ) × (visit reader boot extent chain cs c w ≡ ok (w', some c')))
      go (err e) h = inl (e, h)
      go (ok (w', none)) h = inr (inl (w', h))
      go (ok (w', some c')) h = inr (inr (w', c', h))

  module _ (fuel : ℕ) (chain : Chain) (cs : List ℕ) (c : ℕ) (w : Walk) where
    pub loop_err :
        {e : DirectoryError E}
        → visit reader boot extent chain cs c w ≡ err e
        → enumerate_loop reader boot extent (suc fuel) chain cs c w ≡ err e
    unfolding enumerate_loop
    loop_err h = rw (h, enumerate_loop) refl

    pub loop_end :
        {w' : Walk}
        → visit reader boot extent chain cs c w ≡ ok (w', none)
        → enumerate_loop reader boot extent (suc fuel) chain cs c w
          ≡ ok (directory_of reader boot extent (cs ++ (c ∷ [])) w', w'.terminated)
    unfolding enumerate_loop
    loop_end h = rw (h, enumerate_loop) refl

    pub loop_more :
        {w' : Walk} {c' : ℕ}
        → visit reader boot extent chain cs c w ≡ ok (w', some c')
        → enumerate_loop reader boot extent (suc fuel) chain cs c w
          ≡ enumerate_loop reader boot extent fuel chain (cs ++ (c ∷ [])) c' w'
    unfolding enumerate_loop
    loop_more h = rw (h, enumerate_loop) refl

  pub length-snoc : (cs : List ℕ) (c : ℕ) → length (cs ++ (c ∷ [])) ≡ length cs + 1
  length-snoc cs c = length-append cs (c ∷ [])

  enumerate_loop-Ends :
      (fuel : ℕ) (chain : Chain) (cs : List ℕ) (c : ℕ) (w : Walk)
      → length cs + fuel ≡ max_clusters reader boot extent + 1
      → length cs ≤ max_clusters reader boot extent
      → Ends (enumerate_loop reader boot extent fuel chain cs c w)
  enumerate_loop-Ends zero chain cs c w e le = absurd (omega arith)
  enumerate_loop-Ends (suc fuel) chain cs c w e le = elim (visit-cases chain cs c w) [
    | inl (x, h) ↦ λ k.
        visit-Ends chain cs c w
          (h ∙ ap err (sym (err-injective (sym (loop_err fuel chain cs c w h) ∙ k))))
    | inr (inl (w', h)) ↦ rw (loop_end fuel chain cs c w h) (Ends-ok _)
    | inr (inr (w', c', h)) ↦
        let room = (visit-eq-ok chain cs c w w' (some c') h).0.room in
        let longer = length-snoc cs c in
        rw (loop_more fuel chain cs c w h)
          (enumerate_loop-Ends fuel chain (cs ++ (c ∷ [])) c' w' (omega arith) (omega arith))
  ]

  -- Whatever the evidence holds, cyclic chains included, `enumerate` ends with a directory or with one
  -- of the source's errors: the model's loop does not run out of fuel.
  pub enumerate-ne-stuck :
      (first : ℕ) (chain : Chain) → enumerate reader boot extent first chain ≢ err stuck
  unfolding enumerate
  enumerate-ne-stuck first chain =
      enumerate_loop-Ends (max_clusters reader boot extent + 1) chain [] first _ (omega arith)
        (omega arith)
