-- ===== src/Directory/Walk/First.antt =====
-- src/fat_directory.rs `enumerate`: the first cluster of a directory.
use taphonomy.Prelude.{
  ℕ, zero, suc, ◌+◌, ◌≤◌, ◌<◌, Bool, true, none, some, List, [], ◌∷◌, ◌++◌, ok, ==_refl, arith, ◌≡◌,
  refl, sym, ◌∙◌, inl, inr,
}
use taphonomy.Filesystem.{VolumeExtent}
use taphonomy.Fat.{first_data_cluster}
use taphonomy.Fat32.{Fat32BootSector}
use taphonomy.Evidence.{EvidenceReader}
use taphonomy.Directory.Walk.{
  Directory, Chain, Walk, contains, directory_of, enumerate_loop, enumerate,
}
use taphonomy.Directory.Walk.Ends.{visit-eq-ok, visit-cases, loop_err, loop_end, loop_more}

-- What a list holds, a longer one holds.
pub contains-append : (xs ys : List ℕ) (c : ℕ) → contains xs c ≡ true → contains (xs ++ ys) c ≡ true
contains-append [] ys c h = cc
contains-append (x ∷ xs) ys c h = ground (arith, contains-append xs ys c)

pub contains-append_right :
    (xs ys : List ℕ) (c : ℕ) → contains ys c ≡ true → contains (xs ++ ys) c ≡ true
contains-append_right [] ys c h = h
contains-append_right (x ∷ xs) ys c h = let rest = contains-append_right xs ys c h in ground arith

contains-last : (c : ℕ) → contains (c ∷ []) c ≡ true
contains-last c = rw (==_refl c) refl

module _ {E : Type 0} (reader : EvidenceReader E) (boot : Fat32BootSector)
    (extent : VolumeExtent) where
  enumerate_loop-keeps :
      (fuel : ℕ) (chain : Chain) (cs : List ℕ) (c x : ℕ) (w : Walk) (d : Directory) (ended : Bool)
      → enumerate_loop reader boot extent fuel chain cs c w ≡ ok (d, ended)
      → contains (cs ++ (c ∷ [])) x ≡ true
      → contains d.clusters x ≡ true
  enumerate_loop-keeps zero chain cs c x w d ended h held = unfold enumerate_loop in cc
  enumerate_loop-keeps (suc fuel) chain cs c x w d ended h held =
      elim (visit-cases reader boot extent chain cs c w) [
        | inl (e, v) ↦ let h' = sym (loop_err reader boot extent fuel chain cs c w v) ∙ h in cc
        | inr (inl (w', v)) ↦
            let h' = sym (loop_end reader boot extent fuel chain cs c w v) ∙ h in
            let same : d ≡ directory_of reader boot extent (cs ++ (c ∷ [])) w' = cc in rw same held
        | inr (inr (w', e, v)) ↦
            let h' = sym (loop_more reader boot extent fuel chain cs c w v) ∙ h in
            enumerate_loop-keeps fuel chain (cs ++ (c ∷ [])) e x w' d ended h'
              (contains-append (cs ++ (c ∷ [])) (e ∷ []) x held)
      ]

  enumerate_loop-inside :
      (fuel : ℕ) (chain : Chain) (cs : List ℕ) (c : ℕ) (w : Walk) (d : Directory) (ended : Bool)
      → enumerate_loop reader boot extent fuel chain cs c w ≡ ok (d, ended)
      → (first_data_cluster ≤ c) × (c < boot.geometry.cluster_count + first_data_cluster)
  enumerate_loop-inside zero chain cs c w d ended h = unfold enumerate_loop in cc
  enumerate_loop-inside (suc fuel) chain cs c w d ended h =
      elim (visit-cases reader boot extent chain cs c w) [
        | inl (e, v) ↦ let h' = sym (loop_err reader boot extent fuel chain cs c w v) ∙ h in cc
        | inr (inl (w', v)) ↦
            let admitted = (visit-eq-ok reader boot extent chain cs c w w' none v).0 in
            (admitted.from, admitted.to)
        | inr (inr (w', e, v)) ↦
            let admitted = (visit-eq-ok reader boot extent chain cs c w w' (some e) v).0 in
            (admitted.from, admitted.to)
      ]

  pub enumerate-first :
      (first : ℕ) (chain : Chain) (d : Directory) (ended : Bool)
      → enumerate reader boot extent first chain ≡ ok (d, ended)
      → (first_data_cluster ≤ first)
        × (first < boot.geometry.cluster_count + first_data_cluster)
        × (contains d.clusters first ≡ true)
  unfolding enumerate
  enumerate-first first chain d ended h =
      let (from, to) = enumerate_loop-inside _ chain [] first _ d ended h in
      (from, to, enumerate_loop-keeps _ chain [] first first _ d ended h (contains-last first))
