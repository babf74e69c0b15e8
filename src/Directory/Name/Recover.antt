-- ===== src/Directory/Name/Recover.antt =====
-- src/fat_directory.rs `chksum` as a function of the first byte, and `recover_first_byte`.
use taphonomy.Prelude.{
  ℕ, zero, suc, ◌+◌, ◌-◌, ◌*◌, ◌/◌, ◌%◌, ◌≤◌, ◌<◌, true, false, Option, none, some, List, [], ◌∷◌,
  ◌==◌, bit_and, Bytes, passes_below, passes_below_sound, ==→≡, arith, ◌≡◌, refl, sym, ◌∙◌, ap, ◌≢◌,
  ◌↔◌, Bool-cases, inl, inr, not_true, ==_refl,
}
use taphonomy.Directory.Name.{
  chksum_step, chksum_from, chksum, try_candidates, plausible, recover_first_byte, name_terminator,
  name_deleted,
}

low_bit_table : passes_below (λ s. bit_and s 1 == s % 2) 256 ≡ true
unfolding passes_below
low_bit_table = refl

low_bit : (s : ℕ) → s < 256 → bit_and s 1 ≡ s % 2
low_bit s h = ==→≡ (bit_and s 1) (s % 2) (passes_below_sound _ 256 s h low_bit_table)

-- One round in plain arithmetic.
chksum_step_lem : (s b : ℕ) → s < 256 → chksum_step s b ≡ (s % 2 * 128 + s / 2 + b) % 256
unfolding chksum_step
chksum_step_lem s b h = rw (low_bit s h) (omega arith)

pub chksum_step-lt : (s b : ℕ) → chksum_step s b < 256
unfolding chksum_step
chksum_step-lt s b = omega arith

chksum_step_inj : (s t b : ℕ) → s < 256 → t < 256 → chksum_step s b ≡ chksum_step t b → s ≡ t
chksum_step_inj s t b hs ht e =
    let e' = sym (chksum_step_lem s b hs) ∙ e ∙ chksum_step_lem t b ht in omega arith

-- The sum before a round, from the byte and the sum after it.
unstep : ℕ → ℕ → ℕ
unstep c b = let r = (c + 256 - b) % 256 in r % 128 * 2 + r / 128

unstep-lt : (c b : ℕ) → unstep c b < 256
unfolding unstep
unstep-lt c b = omega arith

chksum_step-unstep : (c b : ℕ) → c < 256 → b < 256 → chksum_step (unstep c b) b ≡ c
chksum_step-unstep c b hc hb =
    chksum_step_lem (unstep c b) b (unstep-lt c b) ∙ unfold unstep in omega arith

chksum_from_inj :
    (s t : ℕ) (bs : List ℕ) → s < 256 → t < 256 → chksum_from s bs ≡ chksum_from t bs → s ≡ t
unfolding chksum_from
chksum_from_inj s t [] hs ht e = e
chksum_from_inj s t (b ∷ bs) hs ht e = chksum_step_inj s t b hs ht (
    chksum_from_inj (chksum_step s b) (chksum_step t b) bs (chksum_step-lt s b) (chksum_step-lt t b)
      e)

chksum_from_surj :
    (bs : List ℕ) (c : ℕ) → Bytes bs → c < 256 → (s : ℕ) × (s < 256) × (chksum_from s bs ≡ c)
unfolding chksum_from
chksum_from_surj [] c h hc = (c, hc, refl)
chksum_from_surj (b ∷ bs) c (hb, h) hc =
    let (s, hs, e) = chksum_from_surj bs c h hc in
    (unstep s b, unstep-lt s b, rw (chksum_step-unstep s b hs hb) e)

chksum_step-zero : (b : ℕ) → b < 256 → chksum_step 0 b ≡ b
chksum_step-zero b h = chksum_step_lem 0 b (omega arith) ∙ omega arith

chksum-cons : (b : ℕ) (bs : List ℕ) → b < 256 → chksum (b ∷ bs) ≡ chksum_from b bs
unfolding chksum
chksum-cons b bs h = ap (λ s. chksum_from s bs) (chksum_step-zero b h)

-- Two names that differ only in their first byte have different checksums.
pub chksum_first_inj :
    (a b : ℕ) (bs : List ℕ) → a < 256 → b < 256 → chksum (a ∷ bs) ≡ chksum (b ∷ bs) → a ≡ b
chksum_first_inj a b bs ha hb e =
    chksum_from_inj a b bs ha hb (sym (chksum-cons a bs ha) ∙ e ∙ chksum-cons b bs hb)

pub chksum_first_surj :
    (bs : List ℕ) (c : ℕ) → Bytes bs → c < 256 → (u : ℕ) × (u < 256) × (chksum (u ∷ bs) ≡ c)
chksum_first_surj bs c h hc =
    let (u, hu, e) = chksum_from_surj bs c h hc in (u, hu, chksum-cons u bs hu ∙ e)

module _ (bs : List ℕ) (c u : ℕ) (hu : u < 256) (eu : chksum (u ∷ bs) ≡ c) where
  miss : (k : ℕ) → k < 256 → k ≢ u → (chksum (k ∷ bs) == c) ≡ false
  miss k hk ne = not_true (λ h. ne (chksum_first_inj k u bs hk hu (==→≡ _ c h ∙ sym eu)))

  -- Past the matching byte the loop keeps what it found.
  try_past :
      (left k : ℕ) (found : Option ℕ)
      → k + left ≡ 256
      → u < k
      → try_candidates left k bs c found ≡ found
  unfolding try_candidates
  try_past zero k found e h = refl
  try_past (suc left) k found e h =
      rw (miss k (omega arith) (omega arith))
        (try_past left (k + 1) found (omega arith) (omega arith))

  -- Up to the matching byte it has found nothing, and it finds that byte.
  try_finds : (left k : ℕ) → k + left ≡ 256 → k ≤ u → try_candidates left k bs c none ≡ some u
  unfolding try_candidates
  try_finds zero k e h = absurd (omega arith)
  try_finds (suc left) k e h = elim (Bool-cases (k == u)) [
    | inl same ↦
        let ku : k ≡ u = ==→≡ k u same in
        rw (ku, eu, ==_refl c) (try_past left (u + 1) (some u) (omega arith) (omega arith))
    | inr other ↦
        let ne : k ≢ u = ground arith in
        rw (miss k (omega arith) ne) (try_finds left (k + 1) (omega arith) (omega arith))
  ]

  recovers : recover_first_byte bs c ≡ plausible (some u)
  unfolding recover_first_byte
  recovers = ap plausible (try_finds 256 0 (omega arith) (omega arith))

plausible-some :
    (u b : ℕ) → plausible (some u) ≡ some b → (u ≡ b) × (b ≢ name_terminator) × (b ≢ name_deleted)
unfolding plausible
plausible-some u b h = ground arith

pub plausible_self : (b : ℕ) → b ≢ name_terminator → b ≢ name_deleted → plausible (some b) ≡ some b
unfolding plausible
plausible_self b live kept = ground arith

-- On ten surviving bytes and a checksum byte, `recover_first_byte` returns exactly the byte that a
-- live entry can hold, neither 0x00 nor 0xE5, and under which the whole name has that checksum.
pub recover_first_byte_iff :
    (surviving : List ℕ) (checksum b : ℕ)
    → Bytes surviving
    → checksum < 256
    → (recover_first_byte surviving checksum ≡ some b) ↔ (
        (b < 256)
        × (chksum (b ∷ surviving) ≡ checksum)
        × (b ≢ name_terminator)
        × (b ≢ name_deleted))
recover_first_byte_iff surviving checksum b h hc =
    let (u, hu, eu) = chksum_first_surj surviving checksum h hc in
    let found = recovers surviving checksum u hu eu in
    (
      λ e.
          let (same, live, kept) = plausible-some u b (sym found ∙ e) in
          (rw same at hu, rw same at eu, live, kept),
      λ (hb, eb, live, kept). recovers surviving checksum b hb eb ∙ plausible_self b live kept,
    )

chksum_from-lt : (s : ℕ) (bs : List ℕ) → s < 256 → chksum_from s bs < 256
unfolding chksum_from
chksum_from-lt s [] h = h
chksum_from-lt s (b ∷ bs) h = chksum_from-lt (chksum_step s b) bs (chksum_step-lt s b)

pub chksum-lt : (b : ℕ) (bs : List ℕ) → b < 256 → chksum (b ∷ bs) < 256
chksum-lt b bs h = rw (chksum-cons b bs h) (chksum_from-lt b bs h)
