-- ===== src/Exfat/Checksum/Detects.antt =====
-- src/exfat_boot.rs `boot_checksum`: which changes of a byte it sees.
use taphonomy.Prelude.{
  ℕ, zero, suc, ◌+◌, ◌*◌, ◌^◌, ◌<◌, true, false, List, [], ◌∷◌, if◌then◌else◌, take, set, get_or,
  length, All-take, IsByte, Bytes, byte, u32_mod, arith, ◌≡◌, ◌≢◌, ◌⊎◌, refl, sym, ◌∙◌, ap, inl,
  inr, Bool-cases,
}
use taphonomy.Exfat.Data.{checksum_sectors}
use taphonomy.Exfat.Checksum.{is_skipped, checksum_step, checksum_from, boot_checksum}

checksum_step-lt : (s b : ℕ) → checksum_step s b < u32_mod
unfolding checksum_step
checksum_step-lt s b = omega arith

checksum_step-inj :
    (s t b : ℕ) → s < u32_mod → t < u32_mod → checksum_step s b ≡ checksum_step t b → s ≡ t
unfolding checksum_step
checksum_step-inj s t b hs ht e = ground arith

checksum_step-byte : (s b c : ℕ) → b < 256 → c < 256 → checksum_step s b ≡ checksum_step s c → b ≡ c
unfolding checksum_step
checksum_step-byte s b c hb hc e = omega arith

-- The sum after one byte, skipped or not.
next_sum : ℕ → ℕ → ℕ → ℕ
next_sum index s b = if is_skipped index then s else checksum_step s b

next_sum_skipped : (index s b : ℕ) → is_skipped index ≡ true → next_sum index s b ≡ s
unfolding next_sum
next_sum_skipped index s b h = rw h refl

next_sum-lt : (index s b : ℕ) → s < u32_mod → next_sum index s b < u32_mod
unfolding next_sum
next_sum-lt index s b h = elim (Bool-cases (is_skipped index)) [
  | inl e ↦ rw e h
  | inr e ↦ rw e (checksum_step-lt s b)
]

next_sum-inj :
    (index s t b : ℕ) → s < u32_mod → t < u32_mod → next_sum index s b ≡ next_sum index t b → s ≡ t
unfolding next_sum
next_sum-inj index s t b hs ht h = elim (Bool-cases (is_skipped index)) [
  | inl e ↦ rw e at h
  | inr e ↦ checksum_step-inj s t b hs ht (rw e at h)
]

checksum_from-inj :
    (index s t : ℕ) (bs : List ℕ)
    → s < u32_mod
    → t < u32_mod
    → checksum_from index s bs ≡ checksum_from index t bs
    → s ≡ t
unfolding checksum_from next_sum
checksum_from-inj index s t [] hs ht e = e
checksum_from-inj index s t (b ∷ bs) hs ht e = next_sum-inj index s t b hs ht (
    checksum_from-inj (index + 1) (next_sum index s b) (next_sum index t b) bs
      (next_sum-lt index s b hs) (next_sum-lt index t b ht) e)

take-set : (n k x : ℕ) (bs : List ℕ) → take n (set bs k x) ≡ set (take n bs) k x
take-set zero k x bs = refl
take-set (suc n) k x [] = refl
take-set (suc n) zero x (b ∷ bs) = refl
take-set (suc n) (suc k) x (b ∷ bs) = ap (λ l. b ∷ l) (take-set n k x bs)

byte-take : (n k : ℕ) (bs : List ℕ) → k < n → get_or (take n bs) k 0 ≡ get_or bs k 0
byte-take zero k bs h = absurd (omega arith)
byte-take (suc n) k [] h = refl
byte-take (suc n) zero (b ∷ bs) h = refl
byte-take (suc n) (suc k) (b ∷ bs) h = byte-take n k bs (omega arith)

length-take_covers : (n k : ℕ) (bs : List ℕ) → k < n → k < length bs → k < length (take n bs)
length-take_covers zero k bs h l = absurd (omega arith)
length-take_covers (suc n) k [] h l = l
length-take_covers (suc n) zero (b ∷ bs) h l = omega arith
length-take_covers (suc n) (suc k) (b ∷ bs) h l =
    let rest = length-take_covers n k bs (omega arith) (omega arith) in omega arith

checksum_from-set_skipped :
    (index s k x : ℕ) (bs : List ℕ)
    → is_skipped (index + k) ≡ true
    → checksum_from index s (set bs k x) ≡ checksum_from index s bs
unfolding checksum_from next_sum
checksum_from-set_skipped index s k x [] h = refl
checksum_from-set_skipped index s zero x (b ∷ bs) h =
    let here : index + 0 ≡ index = omega arith in
    let h' : is_skipped index ≡ true = rw here at h in
    ap (λ v. checksum_from (index + 1) v bs)
      (next_sum_skipped index s x h' ∙ sym (next_sum_skipped index s b h'))
checksum_from-set_skipped index s (suc k) x (b ∷ bs) h =
    let later : index + suc k ≡ index + 1 + k = omega arith in
    checksum_from-set_skipped (index + 1) (if is_skipped index then s else checksum_step s b) k x bs
      (rw later at h)

checksum_from-set :
    (index s k x : ℕ) (bs : List ℕ)
    → s < u32_mod
    → Bytes bs
    → x < 256
    → k < length bs
    → is_skipped (index + k) ≡ false
    → checksum_from index s (set bs k x) ≡ checksum_from index s bs
    → x ≡ get_or bs k 0
unfolding checksum_from next_sum
checksum_from-set index s k x [] hs h hx l covered e = absurd (omega arith)
checksum_from-set index s zero x (b ∷ bs) hs (hb, h) hx l covered e =
    let here : index + 0 ≡ index = omega arith in
    let seen : is_skipped index ≡ false = rw here at covered in
    let sums =
      checksum_from-inj (index + 1) (next_sum index s x) (next_sum index s b) bs
        (next_sum-lt index s x hs) (next_sum-lt index s b hs) e in
    checksum_step-byte s x b hx hb (rw seen at sums)
checksum_from-set index s (suc k) x (b ∷ bs) hs (hb, h) hx l covered e =
    let later : index + suc k ≡ index + 1 + k = omega arith in
    checksum_from-set (index + 1) (next_sum index s b) k x bs (next_sum-lt index s b hs) h hx
      (omega arith) (rw later at covered) e

is_skipped_lem : (k : ℕ) → (k ≡ 106) ⊎ (k ≡ 107) ⊎ (k ≡ 112) → is_skipped k ≡ true
unfolding is_skipped
is_skipped_lem k (inl e) = rw e refl
is_skipped_lem k (inr (inl e)) = rw e refl
is_skipped_lem k (inr (inr e)) = rw e refl

-- The checksum depends on none of the bytes that the specification lets change: the two of VolumeFlags, at
-- 106 and 107, and PercentInUse, at 112.
pub boot_checksum-set_skipped :
    (region : List ℕ) (shift k x : ℕ)
    → (k ≡ 106) ⊎ (k ≡ 107) ⊎ (k ≡ 112)
    → boot_checksum (set region k x) shift ≡ boot_checksum region shift
unfolding boot_checksum
boot_checksum-set_skipped region shift k x h =
    let start : k ≡ 0 + k = omega arith in
    rw (take-set (checksum_sectors * 2 ^ shift) k x region) (
      checksum_from-set_skipped 0 0 k x (take (checksum_sectors * 2 ^ shift) region)
        (rw start at (is_skipped_lem k h)))

is_skipped_only : (k : ℕ) → k ≢ 106 → k ≢ 107 → k ≢ 112 → is_skipped k ≡ false
unfolding is_skipped
is_skipped_only k a b c = ground arith

-- The checksum detects every change of one byte in the sectors that it covers, at any offset but 106 and 107
-- (VolumeFlags) and 112 (PercentInUse).
pub boot_checksum-ne-set :
    (region : List ℕ) (shift k x : ℕ)
    → Bytes region
    → x < 256
    → k < checksum_sectors * 2 ^ shift
    → k < length region
    → k ≢ 106
    → k ≢ 107
    → k ≢ 112
    → x ≢ byte region k
    → boot_checksum (set region k x) shift ≢ boot_checksum region shift
unfolding boot_checksum byte
boot_checksum-ne-set region shift k x bytes hx covered inside a b c differs e =
    let n = checksum_sectors * 2 ^ shift in
    let start : k ≡ 0 + k = omega arith in
    let e' : checksum_from 0 0 (set (take n region) k x) ≡ checksum_from 0 0 (take n region) =
      rw (take-set n k x region) at e in
    let same =
      checksum_from-set 0 0 k x (take n region) (omega arith) (All-take IsByte n region bytes) hx
        (length-take_covers n k region covered inside) (rw start at (is_skipped_only k a b c)) e' in
    differs (same ∙ byte-take n k region covered)
