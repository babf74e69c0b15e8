-- ===== src/Extraction/Destination/Distinct.antt =====
-- src/extraction.rs `Destination::path`: the names of artifacts.
use taphonomy.Prelude.{
  ℕ, zero, suc, ◌+◌, ◌-◌, ◌*◌, ◌/◌, ◌%◌, ◌<◌, Bool, true, false, ◌&&◌, ◌||◌, List, [], ◌∷◌, ◌++◌,
  drop, take, ◌==◌, ltb, leb, if◌then◌else◌, All, arith, ◌≡◌, ◌≢◌, refl, sym, ap, ◌∙◌, inl, inr,
  Bool-cases, ltb→lt, ltb→le,
}
use taphonomy.Extraction.Destination.{digits, decimal, file_name}

unfoldable is_digit : ℕ → Bool
is_digit b = leb 0x30 b && leb b 0x39

-- The number that a text begins with, and the text behind it.
unfoldable scan : ℕ → List ℕ → ℕ × List ℕ
scan n [] = (n, [])
scan n (b ∷ bs) =
    let longer = scan (n * 10 + (b - 0x30)) bs in if is_digit b then longer else (n, b ∷ bs)

scan-digit :
    (n d : ℕ) (rest : List ℕ) → d < 10 → scan n ((0x30 + d) ∷ rest) ≡ scan (n * 10 + d) rest
unfolding scan is_digit
scan-digit n d rest h =
    let value : 0x30 + d - 0x30 ≡ d = omega arith in
    let is : is_digit (0x30 + d) ≡ true = ground arith in rw (is, value) refl

scan-digits : (fuel n : ℕ) (rest : List ℕ) → n < fuel → scan 0 (digits fuel n rest) ≡ scan n rest
unfolding digits
scan-digits zero n rest h = absurd (omega arith)
scan-digits (suc fuel) n rest h = elim (Bool-cases (ltb n 10)) [
  | inl small ↦
      rw (small) (scan-digit 0 n rest (ltb→lt n 10 small) ∙ ap (λ k. scan k rest) (omega arith))
  | inr large ↦
      let le = ltb→le n 10 large in
      rw (large) (
        scan-digits fuel (n / 10) ((0x30 + n % 10) ∷ rest) (omega arith)
        ∙ scan-digit (n / 10) (n % 10) rest (omega arith)
        ∙ ap (λ k. scan k rest) (omega arith))
]

digits-append :
    (fuel n : ℕ) (rest more : List ℕ) → digits fuel n rest ++ more ≡ digits fuel n (rest ++ more)
unfolding digits
digits-append zero n rest more = refl
digits-append (suc fuel) n rest more = elim (Bool-cases (ltb n 10)) [
  | inl small ↦ rw (small) refl
  | inr large ↦ rw (large) (digits-append fuel (n / 10) ((0x30 + n % 10) ∷ rest) more)
]

-- A decimal number ends where the text behind it does not go on with a digit.
decimal-eq :
    (n m b c : ℕ) (xs ys : List ℕ)
    → is_digit b ≡ false
    → is_digit c ≡ false
    → decimal n ++ (b ∷ xs) ≡ decimal m ++ (c ∷ ys)
    → (n ≡ m) × (b ∷ xs ≡ c ∷ ys)
unfolding decimal scan
decimal-eq n m b c xs ys hb hc e =
    let scanned = λ (k d : ℕ) (zs : List ℕ) (hd : is_digit d ≡ false).
      ap (scan 0) (digits-append (k + 1) k [] (d ∷ zs))
      ∙ scan-digits (k + 1) k (d ∷ zs) (omega arith)
      ∙ stop k d zs hd in
    let both = sym (scanned n b xs hb) ∙ ap (scan 0) e ∙ scanned m c ys hc in
    (ap (λ r. r.0) both, ap (λ r. r.1) both)
  where
    stop : (k d : ℕ) (zs : List ℕ) → is_digit d ≡ false → scan k (d ∷ zs) ≡ (k, d ∷ zs)
    stop k d zs hd = rw (hd) refl

-- Two artifacts whose partition, directory cluster, slot or first cluster differ have different file names.
pub file_name-injective :
    (p c s f p' c' s' f' : ℕ)
    → file_name p c s f ≡ file_name p' c' s' f'
    → (p ≡ p') × (c ≡ c') × (s ≡ s') × (f ≡ f')
unfolding file_name is_digit
file_name-injective p c s f p' c' s' f' e =
    let (ep, e1) = decimal-eq p p' 0x2D 0x2D _ _ refl refl (ap (λ t. drop 1 t) e) in
    let (ec, e2) = decimal-eq c c' 0x2D 0x2D _ _ refl refl (ap (λ t. drop 2 t) e1) in
    let (es, e3) = decimal-eq s s' 0x2D 0x2D _ _ refl refl (ap (λ t. drop 2 t) e2) in
    let (ef, e4) = decimal-eq f f' 0x2E 0x2E _ _ refl refl (ap (λ t. drop 7 t) e3) in
    (ep, ec, es, ef)

-- A byte that no path reads as the end of a name: not a separator, and no NUL.
abbrev pub IsPlain : ℕ → Type 0
IsPlain b = (0 < b) × (b ≢ 0x2F)

digits-IsPlain : (fuel n : ℕ) (rest : List ℕ) → All IsPlain rest → All IsPlain (digits fuel n rest)
unfolding digits
digits-IsPlain zero n rest h = h
digits-IsPlain (suc fuel) n rest h = elim (Bool-cases (ltb n 10)) [
  | inl small ↦
      let least : ltb n 10 ≡ true = small in rw (small) ((omega arith, λ e. omega arith), h)
  | inr large ↦
      rw (large)
        (digits-IsPlain fuel (n / 10) ((0x30 + n % 10) ∷ rest) ((omega arith, λ e. omega arith), h))
]

decimal-IsPlain : (n : ℕ) (rest : List ℕ) → All IsPlain rest → All IsPlain (decimal n ++ rest)
unfolding decimal
decimal-IsPlain n rest h = rw (digits-append (n + 1) n [] rest) (digits-IsPlain (n + 1) n rest h)

are_plain : List ℕ → Bool
are_plain [] = true
are_plain (b ∷ bs) = let rest = are_plain bs in (if b == 0 || b == 0x2F then false else rest)

text-IsPlain :
    (text rest : List ℕ) → are_plain text ≡ true → All IsPlain rest → All IsPlain (text ++ rest)
unfolding are_plain
text-IsPlain [] rest h plain = plain
text-IsPlain (b ∷ text) rest h plain =
    let later : are_plain text ≡ true = ground arith in
    let first : (0 < b) × ((b == 0x2F) ≡ false) = ground arith in
    ((first.0, λ e. ground arith), text-IsPlain text rest later plain)

-- No name holds a separator or a NUL, and none begins with a dot: a file is written in the caller's
-- directory.
pub file_name-IsPlain :
    (p c s f : ℕ) → All IsPlain (file_name p c s f) × (take 1 (file_name p c s f) ≡ 0x70 ∷ [])
unfolding file_name are_plain
file_name-IsPlain p c s f =
    let ending = text-IsPlain (0x2E ∷ 0x62 ∷ 0x69 ∷ 0x6E ∷ []) [] refl tt in
    let from_first =
      text-IsPlain (0x2D ∷ 0x66 ∷ 0x69 ∷ 0x72 ∷ 0x73 ∷ 0x74 ∷ 0x2D ∷ []) _ refl
        (decimal-IsPlain f _ ending) in
    let from_slot = text-IsPlain (0x2D ∷ 0x73 ∷ []) _ refl (decimal-IsPlain s _ from_first) in
    let from_cluster = text-IsPlain (0x2D ∷ 0x63 ∷ []) _ refl (decimal-IsPlain c _ from_slot) in
    (text-IsPlain (0x70 ∷ []) _ refl (decimal-IsPlain p _ from_cluster), refl)
