-- ===== src/Tests/Drive.antt =====
-- A file system and a digest for the tests: files are found by their paths, every write succeeds, and the
-- digest is 32 bytes of which the first is the sum.
use taphonomy.Prelude.{
  ℕ, ◌+◌, ◌%◌, Option, none, some, List, [], ◌∷◌, ◌++◌, Result, ok, err, if◌then◌else◌, bytes_eq,
  bytes_eq→≡, bytes_eq_refl, replicate, joined, folded, ◌≡◌, ◌≢◌, refl, sym, ap, ◌∙◌, inl, inr,
  Bool-cases,
}
use mathlib.Core.List.{append_assoc, append-nil}
use taphonomy.Hash.Hasher.{Sha256, IoError, already_exists, not_found, Reads}
use taphonomy.Hash.Hasher.Reader.{slices_of, failure_of}
use taphonomy.Extraction.System.{FileSystem}

abbrev total : List ℕ → ℕ
total [] = 0
total (b ∷ bs) = b + total bs

abbrev sum_digest : List ℕ → List ℕ
sum_digest bs = total bs % 256 ∷ replicate 31 0

pub folded-joined :
    (before : List ℕ) (pieces : List (List ℕ))
    → folded (λ a. λ b. a ++ b) before pieces ≡ before ++ joined pieces
unfolding folded joined
folded-joined before [] = sym (append-nil before)
folded-joined before (p ∷ pieces) =
    folded-joined (before ++ p) pieces ∙ append_assoc before p (joined pieces)

abbrev pub sums : Sha256 (List ℕ)
sums = record {
  new = [];
  update = λ a. λ b. a ++ b;
  finalize = sum_digest;
  digest = sum_digest;
  digest-length = λ bytes. refl;
  incremental = λ pieces. ap sum_digest (folded-joined [] pieces);
}

-- What is at each path.
abbrev pub Drive : Type 0
Drive = List ℕ → Option (List ℕ)

abbrev pub put : List ℕ → Option (List ℕ) → Drive → Drive
put path held s q = if bytes_eq q path then held else s q

abbrev exists_error : IoError
exists_error = record { kind = already_exists; message = 0x65 ∷ [] }

abbrev missing_error : IoError
missing_error = record { kind = not_found; message = 0x6D ∷ [] }

abbrev created : List ℕ → Drive → Option (List ℕ) → Result IoError (List ℕ) × Drive
created path s none = (ok path, put path (some []) s)
created path s (some held) = (err exists_error, s)

abbrev extended : List ℕ → List ℕ → Drive → Option (List ℕ) → Result IoError (Unit {0}) × Drive
extended path bytes s none = (err missing_error, s)
extended path bytes s (some held) = (ok tt, put path (some (held ++ bytes)) s)

abbrev removed : List ℕ → Drive → Option (List ℕ) → Result IoError (Unit {0}) × Drive
removed path s none = (err missing_error, s)
removed path s (some held) = (ok tt, put path none s)

abbrev read_of : Option (List ℕ) → Result IoError Reads
read_of none = err missing_error
read_of (some held) = ok (ok held ∷ [])

pub put-same : (path : List ℕ) (held : Option (List ℕ)) (s : Drive) → put path held s path ≡ held
put-same path held s = rw (bytes_eq_refl path) refl

pub put-other :
    (path : List ℕ) (held : Option (List ℕ)) (s : Drive) (q : List ℕ)
    → q ≢ path
    → put path held s q ≡ s q
put-other path held s q differs = elim (Bool-cases (bytes_eq q path)) [
  | inl same ↦ absurd (differs (bytes_eq→≡ q path same))
  | inr other ↦ rw (other) refl
]

abbrev ok_of : {A : Type 0} → A → Result IoError A
ok_of a = ok a

ok-injective : {A : Type 0} {a b : A} → ok_of a ≡ ok_of b → a ≡ b
ok-injective e = cc

pub created-ok :
    (path : List ℕ) (s : Drive) (file : List ℕ) (s' : Drive) (at : Option (List ℕ))
    → s path ≡ at
    → created path s at ≡ (ok file, s')
    → (file ≡ path) × (s path ≡ none) × (s' path ≡ some []) × ((q : List ℕ) → q ≢ path → s' q ≡ s q)
created-ok path s file s' (some held) is e = let first = ap (λ r. r.0) e in cc
created-ok path s file s' none is e =
    let named : file ≡ path = let first = ap (λ r. r.0) e in sym (ok-injective first) in
    let next : put path (some []) s ≡ s' = ap (λ r. r.1) e in
    (
      named,
      is,
      sym (ap (λ f. f path) next) ∙ put-same path (some []) s,
      λ q. λ differs. sym (ap (λ f. f q) next) ∙ put-other path (some []) s q differs,
    )

pub created-err :
    (path : List ℕ) (s : Drive) (e : IoError) (s' : Drive) (at : Option (List ℕ))
    → created path s at ≡ (err e, s')
    → (q : List ℕ) → s' q ≡ s q
created-err path s e s' none h q = let first = ap (λ r. r.0) h in cc
created-err path s e s' (some held) h q = sym (ap (λ r. r.1 q) h)

pub extended-ok :
    (path bytes before : List ℕ) (s s' : Drive)
    → extended path bytes s (s path) ≡ (ok tt, s')
    → s path ≡ some before
    → s' path ≡ some (before ++ bytes)
extended-ok path bytes before s s' h is =
    let h' : extended path bytes s (some before) ≡ (ok tt, s') =
      ap (extended path bytes s) (sym is) ∙ h in
    sym (ap (λ r. r.1 path) h') ∙ put-same path (some (before ++ bytes)) s

pub extended-other :
    (path bytes : List ℕ) (s : Drive) (at : Option (List ℕ)) (q : List ℕ)
    → q ≢ path
    → (extended path bytes s at).1 q ≡ s q
extended-other path bytes s none q differs = refl
extended-other path bytes s (some held) q differs =
    put-other path (some (held ++ bytes)) s q differs

pub removed-ok :
    (path : List ℕ) (s s' : Drive) (at : Option (List ℕ))
    → removed path s at ≡ (ok tt, s')
    → s' path ≡ none
removed-ok path s s' none h = let first = ap (λ r. r.0) h in cc
removed-ok path s s' (some held) h = sym (ap (λ r. r.1 path) h) ∙ put-same path none s

pub removed-err :
    (path : List ℕ) (s : Drive) (e : IoError) (s' : Drive) (at : Option (List ℕ))
    → s path ≡ at
    → removed path s at ≡ (err e, s')
    → s' path ≡ none
removed-err path s e s' none is h = sym (ap (λ r. r.1 path) h) ∙ is
removed-err path s e s' (some held) is h = let first = ap (λ r. r.0) h in cc

pub removed-other :
    (path : List ℕ) (s : Drive) (at : Option (List ℕ)) (q : List ℕ)
    → q ≢ path
    → (removed path s at).1 q ≡ s q
removed-other path s none q differs = refl
removed-other path s (some held) q differs = put-other path none s q differs

pub slices_of-one : (held : List ℕ) → joined (slices_of (ok held ∷ [])) ≡ held
unfolding slices_of joined
slices_of-one [] = refl
slices_of-one (b ∷ bs) = append-nil (b ∷ bs)

pub read_of-content :
    (at : Option (List ℕ)) (reads : Reads) (bytes : List ℕ)
    → read_of at ≡ ok reads
    → at ≡ some bytes
    → (rest : List ℕ) × (bytes ≡ joined (slices_of reads) ++ rest)
      × (failure_of reads ≡ none → rest ≡ [])
read_of-content none reads bytes h is = cc
read_of-content (some held) reads bytes h is =
    let same : held ≡ bytes = cc in
    let one : (ok held ∷ []) ≡ reads = ok-injective h in
    (
      [],
      sym same
          ∙ sym (append-nil held ∙ refl)
          ∙ ap (λ xs. xs ++ []) (sym (slices_of-one held) ∙ ap (λ r. joined (slices_of r)) one),
      λ none_failed. refl,
    )

abbrev pub drive : FileSystem Drive (List ℕ) (List ℕ)
drive = record {
  join = λ directory. λ name. directory ++ (0x2F ∷ name);
  create_new = λ path. λ s. created path s (s path);
  write_all = λ path. λ bytes. λ s. extended path bytes s (s path);
  sync_all = λ path. λ s. (ok tt, s);
  close = λ path. λ s. s;
  remove_file = λ path. λ s. removed path s (s path);
  open_file = λ path. λ s. read_of (s path);
  content = λ s. λ path. s path;
  stored = λ s. λ path. s path;
  path_of = λ path. path;
  creates = λ path. λ s. λ file. λ s'. created-ok path s file s' (s path) refl;
  create_fails = λ path. λ s. λ e. λ s'. created-err path s e s' (s path);
  writes = λ path. λ bytes. λ before. λ s. λ s'. extended-ok path bytes before s s';
  write_keeps = λ path. λ bytes. λ s. λ q. extended-other path bytes s (s path) q;
  syncs = λ path. λ s. λ s'. λ h. (ap (λ r. r.1 path) (sym h), ap (λ r. r.1 path) (sym h));
  sync_keeps = λ path. λ s. λ q. λ differs. refl;
  close_stored = λ path. λ s. λ same. refl;
  close_keeps = λ path. λ s. λ q. refl;
  removes = λ path. λ s. λ s'. removed-ok path s s' (s path);
  remove_missing = λ path. λ s. λ e. λ s'. λ h. λ missing. removed-err path s e s' (s path) refl h;
  remove_keeps = λ path. λ s. λ q. removed-other path s (s path) q;
  reads_content = λ path. λ s. λ reads. λ bytes. read_of-content (s path) reads bytes;
}
