-- ===== src/Directory/Associate/Recovers.antt =====
-- src/fat_directory.rs `associate`: which entry decides its answer, and when it restores a byte.
use taphonomy.Prelude.{
  ℕ, ◌<◌, none, some, List, [], ◌∷◌, ◌++◌, length, take-length-append, get_elem?-length-append,
  Bytes, arith, ◌≡◌, refl, ◌∙◌, ◌≢◌, inl, inr, Option-cases,
}
use taphonomy.Directory.Name.{chksum, name_terminator, name_deleted}
use taphonomy.Directory.Name.Recover.{recover_first_byte_iff, chksum-lt}
use taphonomy.Directory.Entry.{Entry}
use taphonomy.Directory.Associate.{
  recovered, surviving_name, component_checksum, set_checksum, derive, associate,
}
use mathlib.Core.List.{reverse, reverse-append}

set_checksum_seen : (before : List Entry) (c : ℕ) → set_checksum before (some c) ≡ some c
unfolding set_checksum
set_checksum_seen [] c = refl
set_checksum_seen (e ∷ es) c = ground (arith, set_checksum_seen es c)

set_checksum_nearest :
    (e : Entry) (before : List Entry) → set_checksum (e ∷ before) none ≡ component_checksum e.kind
unfolding set_checksum
set_checksum_nearest e before = elim (Option-cases (component_checksum e.kind)) [
  | inl other ↦ rw (other, set_checksum) refl
  | inr (c, is) ↦ rw (is, set_checksum) (set_checksum_seen before c)
]

module _ (front after : List Entry) (entry : Entry) (surviving : List ℕ)
    (deleted_short : surviving_name entry.kind ≡ some surviving) where
  associate_lem :
      associate (front ++ (entry ∷ after)) (length front)
      ≡ some (derive surviving (set_checksum (reverse front) none))
  unfolding associate
  associate_lem =
      rw
        (
          get_elem?-length-append front entry after,
          deleted_short,
          take-length-append front (entry ∷ after),
          associate,
        )
        refl

module _ (before after : List Entry) (nearest entry : Entry) (surviving : List ℕ) where
  abbrev front : List Entry
  front = before ++ (nearest ∷ [])

  -- For a deleted short entry, only the entry directly before it decides: its checksum if it is a
  -- deleted long-name component, and otherwise nothing.
  pub associate_nearest :
      surviving_name entry.kind ≡ some surviving
      → associate (front ++ (entry ∷ after)) (length front)
        ≡ some (derive surviving (component_checksum nearest.kind))
  associate_nearest short =
      associate_lem front after entry surviving short
      ∙ rw (reverse-append before (nearest ∷ []), set_checksum_nearest nearest (reverse before))
          refl

  -- Where a short entry whose name began with a byte that a live entry can hold is deleted behind a
  -- component that carries that name's checksum, `associate` restores that byte.
  pub associate_recovers :
      (b : ℕ)
      → b < 256
      → b ≢ name_terminator
      → b ≢ name_deleted
      → Bytes surviving
      → component_checksum nearest.kind ≡ some (chksum (b ∷ surviving))
      → surviving_name entry.kind ≡ some surviving
      → associate (front ++ (entry ∷ after)) (length front) ≡ some (recovered b)
  unfolding derive
  associate_recovers b hb live kept bytes carries short =
      let found =
        (recover_first_byte_iff surviving (chksum (b ∷ surviving)) b bytes
            (chksum-lt b surviving hb)).1
          (hb, refl, live, kept) in
      associate_nearest short ∙ rw (carries, found, derive) refl
