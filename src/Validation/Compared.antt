-- ===== src/Validation/Compared.antt =====
-- src/validation.rs: what each outcome says of the two digests.
use taphonomy.Prelude.{
  ℕ, Option, none, some, List, bytes_eq, bytes_eq→≡, bytes_eq_refl, ◌≡◌, ◌≢◌, refl, inl, inr,
  Bool-cases,
}
use taphonomy.Validation.{Outcome, same_digest, differs, not_attempted, outcome_of, validate}

-- What an outcome says of the recovered digest and the reference.
pub data Says (recovered : List ℕ) : Option (List ℕ) → Outcome → Type 0 where
  equal : {supplied : List ℕ} → supplied ≡ recovered → Says recovered (some supplied) same_digest
  unequal : {supplied : List ℕ} → supplied ≢ recovered → Says recovered (some supplied) differs
  nothing_supplied : Says recovered none not_attempted

-- Every outcome is right: a match is equality of the digests, a difference their inequality, and no
-- comparison is reported where no reference was supplied. The finding carries the digest, the reference
-- and the extent that it was given.
pub validate-Says :
    (recovered : List ℕ) (covers : ℕ) (reference : Option (List ℕ))
    → Says recovered reference ((validate recovered covers reference).outcome)
      × ((validate recovered covers reference).recovered ≡ recovered)
      × ((validate recovered covers reference).reference ≡ reference)
      × ((validate recovered covers reference).covers ≡ covers)
unfolding validate outcome_of
validate-Says recovered covers none = (nothing_supplied, refl, refl, refl)
validate-Says recovered covers (some supplied) = elim (Bool-cases (bytes_eq supplied recovered)) [
  | inl same ↦ rw (same) ((equal (bytes_eq→≡ supplied recovered same), refl, refl, refl))
  | inr other ↦
      let unlike : supplied ≢ recovered =
        λ e. let h = rw e at other in let k = bytes_eq_refl recovered in cc in
      rw (other) ((unequal unlike, refl, refl, refl))
]
