-- ===== src/Auth/Thread/Maps.antt =====
-- The maps of the authentication thread: what a change of one key leaves of the others.
use my_mmoproject.Base.{
  ℕ, ◌≡◌, refl, ap, ◌∙◌, true, false, List, [], ◌∷◌, none, ◌==◌, if◌then◌else◌, arith, Bool-cases,
  inl, inr,
}
use my_mmoproject.Field.{elem, erase}
use my_mmoproject.Auth.Thread.{lookup, erase_key, insert_id, take_over}

pub lookup-erase_key :
    (k j : ℕ) (m : List (ℕ × ℕ)) → lookup j (erase_key k m) ≡ (if j == k then none else lookup j m)
lookup-erase_key k j [] = ground arith
lookup-erase_key k j ((i, v) ∷ m) = ground (arith, lookup-erase_key k j m)

pub elem-erase_other :
    (id x : ℕ) (ids : List ℕ) → elem x (erase id ids) ≡ (if x == id then false else elem x ids)
elem-erase_other id x [] = ground arith
elem-erase_other id x (b ∷ ids) = ground (arith, elem-erase_other id x ids)

pub elem-insert_id :
    (id x : ℕ) (ids : List ℕ) → elem x (insert_id id ids) ≡ (if x == id then true else elem x ids)
elem-insert_id id x ids = elim (Bool-cases (x == id)) [
  | inl same ↦ let e : x ≡ id = ground (arith, same) in ground (arith, same, ap (λ y. elem y ids) e)
  | inr other ↦ ground (arith, other)
]

-- No id twice.
abbrev pub Distinct : List ℕ → Type 0
Distinct [] = Unit
Distinct (id ∷ ids) = (elem id ids ≡ false) × Distinct ids

pub insert_id-Distinct : (id : ℕ) (ids : List ℕ) → Distinct ids → Distinct (insert_id id ids)
insert_id-Distinct id ids d = elim (Bool-cases (elem id ids)) [
  | inl old ↦ rw old d
  | inr new ↦ rw new (new, d)
]

pub erase-Distinct : (id : ℕ) (ids : List ℕ) → Distinct ids → Distinct (erase id ids)
erase-Distinct id [] d = tt
erase-Distinct id (b ∷ ids) d = elim (Bool-cases (id == b)) [
  | inl same ↦ rw same (erase-Distinct id ids d.1)
  | inr other ↦ rw other (ground (arith, elem-erase_other id b ids, d.0), erase-Distinct id ids d.1)
]

pub take_over-Distinct : (new ids : List ℕ) → Distinct ids → Distinct (take_over new ids)
unfolding take_over
take_over-Distinct [] ids d = d
take_over-Distinct (id ∷ new) ids d =
    take_over-Distinct new (insert_id id ids) (insert_id-Distinct id ids d)

pub elem-take_over :
    (new ids : List ℕ) (x : ℕ)
    → elem x (take_over new ids) ≡ (if elem x new then true else elem x ids)
unfolding take_over
elem-take_over [] ids x = refl
elem-take_over (id ∷ new) ids x =
    elem-take_over new (insert_id id ids) x ∙ ground (arith, elem-insert_id id x ids)
