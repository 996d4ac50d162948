-- ===== src/Field/Find.antt =====
-- Looking up, changing and removing the objects of a field by their ids.
use my_mmoproject.Base.{
  ℕ, ◌≡◌, ◌≢◌, refl, true, List, [], ◌∷◌, some, ◌==◌, Bool-cases, inl, inr, arith, map,
}
use my_mmoproject.Field.{find, set_at, elem, erase}

module _ {A : Type 0} (key : A → ℕ) where
  pub find-set_at_other :
      (id other : ℕ) (new : A) (as' : List A)
      → key new ≡ id
      → other ≢ id
      → find key other (set_at key id new as') ≡ find key other as'
  find-set_at_other id other new [] k h = refl
  find-set_at_other id other new (a ∷ as') k h =
      ground (arith, k, h, find-set_at_other id other new as' k h)

  pub key-find : (id : ℕ) (as' : List A) {a : A} → find key id as' ≡ some a → key a ≡ id
  key-find id [] e = absurd (ground (arith, e))
  key-find id (b ∷ as') {a} e = elim (Bool-cases (id == key b)) [
    | inl hit ↦ let e' : some b ≡ some a = (rw hit at e) in ground (arith, e', hit)
    | inr miss ↦ key-find id as' (rw miss at e)
  ]

  pub elem-find :
      (id : ℕ) (as' : List A) {a : A} → find key id as' ≡ some a → elem id (map key as') ≡ true
  elem-find id [] e = absurd (ground (arith, e))
  elem-find id (b ∷ as') e = elim (Bool-cases (id == key b)) [
    | inl hit ↦ rw hit refl
    | inr miss ↦ rw miss (elem-find id as' (rw miss at e))
  ]

  pub find-elem :
      (id : ℕ) (as' : List A) → elem id (map key as') ≡ true → (a : A) × (find key id as' ≡ some a)
  find-elem id [] e = absurd (ground (arith, e))
  find-elem id (b ∷ as') e = elim (Bool-cases (id == key b)) [
    | inl hit ↦ (b, rw hit refl)
    | inr miss ↦ let (a, f) = find-elem id as' (rw miss at e) in (a, rw miss f)
  ]

pub elem-erase_other :
    (id other : ℕ) (ids : List ℕ) → other ≢ id → elem other (erase id ids) ≡ elem other ids
elem-erase_other id other [] h = refl
elem-erase_other id other (b ∷ ids) h = ground (arith, h, elem-erase_other id other ids h)
