-- ===== src/Field/Update/Passes/Held.antt =====
-- The sets of a field's sectors beside the objects that stand in them: each set holds the ids of the
-- objects whose own sector it is.
use my_mmoproject.Base.{
  ℕ, ◌≡◌, ◌≢◌, refl, sym, ap, ◌∙◌, subst, Bool, true, false, List, ◌∷◌, Option, none, some, ◌==◌,
  Bool-cases, inl, inr, arith, ==_iff,
}
use my_mmoproject.Sector.{Sector, sector_eq, in_map}
use my_mmoproject.Sector.Diff.{sector_eq→eq}
use my_mmoproject.Field.{Sectors, find, remove_at, set_at, elem, erase, at_sector}
use my_mmoproject.Field.Loot.{find-remove_at, find-remove_at_other, find-set_at, elem-erase}
use my_mmoproject.Field.Find.{find-set_at_other, elem-erase_other}
use my_mmoproject.Field.Update.Passes.{relocate}

module _ (id : ℕ) (from to : Sector) (m : Sectors) where
  elem-relocate :
      ((s : Sector) → elem id (m s) ≡ sector_eq s from)
      → (s : Sector) → elem id (relocate id from to m s) ≡ sector_eq s to
  elem-relocate h s = elim (Bool-cases (sector_eq s to)) [
    | inl entered ↦ rw entered (ground arith)
    | inr elsewhere ↦ elim (Bool-cases (sector_eq s from)) [
      | inl left ↦ rw (elsewhere, left) (elem-erase id (m from))
      | inr away ↦ rw (elsewhere, away) (h s ∙ away)
    ]
  ]

  elem-left :
      (other : ℕ) (s : Sector)
      → other ≢ id
      → elem other (at_sector m from (erase id (m from)) s) ≡ elem other (m s)
  elem-left other s h = elim (Bool-cases (sector_eq s from)) [
    | inl left ↦ rw left (
        elem-erase_other id other (m from) h
        ∙ ap (λ t. elem other (m t)) (sym (sector_eq→eq s from left)))
    | inr away ↦ rw away refl
  ]

  elem-relocate_other :
      (other : ℕ) (s : Sector)
      → other ≢ id
      → elem other (relocate id from to m s) ≡ elem other (m s)
  elem-relocate_other other s h =
      let l : Sectors = at_sector m from (erase id (m from)) in
      let passed : elem other (id ∷ l to) ≡ elem other (l to) = ground (arith, h) in
      elim (Bool-cases (sector_eq s to)) [
        | inl entered ↦ rw entered (
            passed
            ∙ elem-left other to h
            ∙ ap (λ t. elem other (m t)) (sym (sector_eq→eq s to entered)))
        | inr elsewhere ↦ rw elsewhere (elem-left other s h)
      ]

module _ {A : Type 0} (key : A → ℕ) (current dest : A → Sector) where
  abbrev pub stands_in : Sector → Option A → Bool
  stands_in s none = false
  stands_in s (some a) = sector_eq s (current a)

  abbrev pub IsOnMap : Option A → Type 0
  IsOnMap none = Unit
  IsOnMap (some a) = (in_map (current a) ≡ true) × (in_map (dest a) ≡ true)

  -- A sector's set holds an object exactly if it is in that sector; the sectors that the objects are in
  -- or head for are on the map.
  pub record IsHeld (as' : List A) (m : Sectors) : Type 0 where
    pub held : (id : ℕ) (s : Sector) → elem id (m s) ≡ stands_in s (find key id as')
    pub mapped : (id : ℕ) → IsOnMap (find key id as')

  module _ (as' : List A) (m : Sectors) (h : IsHeld as' m) (old new : A)
      (here : find key (key new) as' ≡ some old) (fits : in_map (dest new) ≡ true) where
    found_new : find key (key new) (set_at key (key new) new as') ≡ some new
    found_new = find-set_at key (key new) new as' here refl

    found_other :
        (id : ℕ) → id ≢ key new → find key id (set_at key (key new) new as') ≡ find key id as'
    found_other id differs = find-set_at_other key (key new) id new as' refl differs

    held_old : (s : Sector) → elem (key new) (m s) ≡ sector_eq s (current old)
    held_old s = h.held (key new) s ∙ ap (stands_in s) here

    -- Sets that hold the new object in its sector and the others as before.
    replaced-IsHeld :
        (m' : Sectors)
        → ((s : Sector) → elem (key new) (m' s) ≡ sector_eq s (current new))
        → ((id : ℕ) (s : Sector) → id ≢ key new → elem id (m' s) ≡ elem id (m s))
        → in_map (current new) ≡ true
        → IsHeld (set_at key (key new) new as') m'
    replaced-IsHeld m' own others on_map = record {
      held = λ id s. elim (Bool-cases (id == key new)) [
        | inl same ↦
            subst (λ n. elem n (m' s) ≡ stands_in s (find key n (set_at key (key new) new as')))
              (sym ((==_iff id (key new)).0 same)) (own s ∙ ap (stands_in s) (sym found_new))
        | inr differs ↦
            let d : id ≢ key new = ground arith in
            others id s d ∙ h.held id s ∙ ap (stands_in s) (sym (found_other id d))
      ];
      mapped = λ id. elim (Bool-cases (id == key new)) [
        | inl same ↦
            subst (λ n. IsOnMap (find key n (set_at key (key new) new as')))
              (sym ((==_iff id (key new)).0 same)) (subst IsOnMap (sym found_new) (on_map, fits))
        | inr differs ↦
            let d : id ≢ key new = ground arith in
            subst IsOnMap (sym (found_other id d)) (h.mapped id)
      ];
    }

    -- A change of an object that leaves its sector.
    pub change-IsHeld : current new ≡ current old → IsHeld (set_at key (key new) new as') m
    change-IsHeld same =
        let (on_map, _) = subst IsOnMap here (h.mapped (key new)) in
        replaced-IsHeld m (λ s. held_old s ∙ ap (sector_eq s) (sym same)) (λ id s d. refl)
          (ap in_map same ∙ on_map)

    -- An object goes to another sector, and its id with it.
    pub relocate-IsHeld :
        current new ≡ dest new
        → IsHeld (set_at key (key new) new as') (relocate (key new) (current old) (current new) m)
    relocate-IsHeld arrived =
        replaced-IsHeld _ (elem-relocate (key new) (current old) (current new) m held_old)
          (λ id s d. elem-relocate_other (key new) (current old) (current new) m id s d)
          (ap in_map arrived ∙ fits)

  -- An object goes away, and its id out of its sector's set.
  pub remove-IsHeld :
      (as' : List A) (m : Sectors)
      → IsHeld as' m
      → (old : A) → find key (key old) as' ≡ some old
      → IsHeld
          (remove_at key (key old) as')
          (at_sector m (current old) (erase (key old) (m (current old))))
  remove-IsHeld as' m h old here =
      let m' : Sectors = at_sector m (current old) (erase (key old) (m (current old))) in
      let gone : (s : Sector) → elem (key old) (m' s) ≡ false = λ s.
        elim (Bool-cases (sector_eq s (current old))) [
          | inl same ↦ rw same (elem-erase (key old) (m (current old)))
          | inr away ↦ rw away (h.held (key old) s ∙ ap (stands_in s) here ∙ away)
        ] in
      let nowhere : find key (key old) (remove_at key (key old) as') ≡ none =
        find-remove_at key (key old) as' in
      record {
        held = λ id s. elim (Bool-cases (id == key old)) [
          | inl same ↦
              subst (λ n. elem n (m' s) ≡ stands_in s (find key n (remove_at key (key old) as')))
                (sym ((==_iff id (key old)).0 same)) (gone s ∙ ap (stands_in s) (sym nowhere))
          | inr differs ↦
              let d : id ≢ key old = ground arith in
              elem-left (key old) (current old) (current old) m id s d
              ∙ h.held id s
              ∙ ap (stands_in s) (sym (find-remove_at_other key (key old) id as' d))
        ];
        mapped = λ id. elim (Bool-cases (id == key old)) [
          | inl same ↦
              subst (λ n. IsOnMap (find key n (remove_at key (key old) as')))
                (sym ((==_iff id (key old)).0 same)) (subst IsOnMap (sym nowhere) tt)
          | inr differs ↦
              let d : id ≢ key old = ground arith in
              subst IsOnMap (sym (find-remove_at_other key (key old) id as' d)) (h.mapped id)
        ];
      }
