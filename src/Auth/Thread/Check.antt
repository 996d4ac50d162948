-- ===== src/Auth/Thread/Check.antt =====
-- checkDisConnectedAndLeavePlayer on the authentication thread, whole: whom it deletes, whom it sends
-- to a field, and that no assertion of it fails.
use my_mmoproject.Base.{
  ℕ, ◌-◌, ◌<◌, ◌≡◌, ◌≢◌, inl, inr, refl, sym, ap, ◌∙◌, Bool, true, false, not, ◌&&◌, List, [], ◌∷◌,
  Option, some, none, ◌==◌, if◌then◌else◌, arith, Bool-cases, Option-cases, length,
}
use my_mmoproject.Base.Int.{pos}
use my_mmoproject.Fault.{ok}
use my_mmoproject.Actor.{Platform}
use my_mmoproject.Player.{Player}
use my_mmoproject.Field.{elem}
use my_mmoproject.Field.Find.{key-find}
use my_mmoproject.Field.Leave.{auth_field_idx, disconnect_and_leave_cap, int_eq, collect_leaving}
use my_mmoproject.Auth.Thread.{
  Auth, object, key, owned, enter_field, leave_auth, check_disconnected_and_leave_auth,
}
use my_mmoproject.Auth.Thread.Maps.{Distinct, elem-erase_other}
use my_mmoproject.Auth.Thread.Owned.{IsOwned}
use my_mmoproject.Auth.Thread.Handover.{taken-IsOwned}
use my_mmoproject.Auth.Thread.Deleted.{delete_disconnected-IsOwned}

-- The ids that pass a test.
keep : (ℕ → Bool) → List ℕ → List ℕ
keep t [] = []
keep t (id ∷ ids) = let rest = keep t ids in if t id then id ∷ rest else rest

elem-keep : (t : ℕ → Bool) (x : ℕ) (ids : List ℕ) → elem x (keep t ids) ≡ (elem x ids && t x)
unfolding keep
elem-keep t x [] = refl
elem-keep t x (id ∷ ids) = elim (Bool-cases (x == id)) [
  | inl same ↦ let e : x ≡ id = ground (arith, same) in ground (arith, elem-keep t x ids, ap t e)
  | inr other ↦ ground (arith, other, elem-keep t x ids)
]

keep-Distinct : (t : ℕ → Bool) (ids : List ℕ) → Distinct ids → Distinct (keep t ids)
unfolding keep
keep-Distinct t [] d = tt
keep-Distinct t (id ∷ ids) d = elim (Bool-cases (t id)) [
  | inl yes' ↦ rw yes' (ground (arith, elem-keep t id ids, d.0), keep-Distinct t ids d.1)
  | inr no' ↦ rw no' (keep-Distinct t ids d.1)
]

pub some_inj : {A : Type 0} {x y : A} → some x ≡ some y → x ≡ y
some_inj e = cc

module _ (pl : Platform) where
  is_cut : Player pl.F → Bool
  is_cut p = not p.connect

  is_going : Player pl.F → Bool
  is_going p = p.connect && not (int_eq p.next_field_id auth_field_idx)

  passes : (Player pl.F → Bool) → Option (Player pl.F) → Bool
  passes t none = false
  passes t (some p) = t p

  -- The first loop, where neither of its arrays is filled.
  collect_lem :
      (ids : List ℕ) (a : Auth pl) (cut away : ℕ)
      → length ids < cut
      → length ids < away
      → collect_leaving pl auth_field_idx cut away (owned pl ids a) ≡ (
        keep (λ x. passes is_cut (object pl a x)) ids,
        keep (λ x. passes is_going (object pl a x)) ids,
      )
  unfolding collect_leaving keep passes is_cut is_going
  collect_lem [] a cut away h k = refl
  collect_lem (id ∷ ids) a cut away h k = elim (Option-cases (object pl a id)) [
    | inl missing ↦ rw missing (collect_lem ids a cut away (omega arith) (omega arith))
    | inr (p, here) ↦
        let named : p.seq_id ≡ id = key-find (key pl) id a.objects here in
        rw here (
          ground (
            arith,
            named,
            collect_lem ids a (cut - 1) away (omega arith) (omega arith),
            collect_lem ids a cut (away - 1) (omega arith) (omega arith),
            collect_lem ids a cut away (omega arith) (omega arith),
          ))
  ]

  cut_lem :
      (o : Option (Player pl.F))
      → passes is_cut o ≡ true
      → (p : Player pl.F) × (o ≡ some p) × (p.connect ≡ false)
  unfolding passes is_cut
  cut_lem none e = absurd (cc)
  cut_lem (some p) e = (p, refl, ground arith)

  going_lem :
      (o : Option (Player pl.F))
      → passes is_going o ≡ true
      → (p : Player pl.F) × (o ≡ some p)
        × (p.connect ≡ true)
        × (int_eq p.next_field_id auth_field_idx ≡ false)
  unfolding passes is_going
  going_lem none e = absurd (cc)
  going_lem (some p) e = (p, refl, ground arith, ground arith)

  -- Players of the thread that have a field to go to.
  abbrev AreGoing : List ℕ → Auth pl → Type 0
  AreGoing ids a =
      (x : ℕ)
      → elem x ids ≡ true
      → (p : Player pl.F) × (object pl a x ≡ some p)
        × (elem x a.players ≡ true)
        × (p.next_field_id ≡ pos 0)

  -- The third loop.
  leave_auth-IsOwned :
      (ids : List ℕ) {a : Auth pl}
      → IsOwned pl false a
      → Distinct ids
      → AreGoing ids a
      → (a' : Auth pl) × (leave_auth pl ids a ≡ ok a') × IsOwned pl false a'
  unfolding leave_auth enter_field
  leave_auth-IsOwned [] {a} v d go = (a, refl, v)
  leave_auth-IsOwned (id ∷ ids) {a} v d go =
      let (p, here, mine, next) = go id (ground arith) in
      let rest : AreGoing ids a = λ x m. go x (ground (arith, m)) in
      elim (Bool-cases (p.db_request_cnt == 0)) [
        | inl idle ↦
            let (a', done, v') =
              leave_auth-IsOwned ids (taken-IsOwned pl v id here mine next) d.1 λ x m.
                let other : x ≢ id = λ e.
                  let clash : false ≡ true = sym d.0 ∙ (ap (λ y. elem y ids) (sym e) ∙ m) in cc in
                let (r, o, t, f) = rest x m in
                (r, o, ground (arith, t, other, elem-erase_other id x a.players), f) in
            (a', rw (here, idle, next) (rw mine done), v')
        | inr busy ↦
            let (a', done, v') = leave_auth-IsOwned ids v d.1 rest in (a', rw (here, busy) done, v')
      ]

  pub weaken : {back : Bool} {a : Auth pl} → IsOwned pl back a → IsOwned pl true a
  weaken v = record {
    of_account = v.of_account;
    of_session = v.of_session;
    of_thread = λ x m.
        let (r, o, h) = v.of_thread x m in
        (
          r,
          o,
          elim h [
            | inl w ↦ inl w
            | inr (inl w) ↦ inr (inl w)
            | inr (inr (b, c, l)) ↦ inr (inr (refl, c, l))
          ],
        );
    of_field = v.of_field;
    once = v.once;
  }

  module _ {a : Auth pl} (v : IsOwned pl true a) where
    gone : List ℕ
    gone = keep (λ x. passes is_cut (object pl a x)) a.players

    going : List ℕ
    going = keep (λ x. passes is_going (object pl a x)) a.players

    gone-AreCut :
        (x : ℕ)
        → elem x gone ≡ true
        → (p : Player pl.F) × (object pl a x ≡ some p)
          × (elem x a.players ≡ true)
          × (p.connect ≡ false)
    unfolding gone
    gone-AreCut x m =
        let (p, o, c) =
          cut_lem (object pl a x)
            (ground (arith, m, elem-keep (λ y. passes is_cut (object pl a y)) x a.players)) in
        (p, o, ground (arith, m, elem-keep (λ y. passes is_cut (object pl a y)) x a.players), c)

    -- Whoever is left is connected.
    not_gone :
        (x : ℕ) {p : Player pl.F}
        → object pl a x ≡ some p
        → elem x a.players ≡ true
        → elem x gone ≡ false
        → p.connect ≡ true
    unfolding gone passes is_cut
    not_gone x {p} o m g =
        ground
          (arith, ap (passes is_cut) o, elem-keep (λ y. passes is_cut (object pl a y)) x a.players)

    -- Once the disconnected ones are deleted.
    module _ {a' : Auth pl} (v' : IsOwned pl true a')
        (same : (x : ℕ) → elem x gone ≡ false → object pl a' x ≡ object pl a x)
        (rest : (x : ℕ)
          → elem x a'.players ≡ (if elem x gone then false else elem x a.players)) where
      staying :
          (x : ℕ) → elem x a'.players ≡ true → (elem x gone ≡ false) × (elem x a.players ≡ true)
      staying x m = ground (arith, m, rest x)

      clean-IsOwned : IsOwned pl false a'
      clean-IsOwned = record {
        of_account = v'.of_account;
        of_session = v'.of_session;
        of_thread = λ x m.
            let (r, o, h) = v'.of_thread x m in
            let (g, t) = staying x m in
            let on = not_gone x (sym (same x g) ∙ o) t g in
            (
              r,
              o,
              elim h [
                | inl w ↦ inl w
                | inr (inl w) ↦ inr (inl w)
                | inr (inr (b, c, l)) ↦ absurd (let clash : true ≡ false = sym on ∙ c in cc)
              ],
            );
        of_field = v'.of_field;
        once = v'.once;
      }

      going-AreGoing : AreGoing going a'
      unfolding going
      going-AreGoing x m =
          let test = elem-keep (λ y. passes is_going (object pl a y)) x a.players in
          let (p, o, c, n) = going_lem (object pl a x) (ground (arith, m, test)) in
          let t : elem x a.players ≡ true = ground (arith, m, test) in
          let g : elem x gone ≡ false = elim (Bool-cases (elem x gone)) [
            | inl bad ↦
                let (q, o', t', c') = gone-AreCut x bad in
                let pq : p ≡ q = some_inj (sym o ∙ o') in
                let clash : true ≡ false = sym c ∙ (ap (λ (s : Player pl.F). s.connect) pq ∙ c') in
                cc
            | inr fine ↦ fine
          ] in
          let t' : elem x a'.players ≡ true = ground (arith, t, g, rest x) in
          let here : object pl a' x ≡ some p = same x g ∙ o in
          let (r, o', h) = clean-IsOwned.of_thread x t' in
          let e : r ≡ p = some_inj (sym o' ∙ here) in
          (
            p,
            here,
            t',
            elim h [
              | inl w ↦
                  let (s, o'', f) = v'.of_session x w in
                  let e' : s ≡ p = some_inj (sym o'' ∙ here) in
                  let auth : p.next_field_id ≡ auth_field_idx =
                    ap (λ (u : Player pl.F). u.next_field_id) (sym e') ∙ f in
                  let clash : true ≡ false = ap (λ k. int_eq k auth_field_idx) (sym auth) ∙ n in cc
              | inr (inl (l, f)) ↦ ap (λ (u : Player pl.F). u.next_field_id) (sym e) ∙ f
              | inr (inr (b, c'', l)) ↦ absurd (cc)
            ],
          )

    -- The whole check, with fewer players than its arrays have room for: it returns, and afterwards no
    -- player stays who has been handed back.
    pub check-IsOwned :
        length a.players < disconnect_and_leave_cap
        → (a' : Auth pl) × (check_disconnected_and_leave_auth pl a ≡ ok a') × IsOwned pl false a'
    unfolding check_disconnected_and_leave_auth gone going
    check-IsOwned few =
        let cap = disconnect_and_leave_cap in
        let (a1, done, v1, same, rest) =
          delete_disconnected-IsOwned pl gone v
            (keep-Distinct (λ x. passes is_cut (object pl a x)) a.players v.once) gone-AreCut in
        let (a2, left, v2) =
          leave_auth-IsOwned going (clean-IsOwned v1 same rest)
            (keep-Distinct (λ x. passes is_going (object pl a x)) a.players v.once)
            (going-AreGoing v1 same rest) in
        (a2, rw (collect_lem a.players a cap cap few few, done) left, v2)
