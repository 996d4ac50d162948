-- ===== src/Auth/Thread/Handover.antt =====
-- A player's ways from and to the authentication thread: a field takes him, hands him back, or he is
-- deleted.
use my_mmoproject.Base.{
  ℕ, ◌≡◌, ◌≢◌, inl, inr, refl, sym, ap, ◌∙◌, Bool, true, false, List, [], ◌∷◌, ◌++◌, some, ◌==◌,
  if◌then◌else◌, arith, Bool-cases,
}
use my_mmoproject.Base.Int.{pos, negsuc}
use my_mmoproject.Actor.{Platform}
use my_mmoproject.Player.{Player}
use my_mmoproject.Field.{elem, erase}
use my_mmoproject.Field.Loot.{elem-erase}
use my_mmoproject.Auth.Thread.{Auth, lookup, erase_key, insert_id, object}
use my_mmoproject.Auth.Thread.Maps.{
  elem-erase_other, lookup-erase_key, elem-insert_id, insert_id-Distinct, erase-Distinct,
}
use my_mmoproject.Auth.Thread.Owned.{IsOwned, Belongs}

elem-append_one :
    (x id : ℕ) (ids : List ℕ) → elem x (ids ++ (id ∷ [])) ≡ (if elem x ids then true else x == id)
elem-append_one x id [] = ground arith
elem-append_one x id (b ∷ ids) = ground (arith, elem-append_one x id ids)

module _ (pl : Platform) {back : Bool} {a : Auth pl} (v : IsOwned pl back a) (id : ℕ)
    {p : Player pl.F} (here : object pl a id ≡ some p) where
  -- One object for a pointer.
  same_object : {x : ℕ} {r : Player pl.F} → x ≡ id → object pl a x ≡ some r → r ≡ p
  same_object {x} {r} e o =
      let both : some r ≡ some p = sym o ∙ (ap (λ y. object pl a y) e ∙ here) in cc

  -- A field's player whom it hands back to be deleted: his account is free.
  module _ (held : elem id a.entered ≡ true) (off : p.connect ≡ false) where
    abbrev pub handed_back : Auth pl
    handed_back = record a {
      players = insert_id id a.players;
      accounts_hash = erase_key p.account_no a.accounts_hash;
      entered = erase id a.entered;
    }

    entry : lookup p.account_no a.accounts_hash ≡ some id
    entry =
        let (r, o, l, t, f) = v.of_field id held in
        ap (λ (s : Player pl.F). lookup s.account_no a.accounts_hash) (sym (same_object refl o)) ∙ l

    -- The other accounts' entries stay.
    others :
        (account x : ℕ)
        → lookup account a.accounts_hash ≡ some x
        → x ≢ id
        → lookup account (erase_key p.account_no a.accounts_hash) ≡ some x
    others account x l other = elim (Bool-cases (account == p.account_no)) [
      | inl same ↦
          let e : account ≡ p.account_no = ground (arith, same) in
          let clash : some x ≡ some id = sym l ∙ (ap (λ k. lookup k a.accounts_hash) e ∙ entry) in
          let e' : x ≡ id = cc in absurd (other e')
      | inr miss ↦ ground (arith, miss, l, lookup-erase_key p.account_no account a.accounts_hash)
    ]

    pub handed_back-IsOwned : IsOwned pl true handed_back
    handed_back-IsOwned = record {
      of_account = λ account x l.
          v.of_account account x
            (ground (arith, l, lookup-erase_key p.account_no account a.accounts_hash));
      of_session = λ x m. v.of_session x m;
      of_thread = λ x m. elim (Bool-cases (x == id)) [
        | inl same ↦
            let e : x ≡ id = ground (arith, same) in
            (
              p,
              ap (λ y. object pl a y) e ∙ here,
              inr (
                  inr (
                    refl,
                    off,
                    ground (arith, lookup-erase_key p.account_no p.account_no a.accounts_hash),
                  )),
            )
        | inr miss ↦
            let (r, o, h) =
              v.of_thread x (ground (arith, m, miss, elem-insert_id id x a.players)) in
            (
              r,
              o,
              elim h [
                | inl w ↦ inl w
                | inr (inl (l, f)) ↦ inr (inl (others r.account_no x l (ground (arith, miss)), f))
                | inr (inr (b, c, l)) ↦ inr (
                    inr (
                      refl,
                      c,
                      ground (arith, l, lookup-erase_key p.account_no r.account_no a.accounts_hash),
                    ))
              ],
            )
      ];
      of_field = λ x m.
          let other : (x == id) ≡ false = ground (arith, m, elem-erase_other id x a.entered) in
          let (r, o, l, t, f) = v.of_field x (ground (arith, m, elem-erase_other id x a.entered)) in
          (
            r,
            o,
            others r.account_no x l (ground (arith, other)),
            ground (arith, t, other, elem-insert_id id x a.players),
            f,
          );
      once = insert_id-Distinct id a.players v.once;
    }

  -- A field's player who wants to another field keeps his account's entry.
  module _ (held : elem id a.entered ≡ true) where
    abbrev pub moved : Auth pl
    moved = record a { players = insert_id id a.players; entered = erase id a.entered }

    pub moved-IsOwned : IsOwned pl back moved
    moved-IsOwned = record {
      of_account = v.of_account;
      of_session = v.of_session;
      of_thread = λ x m. elim (Bool-cases (x == id)) [
        | inl same ↦
            let e : x ≡ id = ground (arith, same) in
            let (r, o, l, t, f) = v.of_field x (ap (λ y. elem y a.entered) e ∙ held) in
            (r, o, inr (inl (l, f)))
        | inr miss ↦ v.of_thread x (ground (arith, m, miss, elem-insert_id id x a.players))
      ];
      of_field = λ x m.
          let other : (x == id) ≡ false = ground (arith, m, elem-erase_other id x a.entered) in
          let (r, o, l, t, f) = v.of_field x (ground (arith, m, elem-erase_other id x a.entered)) in
          (r, o, l, ground (arith, t, other, elem-insert_id id x a.players), f);
      once = insert_id-Distinct id a.players v.once;
    }

module _ (pl : Platform) {a : Auth pl} (v : IsOwned pl false a) (id : ℕ) {p : Player pl.F}
    (here : object pl a id ≡ some p) (mine : elem id a.players ≡ true)
    (goes : p.next_field_id ≡ pos 0) where
  abbrev pub taken : Auth pl
  taken = record a { players = erase id a.players; entered = a.entered ++ (id ∷ []) }

  -- Who goes to a field has an account.
  has_account :
      {r : Player pl.F}
      → object pl a id ≡ some r
      → r ≡ p
      → Belongs pl false a id r
      → lookup r.account_no a.accounts_hash ≡ some id
  has_account o e (inl w) =
      let (s, o', f) = v.of_session id w in
      let both : some s ≡ some p = sym o' ∙ here in
      let sp : s ≡ p = cc in
      let clash : pos 0 ≡ negsuc 0 =
        sym goes ∙ (ap (λ (t : Player pl.F). t.next_field_id) (sym sp) ∙ f) in
      cc
  has_account o e (inr (inl (l, f))) = l
  has_account o e (inr (inr (b, c, l))) = cc

  pub taken-IsOwned : IsOwned pl false taken
  taken-IsOwned = record {
    of_account = v.of_account;
    of_session = v.of_session;
    of_thread = λ x m. v.of_thread x (ground (arith, m, elem-erase_other id x a.players));
    of_field = λ x m. elim (Bool-cases (x == id)) [
      | inl same ↦
          let e : x ≡ id = ground (arith, same) in
          let (r, o, h) = v.of_thread id mine in
          let rp = same_object pl v id here refl o in
          (
            r,
            ap (λ y. object pl a y) e ∙ o,
            has_account o rp h ∙ ap some (sym e),
            ap (λ y. elem y (erase id a.players)) e ∙ elem-erase id a.players,
            ap (λ (s : Player pl.F). s.next_field_id) rp ∙ goes,
          )
      | inr miss ↦
          let (r, o, l, t, f) =
            v.of_field x (ground (arith, m, miss, elem-append_one x id a.entered)) in
          (r, o, l, ground (arith, t, elem-erase_other id x a.players), f)
    ];
    once = erase-Distinct id a.players v.once;
  }
