-- ===== src/Auth/Thread/Deleted.antt =====
-- The deletion of players: what leads to them goes with them.
use my_mmoproject.Base.{
  ℕ, ◌≡◌, ◌≢◌, inl, inr, refl, sym, ap, ◌∙◌, true, false, List, [], ◌∷◌, some, none, ◌==◌,
  if◌then◌else◌, arith, Bool-cases,
}
use my_mmoproject.Fault.{ok}
use my_mmoproject.Actor.{Platform}
use my_mmoproject.Player.{Player}
use my_mmoproject.Field.{elem, erase, find, remove_at}
use my_mmoproject.Field.Loot.{find-remove_at_other}
use my_mmoproject.Auth.Thread.{
  Auth, lookup, erase_key, object, key, forget, count_down, delete_disconnected,
}
use my_mmoproject.Auth.Thread.Maps.{elem-erase_other, lookup-erase_key, erase-Distinct, Distinct}
use my_mmoproject.Auth.Thread.Owned.{IsOwned}

module _ (pl : Platform) where
  -- One turn of the loop.
  abbrev pub without : ℕ → Player pl.F → Auth pl → Auth pl
  without id p a = record (forget pl id p.account_no a) {
    player_cnt = count_down pl (forget pl id p.account_no a).player_cnt;
    objects = remove_at (key pl) id (forget pl id p.account_no a).objects;
    players = erase id (forget pl id p.account_no a).players;
  }

  module _ {a : Auth pl} (v : IsOwned pl true a) (id : ℕ) {p : Player pl.F}
      (here : object pl a id ≡ some p) (mine : elem id a.players ≡ true)
      (off : p.connect ≡ false) where
    keep :
        (x : ℕ) {r : Player pl.F}
        → x ≢ id
        → object pl a x ≡ some r
        → find (key pl) x (remove_at (key pl) id a.objects) ≡ some r
    keep x other o = find-remove_at_other (key pl) id x a.objects other ∙ o

    same_object : {x : ℕ} {r : Player pl.F} → x ≡ id → object pl a x ≡ some r → r ≡ p
    same_object {x} {r} e o =
        let both : some r ≡ some p = sym o ∙ (ap (λ y. object pl a y) e ∙ here) in cc

    left : (x : ℕ) → elem x (erase id a.players) ≡ true → x ≢ id
    left x m = ground (arith, m, elem-erase_other id x a.players)

    -- A session without an account.
    module _ (waits : elem id a.un_auth_sessions ≡ true) where
      unnamed : (account x : ℕ) → lookup account a.accounts_hash ≡ some x → x ≢ id
      unnamed account x l e =
          let (r, o, n, u) = v.of_account account x l in
          let clash : false ≡ true = sym u ∙ (ap (λ y. elem y a.un_auth_sessions) e ∙ waits) in cc

      session_gone : IsOwned pl true (record a {
        un_auth_sessions = erase id a.un_auth_sessions;
        player_cnt = count_down pl a.player_cnt;
        objects = remove_at (key pl) id a.objects;
        players = erase id a.players;
      })
      session_gone = record {
        of_account = λ account x l.
            let (r, o, n, u) = v.of_account account x l in
            (
              r,
              keep x (unnamed account x l) o,
              n,
              ground (arith, u, elem-erase_other id x a.un_auth_sessions),
            );
        of_session = λ x m.
            let (r, o, f) =
              v.of_session x (ground (arith, m, elem-erase_other id x a.un_auth_sessions)) in
            (r, keep x (ground (arith, m, elem-erase_other id x a.un_auth_sessions)) o, f);
        of_thread = λ x m.
            let other = left x m in
            let (r, o, h) = v.of_thread x (ground (arith, m, elem-erase_other id x a.players)) in
            (
              r,
              keep x other o,
              elim h [
                | inl w ↦ inl (ground (arith, w, other, elem-erase_other id x a.un_auth_sessions))
                | inr w ↦ inr w
              ],
            );
        of_field = λ x m.
            let (r, o, l, t, f) = v.of_field x m in
            (
              r,
              keep x (unnamed r.account_no x l) o,
              l,
              ground (arith, t, elem-erase_other id x a.players),
              f,
            );
        once = erase-Distinct id a.players v.once;
      }

    -- A player with an account, or whose account is free already.
    module _ (named : elem id a.un_auth_sessions ≡ false) where
      -- His account's entry is no other player's.
      own_entry : (x : ℕ) → lookup p.account_no a.accounts_hash ≡ some x → x ≡ id
      own_entry x l =
          let (r, o, h) = v.of_thread id mine in
          let e = same_object refl o in
          elim h [
            | inl w ↦ cc
            | inr (inl (l', f)) ↦
                let both : some x ≡ some id =
                  sym l
                  ∙ (ap (λ (s : Player pl.F). lookup s.account_no a.accounts_hash) (sym e) ∙ l') in
                cc
            | inr (inr (b, c, l')) ↦
                let both : some x ≡ none =
                  sym l
                  ∙ (ap (λ (s : Player pl.F). lookup s.account_no a.accounts_hash) (sym e) ∙ l') in
                cc
          ]

      others :
          (account x : ℕ)
          → lookup account a.accounts_hash ≡ some x
          → x ≢ id
          → lookup account (erase_key p.account_no a.accounts_hash) ≡ some x
      others account x l other = elim (Bool-cases (account == p.account_no)) [
        | inl same ↦
            let e : account ≡ p.account_no = ground (arith, same) in
            absurd (other (own_entry x (ap (λ k. lookup k a.accounts_hash) (sym e) ∙ l)))
        | inr miss ↦ ground (arith, miss, l, lookup-erase_key p.account_no account a.accounts_hash)
      ]

      entry_left :
          (account x : ℕ)
          → lookup account (erase_key p.account_no a.accounts_hash) ≡ some x
          → (lookup account a.accounts_hash ≡ some x) × (account ≢ p.account_no)
      entry_left account x l =
          ground (arith, l, lookup-erase_key p.account_no account a.accounts_hash)

      in_field : (x : ℕ) → elem x a.entered ≡ true → x ≢ id
      in_field x m e =
          let (r, o, l, t, f) = v.of_field x m in
          let clash : false ≡ true = sym t ∙ (ap (λ y. elem y a.players) e ∙ mine) in cc

      account_gone : IsOwned pl true (record a {
        accounts_hash = erase_key p.account_no a.accounts_hash;
        player_cnt = count_down pl a.player_cnt;
        objects = remove_at (key pl) id a.objects;
        players = erase id a.players;
      })
      account_gone = record {
        of_account = λ account x l.
            let (l', different) = entry_left account x l in
            let (r, o, n, u) = v.of_account account x l' in
            let other : x ≢ id =
              λ e. different (sym n ∙ ap (λ (s : Player pl.F). s.account_no) (same_object e o)) in
            (r, keep x other o, n, u);
        of_session = λ x m.
            let (r, o, f) = v.of_session x m in
            let other : x ≢ id = λ e.
              let clash : false ≡ true =
                sym named ∙ (ap (λ y. elem y a.un_auth_sessions) (sym e) ∙ m) in
              cc in
            (r, keep x other o, f);
        of_thread = λ x m.
            let other = left x m in
            let (r, o, h) = v.of_thread x (ground (arith, m, elem-erase_other id x a.players)) in
            (
              r,
              keep x other o,
              elim h [
                | inl w ↦ inl w
                | inr (inl (l, f)) ↦ inr (inl (others r.account_no x l other, f))
                | inr (inr (b, c, l)) ↦ inr (
                    inr (
                      b,
                      c,
                      ground (arith, l, lookup-erase_key p.account_no r.account_no a.accounts_hash),
                    ))
              ],
            );
        of_field = λ x m.
            let (r, o, l, t, f) = v.of_field x m in
            let other = in_field x m in
            (
              r,
              keep x other o,
              others r.account_no x l other,
              ground (arith, t, elem-erase_other id x a.players),
              f,
            );
        once = erase-Distinct id a.players v.once;
      }

    -- A disconnected player of the thread is deleted, and nothing leads to him any more.
    pub without-IsOwned : IsOwned pl true (without id p a)
    without-IsOwned = elim (Bool-cases (elem id a.un_auth_sessions)) [
      | inl waits ↦ rw waits (session_gone waits)
      | inr named ↦ rw named (account_gone named)
    ]

    pub without-objects : (x : ℕ) → x ≢ id → object pl (without id p a) x ≡ object pl a x
    without-objects x other = elim (Bool-cases (elem id a.un_auth_sessions)) [
      | inl waits ↦ rw waits (find-remove_at_other (key pl) id x a.objects other)
      | inr named ↦ rw named (find-remove_at_other (key pl) id x a.objects other)
    ]

    pub without-players :
        (x : ℕ) → elem x (without id p a).players ≡ (if x == id then false else elem x a.players)
    without-players x = elim (Bool-cases (elem id a.un_auth_sessions)) [
      | inl waits ↦ rw waits (elem-erase_other id x a.players)
      | inr named ↦ rw named (elem-erase_other id x a.players)
    ]

  -- Players of the thread that are disconnected.
  abbrev pub AreCut : List ℕ → Auth pl → Type 0
  AreCut ids a =
      (x : ℕ)
      → elem x ids ≡ true
      → (p : Player pl.F) × (object pl a x ≡ some p)
        × (elem x a.players ≡ true)
        × (p.connect ≡ false)

  -- The loop deletes exactly the players that it is given.
  pub delete_disconnected-IsOwned :
      (ids : List ℕ) {a : Auth pl}
      → IsOwned pl true a
      → Distinct ids
      → AreCut ids a
      → (a' : Auth pl) × (delete_disconnected pl ids a ≡ ok a')
        × IsOwned pl true a'
        × ((x : ℕ) → elem x ids ≡ false → object pl a' x ≡ object pl a x)
        × ((x : ℕ) → elem x a'.players ≡ (if elem x ids then false else elem x a.players))
  unfolding delete_disconnected
  delete_disconnected-IsOwned [] {a} v d cut = (a, refl, v, λ x m. refl, λ x. refl)
  delete_disconnected-IsOwned (id ∷ ids) {a} v d cut =
      let (p, here, mine, off) = cut id (ground arith) in
      let (a', done, v', same, gone) =
        delete_disconnected-IsOwned ids (without-IsOwned v id here mine off) d.1 λ x m.
          let other : x ≢ id =
            λ e. let clash : false ≡ true = sym d.0 ∙ (ap (λ y. elem y ids) (sym e) ∙ m) in cc in
          let (r, o, t, c) = cut x (ground (arith, m)) in
          (
            r,
            without-objects v id here mine off x other ∙ o,
            ground (arith, t, other, without-players v id here mine off x),
            c,
          ) in
      (
        a',
        rw here done,
        v',
        λ x m.
            same x (ground (arith, m)) ∙ without-objects v id here mine off x (ground (arith, m)),
        λ x. gone x ∙ ground (arith, without-players v id here mine off x),
      )
