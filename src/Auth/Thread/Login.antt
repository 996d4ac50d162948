-- ===== src/Auth/Thread/Login.antt =====
-- A login: the session becomes its account's.
use my_mmoproject.Base.{
  ℕ, ◌+◌, ◌≡◌, ◌≢◌, inl, inr, sym, ap, ◌∙◌, true, false, List, ◌∷◌, some, none, ◌==◌, arith,
  Bool-cases,
}
use my_mmoproject.Base.Int.{pos}
use my_mmoproject.Actor.{Platform}
use my_mmoproject.Player.{Player}
use my_mmoproject.Packet.{Packet}
use my_mmoproject.Field.{elem, erase, set_at}
use my_mmoproject.Field.Find.{find-set_at_other}
use my_mmoproject.Field.Loot.{find-set_at, elem-erase}
use my_mmoproject.Auth.Thread.{Auth, lookup, object, key}
use my_mmoproject.Auth.Thread.Maps.{elem-erase_other}
use my_mmoproject.Auth.Thread.Owned.{IsOwned}

module _ (pl : Platform) {a : Auth pl} (v : IsOwned pl false a) {session account : ℕ}
    {p : Player pl.F} (q : Player pl.F) (posts : List (ℕ × Packet))
    (waits : elem session a.un_auth_sessions ≡ true) (free : lookup account a.accounts_hash ≡ none)
    (here : object pl a session ≡ some p) (named : q.seq_id ≡ session)
    (gets : q.account_no ≡ account) (goes : q.next_field_id ≡ pos 0) where
  abbrev pub promoted : Auth pl
  promoted = record a {
    objects = set_at (key pl) session q a.objects;
    un_auth_sessions = erase session a.un_auth_sessions;
    character_id = a.character_id + 1;
    accounts_hash = (account, session) ∷ a.accounts_hash;
    posts = posts;
  }

  own : object pl promoted session ≡ some q
  own = find-set_at (key pl) session q a.objects here named

  keep :
      (x : ℕ) {r : Player pl.F}
      → x ≢ session
      → object pl a x ≡ some r
      → object pl promoted x ≡ some r
  keep x other o = find-set_at_other (key pl) session x q a.objects named other ∙ o

  -- Who has an account is not the session.
  settled : (no' x : ℕ) → lookup no' a.accounts_hash ≡ some x → x ≢ session
  settled no' x l e =
      let (r, o, n, u) = v.of_account no' x l in
      let clash : false ≡ true = sym u ∙ (ap (λ y. elem y a.un_auth_sessions) e ∙ waits) in cc

  erased :
      (x : ℕ) → x ≢ session → elem x (erase session a.un_auth_sessions) ≡ elem x a.un_auth_sessions
  erased x other = ground (arith, elem-erase_other session x a.un_auth_sessions)

  -- The other accounts' entries stay.
  entry :
      (no' x : ℕ)
      → lookup no' a.accounts_hash ≡ some x
      → lookup no' ((account, session) ∷ a.accounts_hash) ≡ some x
  entry no' x l = elim (Bool-cases (no' == account)) [
    | inl same ↦
        let e : no' ≡ account = ground (arith, same) in
        let clash : some x ≡ none = sym l ∙ (ap (λ k. lookup k a.accounts_hash) e ∙ free) in cc
    | inr miss ↦ rw miss l
  ]

  pub promoted-IsOwned : IsOwned pl false promoted
  promoted-IsOwned = record {
    of_account = λ no' x l. elim (Bool-cases (no' == account)) [
      | inl same ↦
          let l' : some session ≡ some x = (rw same at l) in
          let e : session ≡ x = cc in
          let n : no' ≡ account = ground (arith, same) in
          (
            q,
            ap (λ y. object pl promoted y) (sym e) ∙ own,
            gets ∙ sym n,
            ap (λ y. elem y (erase session a.un_auth_sessions)) (sym e)
                ∙ elem-erase session a.un_auth_sessions,
          )
      | inr miss ↦
          let l' : lookup no' a.accounts_hash ≡ some x = (rw miss at l) in
          let (r, o, n, u) = v.of_account no' x l' in
          let other = settled no' x l' in (r, keep x other o, n, erased x other ∙ u)
    ];
    of_session = λ x m.
        let other : x ≢ session = λ e.
          let gone : elem x (erase session a.un_auth_sessions) ≡ false =
            ap (λ y. elem y (erase session a.un_auth_sessions)) e
            ∙ elem-erase session a.un_auth_sessions in
          let clash : false ≡ true = sym gone ∙ m in cc in
        let (r, o, f) = v.of_session x (sym (erased x other) ∙ m) in (r, keep x other o, f);
    of_thread = λ x m. elim (Bool-cases (x == session)) [
      | inl same ↦
          let e : x ≡ session = ground (arith, same) in
          (q, ap (λ y. object pl promoted y) e ∙ own, inr (inl (ground (arith, gets, e), goes)))
      | inr miss ↦
          let other : x ≢ session = ground (arith, miss) in
          let (r, o, h) = v.of_thread x m in
          (
            r,
            keep x other o,
            elim h [
              | inl w ↦ inl (erased x other ∙ w)
              | inr (inl (l, f)) ↦ inr (inl (entry r.account_no x l, f))
              | inr (inr (b, c, l)) ↦ absurd (cc)
            ],
          )
    ];
    of_field = λ x m.
        let (r, o, l, t, f) = v.of_field x m in
        (r, keep x (settled r.account_no x l) o, entry r.account_no x l, t, f);
    once = v.once;
  }
