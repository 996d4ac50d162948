-- ===== src/Auth/Thread/Owned.antt =====
-- Who holds a player: a session without an account, an account's entry, the authentication thread or a
-- field. Each pointer that one of them has leads to an allocated player.
use my_mmoproject.Base.{
  ℕ, ◌≡◌, ◌⊎◌, inl, inr, refl, sym, ap, ◌∙◌, Bool, true, false, ◌∷◌, some, none, ◌==◌, arith,
  Bool-cases,
}
use my_mmoproject.Base.Int.{pos}
use my_mmoproject.Actor.{Platform}
use my_mmoproject.Player.{Player}
use my_mmoproject.Field.{elem, set_at}
use my_mmoproject.Field.Find.{find-set_at_other}
use my_mmoproject.Field.Loot.{find-set_at}
use my_mmoproject.Field.Leave.{auth_field_idx}
use my_mmoproject.Auth.Thread.{Auth, lookup, object, key, count_up}
use my_mmoproject.Auth.Thread.Maps.{Distinct}

module _ (pl : Platform) where
  open pl use {F}

  -- Where a player of the authentication thread belongs; `back` allows one that a field has handed back
  -- to be deleted, whose account is free again.
  abbrev pub Belongs : Bool → Auth pl → ℕ → Player F → Type 0
  Belongs back a id p =
      (elem id a.un_auth_sessions ≡ true)
      ⊎ ((lookup p.account_no a.accounts_hash ≡ some id) × (p.next_field_id ≡ pos 0))
      ⊎ ((back ≡ true) × (p.connect ≡ false) × (lookup p.account_no a.accounts_hash ≡ none))

  -- An account's entry leads to a live player with that account number, who is no session without an
  -- account; such a session, a player of this thread and a player of a field are live, too. A field's
  -- player is not this thread's, and has his account's entry.
  pub record IsOwned (back : Bool) (a : Auth pl) : Type 0 where
    pub of_account :
        (account id : ℕ)
        → lookup account a.accounts_hash ≡ some id
        → (p : Player F) × (object pl a id ≡ some p)
          × (p.account_no ≡ account)
          × (elem id a.un_auth_sessions ≡ false)
    pub of_session :
        (id : ℕ)
        → elem id a.un_auth_sessions ≡ true
        → (p : Player F) × (object pl a id ≡ some p) × (p.next_field_id ≡ auth_field_idx)
    pub of_thread :
        (id : ℕ)
        → elem id a.players ≡ true
        → (p : Player F) × (object pl a id ≡ some p) × Belongs back a id p
    pub of_field :
        (id : ℕ)
        → elem id a.entered ≡ true
        → (p : Player F) × (object pl a id ≡ some p)
          × (lookup p.account_no a.accounts_hash ≡ some id)
          × (elem id a.players ≡ false)
          × (p.next_field_id ≡ pos 0)
    pub once : Distinct a.players

  module _ {back : Bool} {a : Auth pl} (v : IsOwned back a) where
    -- A new player, under an id of its own.
    module _ (q : Player F) (fresh : object pl a q.seq_id ≡ none)
        (fieldless : q.next_field_id ≡ auth_field_idx) where
      abbrev accepted : Auth pl
      accepted = record a {
        objects = q ∷ a.objects;
        un_auth_sessions = q.seq_id ∷ a.un_auth_sessions;
        player_cnt = count_up pl a.player_cnt;
      }

      other : (x : ℕ) {p : Player F} → object pl a x ≡ some p → (x == q.seq_id) ≡ false
      other x {p} o = elim (Bool-cases (x == q.seq_id)) [
        | inl same ↦
            let e : x ≡ q.seq_id = ground (arith, same) in
            let clash : some p ≡ none = sym o ∙ (ap (λ y. object pl a y) e ∙ fresh) in cc
        | inr miss ↦ miss
      ]

      keep : (x : ℕ) {p : Player F} → object pl a x ≡ some p → object pl accepted x ≡ some p
      keep x o = rw (other x o) o

      pub accepted-IsOwned : IsOwned back accepted
      accepted-IsOwned = record {
        of_account = λ account id l.
            let (p, o, n, u) = v.of_account account id l in (p, keep id o, n, rw (other id o) u);
        of_session = λ id m. elim (Bool-cases (id == q.seq_id)) [
          | inl same ↦ (q, rw same refl, fieldless)
          | inr miss ↦ let (p, o, n) = v.of_session id (rw miss at m) in (p, rw miss o, n)
        ];
        of_thread = λ id m.
            let (p, o, h) = v.of_thread id m in
            (p, keep id o, elim h [ inl w ↦ inl (rw (other id o) w) | inr w ↦ inr w ]);
        of_field = λ id m. let (p, o, l, t, f) = v.of_field id m in (p, keep id o, l, t, f);
        once = v.once;
      }

    -- A change of a player that leaves his account and his field, and does not connect him again.
    module _ {id : ℕ} {p : Player F} (q : Player F) (here : object pl a id ≡ some p)
        (named : q.seq_id ≡ id) (account_same : q.account_no ≡ p.account_no)
        (field_same : q.next_field_id ≡ p.next_field_id)
        (stays_cut : p.connect ≡ false → q.connect ≡ false) where
      abbrev changed : Auth pl
      changed = record a { objects = set_at (key pl) id q a.objects }

      -- What the change makes of any player.
      after :
          (x : ℕ) {r : Player F}
          → object pl a x ≡ some r
          → (r' : Player F) × (object pl changed x ≡ some r')
            × (r'.account_no ≡ r.account_no)
            × (r'.next_field_id ≡ r.next_field_id)
            × (r.connect ≡ false → r'.connect ≡ false)
      after x {r} o = elim (Bool-cases (x == id)) [
        | inl same ↦
            let e : x ≡ id = ground (arith, same) in
            let both : some p ≡ some r = sym here ∙ (ap (λ y. object pl a y) (sym e) ∙ o) in
            let pr : p ≡ r = cc in
            (
              q,
              ap (λ y. object pl changed y) e ∙ find-set_at (key pl) id q a.objects here named,
              account_same ∙ ap (λ (s : Player F). s.account_no) pr,
              field_same ∙ ap (λ (s : Player F). s.next_field_id) pr,
              λ off. stays_cut (ap (λ (s : Player F). s.connect) pr ∙ off),
            )
        | inr miss ↦ (
          r,
          find-set_at_other (key pl) id x q a.objects named (ground (arith, miss)) ∙ o,
          refl,
          refl,
          λ off. off,
        )
      ]

      pub changed-IsOwned : IsOwned back changed
      changed-IsOwned = record {
        of_account = λ account x l.
            let (r, o, n, u) = v.of_account account x l in
            let (r', o', n', f', c') = after x o in (r', o', n' ∙ n, u);
        of_session = λ x m.
            let (r, o, f) = v.of_session x m in
            let (r', o', n', f', c') = after x o in (r', o', f' ∙ f);
        of_thread = λ x m.
            let (r, o, h) = v.of_thread x m in
            let (r', o', n', f', c') = after x o in
            (
              r',
              o',
              elim h [
                | inl w ↦ inl w
                | inr (inl (l, f)) ↦ inr (inl (ap (λ k. lookup k a.accounts_hash) n' ∙ l, f' ∙ f))
                | inr (inr (b, c, l)) ↦
                    inr (inr (b, c' c, ap (λ k. lookup k a.accounts_hash) n' ∙ l))
              ],
            );
        of_field = λ x m.
            let (r, o, l, t, f) = v.of_field x m in
            let (r', o', n', f', c') = after x o in
            (r', o', ap (λ k. lookup k a.accounts_hash) n' ∙ l, t, f' ∙ f);
        once = v.once;
      }
