-- ===== src/Auth/Thread/Steps.antt =====
-- The authentication thread and what happens around it, as steps: sessions come, send and go, its loop takes
-- them over, serves their messages, hears of the fields and checks its players, and a field changes
-- a player of its own or hands him back. A field that hands a player back does so once, as
-- dbResultPacketProc and checkDisConnectedAndLeavePlayer of Field.Leave do.
use my_mmoproject.Base.{
  ℕ, ◌+◌, ◌≡◌, refl, ◌<◌, inl, inr, sym, ap, subst, ◌∙◌, Bool, true, false, List, [], Option, some,
  none, arith, length, Bool-cases,
}
use my_mmoproject.Base.Int.{ℤ, pos}
use my_mmoproject.Fault.{ok}
use my_mmoproject.Actor.{Platform}
use my_mmoproject.Player.{Player}
use my_mmoproject.Message.{Message}
use my_mmoproject.Field.{elem, erase, player_disconnected, player_move_field, set_at}
use my_mmoproject.Field.Find.{key-find}
use my_mmoproject.Field.Leave.{disconnect_and_leave_cap}
use my_mmoproject.Auth.Thread.{
  Auth, Database, lookup, take_over, object, key, on_accept, on_release, serve_sessions, erase_key,
  insert_id, auth_notify_packet_proc, check_disconnected_and_leave_auth,
}
use my_mmoproject.Auth.Thread.Maps.{take_over-Distinct, elem-take_over}
use my_mmoproject.Auth.Thread.Owned.{IsOwned, changed-IsOwned}
use my_mmoproject.Auth.Thread.Handover.{handed_back-IsOwned, moved-IsOwned}
use my_mmoproject.Auth.Thread.Serve.{Keeps, on_accept-Keeps, on_release-Keeps, serve_sessions-Keeps}
use my_mmoproject.Auth.Thread.Check.{check-IsOwned, weaken, some_inj}

ok_inj : {A : Type 0} {x y : A} → ok x ≡ ok y → x ≡ y
ok_inj e = cc

module _ (pl : Platform) where
  open pl use {F}

  module _ (db : Database F) (isalnum : ℕ → Bool) where
    -- `back` says that a field has handed a player back since the last check.
    pub record System : Type 0 where
      pub auth : Auth pl
      pub rows : db.State
      pub back : Bool

    pub data Step (y : System) : System → Type 0 where
      accept :
          (now id : ℕ) {a : Auth pl}
          → object pl y.auth id ≡ none
          → on_accept pl now id y.auth ≡ ok a
          → Step y (record y { auth = a })
      release :
          (session : Option ℕ) {a : Auth pl}
          → on_release pl session y.auth ≡ ok a
          → Step y (record y { auth = a })
      receive :
          (now id : ℕ) {p : Player F}
          → object pl y.auth id ≡ some p
          → Step y (record y {
            auth = record y.auth {
              objects =
                  set_at
                    (key pl)
                    id
                    (record p { send_msg_cnt = p.send_msg_cnt + 1; last_time = now })
                    y.auth.objects;
            };
          })
      take : Step y (record y {
        auth = record y.auth { players = take_over y.auth.un_auth_sessions y.auth.players };
      })
      serve :
          (queue : ℕ → List Message) {s : db.State} {a : Auth pl} {left : List (ℕ × List Message)}
          → y.back ≡ false
          → serve_sessions pl db isalnum queue y.auth.players y.rows y.auth ≡ ok (s, a, left)
          → Step y (record y { auth = a; rows = s })
      change :
          (id : ℕ) {p : Player F} (q : Player F)
          → elem id y.auth.entered ≡ true
          → object pl y.auth id ≡ some p
          → q.seq_id ≡ p.seq_id
          → q.account_no ≡ p.account_no
          → q.next_field_id ≡ p.next_field_id
          → (p.connect ≡ false → q.connect ≡ false)
          → Step y
              (record y { auth = record y.auth { objects = set_at (key pl) id q y.auth.objects } })
      hand_back :
          (id : ℕ) {p : Player F} {a : Auth pl}
          → elem id y.auth.entered ≡ true
          → object pl y.auth id ≡ some p
          → p.connect ≡ false
          → auth_notify_packet_proc pl (player_disconnected p.account_no) y.auth ≡ ok a
          → Step y (record y { auth = record a { entered = erase id a.entered }; back = true })
      move :
          (id : ℕ) {p : Player F} (field : ℤ) {a : Auth pl}
          → elem id y.auth.entered ≡ true
          → object pl y.auth id ≡ some p
          → auth_notify_packet_proc pl (player_move_field p.account_no field) y.auth ≡ ok a
          → Step y (record y { auth = record a { entered = erase id a.entered } })
      check :
          {a : Auth pl}
          → length y.auth.players < disconnect_and_leave_cap
          → check_disconnected_and_leave_auth pl y.auth ≡ ok a
          → Step y (record y { auth = a; back = false })

    pub data Reach (y : System) : System → Type 0 where
      here : Reach y y
      next : {z w : System} → Reach y z → Step z w → Reach y w

    -- Nobody has connected yet.
    abbrev pub start : db.State → System
    start s = record {
      auth = record {
        un_auth_sessions = [];
        players = [];
        accounts_hash = [];
        objects = [];
        character_id = 0;
        player_cnt = pos 0;
        posts = [];
        disconnects = [];
        entered = [];
      };
      rows = s;
      back = false;
    }

    start-IsOwned : (s : db.State) → IsOwned pl false (start s).auth
    start-IsOwned s = record {
      of_account = λ account id l. cc;
      of_session = λ id m. cc;
      of_thread = λ id m. cc;
      of_field = λ id m. cc;
      once = tt;
    }

    module _ {back : Bool} {a : Auth pl} (v : IsOwned pl back a) where
      taken_over : IsOwned pl back (record a { players = take_over a.un_auth_sessions a.players })
      taken_over = record {
        of_account = v.of_account;
        of_session = v.of_session;
        of_thread = λ x m. elim (Bool-cases (elem x a.un_auth_sessions)) [
          | inl waits ↦ let (p, o, f) = v.of_session x waits in (p, o, inl waits)
          | inr named ↦
              v.of_thread x
                (ground (arith, m, named, elem-take_over a.un_auth_sessions a.players x))
        ];
        of_field = λ x m.
            let (p, o, l, t, f) = v.of_field x m in
            let (q, o', n, u) = v.of_account p.account_no x l in
            (p, o, l, ground (arith, t, u, elem-take_over a.un_auth_sessions a.players x), f);
        once = take_over-Distinct a.un_auth_sessions a.players v.once;
      }

      -- A field's player has his account's entry.
      entry :
          (id : ℕ) {p : Player F}
          → elem id a.entered ≡ true
          → object pl a id ≡ some p
          → lookup p.account_no a.accounts_hash ≡ some id
      entry id {p} held o =
          let (q, o', l, t, f) = v.of_field id held in
          ap (λ (r : Player F). lookup r.account_no a.accounts_hash) (some_inj (sym o ∙ o')) ∙ l

      hand_back_lem :
          (id : ℕ) {p : Player F}
          → elem id a.entered ≡ true
          → object pl a id ≡ some p
          → auth_notify_packet_proc pl (player_disconnected p.account_no) a
            ≡ ok (record a {
              players = insert_id id a.players;
              accounts_hash = erase_key p.account_no a.accounts_hash;
            })
      unfolding auth_notify_packet_proc
      hand_back_lem id held o = rw (entry id held o)

      move_lem :
          (id : ℕ) {p : Player F} (field : ℤ)
          → elem id a.entered ≡ true
          → object pl a id ≡ some p
          → auth_notify_packet_proc pl (player_move_field p.account_no field) a
            ≡ ok (record a { players = insert_id id a.players })
      unfolding auth_notify_packet_proc
      move_lem id field held o = rw (entry id held o)

    Step-IsOwned : {y z : System} → Step y z → IsOwned pl y.back y.auth → IsOwned pl z.back z.auth
    Step-IsOwned {y} (accept now id fresh e) v =
        subst (Keeps pl (λ a. a) y.back) e (on_accept-Keeps pl now id v fresh)
    Step-IsOwned {y} (release session e) v =
        subst (Keeps pl (λ a. a) y.back) e (on_release-Keeps pl session v)
    Step-IsOwned {y} (receive now id {p} o) v =
        changed-IsOwned pl v (record p { send_msg_cnt = p.send_msg_cnt + 1; last_time = now }) o
          (key-find (key pl) id y.auth.objects o) refl refl (λ off. off)
    Step-IsOwned take v = taken_over v
    Step-IsOwned {y} (serve queue {s} {a} {left} clean e) v =
        subst (λ b. IsOwned pl b a) (sym clean)
          (subst (Keeps pl (λ (x : db.State × Auth pl × List (ℕ × List Message)). x.1) false) e (
            serve_sessions-Keeps pl db isalnum queue y.auth.players y.rows
              (subst (λ b. IsOwned pl b y.auth) clean v)))
    Step-IsOwned {y} (change id q held o named account field off) v =
        changed-IsOwned pl v q o (named ∙ key-find (key pl) id y.auth.objects o) account field off
    Step-IsOwned {y} (hand_back id {p} {a} held o off e) v =
        subst (λ (b : Auth pl). IsOwned pl true (record b { entered = erase id b.entered }))
          (ok_inj (sym (hand_back_lem v id held o) ∙ e)) (handed_back-IsOwned pl v id o held off)
    Step-IsOwned {y} (move id {p} field {a} held o e) v =
        subst (λ (b : Auth pl). IsOwned pl y.back (record b { entered = erase id b.entered }))
          (ok_inj (sym (move_lem v id field held o) ∙ e)) (moved-IsOwned pl v id o held)
    Step-IsOwned {y} (check few e) v =
        let (a', done, v') = check-IsOwned pl (weaken pl v) few in
        subst (IsOwned pl false) (ok_inj (sym done ∙ e)) v'

    -- Whatever the sessions, the database and the fields do, with fewer than a thousand players on the
    -- authentication thread whenever it checks them: an account's entry leads to a live player with that
    -- account number, every session without an account and every player that the thread or a field
    -- holds is live, and a field's player has his account's entry and is not the thread's at once.
    pub Reach-IsOwned : (s : db.State) {z : System} → Reach (start s) z → IsOwned pl z.back z.auth
    Reach-IsOwned s here = start-IsOwned s
    Reach-IsOwned s (next r st) = Step-IsOwned st (Reach-IsOwned s r)

    -- In each such state the thread's own assertions hold: the check returns, and so does the notice of any
    -- player that a field holds, whether he is gone or wants to another field.
    pub Reach-asserts :
        (s : db.State) {z : System}
        → Reach (start s) z
        → (length z.auth.players < disconnect_and_leave_cap
            → (a : Auth pl) × (check_disconnected_and_leave_auth pl z.auth ≡ ok a))
          × ((id : ℕ)
              → elem id z.auth.entered ≡ true
              → (p : Player F) × (object pl z.auth id ≡ some p)
                × ((a : Auth pl) × (auth_notify_packet_proc pl
                        (player_disconnected p.account_no)
                        z.auth
                      ≡ ok a))
                × ((field : ℤ)
                    → (a : Auth pl) × (auth_notify_packet_proc pl
                          (player_move_field p.account_no field)
                          z.auth
                        ≡ ok a)))
    Reach-asserts s {z} r =
        let v = Reach-IsOwned s r in
        (
          λ few. let (a, done, v') = check-IsOwned pl (weaken pl v) few in (a, done),
          λ id held.
              let (p, o, l, t, f) = v.of_field id held in
              (p, o, (_, hand_back_lem v id held o), λ field. (_, move_lem v id field held o)),
        )
