-- ===== src/Auth/Thread/Serve.antt =====
-- The callbacks and the service of messages keep every player owned: what onAccept, onRelease, a login and
-- the loop over the players' messages leave behind, on each of their branches.
use my_mmoproject.Base.{
  ℕ, ◌≡◌, inl, inr, refl, subst, Bool, true, false, not, List, [], ◌∷◌, ◌-◌, ◌++◌, Option, some,
  none, ◌==◌, ◌||◌, if◌then◌else◌, Bool-cases, Option-cases, length, leb, take,
}
use my_mmoproject.Fault.{Result, ok, err, ◌>>=◌}
use my_mmoproject.Actor.{Platform}
use my_mmoproject.Player.{Player}
use my_mmoproject.Player
use my_mmoproject.Packet.{Packet, field_auth_fail}
use my_mmoproject.Auth.{nul, escape_sql_string, is_valid_id}
use my_mmoproject.Message.{Message, get_data, shift_out}
use my_mmoproject.Field.{elem, found}
use my_mmoproject.Field.Find.{key-find}
use my_mmoproject.Field.Leave.{auth_field_idx, int_eq}
use my_mmoproject.Auth.Thread.{
  Auth, Account, Database, c_string, lookup, object, key, on_accept, on_release, log_in, promote,
  log_in_or_fail, find_account, handle_auth_req, auth_packet_proc, serve_session, serve_sessions,
  send_auth_fail,
}
use my_mmoproject.Auth.Thread.Owned.{IsOwned, accepted-IsOwned, changed-IsOwned}
use my_mmoproject.Auth.Thread.Login.{promoted-IsOwned}

pub found-some : {A : Type 0} (o : Option A) {x : A} → found o ≡ ok x → o ≡ some x
found-some none e = cc
found-some (some y) e = cc

module _ (pl : Platform) where
  open pl use {F}

  -- What a call keeps that may fail.
  abbrev pub Keeps {ℓ} : {A : Type ℓ} → (A → Auth pl) → Bool → Result A → Type 0
  Keeps state back (err fault) = Unit
  Keeps state back (ok x) = IsOwned pl back (state x)

  bind-Keeps :
      {A : Type 0} {B : Type 0} (state : B → Auth pl) (back : Bool) (r : Result A)
      (f : A → Result B)
      → ((x : A) → r ≡ ok x → Keeps state back (f x))
      → Keeps state back (r >>= f)
  bind-Keeps state back (err fault) f h = tt
  bind-Keeps state back (ok x) f h = h x refl

  if-Keeps :
      {B : Type 0} (state : B → Auth pl) (back test : Bool) (x y : Result B)
      → (test ≡ true → Keeps state back x)
      → (test ≡ false → Keeps state back y)
      → Keeps state back (if test then x else y)
  if-Keeps state back true x y h k = h refl
  if-Keeps state back false x y h k = k refl

  -- What is posted, and who is cut off, is nobody's player.
  told :
      {back : Bool} {a : Auth pl} (posts : List (ℕ × Packet)) (disconnects : List ℕ)
      → IsOwned pl back a
      → IsOwned pl back (record a { posts = posts; disconnects = disconnects })
  told posts disconnects v = record {
    of_account = v.of_account;
    of_session = v.of_session;
    of_thread = v.of_thread;
    of_field = v.of_field;
    once = v.once;
  }

  pub on_accept-Keeps :
      {back : Bool} (now id : ℕ) {a : Auth pl}
      → IsOwned pl back a
      → object pl a id ≡ none
      → Keeps (λ a'. a') back (on_accept pl now id a)
  unfolding on_accept Player.create
  on_accept-Keeps {back} now id {a} v fresh =
      elim (Bool-cases (leb 10000 (length a.un_auth_sessions))) [
        | inl full ↦ rw full (told a.posts (a.disconnects ++ (id ∷ [])) v)
        | inr room ↦ rw room (elim (Bool-cases (elem id a.un_auth_sessions)) [
          | inl known ↦ rw known tt
          | inr new ↦
              rw new (
                accepted-IsOwned pl v (record (Player.create pl id) { last_time = now }) fresh refl)
        ])
      ]

  pub on_release-Keeps :
      {back : Bool} (session : Option ℕ) {a : Auth pl}
      → IsOwned pl back a
      → Keeps (λ a'. a') back (on_release pl session a)
  unfolding on_release
  on_release-Keeps none v = v
  on_release-Keeps {back} (some id) {a} v = elim (Option-cases (object pl a id)) [
    | inl missing ↦ rw missing tt
    | inr (p, here) ↦ rw here (
        changed-IsOwned pl v (record p { connect = false }) here
          (key-find (key pl) id a.objects here) refl refl (λ off. refl))
  ]

  log_in-Keeps :
      (session : ℕ) (id : List ℕ) (account : Account F) {a : Auth pl}
      → IsOwned pl false a
      → Keeps (λ a'. a') false (log_in pl session id account a)
  unfolding log_in promote send_auth_fail
  log_in-Keeps session id account {a} v =
      elim (Option-cases (lookup account.account_no a.accounts_hash)) [
        | inr (other, l) ↦ rw (l, log_in) (told _ _ v)
        | inl free ↦
            rw (free, log_in)
              (elim (Bool-cases (elem session a.un_auth_sessions)) [
                | inr old ↦ rw old v
                | inl waits ↦ elim (Option-cases (object pl a session)) [
                  | inl missing ↦ rw (waits, missing) tt
                  | inr (p, here) ↦
                      rw (waits, here)
                        (promoted-IsOwned pl v _ _ waits free here
                          (key-find (key pl) session a.objects here) refl refl)
                ]
              ])
      ]

  module _ (db : Database F) (isalnum : ℕ → Bool) where
    log_in_or_fail-Keeps :
        (session : ℕ) (id : List ℕ) (known : db.State × Option (Account F)) {a : Auth pl}
        → IsOwned pl false a
        → Keeps
            (λ (x : db.State × Auth pl). x.1)
            false
            (log_in_or_fail pl db isalnum session id known a)
    unfolding send_auth_fail
    log_in_or_fail-Keeps session id (s, none) v = told _ _ v
    log_in_or_fail-Keeps session id (s, some account) {a} v =
        bind-Keeps (λ (x : db.State × Auth pl). x.1) false (log_in pl session id account a) _
          λ a' e. subst (Keeps (λ x. x) false) e (log_in-Keeps session id account v)

    abbrev Logged : Type 0
    Logged = db.State × Auth pl

    -- Behind the reads of the id and the password.
    answered-Keeps :
        (session : ℕ) (id pw : List ℕ) (s : db.State) {a : Auth pl}
        → IsOwned pl false a
        → Keeps
            (λ (x : Logged). x.1)
            false
            (if is_valid_id isalnum id
              then log_in_or_fail pl db isalnum session id
                  (find_account pl db isalnum s (c_string id) (escape_sql_string pw 129))
                  a
              else ok (s, send_auth_fail pl session a))
    unfolding send_auth_fail
    answered-Keeps session id pw s {a} v =
        if-Keeps (λ (x : Logged). x.1) false (is_valid_id isalnum id)
          (log_in_or_fail pl db isalnum session id
            (find_account pl db isalnum s (c_string id) (escape_sql_string pw 129)) a)
          (ok (s, send_auth_fail pl session a))
          (λ valid.
            log_in_or_fail-Keeps session id
              (find_account pl db isalnum s (c_string id) (escape_sql_string pw 129)) v)
          (λ invalid. told (a.posts ++ ((session, field_auth_fail) ∷ [])) a.disconnects v)

    auth_packet_proc-Keeps :
        (msg : Message) (s : db.State) {a : Auth pl}
        → IsOwned pl false a
        → Keeps (λ (x : Logged). x.1) false (auth_packet_proc pl db isalnum msg s a)
    unfolding auth_packet_proc handle_auth_req
    auth_packet_proc-Keeps msg s {a} v =
        bind-Keeps (λ (x : Logged). x.1) false (shift_out msg 2) _
          λ x e.
            if-Keeps (λ (y : Logged). y.1) false (x.1 == 100) _ _
              (λ auth.
                bind-Keeps (λ (y : Logged). y.1) false (get_data x.0 20) _
                  λ y e'.
                    bind-Keeps (λ (w : Logged). w.1) false (get_data y.0 64) _
                      λ z e''.
                        answered-Keeps x.0.owner_id (take 19 y.1 ++ (nul ∷ [])) (z.1 ++ (nul ∷ []))
                          s v)
              (λ other. tt)

    abbrev Served : Type 0
    Served = db.State × Auth pl × List Message

    abbrev Rounds : Type 0
    Rounds = db.State × Auth pl × List (ℕ × List Message)

    serve_session-Keeps :
        (id : ℕ) (msgs : List Message) (s : db.State) {a : Auth pl}
        → IsOwned pl false a
        → Keeps (λ (x : Served). x.1) false (serve_session pl db isalnum id msgs s a)
    unfolding serve_session
    serve_session-Keeps id [] s v = v
    serve_session-Keeps id (msg ∷ msgs) s {a} v =
        bind-Keeps (λ (x : Served). x.1) false (found (object pl a id)) _
          λ p e.
            if-Keeps (λ (x : Served). x.1) false
              (not p.connect || not (int_eq p.next_field_id auth_field_idx)) _ _ (λ stays. v)
              λ goes.
                bind-Keeps (λ (x : Served). x.1) false (auth_packet_proc pl db isalnum msg s a) _
                  λ x e'.
                    bind-Keeps (λ (y : Served). y.1) false (found (object pl x.1 id)) _
                      λ q here. serve_session-Keeps id msgs x.0 (
                        changed-IsOwned pl
                          (subst (Keeps (λ (y : Logged). y.1) false) e'
                            (auth_packet_proc-Keeps msg s v))
                          (record q { send_msg_cnt = q.send_msg_cnt - 1 }) (found-some _ here)
                          (key-find (key pl) id x.1.objects (found-some _ here)) refl refl
                          (λ off. off))

    pub serve_sessions-Keeps :
        (queue : ℕ → List Message) (ids : List ℕ) (s : db.State) {a : Auth pl}
        → IsOwned pl false a
        → Keeps (λ (x : Rounds). x.1) false (serve_sessions pl db isalnum queue ids s a)
    unfolding serve_sessions
    serve_sessions-Keeps queue [] s v = v
    serve_sessions-Keeps queue (id ∷ ids) s {a} v =
        bind-Keeps (λ (y : Rounds). y.1) false (serve_session pl db isalnum id (queue id) s a) _
          λ x e.
            bind-Keeps (λ (z : Rounds). z.1) false (serve_sessions pl db isalnum queue ids x.0 x.1)
              _
              λ y e'. subst (Keeps (λ (z : Rounds). z.1) false) e' (
                serve_sessions-Keeps queue ids x.0 (
                  subst (Keeps (λ (z : Served). z.1) false) e
                    (serve_session-Keeps id (queue id) s v)))
