-- ===== src/Auth/Thread/Tests.antt =====
-- A client connects, logs in with an id that the database does not know, and goes to the field.
use my_mmoproject.Base.{
  ℕ, ◌≡◌, refl, true, false, List, [], ◌∷◌, some, none, ◌==◌, if◌then◌else◌, arith, length,
  replicate, ◌<◌,
}
use my_mmoproject.Base.Int.{ℤ, pos}
use my_mmoproject.Fault.{ok, err, debug_break}
use my_mmoproject.Message.{Message, get_data, shift_out}
use my_mmoproject.Bytes.{of_bytes}
use my_mmoproject.Actor.Naturals.{naturals}
use my_mmoproject.Player
use my_mmoproject.Player.{Player}
use my_mmoproject.Packet.{field_auth_res}
use my_mmoproject.Field.{elem, player_disconnected, player_move_field}
use my_mmoproject.Field.Leave.{collect_leaving, disconnect_and_leave_cap}
use my_mmoproject.Auth.{escape_sql_string, is_valid_id, all_alnum}
use my_mmoproject.Auth.Thread.{
  Auth, Database, object, on_accept, serve_sessions, serve_session, take_over, auth_packet_proc,
  handle_auth_req, find_account, sign_up, log_in, promote, check_disconnected_and_leave_auth,
  delete_disconnected, leave_auth, enter_field, heart_beat, auth_notify_packet_proc,
}
use my_mmoproject.Auth.Thread.Owned.{IsOwned}
use my_mmoproject.Auth.Thread.Faults.{AnySilent, heart_beat_lem}
use my_mmoproject.Auth.Thread.Steps.{System, Step, Reach, start, Reach-IsOwned, Reach-asserts}

-- A database that knows nobody, and numbers a new account 5.
abbrev blank : Database ℕ
blank = record {
  State = Unit;
  select = λ s id pw. some none;
  insert = λ s id pw. some tt;
  select_id = λ s id. some 5;
}

-- FIELD_AUTH_REQ with the id "a" and an empty password.
abbrev login : Message
login = record {
  written = 100 ∷ 0 ∷ 97 ∷ replicate 83 0;
  front = 0;
  end = 6000;
  owner_id = 7;
  rand_key = 0;
  request_time = 0;
}

abbrev queue : ℕ → List Message
queue id = if id == 7 then login ∷ [] else []

visitor : Player ℕ
unfolding Player.create
visitor = record (Player.create naturals 7) { last_time = 3 }

visitor_named : Player ℕ
visitor_named = record visitor {
  position = record { x = 0; y = 0 };
  account_no = 5;
  character_id = 1;
  next_field_id = pos 0;
  nickname = 97;
  last_time = 4;
}

abbrev empty : Auth naturals
empty = (start naturals blank (λ c. true) tt).auth

abbrev System' : Type 0
System' = System naturals blank (λ c. true)

abbrev at : Auth naturals → System'
at a = record { auth = a; rows = tt; back = false }

connected : Auth naturals
connected = record empty { un_auth_sessions = 7 ∷ []; objects = visitor ∷ []; player_cnt = pos 1 }

sent : Auth naturals
unfolding connected
sent = record connected { objects = record visitor { send_msg_cnt = 1; last_time = 4 } ∷ [] }

logged_in : Auth naturals
logged_in = record empty {
  players = 7 ∷ [];
  accounts_hash = (5, 7) ∷ [];
  objects = visitor_named ∷ [];
  character_id = 1;
  player_cnt = pos 1;
  posts = (7, field_auth_res 1 0 0) ∷ [];
}

playing : Auth naturals
unfolding logged_in
playing = record logged_in { players = []; entered = 7 ∷ [] }

connects : Reach naturals blank (λ c. true) (at empty) (at connected)
unfolding connected visitor on_accept Player.create
connects = Reach.next Reach.here (Step.accept 3 7 refl refl)

serves :
    serve_sessions naturals blank (λ c. true) queue (7 ∷ []) tt (record sent { players = 7 ∷ [] })
    ≡ ok (tt, logged_in, (7, []) ∷ [])
unfolding sent connected visitor visitor_named logged_in serve_sessions serve_session
    auth_packet_proc handle_auth_req find_account sign_up log_in promote shift_out get_data
    is_valid_id all_alnum escape_sql_string Player.create of_bytes
serves = refl

sends : Reach naturals blank (λ c. true) (at empty) (at sent)
unfolding sent connected visitor Player.create
sends = Reach.next connects (Step.receive 4 7 refl)

logs_in : Reach naturals blank (λ c. true) (at empty) (at logged_in)
unfolding take_over sent connected
logs_in = Reach.next (Reach.next sends Step.take) (Step.serve queue refl serves)

checks : check_disconnected_and_leave_auth naturals logged_in ≡ ok playing
unfolding logged_in playing visitor_named visitor Player.create check_disconnected_and_leave_auth
    collect_leaving delete_disconnected leave_auth enter_field
checks = refl

few : length logged_in.players < disconnect_and_leave_cap
unfolding logged_in
few = omega arith

plays : Reach naturals blank (λ c. true) (at empty) (at playing)
plays = Reach.next logs_in (Step.check few checks)

Reach-IsOwned_example : IsOwned naturals false playing
Reach-IsOwned_example = Reach-IsOwned naturals blank (λ c. true) tt plays

Reach-asserts_example :
    (length playing.players < disconnect_and_leave_cap
      → (a : Auth naturals) × (check_disconnected_and_leave_auth naturals playing ≡ ok a))
    × ((id : ℕ)
        → elem id playing.entered ≡ true
        → (p : Player ℕ) × (object naturals playing id ≡ some p)
          × ((a : Auth naturals) × (auth_notify_packet_proc naturals
                  (player_disconnected p.account_no)
                  playing
                ≡ ok a))
          × ((field : ℤ)
              → (a : Auth naturals) × (auth_notify_packet_proc naturals
                    (player_move_field p.account_no field)
                    playing
                  ≡ ok a)))
Reach-asserts_example = Reach-asserts naturals blank (λ c. true) tt plays

heart_beat_lem_example :
    (AnySilent naturals 40000 (visitor ∷ [])
      → heart_beat naturals 40000 (visitor ∷ []) ≡ err debug_break)
    × ((AnySilent naturals 40000 (visitor ∷ []) → ⊥)
        → heart_beat naturals 40000 (visitor ∷ []) ≡ ok tt)
heart_beat_lem_example = heart_beat_lem naturals 40000 (visitor ∷ [])
