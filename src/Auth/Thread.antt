-- ===== src/Auth/Thread.antt =====
-- The authentication thread of FieldServer/FieldServer.cpp and the callbacks that feed it: onAccept,
-- onRelease, handleAuthReq, authPacketProc, authNotifyPacketProc, enterField,
-- checkDisConnectedAndLeavePlayer at CONFIG_AUTH_FIELD_IDX and heartBeatForUnAuthSession. A `Player*` is
-- the player's session id; `objects` are the players that are allocated, so a pointer whose object is
-- not found there dangles. MySQL stands behind the record Database, at the texts that go into the
-- queries.
pub mod Faults
pub mod Maps
pub mod Serve
pub mod Steps
pub mod Check
pub mod Deleted
pub mod Handover
pub mod Login
pub mod Owned
mod Tests
use my_mmoproject.Base.{
  ℕ, zero, suc, ◌+◌, ◌-◌, Bool, true, false, not, ◌||◌, List, [], ◌∷◌, ◌++◌, Option, none, some,
  leb, ltb, ◌==◌, if◌then◌else◌, length, take,
}
use my_mmoproject.Base.Int.{ℤ, pos, negsuc}
use my_mmoproject.Fault.{Result, ok, err, debug_break, out_of_range, ◌>>=◌, ◌>>◌, my_assert}
use my_mmoproject.Bytes.{of_bytes}
use my_mmoproject.Message.{Message, get_data, shift_out}
use my_mmoproject.Actor.{Platform, Position}
use my_mmoproject.Player
use my_mmoproject.Player.{Player}
use my_mmoproject.Packet.{Packet, field_auth_fail, field_auth_res}
use my_mmoproject.Field.{
  Notice, player_disconnected, player_move_field, find, set_at, remove_at, elem, erase, found,
  resolve,
}
use my_mmoproject.Field.Leave.{auth_field_idx, disconnect_and_leave_cap, int_eq, collect_leaving}
use my_mmoproject.Auth.{nul, escape_sql_string, is_valid_id}

-- CONFIG_UNAUTH_MAX_SIZE, CONFIG_UNAUTH_HEARTBEAT_TIMER and PacketType::FIELD_AUTH_REQ
abbrev pub unauth_max_size : ℕ
unauth_max_size = 10000

abbrev pub unauth_heartbeat_timer : ℕ
unauth_heartbeat_timer = 30000

abbrev pub field_auth_req_code : ℕ
field_auth_req_code = 100

-- mAccountsHash: the account and the player.
abbrev pub lookup : ℕ → List (ℕ × ℕ) → Option ℕ
lookup k [] = none
lookup k ((j, v) ∷ m) = let rest = lookup k m in if k == j then some v else rest

abbrev pub erase_key : ℕ → List (ℕ × ℕ) → List (ℕ × ℕ)
erase_key k [] = []
erase_key k ((j, v) ∷ m) = let rest = erase_key k m in if k == j then rest else (j, v) ∷ rest

-- unordered_map::insert changes nothing where the key is there.
abbrev pub insert_id : ℕ → List ℕ → List ℕ
insert_id id ids = if elem id ids then ids else id ∷ ids

-- The loop of authThread that takes the new sessions over.
unfoldable pub take_over : List ℕ → List ℕ → List ℕ
take_over [] players = players
take_over (id ∷ ids) players = take_over ids (insert_id id players)

-- A row of the table Accounts.
pub record Account (F : Type 0) : Type 0 where
  pub account_no : ℕ
  pub x : F
  pub y : F

-- The database as its queries see it. `select` is the row of an id and an escaped password: `none`
-- if the query fails, `some none` if there is no such row; `insert` adds an account, or fails;
-- `select_id` is the number of an id, if the query finds one.
pub record Database (F : Type 0) : Type 1 where
  pub State : Type 0
  pub select : State → List ℕ → List ℕ → Option (Option (Account F))
  pub insert : State → List ℕ → List ℕ → Option State
  pub select_id : State → List ℕ → Option ℕ

-- The characters of a C string before its '\0'.
abbrev pub c_string : List ℕ → List ℕ
c_string [] = []
c_string (c ∷ cs) = let rest = c_string cs in if c == nul then [] else c ∷ rest

module _ (pl : Platform) where
  open pl use {F, literal, bits}

  pub record Auth : Type 0 where
    pub un_auth_sessions : List ℕ
    pub players : List ℕ
    pub accounts_hash : List (ℕ × ℕ)
    pub objects : List (Player F)
    pub character_id : ℕ
    pub player_cnt : ℤ
    pub posts : List (ℕ × Packet)
    pub disconnects : List ℕ
    pub entered : List ℕ

  abbrev pub key : Player F → ℕ
  key p = p.seq_id

  abbrev pub object : Auth → ℕ → Option (Player F)
  object a id = find key id a.objects

  abbrev pub post : Auth → ℕ → Packet → Auth
  post a session packet = record a { posts = a.posts ++ ((session, packet) ∷ []) }

  abbrev pub disconnect : Auth → ℕ → Auth
  disconnect a session = record a { disconnects = a.disconnects ++ (session ∷ []) }

  abbrev pub count_up : ℤ → ℤ
  count_up (pos n) = pos (n + 1)
  count_up (negsuc zero) = pos 0
  count_up (negsuc (suc n)) = negsuc n

  abbrev pub count_down : ℤ → ℤ
  count_down (pos zero) = negsuc 0
  count_down (pos (suc n)) = pos n
  count_down (negsuc n) = negsuc (n + 1)

  -- onAccept; `now` is timeGetTime().
  unfoldable pub on_accept : ℕ → ℕ → Auth → Result Auth
  on_accept now id a =
      if leb unauth_max_size (length a.un_auth_sessions)
      then ok (disconnect a id)
      else my_assert (not (elem id a.un_auth_sessions))
        >> ok (record a {
          objects = record (Player.create pl id) { last_time = now } ∷ a.objects;
          un_auth_sessions = id ∷ a.un_auth_sessions;
          player_cnt = count_up a.player_cnt;
        })

  -- onRelease, with the pointer that the session holds.
  unfoldable pub on_release : Option ℕ → Auth → Result Auth
  on_release none a = ok a
  on_release (some id) a = do
    p ← found (object a id)
    ok (record a { objects = set_at key id (record p { connect = false }) a.objects })

  -- sendAuthFail
  unfoldable pub send_auth_fail : ℕ → Auth → Auth
  send_auth_fail session a = post a session field_auth_fail

  -- handleAuthReq from the promotion on: the session is no longer one without an account.
  unfoldable pub promote : ℕ → List ℕ → Account F → Auth → Result Auth
  promote session id account a =
      if elem session a.un_auth_sessions
      then (do
        p ← found (object a session)
        let named : Player F = record p {
          position = record { x = account.x; y = account.y };
          account_no = account.account_no;
          character_id = a.character_id + 1;
          next_field_id = pos 0;
          nickname = of_bytes id;
        }
        ok (
            post
              (record a {
                objects = set_at key session named a.objects;
                un_auth_sessions = erase session a.un_auth_sessions;
                character_id = a.character_id + 1;
                accounts_hash = (account.account_no, session) ∷ a.accounts_hash;
              })
              session (field_auth_res (a.character_id + 1) (bits account.x) (bits account.y))))
      else ok a

  -- handleAuthReq behind the queries: a second login cuts the first one off, and fails.
  unfoldable pub log_in : ℕ → List ℕ → Account F → Auth → Result Auth
  log_in session id account a = elim (lookup account.account_no a.accounts_hash) [
    | some other ↦ ok (send_auth_fail session (disconnect a other))
    | none ↦ promote session id account a
  ]

  module _ (db : Database F) (isalnum : ℕ → Bool) where
    open db use {State, select, insert, select_id}

    -- The account that is made for an unknown id, at the origin.
    unfoldable pub sign_up : State → List ℕ → List ℕ → State × Option (Account F)
    sign_up s id pw = elim (insert s id pw) [
      | none ↦ (s, none)
      | some s' ↦ elim (select_id s' id) [
        | none ↦ (s', none)
        | some number ↦ (
          s',
          some (record { account_no = number; x = literal (pos 0) 1; y = literal (pos 0) 1 }),
        )
      ]
    ]

    -- A query that fails counts as a row that is not there.
    unfoldable pub find_account : State → List ℕ → List ℕ → State × Option (Account F)
    find_account s id pw = elim (select s id pw) [
      | some (some account) ↦ (s, some account)
      | some none ↦ sign_up s id pw
      | none ↦ sign_up s id pw
    ]

    abbrev pub log_in_or_fail :
        ℕ → List ℕ → State × Option (Account F) → Auth → Result (State × Auth)
    log_in_or_fail session id (s, none) a = ok (s, send_auth_fail session a)
    log_in_or_fail session id (s, some account) a = do a' ← log_in session id account a; ok (s, a')

    -- `id` is the char[20] with its last one set to '\0', `pw` the char[65].
    unfoldable pub handle_auth_req : Message → State → Auth → Result (State × Auth)
    handle_auth_req msg s a = do
      (msg', id_bytes) ← get_data msg 20
      (msg'', pw_bytes) ← get_data msg' 64
      let id = take 19 id_bytes ++ (nul ∷ [])
      let pw = pw_bytes ++ (nul ∷ [])
      let refused : Result (State × Auth) = ok (s, send_auth_fail msg.owner_id a)
      let account = find_account s (c_string id) (escape_sql_string pw 129)
      if is_valid_id isalnum id then log_in_or_fail msg.owner_id id account a else refused

    unfoldable pub auth_packet_proc : Message → State → Auth → Result (State × Auth)
    auth_packet_proc msg s a = do
      (msg', type) ← shift_out msg 2
      if type == field_auth_req_code then handle_auth_req msg' s a else err debug_break

    -- A player's messages, as long as he is connected and has no field: what is left of them comes back.
    unfoldable pub serve_session :
        ℕ → List Message → State → Auth → Result (State × Auth × List Message)
    serve_session id [] s a = ok (s, a, [])
    serve_session id (msg ∷ msgs) s a = do
      p ← found (object a id)
      let served : Result (State × Auth × List Message) = auth_packet_proc msg s a >>= λ (s', a').
          found (object a' id) >>= λ p'.
          let counted : Player F = record p' { send_msg_cnt = p'.send_msg_cnt - 1 } in
          serve_session id msgs s' (record a' { objects = set_at key id counted a'.objects })
      let stays = not p.connect || not (int_eq p.next_field_id auth_field_idx)
      if stays then ok (s, a, msg ∷ msgs) else served

    -- The loop over the thread's players, with the messages of each one's ring.
    unfoldable pub serve_sessions :
        (ℕ → List Message) → List ℕ → State → Auth → Result (State × Auth × List (ℕ × List Message))
    serve_sessions queue [] s a = ok (s, a, [])
    serve_sessions queue (id ∷ ids) s a = do
      (s', a', left) ← serve_session id (queue id) s a
      (s'', a'', lefts) ← serve_sessions queue ids s' a'
      ok (s'', a'', (id, left) ∷ lefts)

  -- authNotifyPacketProc: the account's player is the authentication thread's again.
  unfoldable pub auth_notify_packet_proc : Notice → Auth → Result Auth
  auth_notify_packet_proc (player_disconnected account) a = do
    id ← found (lookup account a.accounts_hash)
    ok (record a {
      players = insert_id id a.players;
      accounts_hash = erase_key account a.accounts_hash;
    })
  auth_notify_packet_proc (player_move_field account field) a = do
    id ← found (lookup account a.accounts_hash)
    ok (record a { players = insert_id id a.players })

  -- enterField, once mMsgQ has room: CONFIG_FIELD_SIZE is 1, so field 0 has the only queue.
  unfoldable pub enter_field : ℕ → ℤ → Auth → Result Auth
  enter_field id (negsuc n) a = err out_of_range
  enter_field id (pos field) a =
      my_assert (field == 0)
      >> (my_assert (elem id a.players)
          >> ok (record a { players = erase id a.players; entered = a.entered ++ (id ∷ []) }))

  -- The players that the thread owns.
  abbrev pub owned : List ℕ → Auth → List (Player F)
  owned ids a = resolve key a.objects ids

  abbrev pub forget : ℕ → ℕ → Auth → Auth
  forget id account_no a =
      if elem id a.un_auth_sessions
      then record a { un_auth_sessions = erase id a.un_auth_sessions }
      else record a { accounts_hash = erase_key account_no a.accounts_hash }

  -- The second loop of checkDisConnectedAndLeavePlayer on the authentication thread: a disconnected
  -- player is deleted. His queue's messages stay, since DeQueueMsgOrNull returns none of them.
  unfoldable pub delete_disconnected : List ℕ → Auth → Result Auth
  delete_disconnected [] a = ok a
  delete_disconnected (id ∷ ids) a = do
    p ← found (object a id)
    let a' : Auth = forget id p.account_no a
    delete_disconnected ids (record a' {
      player_cnt = count_down a'.player_cnt;
      objects = remove_at key id a'.objects;
      players = erase id a'.players;
    })

  -- The third loop: who has logged in goes to his field, once no request to the database is open.
  unfoldable pub leave_auth : List ℕ → Auth → Result Auth
  leave_auth [] a = ok a
  leave_auth (id ∷ ids) a = do
    p ← found (object a id)
    a' ← if p.db_request_cnt == 0 then enter_field id p.next_field_id a else ok a
    leave_auth ids a'

  unfoldable pub check_disconnected_and_leave_auth : Auth → Result Auth
  check_disconnected_and_leave_auth a = do
    let cap = disconnect_and_leave_cap
    let leaving = collect_leaving pl auth_field_idx cap cap (owned a.players a)
    a' ← delete_disconnected leaving.0 a
    leave_auth leaving.1 a'

  -- heartBeatForUnAuthSession; `now` is timeGetTime().
  abbrev pub is_overdue : ℕ → Player F → Bool
  is_overdue now p =
      if not p.connect
      then false
      else if leb now p.last_time
      then false
      else leb unauth_heartbeat_timer (now - p.last_time)

  unfoldable pub heart_beat : ℕ → List (Player F) → Result (Unit {0})
  heart_beat now [] = ok tt
  heart_beat now (p ∷ ps) =
      let rest = heart_beat now ps in if is_overdue now p then err debug_break else rest

  unfoldable pub take_notices : List Notice → Auth → Result Auth
  take_notices [] a = ok a
  take_notices (n ∷ ns) a = auth_notify_packet_proc n a >>= take_notices ns

  -- A turn of authThread's loop, with the messages and notices that wait.
  unfoldable pub auth_turn :
      (db : Database F)
      → (ℕ → Bool)
      → ℕ
      → (ℕ → List Message)
      → List Notice
      → db.State
      → Auth
      → Result (db.State × Auth × List (ℕ × List Message))
  auth_turn db isalnum now queue notices s a = do
    let taken : Auth = record a { players = take_over a.un_auth_sessions a.players }
    (s', a', left) ← serve_sessions db isalnum queue taken.players s taken
    a'' ← take_notices notices a'
    a''' ← check_disconnected_and_leave_auth a''
    heart_beat now (owned a'''.players a''') >> ok (s', a''', left)
