-- ===== src/Field/Leave.antt =====
-- How a player comes into a field and leaves it (FieldServer/FieldServer.cpp): handleRegisterPlayer,
-- checkDisConnectedAndLeavePlayer on a field's thread, and dbResultPacketProc. The queues to the
-- database and to the authentication thread are lists of what they hold.
pub mod Gone
mod Tests
use my_mmoproject.Base.{
  ℕ, zero, suc, ◌+◌, ◌-◌, ◌*◌, ◌/◌, ◌^◌, Bool, true, false, not, ◌||◌, List, [], ◌∷◌, ◌++◌, Option,
  none, some, leb, ltb, ◌==◌, if◌then◌else◌, length,
}
use my_mmoproject.Base.Int.{ℤ, pos, negsuc}
use my_mmoproject.Fault.{Result, ok, err, out_of_range, ◌>>=◌, ◌>>◌, my_assert}
use my_mmoproject.Ring.{ringbuffer_size}
use my_mmoproject.Ring.Geometry.{get_free_size}
use my_mmoproject.Sector.{Sector, get_around_sectors}
use my_mmoproject.Actor.{Platform}
use my_mmoproject.Player.{Player}
use my_mmoproject.Packet.{RankEntry, ranking_res}
use my_mmoproject.Field.{
  Field, Job, position_save, Notice, player_disconnected, player_move_field, find, found,
  set_player, post, player_key, elem, erase, at_sector, remove_at, enter_sector, remove_from_sector,
}
use my_mmoproject.Field.Broadcast.{broadcast_spawn, broadcast_despawn}
use my_mmoproject.Field.Update.Drops.{request}
use my_mmoproject.Field.Update.Visibility.{
  tell_spawn_batch, tell_monster_spawn_batch, tell_item_spawn_batch,
}

-- CONFIG_AUTH_FIELD_IDX, CONFIG_FIELD_SIZE and CONFIG_DISCONNECT_AND_LEAVE_CAP
abbrev pub auth_field_idx : ℤ
auth_field_idx = negsuc 0

abbrev pub disconnect_and_leave_cap : ℕ
disconnect_and_leave_cap = 1000

abbrev pub int_eq : ℤ → ℤ → Bool
int_eq (pos a) (pos b) = a == b
int_eq (negsuc a) (negsuc b) = a == b
int_eq a b = false

-- DB_POSITION_SAVE_PENDING_BIT is bit 63 of mDBRequestCnt, a uint64_t.
abbrev pub is_save_pending : ℕ → Bool
is_save_pending cnt = leb (2 ^ 63) cnt

-- `|= DB_POSITION_SAVE_PENDING_BIT`
abbrev pub set_save_pending : ℕ → ℕ
set_save_pending cnt = if is_save_pending cnt then cnt else cnt + 2 ^ 63

-- What the database thread answers; a ranking's answer has the first players, and the player's own rank
-- and kills.
pub data DbResult : Type 0 where
  position_saved : ℕ → DbResult
  kill_count_updated : ℕ → DbResult
  ranking_result : ℕ → List RankEntry → ℕ → ℕ → DbResult

module _ (pl : Platform) where
  open pl use {F}

  unfoldable pub request_position_save : Player F → Field pl → Result (Field pl)
  request_position_save p f =
      my_assert (not (is_save_pending p.db_request_cnt))
      >> (request pl f (position_save p.seq_id p.account_no p.position) >>= λ f'.
          ok (set_player pl f' (record p { db_request_cnt = set_save_pending p.db_request_cnt })))

  -- notifyDisconnect and notifyMoveField: the ring takes pointers of 8 bytes.
  unfoldable pub notify : Field pl → Notice → Result (Field pl)
  notify f n =
      my_assert (leb 8 (get_free_size ringbuffer_size 0 (8 * length f.notifies)))
      >> ok (record f { notifies = f.notifies ++ (n ∷ []) })

  -- The first loop of checkDisConnectedAndLeavePlayer: who is disconnected, and who wants to another
  -- field, `left` more of either at most.
  unfoldable pub collect_leaving : ℤ → ℕ → ℕ → List (Player F) → List ℕ × List ℕ
  collect_leaving field cut away [] = ([], [])
  collect_leaving field cut away (p ∷ ps) =
      let gone = collect_leaving field (cut - 1) away ps in
      let leaves = collect_leaving field cut (away - 1) ps in
      let stays = collect_leaving field cut away ps in
      if not p.connect
      then (if cut == 1 then (p.seq_id ∷ [], []) else (p.seq_id ∷ gone.0, gone.1))
      else if not (int_eq p.next_field_id field)
      then (if away == 1 then ([], p.seq_id ∷ []) else (leaves.0, p.seq_id ∷ leaves.1))
      else stays

  -- The second loop, on a field's thread: the position of a disconnected player is saved, once.
  unfoldable pub save_disconnected : List ℕ → Field pl → Result (Field pl)
  save_disconnected [] f = ok f
  save_disconnected (id ∷ ids) f = do
    p ← found (find (player_key pl) id f.players)
    let asked = request_position_save p f
    f' ← if is_save_pending p.db_request_cnt then ok f else asked
    save_disconnected ids f'

  abbrev pub remove_player : ℕ → Field pl → Field pl
  remove_player id f = record f { players = remove_at (player_key pl) id f.players }

  -- The third loop: the first player who may leave for another field ends it. One who wants back to the
  -- authentication thread goes to `mMsgQ[-1]`.
  unfoldable pub leave_field : List ℕ → Field pl → Result (Field pl)
  leave_field [] f = ok f
  leave_field (id ∷ ids) f = do
    p ← found (find (player_key pl) id f.players)
    let later = leave_field ids f
    let away : Result (Field pl) = get_around_sectors f.cache p.current_sector >>= λ near.
        remove_from_sector pl (broadcast_despawn pl p near f) p >>= λ f'.
        if int_eq p.next_field_id auth_field_idx
        then err out_of_range
        else notify f' (player_move_field p.account_no p.next_field_id) >>= λ f''.
            ok (remove_player id f'')
    if p.db_request_cnt == 0 then away else later

  unfoldable pub check_disconnected_and_leave_player : ℤ → Field pl → Result (Field pl)
  check_disconnected_and_leave_player field f = do
    let leaving = collect_leaving field disconnect_and_leave_cap disconnect_and_leave_cap f.players
    f' ← save_disconnected leaving.0 f
    leave_field leaving.1 f'

  -- The answer to a saved position: the account is told, and the player goes. His object, with the bit of
  -- mDBRequestCnt cleared, is the authentication thread's from here on.
  unfoldable pub finish_save : Option (Player F) → Field pl → Result (Field pl)
  finish_save none f = ok f
  finish_save (some p) f = do
    f' ← notify f (player_disconnected p.account_no)
    my_assert (elem p.seq_id (f'.sectors p.current_sector))
    ok (record (remove_player p.seq_id f') {
      sectors =
          at_sector f'.sectors p.current_sector (erase p.seq_id (f'.sectors p.current_sector));
    })

  unfoldable pub send_ranking : Option (Player F) → List RankEntry → ℕ → ℕ → Field pl → Field pl
  send_ranking none entries rank kills f = f
  send_ranking (some p) entries rank kills f = post pl f p.seq_id (ranking_res entries rank kills)

  unfoldable pub db_result : DbResult → Field pl → Result (Field pl)
  db_result (position_saved id) f = finish_save (find (player_key pl) id f.players) f
  db_result (kill_count_updated id) f = ok f
  db_result (ranking_result id entries rank kills) f =
      ok (send_ranking (find (player_key pl) id f.players) entries rank kills f)

  -- dbResultPacketProc on what its queue holds.
  unfoldable pub db_result_packet_proc : List DbResult → Field pl → Result (Field pl)
  db_result_packet_proc [] f = ok f
  db_result_packet_proc (r ∷ rs) f = db_result r f >>= db_result_packet_proc rs

  abbrev pub is_new : Option (Player F) → Bool
  is_new none = true
  is_new (some p) = false

  unfoldable pub handle_register_player : ℤ → Player F → Field pl → Result (Field pl)
  handle_register_player field p f = do
    my_assert (is_new (find (player_key pl) p.seq_id f.players))
    let entering : Player F = record p { current_field_id = field }
    f' ← enter_sector pl (record f { players = entering ∷ f.players }) entering
    q ← found (find (player_key pl) p.seq_id f'.players)
    near ← get_around_sectors f'.cache q.current_sector
    let told : Field pl = tell_spawn_batch pl q near (broadcast_spawn pl q near f')
    ok (tell_item_spawn_batch pl q near (tell_monster_spawn_batch pl q near told))
