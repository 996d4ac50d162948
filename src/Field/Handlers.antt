-- ===== src/Field/Handlers.antt =====
-- The handlers of a client's packets in FieldServer/FieldServer.cpp: handleMoveStart, handleMoveStop,
-- handleAttackReq and handleLootReq, on a message whose type has been read. The times that they
-- compute are used by nothing.
use my_mmoproject.Base.{
  ℕ, ◌+◌, ◌-◌, ◌%◌, ◌^◌, Bool, true, false, Option, none, some, ltb, leb, ◌==◌, if◌then◌else◌,
  replicate,
}
use my_mmoproject.Base.Int.{ℤ, pos, negsuc}
use my_mmoproject.Fault.{Result, ok, err, debug_break, out_of_range, ◌>>=◌, ◌>>◌, my_assert}
use my_mmoproject.Sector.{get_around_sectors}
use my_mmoproject.Message.{Message, shift_out}
use my_mmoproject.Message.Fields.{read_fields}
use my_mmoproject.Actor.{
  Platform, Position, Direction, direction_at, distance, player_attack_total_frame,
  allow_delay_frame,
}
use my_mmoproject.Player.{
  Player, PlayerState, idle, move, attack, dead, stun, change_state, state_eq,
}
use my_mmoproject.Field.{
  Field, Item, find, found, set_player, player_key, item_key, disconnect, at_sector, erase, elem,
  remove_at,
}
use my_mmoproject.Field.Broadcast.{
  broadcast_move_start, broadcast_move_stop, broadcast_player_attack, broadcast_item_despawn,
  send_loot_res,
}

-- CONFIG_SINK_ABLE (syncDistance), CONFIG_SINK_MAXCOUNT and LOOT_RANGE
abbrev pub sink_able : ℕ
sink_able = 100

abbrev pub sink_maxcount : ℕ
sink_maxcount = 300

abbrev pub loot_range : ℕ
loot_range = 50

-- eItemId::Max
abbrev pub item_id_max : ℕ
item_id_max = 2

-- getSkillConfig: the range and the number of targets of a skill, if there is such a skill.
unfoldable pub get_skill_config : ℕ → Option (ℕ × ℕ)
get_skill_config skill_id = if skill_id == 0 then some (160, 1) else none

-- static_cast<eDirection>(direction)
unfoldable pub direction_of : ℕ → Result Direction
direction_of n = if ltb n 8 then ok (direction_at n) else err out_of_range

-- targetCnt > maxTargetCnt, at the bits of an int16_t
abbrev pub too_many_targets : ℕ → ℕ → Bool
too_many_targets target_cnt most = if ltb target_cnt 32768 then ltb most target_cnt else false

-- How often the loop over the targets runs, at the bits of an int16_t
abbrev pub target_rounds : ℕ → ℕ
target_rounds target_cnt = if ltb target_cnt 32768 then target_cnt else 0

-- What the comparison of the client's position with the server's comes to.
pub data Sync : Type 0 where
  accepted : ℕ → Sync
  refused : ℕ → Sync

module _ (pl : Platform) where
  open pl use {F, fsub, flt, fle, feq, of_int, to_int, of_bits}

  abbrev pub nonneg : ℤ → ℕ
  nonneg (pos n) = n
  nonneg (negsuc n) = 0

  -- The test of the distance, with the new mSyncCnt (a uint64_t).
  unfoldable pub check_sync : F → ℕ → Sync
  check_sync d sync_cnt =
      let far = (sync_cnt + nonneg (to_int (fsub d (of_int sink_able)))) % 2 ^ 64 in
      if flt (of_int sink_able) d
      then (if ltb sink_maxcount far then refused far else accepted far)
      else accepted (if ltb 10 sync_cnt then sync_cnt - 10 else sync_cnt)

  -- `++mDisconnect_Sync` and the disconnect of the session.
  abbrev pub cut_for_sync : Field pl → ℕ → Field pl
  cut_for_sync f session = record (disconnect pl f session) {
    disconnect_sync = f.disconnect_sync + 1;
  }

  -- Behind the test of the distance in handleMoveStart.
  unfoldable pub apply_move_start :
      Field pl → Player F → Position F → ℕ → F → Sync → Result (Field pl)
  apply_move_start f p at direction speed (refused n) = err debug_break
  apply_move_start f p at direction speed (accepted n) = do
    d ← direction_of direction
    p' ← change_state pl (record p { sync_cnt = n; position = at; direction = d }) move
    my_assert (feq p'.speed speed)
    near ← get_around_sectors f.cache p'.current_sector
    ok (broadcast_move_start pl p' near (set_player pl f p'))

  -- A MoveStart while the server still sees the attack.
  unfoldable pub late_attack : Field pl → Player F → Field pl
  late_attack f p =
      let n = (p.sync_cnt + (player_attack_total_frame - p.anim_frame)) % 2 ^ 64 in
      let f' = set_player pl f (record p { sync_cnt = n }) in
      if ltb sink_maxcount n then cut_for_sync f' p.seq_id else f'

  -- The switch on the player's state.
  unfoldable pub switch_move_start :
      Field pl → Player F → Position F → ℕ → F → PlayerState → Result (Field pl)
  switch_move_start f p at direction speed stun = ok f
  switch_move_start f p at direction speed dead = ok f
  switch_move_start f p at direction speed move = ok f
  switch_move_start f p at direction speed attack =
      if leb (p.anim_frame + allow_delay_frame) player_attack_total_frame
      then ok (late_attack f p)
      else apply_move_start f p at direction speed
          (check_sync (distance pl p.position at) p.sync_cnt)
  switch_move_start f p at direction speed idle =
      apply_move_start f p at direction speed (check_sync (distance pl p.position at) p.sync_cnt)

  unfoldable pub handle_move_start : Field pl → Message → ℕ → Result (Field pl)
  handle_move_start f msg seq_id = do
    (m1, character_id) ← shift_out msg 8
    (m2, x) ← shift_out m1 4
    (m3, y) ← shift_out m2 4
    (m4, direction) ← shift_out m3 1
    (m5, speed) ← shift_out m4 4
    p ← found (find (player_key pl) seq_id f.players)
    switch_move_start f p (record { x = of_bits x; y = of_bits y }) direction (of_bits speed)
        p.state

  -- The four asserts on the client's position in handleMoveStop.
  abbrev pub assert_in_world : Position F → Result (Unit {0})
  assert_in_world at =
      my_assert (fle (of_int 0) at.x)
      >> my_assert (fle (of_int 0) at.y)
      >> my_assert (fle at.x (of_int 6400))
      >> my_assert (fle at.y (of_int 4700))

  -- Behind the test of the distance in handleMoveStop.
  unfoldable pub apply_move_stop : Field pl → Player F → Position F → ℕ → Sync → Result (Field pl)
  apply_move_stop f p at direction (refused n) =
      ok (cut_for_sync (set_player pl f (record p { sync_cnt = n })) p.seq_id)
  apply_move_stop f p at direction (accepted n) = do
    d ← direction_of direction
    let moved : Player F = record p { sync_cnt = n; position = at; direction = d }
    p' ← if state_eq moved.state idle then ok moved else change_state pl moved idle
    near ← get_around_sectors f.cache p'.current_sector
    ok (broadcast_move_stop pl p' near (set_player pl f p'))

  unfoldable pub switch_move_stop :
      Field pl → Player F → Position F → ℕ → PlayerState → Result (Field pl)
  switch_move_stop f p at direction attack = ok f
  switch_move_stop f p at direction dead = ok f
  switch_move_stop f p at direction stun = ok f
  switch_move_stop f p at direction idle =
      assert_in_world at
      >> apply_move_stop f p at direction (check_sync (distance pl p.position at) p.sync_cnt)
  switch_move_stop f p at direction move =
      assert_in_world at
      >> apply_move_stop f p at direction (check_sync (distance pl p.position at) p.sync_cnt)

  unfoldable pub handle_move_stop : Field pl → Message → ℕ → Result (Field pl)
  handle_move_stop f msg seq_id = do
    (m1, character_id) ← shift_out msg 8
    (m2, x) ← shift_out m1 4
    (m3, y) ← shift_out m2 4
    (m4, direction) ← shift_out m3 1
    p ← found (find (player_key pl) seq_id f.players)
    switch_move_stop f p (record { x = of_bits x; y = of_bits y }) direction p.state

  -- Behind the switch in handleAttackReq; the state is Idle or Move here, so the `else` that sets
  -- mAnimFrame is not taken. The last step reads the targets, one int64_t each.
  unfoldable pub apply_attack : Field pl → Player F → ℕ → ℕ → Message → Result (Field pl)
  apply_attack f p skill_id target_cnt msg = do
    near ← get_around_sectors f.cache p.current_sector
    p' ←
        if state_eq p.state attack
        then ok (record p { anim_frame = 0 })
        else change_state pl p attack
    let f' : Field pl =
        broadcast_player_attack pl (record p' { pending_attack_skill_id = skill_id }) near f
    (m, targets) ← read_fields msg (replicate (target_rounds target_cnt) 8)
    ok (
        set_player pl f'
          (record p' { pending_attack_skill_id = skill_id; pending_attack_targets = targets }))

  unfoldable pub switch_attack :
      Field pl → Player F → ℕ → ℕ → Message → PlayerState → Result (Field pl)
  switch_attack f p skill_id target_cnt msg dead = ok f
  switch_attack f p skill_id target_cnt msg attack = ok f
  switch_attack f p skill_id target_cnt msg stun = ok f
  switch_attack f p skill_id target_cnt msg idle = apply_attack f p skill_id target_cnt msg
  switch_attack f p skill_id target_cnt msg move = apply_attack f p skill_id target_cnt msg

  -- The guard on the skill.
  abbrev pub bad_attack : ℕ → Option (ℕ × ℕ) → Bool
  bad_attack target_cnt none = true
  bad_attack target_cnt (some (range_len, most)) = too_many_targets target_cnt most

  unfoldable pub handle_attack_req : Field pl → Message → ℕ → Result (Field pl)
  handle_attack_req f msg seq_id = do
    (m1, skill_id) ← shift_out msg 1
    (m2, target_cnt) ← shift_out m1 2
    let go = found (find (player_key pl) seq_id f.players) >>= λ p.
        switch_attack f p skill_id target_cnt m2 p.state
    if bad_attack target_cnt (get_skill_config skill_id) then ok (disconnect pl f seq_id) else go

  -- `mInventory[id] += count`
  abbrev pub add_to_inventory : Player F → ℕ → ℕ → Player F
  add_to_inventory p item_id count = record p {
    inventory = λ i. if i == item_id then p.inventory i + count else p.inventory i;
  }

  -- Behind the tests of handleLootReq.
  unfoldable pub take_item : Field pl → Player F → Item F → Result (Field pl)
  take_item f p i = do
    let p' : Player F = add_to_inventory p i.item_id i.count
    near ← get_around_sectors f.cache i.sector
    let f' : Field pl =
        send_loot_res pl p' true i.item_id i.count
          (broadcast_item_despawn pl i near (set_player pl f p'))
    my_assert (elem i.item_unique_id (f'.item_sectors i.sector))
    ok (record f' {
      total_loot = f'.total_loot + 1;
      item_sectors =
          at_sector f'.item_sectors i.sector (erase i.item_unique_id (f'.item_sectors i.sector));
      items = remove_at (item_key pl) i.item_unique_id f'.items;
    })

  unfoldable pub loot : Field pl → Player F → Option (Item F) → Result (Field pl)
  loot f p none = ok (send_loot_res pl p false item_id_max 0 f)
  loot f p (some i) =
      if flt (of_int loot_range) (distance pl p.position i.position)
      then ok (send_loot_res pl p false item_id_max 0 f)
      else take_item f p i

  unfoldable pub handle_loot_req : Field pl → Message → ℕ → Result (Field pl)
  handle_loot_req f msg seq_id = do
    (m, item_unique_id) ← shift_out msg 8
    p ← found (find (player_key pl) seq_id f.players)
    loot f p (find (item_key pl) item_unique_id f.items)
