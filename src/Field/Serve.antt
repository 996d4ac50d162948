-- ===== src/Field/Serve.antt =====
-- What a field's thread does with its clients' messages (fieldContentsPacketProc, handleRankingReq and
-- playerProc of FieldServer/FieldServer.cpp), and the monsters that it starts with (spawnMonsters).
use my_mmoproject.Base.{
  ℕ, zero, suc, ◌+◌, ◌-◌, ◌*◌, ◌%◌, Bool, false, not, List, [], ◌∷◌, ◌==◌, if◌then◌else◌,
}
use my_mmoproject.Base.Int.{ℤ}
use my_mmoproject.Fault.{Result, ok, ◌>>=◌}
use my_mmoproject.Message.{Message, shift_out}
use my_mmoproject.Sector.{sector_col_cnt, sector_row_cnt}
use my_mmoproject.Actor.{Platform, Position, calc_sector}
use my_mmoproject.Monster.{Monster}
use my_mmoproject.Player.{Player}
use my_mmoproject.Monster
use my_mmoproject.Field.{Field, find, found, set_player, player_key, disconnect, at_sector}
use my_mmoproject.Field.Handlers.{
  handle_move_start, handle_move_stop, handle_attack_req, handle_loot_req,
}
use my_mmoproject.Field.Leave.{int_eq}
use my_mmoproject.Field.Update.Drops.{request_ranking_query}

module _ (pl : Platform) where
  open pl use {F, of_int, rand}

  unfoldable pub handle_ranking_req : Field pl → ℕ → Result (Field pl)
  handle_ranking_req f seq_id = do
    p ← found (find (player_key pl) seq_id f.players)
    request_ranking_query pl p f

  -- The switch on the type: MOVE_START is 106, MOVE_STOP 107, PLAYER_ATTACK_REQ 113, LOOT_REQ 121 and
  -- RANKING_REQ 123.
  unfoldable pub switch_contents : Field pl → Message → ℕ → ℕ → Result (Field pl)
  switch_contents f msg seq_id type =
      if type == 106
      then handle_move_start pl f msg seq_id
      else if type == 107
      then handle_move_stop pl f msg seq_id
      else if type == 113
      then handle_attack_req pl f msg seq_id
      else if type == 121
      then handle_loot_req pl f msg seq_id
      else if type == 123
      then handle_ranking_req f seq_id
      else ok (disconnect pl f seq_id)

  unfoldable pub field_contents_packet_proc : Field pl → Message → Result (Field pl)
  field_contents_packet_proc f msg = do
    (m, type) ← shift_out msg 2
    switch_contents f m msg.owner_id type

  -- The inner loop of playerProc: the messages that wait in the player's ring, and what is left of them.
  unfoldable pub serve_player :
      ℤ → ℕ → ℕ → List Message → Field pl → Result (Field pl × List Message)
  serve_player field start_time id [] f = ok (f, [])
  serve_player field start_time id (msg ∷ msgs) f = do
    p ← found (find (player_key pl) id f.players)
    let served : Result (Field pl × List Message) = field_contents_packet_proc f msg >>= λ f'.
        found (find (player_key pl) id f'.players) >>= λ p'.
        let f'' : Field pl =
          set_player pl f'
            (record p' { send_msg_cnt = p'.send_msg_cnt - 1; last_time = start_time }) in
        let rest = serve_player field start_time id msgs f'' in
        if not (int_eq p'.next_field_id field) then ok (f'', msgs) else rest
    if not p.connect then ok (f, msg ∷ msgs) else served

  -- `mBConnect = false` once the server has been stopped.
  unfoldable pub cut_if_stopped : Bool → Player F → Player F
  cut_if_stopped on p = if on then p else record p { connect = false }

  -- playerProc over the players, with the messages of each one's ring.
  unfoldable pub player_proc :
      Bool
      → ℤ
      → ℕ
      → List (ℕ × List Message)
      → Field pl
      → Result (Field pl × List (ℕ × List Message))
  player_proc on field start_time [] f = ok (f, [])
  player_proc on field start_time ((id, msgs) ∷ rest) f = do
    (f', left) ← serve_player field start_time id msgs f
    p ← found (find (player_key pl) id f'.players)
    (f'', queues) ← player_proc on field start_time rest (set_player pl f' (cut_if_stopped on p))
    ok (f'', (id, left) ∷ queues)

  -- A new monster in the sector at `row` and `col`.
  unfoldable pub spawn_monster : ℕ → ℕ → ℕ → Field pl → Field pl
  spawn_monster row col id f =
      let dx = rand f.seed in
      let dy = rand dx.1 in
      let at : Position F = record {
        x = of_int (col * 320 + dx.0 % 320);
        y = of_int (row * 235 + dy.0 % 235);
      } in
      let s = calc_sector pl at in
      let m : Monster F = record (Monster.create pl id at 0) { sector = s; dest_sector = s } in
      record f {
        seed = dy.1;
        monsters = m ∷ f.monsters;
        monster_sectors = at_sector f.monster_sectors s (id ∷ f.monster_sectors s);
      }

  -- The loop over the columns, `n` of them left, with the next id.
  unfoldable pub spawn_cols : ℕ → ℕ → ℕ → ℕ → Field pl → ℕ × Field pl
  spawn_cols zero col row id f = (id, f)
  spawn_cols (suc n) col row id f =
      let draw = rand f.seed in
      let f' : Field pl = record f { seed = draw.1 } in
      let none_here = spawn_cols n (col + 1) row id f' in
      let one_here = spawn_cols n (col + 1) row (id + 1) (spawn_monster row col id f') in
      if draw.0 % 2 == 0 then none_here else one_here

  unfoldable pub spawn_rows : ℕ → ℕ → ℕ → Field pl → Field pl
  spawn_rows zero row id f = f
  spawn_rows (suc n) row id f =
      let (id', f') = spawn_cols sector_col_cnt 0 row id f in spawn_rows n (row + 1) id' f'

  -- spawnMonsters on a field whose seed is that of srand(5).
  unfoldable pub spawn_monsters : Field pl → Field pl
  spawn_monsters f = spawn_rows sector_row_cnt 0 0 f
