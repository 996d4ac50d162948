-- ===== src/Field/Update/Passes.antt =====
-- The five passes of fieldUpdate.
pub mod Held
pub mod Placed
use my_mmoproject.Base.{
  ℕ, zero, suc, Bool, true, false, ◌&&◌, ◌||◌, not, List, [], ◌∷◌, Option, none, some, ◌==◌,
  if◌then◌else◌, map,
}
use my_mmoproject.Fault.{Result, ok, err, ◌>>=◌, ◌>>◌, my_assert}
use my_mmoproject.Sector.{Sector, sector_eq, get_around_sectors, calc_despawn_and_spawn_sector}
use my_mmoproject.Actor.{
  Platform, Position, player_attack_awindup_frame, monster_attack_windup_frame,
}
use my_mmoproject.Monster.{Monster}
use my_mmoproject.Player.{Player}
use my_mmoproject.Monster
use my_mmoproject.Player
use my_mmoproject.Field.{
  Field, Item, Sectors, find, found, set_at, set_player, player_key, item_key, elem, erase,
  at_sector, remove_at, update_item, is_expired, update_sector_check, update_monster_sector_check,
}
use my_mmoproject.Field.Broadcast.{
  broadcast_spawn, broadcast_despawn, broadcast_monster_spawn, broadcast_monster_despawn,
  broadcast_item_despawn,
}
use my_mmoproject.Field.Report.{monster_key}
use my_mmoproject.Field.Update.Visibility.{
  tell_spawn_batch, tell_monster_spawn_batch, tell_item_spawn_batch, send_despawn_batch,
  send_monster_despawn_batch, send_item_despawn_batch,
}
use my_mmoproject.Field.Update.Hits.{
  set_monster, process_player_attack_hit, process_monster_attack_hit, possible_chase_player,
}

-- An id leaves a sector for another.
abbrev pub relocate : ℕ → Sector → Sector → Sectors → Sectors
relocate id from to m =
    let left = at_sector m from (erase id (m from)) in at_sector left to (id ∷ left to)

module _ (pl : Platform) where
  open pl use {F}

  -- A loop over the ids that a container has at its start.
  unfoldable pub each : (ℕ → Field pl → Result (Field pl)) → List ℕ → Field pl → Result (Field pl)
  each step [] f = ok f
  each step (id ∷ ids) f = step id f >>= each step ids

  abbrev pub player_ids : Field pl → List ℕ
  player_ids f = map (player_key pl) f.players

  abbrev pub monster_ids : Field pl → List ℕ
  monster_ids f = map (monster_key pl) f.monsters

  -- The hit lands on one frame of the attack.
  abbrev pub player_hits : Player F → Bool
  player_hits p =
      Player.state_eq p.state Player.attack && p.anim_frame == player_attack_awindup_frame

  unfoldable pub tick_player : ℕ → Field pl → Result (Field pl)
  tick_player id f = do
    p ← found (find (player_key pl) id f.players)
    p' ← Player.update pl p
    let f' : Field pl = set_player pl f p'
    f'' ← if player_hits p' then process_player_attack_hit pl p' f' else ok f'
    p'' ← found (find (player_key pl) id f''.players)
    ok (set_player pl f'' (update_sector_check pl p''))

  -- What the player and those around him are told of his change of sector.
  unfoldable pub tell_move : Player F → List Sector → List Sector → Field pl → Field pl
  tell_move p spawn despawn f =
      let f1 = tell_spawn_batch pl p spawn (broadcast_spawn pl p spawn f) in
      let f2 = tell_item_spawn_batch pl p spawn (tell_monster_spawn_batch pl p spawn f1) in
      let f3 = send_despawn_batch pl p despawn (broadcast_despawn pl p despawn f2) in
      send_item_despawn_batch pl p despawn (send_monster_despawn_batch pl p despawn f3)

  -- A player whose sector has changed.
  unfoldable pub change_sector : Player F → Field pl → Result (Field pl)
  change_sector p f = do
    my_assert (elem p.seq_id (f.sectors p.current_sector))
    (spawn, despawn) ← calc_despawn_and_spawn_sector f.cache p.current_sector p.dest_sector
    let f' : Field pl = tell_move p spawn despawn f
    ok (record (set_player pl f' (record p { current_sector = p.dest_sector })) {
      sectors = relocate p.seq_id p.current_sector p.dest_sector f'.sectors;
    })

  unfoldable pub move_player : ℕ → Field pl → Result (Field pl)
  move_player id f = do
    p ← found (find (player_key pl) id f.players)
    if sector_eq p.current_sector p.dest_sector then ok f else change_sector p f

  -- `bChase`: the target's position is taken over, or the chase ends.
  unfoldable pub follow : Monster F → Option (Position F) → Result (Monster F)
  follow m none = Monster.give_up_chase pl m
  follow m (some p) = ok (record m { target_pos = p })

  abbrev pub monster_hits : Monster F → Bool
  monster_hits m =
      Monster.state_eq m.state Monster.attack && m.anim_frame == monster_attack_windup_frame

  unfoldable pub tick_monster : ℕ → Field pl → Result (Field pl)
  tick_monster id f = do
    m ← found (find (monster_key pl) id f.monsters)
    let seen : Monster F = record m { before_state = m.state; before_direction = m.direction }
    m' ←
        if Monster.state_eq seen.state Monster.chase
        then follow seen (possible_chase_player pl f seen.target_player_id)
        else ok seen
    (m'', g) ← Monster.update pl m' f.seed
    let f' : Field pl = set_monster pl (record f { seed = g }) m''
    f'' ← if monster_hits m'' then process_monster_attack_hit pl m'' f' else ok f'
    hit ← found (find (monster_key pl) id f''.monsters)
    ok (set_monster pl f'' (update_monster_sector_check pl hit))

  -- A monster whose sector has changed, unless it was dead before this frame.
  unfoldable pub change_monster_sector : Monster F → Field pl → Result (Field pl)
  change_monster_sector m f = do
    my_assert (elem m.monster_id (f.monster_sectors m.sector))
    (spawn, despawn) ← calc_despawn_and_spawn_sector f.cache m.sector m.dest_sector
    let f' : Field pl =
        broadcast_monster_despawn pl m despawn (broadcast_monster_spawn pl m spawn f)
    ok (record (set_monster pl f' (record m { sector = m.dest_sector })) {
      monster_sectors = relocate m.monster_id m.sector m.dest_sector f'.monster_sectors;
    })

  unfoldable pub move_monster : ℕ → Field pl → Result (Field pl)
  move_monster id f = do
    m ← found (find (monster_key pl) id f.monsters)
    let stays = Monster.state_eq m.before_state Monster.dead || sector_eq m.sector m.dest_sector
    if stays then ok f else change_monster_sector m f

  unfoldable pub age_item : Item F → Field pl → Result (Field pl)
  age_item i f = do
    let i' : Item F = update_item i
    let gone : Result (Field pl) = get_around_sectors f.cache i'.sector >>= λ near.
        let f' : Field pl = broadcast_item_despawn pl i' near f in
        ok (record f' {
          items = remove_at (item_key pl) i'.item_unique_id f'.items;
          item_sectors =
              at_sector f'.item_sectors i'.sector
                (erase i'.item_unique_id (f'.item_sectors i'.sector));
        })
    let kept : Field pl = record f { items = set_at (item_key pl) i'.item_unique_id i' f.items }
    if is_expired i' then gone else ok kept

  -- The loop over the items that there are when it begins.
  unfoldable pub age_items : List (Item F) → Field pl → Result (Field pl)
  age_items [] f = ok f
  age_items (i ∷ is) f = age_item i f >>= age_items is

  unfoldable pub field_update : Field pl → Result (Field pl)
  field_update f = do
    f1 ← each tick_player (player_ids f) f
    f2 ← each move_player (player_ids f1) f1
    f3 ← each tick_monster (monster_ids f2) f2
    f4 ← each move_monster (monster_ids f3) f3
    age_items f4.items f4
