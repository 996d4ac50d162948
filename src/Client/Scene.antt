-- ===== src/Client/Scene.antt =====
-- FieldScene::packetProc and the handlers under it (ClientProject/Scene/FieldScene.cpp). A chain
-- `msg >> a >> b` is one read of the fields' sizes, and `arg vs i` the i-th of the variables that it
-- fills; a GetData of the nickname's 20 bytes is the last field of its chain.
pub mod Chains
pub mod Reads
use my_mmoproject.Base.{
  ℕ, zero, suc, ◌+◌, ◌-◌, ◌^◌, Bool, true, false, List, [], ◌∷◌, ◌++◌, Option, none, some, leb,
  ◌==◌, if◌then◌else◌,
}
use my_mmoproject.Fault.{Result, ok, err, debug_break, out_of_range, ◌>>=◌, ◌>>◌, my_assert}
use my_mmoproject.Message.{Message, shift_out}
use my_mmoproject.Message.Fields.{read_fields}
use my_mmoproject.Field.{find, set_at, remove_at, found}
use my_mmoproject.Client.World.{
  ClientActor, World, actor_key, item_actor_key, set_actor, set_monster, spawn_character,
  spawn_monster_actor, spawn_item_actor, move_start_actor, move_stop_actor, attack_actor,
  damage_remote_player, damage_monster, damage_local_player,
}

abbrev pub arg : List ℕ → ℕ → ℕ
arg [] i = 0
arg (v ∷ vs) zero = v
arg (v ∷ vs) (suc i) = arg vs i

-- The sizes of the fields behind the packet type.
abbrev pub character_sizes : List ℕ
character_sizes = 8 ∷ 4 ∷ 4 ∷ 1 ∷ 1 ∷ 4 ∷ 4 ∷ 1 ∷ 20 ∷ []

abbrev pub monster_sizes : List ℕ
monster_sizes = 8 ∷ 4 ∷ 4 ∷ 1 ∷ 1 ∷ 4 ∷ 1 ∷ 4 ∷ []

abbrev pub item_sizes : List ℕ
item_sizes = 8 ∷ 1 ∷ 4 ∷ 4 ∷ []

-- What a handler does with the variables once they are read.
abbrev pub character_read : World → List ℕ → Result World
character_read w vs =
    spawn_character w (arg vs 0) (arg vs 1) (arg vs 2) (arg vs 3) (arg vs 4) (arg vs 5) (arg vs 6)
      (arg vs 7)

abbrev pub monster_read : World → List ℕ → Result World
monster_read w vs =
    spawn_monster_actor w (arg vs 0) (arg vs 1) (arg vs 2) (arg vs 3) (arg vs 4) (arg vs 5)
      (arg vs 6) (arg vs 7)

abbrev pub item_read : World → List ℕ → Result World
item_read w vs = spawn_item_actor w (arg vs 0) (arg vs 1) (arg vs 2) (arg vs 3)

-- onOtherCharacterSpawn, onMonsterSpawn and onItemSpawn
unfoldable pub on_spawn : List ℕ → (World → List ℕ → Result World) → World → Message → Result World
on_spawn sizes act w msg = do (msg', vs) ← read_fields msg sizes; act w vs

-- The loop of onOtherCharacterSpawnBatch, onMonsterSpawnBatch and onItemSpawnBatch, and of onRankingRes.
unfoldable pub read_loop :
    List ℕ → (World → List ℕ → Result World) → ℕ → World → Message → Result (World × Message)
read_loop sizes act zero w msg = ok (w, msg)
read_loop sizes act (suc cnt) w msg = do
  (msg', vs) ← read_fields msg sizes
  w' ← act w vs
  read_loop sizes act cnt w' msg'

-- The count is an int16_t, and with a negative one the loop does nothing.
abbrev pub loop_count : ℕ → ℕ
loop_count cnt = if leb 32768 cnt then 0 else cnt

unfoldable pub on_spawn_batch :
    List ℕ → (World → List ℕ → Result World) → World → Message → Result World
on_spawn_batch sizes act w msg = do
  (msg', cnt) ← shift_out msg 2
  (w', msg'') ← read_loop sizes act (loop_count cnt) w msg'
  ok w'

-- `*mActors.find(id)->second` of an unknown id reads past the end of the map.
abbrev pub dereferenced {ℓ} : {A : Type ℓ} → Option A → Result A
dereferenced none = err out_of_range
dereferenced (some a) = ok a

abbrev pub character_despawned : World → ℕ → World
character_despawned w id = record w { actors = remove_at actor_key id w.actors }

unfoldable pub on_character_despawn : World → Message → Result World
on_character_despawn w msg = do (msg', id) ← shift_out msg 8; ok (character_despawned w id)

abbrev pub character_move_started : World → ℕ → ℕ → ℕ → ℕ → ℕ → Result World
character_move_started w id x y direction speed = do
  a ← dereferenced (find actor_key id w.actors)
  a' ← move_start_actor a direction x y speed
  ok (set_actor w a')

unfoldable pub on_character_move_start : World → Message → Result World
on_character_move_start w msg = do
  (msg', vs) ← read_fields msg (8 ∷ 4 ∷ 4 ∷ 1 ∷ 4 ∷ [])
  character_move_started w (arg vs 0) (arg vs 1) (arg vs 2) (arg vs 3) (arg vs 4)

abbrev pub character_move_stopped : World → ℕ → ℕ → ℕ → ℕ → Result World
character_move_stopped w id x y direction =
    if id == w.local_player.character_id then err debug_break else (do
      a ← found (find actor_key id w.actors)
      ok (set_actor w (move_stop_actor a direction x y)))

unfoldable pub on_character_move_stop : World → Message → Result World
on_character_move_stop w msg = do
  (msg', vs) ← read_fields msg (8 ∷ 4 ∷ 4 ∷ 1 ∷ [])
  character_move_stopped w (arg vs 0) (arg vs 1) (arg vs 2) (arg vs 3)

abbrev pub character_attacked : World → ℕ → Result World
character_attacked w id = do
  a ← found (find actor_key id w.actors)
  ok (set_actor w (attack_actor a 0))

unfoldable pub on_other_character_attack : World → Message → Result World
on_other_character_attack w msg = do (msg', id) ← shift_out msg 8; character_attacked w id

abbrev pub monster_move_started : World → ℕ → ℕ → ℕ → ℕ → ℕ → Result World
monster_move_started w id x y direction speed = do
  a ← found (find actor_key id w.monsters)
  a' ← move_start_actor a direction x y speed
  ok (set_monster w a')

unfoldable pub on_monster_move_start : World → Message → Result World
on_monster_move_start w msg = do
  (msg', vs) ← read_fields msg (8 ∷ 4 ∷ 4 ∷ 1 ∷ 4 ∷ [])
  monster_move_started w (arg vs 0) (arg vs 1) (arg vs 2) (arg vs 3) (arg vs 4)

abbrev pub monster_move_stopped : World → ℕ → ℕ → ℕ → ℕ → Result World
monster_move_stopped w id x y direction = do
  a ← found (find actor_key id w.monsters)
  ok (set_monster w (move_stop_actor a direction x y))

unfoldable pub on_monster_move_stop : World → Message → Result World
on_monster_move_stop w msg = do
  (msg', vs) ← read_fields msg (8 ∷ 4 ∷ 4 ∷ 1 ∷ [])
  monster_move_stopped w (arg vs 0) (arg vs 1) (arg vs 2) (arg vs 3)

abbrev pub monster_damaged_to : World → ℕ → ℕ → ℕ → ℕ → ℕ → Result World
monster_damaged_to w id hp x y direction = do
  a ← found (find actor_key id w.monsters)
  ok (set_monster w (damage_monster a hp x y direction))

unfoldable pub on_monster_damaged : World → Message → Result World
on_monster_damaged w msg = do
  (msg', vs) ← read_fields msg (8 ∷ 4 ∷ 4 ∷ 4 ∷ 1 ∷ [])
  monster_damaged_to w (arg vs 0) (arg vs 1) (arg vs 2) (arg vs 3) (arg vs 4)

abbrev pub monster_attacked : World → ℕ → Result World
monster_attacked w id = do
  a ← found (find actor_key id w.monsters)
  ok (set_monster w (attack_actor a 0))

unfoldable pub on_monster_attack : World → Message → Result World
on_monster_attack w msg = do (msg', id) ← shift_out msg 8; monster_attacked w id

abbrev pub remote_damaged : World → Option ClientActor → ℕ → ℕ → ℕ → ℕ → World
remote_damaged w none hp x y direction = w
remote_damaged w (some a) hp x y direction = set_actor w (damage_remote_player a hp x y direction 0)

abbrev pub character_damaged_to : World → ℕ → ℕ → ℕ → ℕ → ℕ → Result World
character_damaged_to w id hp x y direction =
    if id == w.local_player.character_id
    then ok (record w { local_player = damage_local_player w.local_player hp x y direction })
    else ok (remote_damaged w (find actor_key id w.actors) hp x y direction)

unfoldable pub on_character_damaged : World → Message → Result World
on_character_damaged w msg = do
  (msg', vs) ← read_fields msg (8 ∷ 4 ∷ 4 ∷ 4 ∷ 1 ∷ 8 ∷ [])
  character_damaged_to w (arg vs 0) (arg vs 1) (arg vs 2) (arg vs 3) (arg vs 4)

abbrev pub monster_despawned : World → ℕ → World
monster_despawned w id = record w { monsters = remove_at actor_key id w.monsters }

unfoldable pub on_monster_despawn : World → Message → Result World
on_monster_despawn w msg = do (msg', id) ← shift_out msg 8; ok (monster_despawned w id)

abbrev pub item_despawned : World → ℕ → World
item_despawned w id = record w { items = remove_at item_actor_key id w.items }

unfoldable pub on_item_despawn : World → Message → Result World
on_item_despawn w msg = do (msg', id) ← shift_out msg 8; ok (item_despawned w id)

-- These two only print.
unfoldable pub on_loot_res : World → Message → Result World
on_loot_res w msg = do (msg', vs) ← read_fields msg (1 ∷ 1 ∷ 4 ∷ []); ok w

unfoldable pub on_ranking_res : World → Message → Result World
on_ranking_res w msg = do
  (msg', cnt) ← shift_out msg 2
  (w', msg'') ← read_loop (20 ∷ 8 ∷ []) (λ w'' vs. ok w'') (loop_count cnt) w msg'
  (msg''', vs) ← read_fields msg'' (8 ∷ 8 ∷ [])
  ok w'

-- The switch.
unfoldable pub switch_scene : World → Message → ℕ → Result World
switch_scene w msg type =
    if type == 103
    then on_spawn character_sizes character_read w msg
    else if type == 104
    then on_spawn_batch character_sizes character_read w msg
    else if type == 105
    then on_character_despawn w msg
    else if type == 106
    then on_character_move_start w msg
    else if type == 107
    then on_character_move_stop w msg
    else if type == 114
    then on_other_character_attack w msg
    else if type == 108
    then on_spawn monster_sizes monster_read w msg
    else if type == 109
    then on_spawn_batch monster_sizes monster_read w msg
    else if type == 110
    then on_monster_despawn w msg
    else if type == 111
    then on_monster_move_start w msg
    else if type == 112
    then on_monster_move_stop w msg
    else if type == 115
    then on_monster_damaged w msg
    else if type == 116
    then on_monster_attack w msg
    else if type == 117
    then on_character_damaged w msg
    else if type == 118
    then on_spawn item_sizes item_read w msg
    else if type == 119
    then on_spawn_batch item_sizes item_read w msg
    else if type == 120
    then on_item_despawn w msg
    else if type == 122
    then on_loot_res w msg
    else if type == 124
    then on_ranking_res w msg
    else err debug_break

unfoldable pub packet_proc : World → Message → Result World
packet_proc w msg = do (msg', type) ← shift_out msg 2; switch_scene w msg' type
