-- ===== src/Field/Tests.antt =====
-- A field with two players and an item on the machine of Actor/Naturals, and the theorems there.
use my_mmoproject.Base.{
  ℕ, ◌≡◌, ◌≢◌, refl, true, false, List, [], ◌∷◌, Option, none, some, ◌==◌, if◌then◌else◌, ◌+◌, ◌++◌,
}
use my_mmoproject.Base.Int.{pos}
use my_mmoproject.Fault.{ok}
use my_mmoproject.Bytes.{of_bytes}
use my_mmoproject.Sector.{Sector, get_around_sectors}
use my_mmoproject.Message.{Message, shift_out}
use my_mmoproject.Actor.{down, left, distance}
use my_mmoproject.Actor.Naturals.{naturals, here}
use my_mmoproject.Player.{Player, idle}
use my_mmoproject.Monster.{Monster, MonsterState}
use my_mmoproject.Field.Report.{proc_monster, heard, proc_monster_once}
use my_mmoproject.Packet.{loot_res, item_despawn}
use my_mmoproject.Field.{Field, Item, find, player_key, item_key, elem}
use my_mmoproject.Field.Handlers.{handle_loot_req, add_to_inventory}
use my_mmoproject.Field.Loot.{loot_taken}

abbrev pub corner : Sector
corner = record { x = 0; y = 0 }

abbrev pub make_player : ℕ → Player ℕ
make_player id = record {
  account_no = id;
  character_id = 10 + id;
  position = here;
  start_move_pos = here;
  seq_id = id;
  speed = 4;
  last_time = 0;
  anim_frame = 0;
  current_sector = corner;
  dest_sector = corner;
  direction = down;
  current_field_id = pos 0;
  next_field_id = pos 0;
  state = idle;
  character_type = 0;
  nickname = 65;
  connect = true;
  sync_cnt = 0;
  attack_power = 35;
  last_attack_time = 0;
  pending_attack_targets = [];
  pending_attack_skill_id = 0;
  hit_stun_frame = 0;
  hp = 100;
  max_hp = 100;
  inventory = λ i. 0;
  db_request_cnt = 0;
  send_msg_cnt = 0;
}

abbrev pub coin : Item ℕ
coin = record {
  item_unique_id = 9;
  item_id = 0;
  count = 5;
  position = here;
  sector = corner;
  life_frame = 3;
}

abbrev corner_cache : Sector → Option (List Sector)
corner_cache s = some (corner ∷ [])

abbrev pub meadow : Field naturals
meadow = record {
  players = make_player 1 ∷ make_player 2 ∷ [];
  sectors = λ s. if s.x == 0 then 1 ∷ 2 ∷ [] else [];
  monsters = [];
  monster_sectors = λ s. [];
  items = coin ∷ [];
  item_sectors = λ s. if s.x == 0 then 9 ∷ [] else [];
  cache = corner_cache;
  posts = [];
  disconnects = [];
  disconnect_sync = 0;
  total_loot = 0;
  seed = 0;
  item_unique_id = 20;
  db_requests = [];
  notifies = [];
}

-- A request for item `id`.
abbrev asked : ℕ → Message
asked id = record {
  written = id ∷ 0 ∷ 0 ∷ 0 ∷ 0 ∷ 0 ∷ 0 ∷ 0 ∷ [];
  front = 0;
  end = 6000;
  owner_id = 2;
  rand_key = 0;
  request_time = 0;
}

-- A MOVE_START to (130, 100), to the left, at speed 4.
abbrev step_left : Message
step_left = record (asked 9) {
  written =
      12 ∷ 0 ∷ 0 ∷ 0 ∷ 0 ∷ 0 ∷ 0 ∷ 0 ∷ 130 ∷ 0 ∷ 0 ∷ 0 ∷ 100 ∷ 0 ∷ 0 ∷ 0 ∷ 3 ∷ 4 ∷ 0 ∷ 0 ∷ 0 ∷ [];
}

read_nine : shift_out (asked 9) 8 ≡ ok (record (asked 9) { front = 8 }, 9)
unfolding shift_out of_bytes
read_nine = refl

in_reach : naturals.flt (naturals.of_int 50) (distance naturals here here) ≡ false
unfolding distance
in_reach = refl

around_corner : get_around_sectors corner_cache corner ≡ ok (corner ∷ [])
unfolding get_around_sectors
around_corner = refl

loot_taken_example :
    (f' : Field naturals) × (handle_loot_req naturals meadow (asked 9) 2 ≡ ok f')
    × (find (player_key naturals) 2 f'.players
        ≡ some (add_to_inventory naturals (make_player 2) 0 5))
    × (find (item_key naturals) 9 f'.items ≡ none)
    × (elem 9 (f'.item_sectors corner) ≡ false)
    × ((other : ℕ)
        → other ≢ 9
        → find (item_key naturals) other f'.items ≡ find (item_key naturals) other meadow.items)
    × (f'.posts ≡ (1, item_despawn 9) ∷ (2, item_despawn 9) ∷ (2, loot_res 0 0 5) ∷ [])
loot_taken_example =
    loot_taken naturals meadow (make_player 2) coin (corner ∷ []) (asked 9) read_nine refl refl
      in_reach around_corner refl

-- A wolf that has begun to chase.
abbrev pub grey_wolf : Monster ℕ
grey_wolf = record {
  monster_id = 7;
  position = here;
  spawn_pos = here;
  start_move_pos = here;
  sector = corner;
  dest_sector = corner;
  monster_type = 0;
  direction = down;
  before_direction = left;
  state = MonsterState.chase;
  before_state = MonsterState.idle;
  anim_frame = 3;
  speed = 2;
  hp = 60;
  max_hp = 100;
  hit_stun_frame = 0;
  target_player_id = pos 1;
  target_pos = here;
  knockback_dist = 100;
}

abbrev wolf_meadow : Field naturals
wolf_meadow = record meadow {
  monsters = grey_wolf ∷ [];
  monster_sectors = λ s. if s.x == 0 then 7 ∷ [] else [];
}

proc_monster_once_example :
    (f' : Field naturals) × (m' : Monster ℕ) × (proc_monster naturals wolf_meadow grey_wolf
      ≡ ok (f', m'))
    × (f'.posts
        ≡ wolf_meadow.posts
          ++ heard naturals wolf_meadow grey_wolf (corner ∷ []) (corner ∷ []) grey_wolf.state)
    × (proc_monster naturals f' m' ≡ ok (f', m'))
proc_monster_once_example =
    proc_monster_once naturals wolf_meadow grey_wolf (corner ∷ []) (corner ∷ []) around_corner
      around_corner refl refl
