-- ===== src/Client/World.antt =====
-- What the client keeps of a field (ClientProject/Scene/FieldScene.cpp), its actors (Actors/Actor.cpp,
-- RemotePlayer.cpp, Monster.cpp, Player.cpp and FieldItemActor.cpp), and how packetProc changes it. A float
-- is its bit pattern, a direction its byte. Of an animation the state that is shown and the ticks that it
-- starts from are kept; textures, drawing and console output are not.
use my_mmoproject.Base.{
  ℕ, ◌+◌, ◌-◌, ◌^◌, Bool, true, false, not, ◌||◌, List, ◌∷◌, Option, none, some, leb, ◌==◌,
  if◌then◌else◌,
}
use my_mmoproject.Fault.{Result, ok, ◌>>=◌, ◌>>◌, my_assert}
use my_mmoproject.Actor.{player_hit_stun_frame, monster_hit_stun_frame, player_max_hp}
use my_mmoproject.Field.{find, set_at}

-- eActorState
pub data ActorState : Type 0 where
  idle move attack stun down guard : ActorState

-- The fields of Actor and of RemotePlayer, Monster or Player that packets set.
pub record ClientActor : Type 0 where
  pub character_id : ℕ
  pub kind : ℕ
  pub x : ℕ
  pub y : ℕ
  pub start_x : ℕ
  pub start_y : ℕ
  pub direction : ℕ
  pub b_move : Bool
  pub speed : ℕ
  pub move_frame : ℕ
  pub state : ActorState
  pub hp : ℕ
  pub hit_timer : ℕ
  pub shown : ActorState
  pub shown_from : ℕ

pub record ItemActor : Type 0 where
  pub item_unique_id : ℕ
  pub item_id : ℕ
  pub x : ℕ
  pub y : ℕ

-- mActors, mMonsterActors, mItemActors and mLocalPlayer
pub record World : Type 0 where
  pub actors : List ClientActor
  pub monsters : List ClientActor
  pub items : List ItemActor
  pub local_player : ClientActor

abbrev pub actor_key : ClientActor → ℕ
actor_key a = a.character_id

abbrev pub item_actor_key : ItemActor → ℕ
item_actor_key i = i.item_unique_id

-- The bits of 2.0f and 3.0f
abbrev pub two_f : ℕ
two_f = 0x40000000

abbrev pub three_f : ℕ
three_f = 0x40400000

-- An int32_t that is not above 0, by its bits.
abbrev pub is_gone : ℕ → Bool
is_gone hp = (hp == 0) || leb (2 ^ 31) hp

-- changeAnimation
abbrev pub change_animation : ClientActor → ActorState → ℕ → ClientActor
change_animation a s ticks = record a { shown = s; shown_from = ticks }

-- The constructor of RemotePlayer.
unfoldable pub new_remote_player : ℕ → ℕ → ℕ → ℕ → ℕ → ClientActor
new_remote_player id x y kind direction = record {
  character_id = id;
  kind = kind;
  x = x;
  y = y;
  start_x = 0;
  start_y = 0;
  direction = direction;
  b_move = false;
  speed = two_f;
  move_frame = 0;
  state = idle;
  hp = player_max_hp;
  hit_timer = 0;
  shown = idle;
  shown_from = 0;
}

-- The constructor of Monster.
unfoldable pub new_monster : ℕ → ℕ → ℕ → ℕ → ℕ → ℕ → ℕ → ClientActor
new_monster id x y kind direction hp anim_frame = record {
  character_id = id;
  kind = kind;
  x = x;
  y = y;
  start_x = 0;
  start_y = 0;
  direction = direction;
  b_move = false;
  speed = three_f;
  move_frame = 0;
  state = idle;
  hp = hp;
  hit_timer = 0;
  shown = if is_gone hp then down else idle;
  shown_from = anim_frame;
}

-- Actor::MoveStart
unfoldable pub move_start_actor : ClientActor → ℕ → ℕ → ℕ → ℕ → Result ClientActor
move_start_actor a direction x y speed =
    my_assert (not a.b_move)
    >> ok (
        change_animation
          (record a {
            state = move;
            start_x = x;
            start_y = y;
            direction = direction;
            b_move = true;
            speed = speed;
            move_frame = 0;
          })
          move 0)

-- Actor::MoveStop
unfoldable pub move_stop_actor : ClientActor → ℕ → ℕ → ℕ → ClientActor
move_stop_actor a direction x y =
    change_animation
      (record a {
        state = idle;
        start_x = x;
        start_y = y;
        x = x;
        y = y;
        direction = direction;
        b_move = false;
        move_frame = 0;
      })
      idle 0

-- Actor::Attack
unfoldable pub attack_actor : ClientActor → ℕ → ClientActor
attack_actor a ticks = change_animation (record a { state = attack }) attack ticks

-- What the three OnDamaged set alike.
abbrev pub hurt : ClientActor → ℕ → ℕ → ℕ → ℕ → ClientActor
hurt a hp x y direction = record a {
  hp = hp;
  x = x;
  y = y;
  start_x = x;
  start_y = y;
  move_frame = 0;
  direction = direction;
  b_move = false;
}

-- std::max(0, PLAYER_HIT_STUN_FRAME - ticks) at the bits of an int32_t
abbrev pub stun_left : ℕ → ℕ
stun_left ticks =
    if leb (2 ^ 31) ticks
    then player_hit_stun_frame + (2 ^ 32 - ticks)
    else player_hit_stun_frame - ticks

-- RemotePlayer::OnDamaged
unfoldable pub damage_remote_player : ClientActor → ℕ → ℕ → ℕ → ℕ → ℕ → ClientActor
damage_remote_player a hp x y direction ticks =
    if is_gone hp
    then change_animation (record (hurt a hp x y direction) { hit_timer = 0 }) down ticks
    else change_animation (record (hurt a hp x y direction) { hit_timer = stun_left ticks }) stun
        ticks

-- Monster::OnDamaged
unfoldable pub damage_monster : ClientActor → ℕ → ℕ → ℕ → ℕ → ClientActor
damage_monster a hp x y direction =
    if is_gone hp
    then change_animation (record (hurt a hp x y direction) { hit_timer = 0 }) down 0
    else change_animation (record (hurt a hp x y direction) { hit_timer = monster_hit_stun_frame })
        stun 0

-- Player::OnDamaged, which changes the state, too.
unfoldable pub damage_local_player : ClientActor → ℕ → ℕ → ℕ → ℕ → ClientActor
damage_local_player a hp x y direction =
    if is_gone hp
    then change_animation (record (hurt a hp x y direction) { hit_timer = 0; state = down }) down 0
    else change_animation
        (record (hurt a hp x y direction) { hit_timer = player_hit_stun_frame; state = stun }) stun
        0

-- RT_ASSERT(map.find(id) == map.end())
abbrev pub is_absent {ℓ} : {A : Type ℓ} → Option A → Bool
is_absent none = true
is_absent (some a) = false

abbrev pub set_actor : World → ClientActor → World
set_actor w a = record w { actors = set_at actor_key a.character_id a w.actors }

abbrev pub set_monster : World → ClientActor → World
set_monster w a = record w { monsters = set_at actor_key a.character_id a w.monsters }

-- The state that a spawned player is put into; ePlayerState has 1 for Move, 2 for Attack, 3 for Dead and 4
-- for Stun.
unfoldable pub pose_player : ClientActor → ℕ → ℕ → ℕ → ℕ → ℕ → ℕ → Result ClientActor
pose_player a state x y direction speed anim_frame =
    if state == 1
    then move_start_actor a direction x y speed
    else if state == 2
    then ok (attack_actor a anim_frame)
    else if state == 3
    then ok (damage_remote_player a 0 x y direction anim_frame)
    else if state == 4
    then ok (damage_remote_player a 1 x y direction anim_frame)
    else ok a

unfoldable pub spawn_character : World → ℕ → ℕ → ℕ → ℕ → ℕ → ℕ → ℕ → ℕ → Result World
spawn_character w id x y state direction speed anim_frame kind =
    my_assert (is_absent (find actor_key id w.actors))
    >> (pose_player (new_remote_player id x y kind direction) state x y direction speed anim_frame
        >>= λ a. ok (record w { actors = a ∷ w.actors }))

-- eMonsterState has 1 for Move, 2 for Chase, 3 for Attack, 4 for Stun, 5 for Dead and 6 for Return.
unfoldable pub pose_monster : ClientActor → ℕ → ℕ → ℕ → ℕ → ℕ → ℕ → Result ClientActor
pose_monster a state x y direction hp anim_frame =
    if (state == 1) || (state == 2) || (state == 6)
    then move_start_actor a direction x y a.speed
    else if state == 4
    then ok (damage_monster a hp x y direction)
    else if state == 3
    then ok (attack_actor a anim_frame)
    else ok a

unfoldable pub spawn_monster_actor : World → ℕ → ℕ → ℕ → ℕ → ℕ → ℕ → ℕ → ℕ → Result World
spawn_monster_actor w id x y state direction hp kind anim_frame =
    my_assert (is_absent (find actor_key id w.monsters))
    >> (pose_monster (new_monster id x y kind direction hp anim_frame) state x y direction hp
          anim_frame
        >>= λ a. ok (record w { monsters = a ∷ w.monsters }))

unfoldable pub spawn_item_actor : World → ℕ → ℕ → ℕ → ℕ → Result World
spawn_item_actor w id item_id x y =
    my_assert (is_absent (find item_actor_key id w.items))
    >> ok (record w {
      items = record { item_unique_id = id; item_id = item_id; x = x; y = y } ∷ w.items;
    })
