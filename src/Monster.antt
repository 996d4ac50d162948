-- ===== src/Monster.antt =====
-- contents::Monster (FieldServer/Contents/Monster.cpp and Monster.h): the state machine that every
-- monster runs once per tick, and what a hit does to it. A method returns the new monster; one that
-- may fail in MyAssert returns a Result, and one that draws from `rand()` the new generator state.
-- Hit points and damage are not negative, so `std::max(mHp - damage, 0)` is subtraction on ℕ;
-- `mAnimFrame` counts ticks of 20 ms and is taken not to overflow.
pub mod Transitions
pub mod Health
pub mod Timing
mod Tests
use my_mmoproject.Base.{
  ℕ, ◌+◌, ◌-◌, ◌%◌, Bool, true, false, ◌&&◌, ltb, leb, ◌==◌, if◌then◌else◌, not,
}
use my_mmoproject.Base.Int.{ℤ, pos, negsuc}
use my_mmoproject.Fault.{Result, ok, err, ◌>>=◌, ◌>>◌, my_assert}
use my_mmoproject.Sector.{Sector}
use my_mmoproject.Actor.{
  Platform, Position, Direction, down, down_left, down_right, left, right, up, up_left, up_right,
  direction_code, direction_at, distance, clamp_position, mx, my, num, get_direction_to,
  monster_hit_stun_frame, monster_attack_total_frame,
}

-- eMonsterState
pub data MonsterState : Type 0 where
  idle move chase attack stun dead return : MonsterState

-- static_cast<int8_t>(state)
abbrev pub state_code : MonsterState → ℕ
state_code idle = 0
state_code move = 1
state_code chase = 2
state_code attack = 3
state_code stun = 4
state_code dead = 5
state_code return = 6

abbrev pub state_eq : MonsterState → MonsterState → Bool
state_eq a b = state_code a == state_code b

abbrev pub direction_eq : Direction → Direction → Bool
direction_eq a b = direction_code a == direction_code b

pub record Monster (F : Type 0) : Type 0 where
  pub monster_id : ℕ
  pub position : Position F
  pub spawn_pos : Position F
  pub start_move_pos : Position F
  pub sector : Sector
  pub dest_sector : Sector
  pub monster_type : ℕ
  pub direction : Direction
  pub before_direction : Direction
  pub state : MonsterState
  pub before_state : MonsterState
  pub anim_frame : ℕ
  pub speed : F
  pub hp : ℕ
  pub max_hp : ℕ
  pub hit_stun_frame : ℕ
  pub target_player_id : ℤ
  pub target_pos : Position F
  pub knockback_dist : F

-- MONSTER_MAX_HP and MONSTER_RESPAWN_FRAME
abbrev pub monster_max_hp : ℕ
monster_max_hp = 100

abbrev pub monster_respawn_frame : ℕ
monster_respawn_frame = 500

module _ (pl : Platform) where
  open pl use {F, fadd, fmul, flt, fle, feq, literal, of_int, Seed, rand}

  -- The constructor.
  unfoldable pub create : ℕ → Position F → ℕ → Monster F
  create monster_id p monster_type = record {
    monster_id = monster_id;
    position = p;
    spawn_pos = p;
    start_move_pos = p;
    sector = record { x = 0; y = 0 };
    dest_sector = record { x = 0; y = 0 };
    monster_type = monster_type;
    direction = down;
    before_direction = down;
    state = idle;
    before_state = idle;
    anim_frame = 0;
    speed = num pl 3;
    hp = monster_max_hp;
    max_hp = monster_max_hp;
    hit_stun_frame = 0;
    target_player_id = negsuc 0;
    target_pos = p;
    knockback_dist = num pl 30;
  }

  unfoldable pub reset_anim_start : Monster F → Monster F
  reset_anim_start m = record m { anim_frame = 0; start_move_pos = m.position }

  unfoldable pub change_state : Monster F → MonsterState → Result (Monster F)
  unfolding reset_anim_start
  change_state m s = do
    my_assert (not (state_eq s m.state))
    ok (reset_anim_start (record m { state = s }))

  unfoldable pub change_direction : Monster F → Direction → Monster F
  change_direction m d = record m { direction = d; anim_frame = 0; start_move_pos = m.position }

  -- mStartMovePos + (dx, dy) * mSpeed * mAnimFrame, clamped to the world.
  unfoldable pub move_update : Monster F → Monster F
  move_update m = record m {
    position =
        clamp_position pl
          (fadd m.start_move_pos.x (fmul (fmul (mx pl m.direction) m.speed) (of_int m.anim_frame)))
          (fadd m.start_move_pos.y (fmul (fmul (my pl m.direction) m.speed) (of_int m.anim_frame)));
  }

  -- PATROL_RADIUS < (mPos - mSpawnPos)
  abbrev pub is_far : Monster F → Bool
  is_far m = flt (num pl 150) (distance pl m.position m.spawn_pos)

  -- The direction back to the spawn position.
  unfoldable pub direction_home : Monster F → Direction
  direction_home m =
      let left_dir = flt m.spawn_pos.x m.position.x in
      let up_dir = flt m.spawn_pos.y m.position.y in
      if feq m.spawn_pos.x m.position.x
      then (if up_dir then up else down)
      else if feq m.spawn_pos.y m.position.y
      then (if left_dir then left else right)
      else if left_dir
      then (if up_dir then up_left else down_left)
      else if up_dir
      then up_right
      else down_right

  unfoldable pub idle_update : Monster F → Seed → Result (Monster F × Seed)
  unfolding change_state direction_home
  idle_update m g =
      let (draw, g') = rand g in
      let (draw', g'') = rand g' in
      if is_far m
      then (do m' ← change_state (record m { direction = direction_home m }) move; ok (m', g))
      else if draw % 100 == 0 && leb 10 m.anim_frame
      then (do
        m' ← change_state (record m { direction = direction_at (draw' % 8) }) move
        ok (m', g''))
      else ok (m, g')

  unfoldable pub patrol_update : Monster F → Seed → Result (Monster F × Seed)
  unfolding change_state move_update
  patrol_update m g =
      let (draw, g') = rand g in
      if fle (num pl 150) (distance pl m.position m.spawn_pos)
      then (do m' ← change_state m return; ok (m', g))
      else if draw % 100 == 0 && leb 10 m.anim_frame
      then (do m' ← change_state m idle; ok (m', g'))
      else ok (move_update m, g')

  unfoldable pub give_up_chase : Monster F → Result (Monster F)
  unfolding change_state
  give_up_chase m = if is_far m then change_state m return else change_state m idle

  unfoldable pub chase_update : Monster F → Result (Monster F)
  unfolding give_up_chase change_direction change_state move_update
  chase_update m =
      let new_direction = get_direction_to pl m.position m.target_pos in
      if flt (num pl 2400) (distance pl m.position m.spawn_pos)
      then give_up_chase m
      else if fle (distance pl m.position m.target_pos) (num pl 50)
      then change_state (change_direction m new_direction) attack
      else ok (
          move_update (
            if not (direction_eq new_direction m.direction) && leb 10 m.anim_frame
            then change_direction m new_direction
            else m))

  unfoldable pub attack_update : Monster F → Result (Monster F)
  unfolding change_state
  attack_update m =
      if leb monster_attack_total_frame m.anim_frame then change_state m chase else ok m

  unfoldable pub stun_update : Monster F → Result (Monster F)
  unfolding change_state
  stun_update m =
      if ltb 0 m.hit_stun_frame
      then ok (record m { hit_stun_frame = m.hit_stun_frame - 1 })
      else change_state m chase

  unfoldable pub dead_update : Monster F → Result (Monster F)
  unfolding change_state
  dead_update m =
      if leb monster_respawn_frame m.anim_frame
      then (do
        m' ← change_state m idle
        ok (record m' { start_move_pos = m'.spawn_pos; position = m'.spawn_pos; hp = m'.max_hp }))
      else ok m

  unfoldable pub return_update : Monster F → Result (Monster F)
  unfolding change_state change_direction move_update
  return_update m = do
    m' ←
        (if fle (distance pl m.position m.spawn_pos) (num pl 10)
          then change_state m idle
          else if leb 15 m.anim_frame
          then ok (change_direction m (get_direction_to pl m.position m.spawn_pos))
          else ok m)
    ok (move_update m')

  -- No draw is made.
  abbrev pub keep_seed : Seed → Result (Monster F) → Result (Monster F × Seed)
  keep_seed g (ok m) = ok (m, g)
  keep_seed g (err e) = err e

  -- The switch of Update.
  unfoldable pub dispatch : MonsterState → Monster F → Seed → Result (Monster F × Seed)
  dispatch idle m g = idle_update m g
  dispatch move m g = patrol_update m g
  dispatch chase m g = keep_seed g (chase_update m)
  dispatch attack m g = keep_seed g (attack_update m)
  dispatch stun m g = keep_seed g (stun_update m)
  dispatch dead m g = keep_seed g (dead_update m)
  dispatch return m g = keep_seed g (return_update m)

  unfoldable pub update : Monster F → Seed → Result (Monster F × Seed)
  unfolding dispatch
  update m g = dispatch m.state (record m { anim_frame = m.anim_frame + 1 }) g

  -- What a hit that leaves `m` alive, or not, does to its state.
  unfoldable pub after_hit : Monster F → ℤ → Result (Monster F)
  unfolding change_state reset_anim_start
  after_hit m attacker_id =
      let hurt : Monster F = record m {
        hit_stun_frame = monster_hit_stun_frame;
        target_player_id = attacker_id;
      } in
      if m.hp == 0
      then change_state m dead
      else if state_eq m.state stun
      then ok (reset_anim_start hurt)
      else change_state hurt stun

  -- takeDamage; of the attacker it reads the position and the direction.
  unfoldable pub take_damage : Monster F → ℕ → Position F → Direction → ℤ → Result (Monster F)
  unfolding after_hit
  take_damage m damage attacker_pos attacker_dir attacker_id =
      let hit : Monster F = record m {
        direction = get_direction_to pl m.position attacker_pos;
        position =
            clamp_position pl (fadd m.position.x (fmul (mx pl attacker_dir) m.knockback_dist))
              (fadd m.position.y (fmul (my pl attacker_dir) m.knockback_dist));
        hp = m.hp - damage;
      } in
      if state_eq m.state dead then ok m else after_hit hit attacker_id
