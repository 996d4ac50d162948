-- ===== src/Player.antt =====
-- contents::Player (FieldServer/Contents/Player.cpp and Player.h): the state machine of a player, and
-- what a monster's hit does to it. The receive queue `mRecvQ` is in Player.Queue.
pub mod Health
pub mod Queue
mod Tests
use my_mmoproject.Base.{
  ℕ, ◌+◌, ◌-◌, Bool, true, false, List, [], ltb, leb, ◌==◌, if◌then◌else◌, not,
}
use my_mmoproject.Base.Int.{ℤ, pos, negsuc}
use my_mmoproject.Fault.{Result, ok, err, ◌>>=◌, ◌>>◌, my_assert}
use my_mmoproject.Sector.{Sector}
use my_mmoproject.Actor.{
  Platform, Position, Direction, down, clamp_position, mx, my, num, get_direction_to,
  player_hit_stun_frame, player_attack_total_frame, player_attack_damage, player_max_hp,
}

-- ePlayerState
pub data PlayerState : Type 0 where
  idle move attack dead stun : PlayerState

abbrev pub state_code : PlayerState → ℕ
state_code idle = 0
state_code move = 1
state_code attack = 2
state_code dead = 3
state_code stun = 4

abbrev pub state_eq : PlayerState → PlayerState → Bool
state_eq a b = state_code a == state_code b

-- `nickname` is the char[20] read as one number; `inventory` is mInventory at an item's number.
pub record Player (F : Type 0) : Type 0 where
  pub account_no : ℕ
  pub character_id : ℕ
  pub position : Position F
  pub start_move_pos : Position F
  pub seq_id : ℕ
  pub speed : F
  pub last_time : ℕ
  pub anim_frame : ℕ
  pub current_sector : Sector
  pub dest_sector : Sector
  pub direction : Direction
  pub current_field_id : ℤ
  pub next_field_id : ℤ
  pub state : PlayerState
  pub character_type : ℕ
  pub nickname : ℕ
  pub connect : Bool
  pub sync_cnt : ℕ
  pub attack_power : ℕ
  pub last_attack_time : ℕ
  pub pending_attack_targets : List ℕ
  pub pending_attack_skill_id : ℕ
  pub hit_stun_frame : ℕ
  pub hp : ℕ
  pub max_hp : ℕ
  pub inventory : ℕ → ℕ
  pub db_request_cnt : ℕ
  pub send_msg_cnt : ℕ

module _ (pl : Platform) where
  open pl use {F, fadd, fmul, literal, of_int}

  -- The constructor.
  unfoldable pub create : ℕ → Player F
  create seq_id = record {
    account_no = 0;
    character_id = 0;
    position = record { x = literal (pos 0) 1; y = literal (pos 0) 1 };
    start_move_pos = record { x = literal (pos 0) 1; y = literal (pos 0) 1 };
    seq_id = seq_id;
    speed = literal (pos 45) 1;
    last_time = 0;
    anim_frame = 0;
    current_sector = record { x = 0; y = 0 };
    dest_sector = record { x = 0; y = 0 };
    direction = down;
    current_field_id = negsuc 0;
    next_field_id = negsuc 0;
    state = idle;
    character_type = 0;
    nickname = 0;
    connect = true;
    sync_cnt = 0;
    attack_power = player_attack_damage;
    last_attack_time = 0;
    pending_attack_targets = [];
    pending_attack_skill_id = 0;
    hit_stun_frame = 0;
    hp = player_max_hp;
    max_hp = player_max_hp;
    inventory = λ i. 0;
    db_request_cnt = 0;
    send_msg_cnt = 0;
  }

  unfoldable pub reset_anim_start : Player F → Player F
  reset_anim_start p = record p { anim_frame = 0; start_move_pos = p.position }

  unfoldable pub change_state : Player F → PlayerState → Result (Player F)
  unfolding reset_anim_start
  change_state p s = do
    my_assert (not (state_eq s p.state))
    ok (reset_anim_start (record p { state = s }))

  unfoldable pub move_update : Player F → Player F
  move_update p = record p {
    position =
        clamp_position pl
          (fadd p.start_move_pos.x (fmul (fmul (mx pl p.direction) p.speed) (of_int p.anim_frame)))
          (fadd p.start_move_pos.y (fmul (fmul (my pl p.direction) p.speed) (of_int p.anim_frame)));
  }

  -- The switch of update, after `++mAnimFrame`.
  unfoldable pub dispatch : PlayerState → Player F → Result (Player F)
  unfolding change_state move_update
  dispatch dead p = ok p
  dispatch move p = ok (move_update p)
  dispatch attack p =
      if leb player_attack_total_frame p.anim_frame then change_state p idle else ok p
  dispatch stun p =
      if ltb 0 p.hit_stun_frame
      then ok (record p { hit_stun_frame = p.hit_stun_frame - 1 })
      else change_state p idle
  dispatch idle p = ok p

  unfoldable pub update : Player F → Result (Player F)
  unfolding dispatch
  update p =
      if not p.connect then ok p else dispatch p.state (record p { anim_frame = p.anim_frame + 1 })

  unfoldable pub after_hit : Player F → Result (Player F)
  unfolding change_state reset_anim_start
  after_hit p =
      let hurt : Player F = record p { hit_stun_frame = player_hit_stun_frame } in
      if p.hp == 0
      then change_state p dead
      else if state_eq p.state stun
      then ok (reset_anim_start hurt)
      else change_state hurt stun

  -- takeDamage; PLAYER_ATTACK_KNOCKBACK_DIST is 100. Of the attacker it reads the position and the
  -- direction.
  unfoldable pub take_damage : Player F → ℕ → Position F → Direction → Result (Player F)
  unfolding after_hit
  take_damage p damage attacker_pos attacker_dir =
      let hit : Player F = record p {
        direction = get_direction_to pl p.position attacker_pos;
        position =
            clamp_position pl (fadd p.position.x (fmul (mx pl attacker_dir) (num pl 100)))
              (fadd p.position.y (fmul (my pl attacker_dir) (num pl 100)));
        hp = p.hp - damage;
      } in
      if state_eq p.state dead then ok p else after_hit hit
