-- ===== src/Player/Health.antt =====
-- What a tick and a hit do to a player.
use my_mmoproject.Base.{
  ℕ, ◌+◌, ◌-◌, ◌≤◌, ◌<◌, ◌≡◌, refl, Bool, true, false, ◌&&◌, ◌||◌, ltb, leb, ◌==◌, if◌then◌else◌,
  arith, ◌≢◌,
}
use my_mmoproject.Fault.{Result, ok, err}
use my_mmoproject.Actor.{
  Platform, Position, Direction, get_direction_to, clamp_position, mx, my, num,
  player_hit_stun_frame,
}
use my_mmoproject.Player.{
  PlayerState, idle, move, attack, stun, dead, state_eq, Player, dispatch, update, take_damage,
}

-- The transitions of one tick.
abbrev pub allowed : PlayerState → PlayerState → Bool
allowed idle t = state_eq t idle
allowed move t = state_eq t move
allowed attack t = state_eq t attack || state_eq t idle
allowed stun t = state_eq t stun || state_eq t idle
allowed dead t = state_eq t dead

-- Dead exactly when no hit points are left, and never more than the maximum.
abbrev pub is_healthy : {F : Type 0} → Player F → Bool
is_healthy p =
    (if state_eq p.state dead then p.hp == 0 else ltb 0 p.hp)
    && (leb p.hp p.max_hp && ltb 0 p.max_hp)

module _ (pl : Platform) where
  open pl use {F, fadd, fmul}

  abbrev pub holds_after : (Player F → Bool) → Result (Player F) → Bool
  holds_after q (ok p) = q p
  holds_after q (err e) = false

  dispatch_keeps :
      (s : PlayerState) (p : Player F)
      → p.state ≡ s
      → is_healthy p ≡ true
      → holds_after (λ q. allowed s q.state && is_healthy q) (dispatch pl s p) ≡ true
  unfolding dispatch
  dispatch_keeps idle p e h = ground arith
  dispatch_keeps move p e h = ground arith
  dispatch_keeps attack p e h = ground arith
  dispatch_keeps stun p e h = ground arith
  dispatch_keeps dead p e h = ground arith

  stays_allowed : (s : PlayerState) → allowed s s ≡ true
  stays_allowed idle = refl
  stays_allowed move = refl
  stays_allowed attack = refl
  stays_allowed stun = refl
  stays_allowed dead = refl

  -- A tick of a player never fails in MyAssert, leads from each state only to itself or, out of an
  -- attack or a stun, to Idle, and keeps the hit points sound.
  pub update_keeps :
      (p : Player F)
      → is_healthy p ≡ true
      → holds_after (λ q. allowed p.state q.state && is_healthy q) (update pl p) ≡ true
  unfolding update
  update_keeps p h = ground (
    arith,
    stays_allowed p.state,
    dispatch_keeps p.state (record p { anim_frame = p.anim_frame + 1 }) refl,
  )

  abbrev knocked : Player F → ℕ → Position F → Direction → Player F
  knocked p damage a d = record p {
    direction = get_direction_to pl p.position a;
    position =
        clamp_position pl (fadd p.position.x (fmul (mx pl d) (num pl 100)))
          (fadd p.position.y (fmul (my pl d) (num pl 100)));
    hp = p.hp - damage;
  }

  module _ (p : Player F) (damage : ℕ) (a : Position F) (d : Direction) where
    pub hit_dead : p.state ≡ dead → take_damage pl p damage a d ≡ ok p
    unfolding take_damage
    hit_dead e = ground arith

    -- A hit for all the hit points or more kills.
    pub hit_kills :
        p.state ≢ dead
        → p.hp ≤ damage
        → (q : Player F) × (take_damage pl p damage a d ≡ ok q)
          × (q.hp ≡ 0)
          × (q.state ≡ dead)
          × (q.anim_frame ≡ 0)
    unfolding take_damage
    hit_kills e h =
        let q : Player F = knocked p damage a d in
        (
          record q { state = dead; anim_frame = 0; start_move_pos = q.position },
          ground arith,
          omega arith,
          refl,
          refl,
        )

    -- Any other hit costs the damage and stuns for the full time.
    pub hit_stuns :
        p.state ≢ dead
        → damage < p.hp
        → (q : Player F) × (take_damage pl p damage a d ≡ ok q)
          × (q.hp + damage ≡ p.hp)
          × (q.state ≡ stun)
          × (q.anim_frame ≡ 0)
          × (q.hit_stun_frame ≡ player_hit_stun_frame)
    unfolding take_damage
    hit_stuns e h =
        let q : Player F = knocked p damage a d in
        (
          record q {
            state = stun;
            anim_frame = 0;
            start_move_pos = q.position;
            hit_stun_frame = player_hit_stun_frame;
          },
          ground arith,
          omega arith,
          refl,
          refl,
          refl,
        )

    -- A hit keeps the hit points sound, and never fails in MyAssert.
    pub hit_keeps :
        is_healthy p ≡ true → holds_after is_healthy (take_damage pl p damage a d) ≡ true
    unfolding take_damage
    hit_keeps h = ground arith
