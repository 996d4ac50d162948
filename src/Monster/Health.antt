-- ===== src/Monster/Health.antt =====
-- Hit points: a monster is dead exactly when it has none left, and never has more than its maximum.
use my_mmoproject.Base.{
  ℕ, ◌+◌, ◌-◌, ◌≤◌, ◌<◌, ◌≡◌, refl, Bool, true, false, ◌&&◌, ltb, leb, ◌==◌, if◌then◌else◌, arith,
  ◌≢◌,
}
use my_mmoproject.Base.Int.{ℤ}
use my_mmoproject.Fault.{Result, ok, err}
use my_mmoproject.Actor.{
  Platform, Position, Direction, get_direction_to, clamp_position, mx, my, monster_hit_stun_frame,
}
use my_mmoproject.Monster.{
  MonsterState, idle, move, chase, attack, stun, dead, return, state_eq, Monster, idle_update,
  patrol_update, chase_update, attack_update, stun_update, dead_update, return_update, dispatch,
  update, take_damage, create,
}

-- Dead exactly when no hit points are left, and never more than the maximum.
abbrev pub is_healthy : {F : Type 0} → Monster F → Bool
is_healthy m =
    (if state_eq m.state dead then m.hp == 0 else ltb 0 m.hp)
    && (leb m.hp m.max_hp && ltb 0 m.max_hp)

module _ (pl : Platform) where
  open pl use {F, fadd, fmul, Seed}

  -- The call succeeds with such a monster.
  abbrev pub holds : (Monster F → Bool) → Result (Monster F × Seed) → Bool
  holds p (ok (m, g)) = p m
  holds p (err e) = false

  abbrev pub holds_after : (Monster F → Bool) → Result (Monster F) → Bool
  holds_after p (ok m) = p m
  holds_after p (err e) = false

  pub create-is_healthy : (i : ℕ) (p : Position F) (t : ℕ) → is_healthy (create pl i p t) ≡ true
  unfolding create
  create-is_healthy i p t = refl

  dispatch-is_healthy :
      (s : MonsterState) (m : Monster F) (g : Seed)
      → m.state ≡ s
      → is_healthy m ≡ true
      → holds is_healthy (dispatch pl s m g) ≡ true
  unfolding dispatch idle_update patrol_update chase_update attack_update stun_update dead_update
      return_update
  dispatch-is_healthy idle m g e h = ground arith
  dispatch-is_healthy move m g e h = ground arith
  dispatch-is_healthy chase m g e h = ground arith
  dispatch-is_healthy attack m g e h = ground arith
  dispatch-is_healthy stun m g e h = ground arith
  dispatch-is_healthy dead m g e h = ground arith
  dispatch-is_healthy return m g e h = ground arith

  -- A tick keeps a monster healthy.
  pub update-is_healthy :
      (m : Monster F) (g : Seed) → is_healthy m ≡ true → holds is_healthy (update pl m g) ≡ true
  unfolding update
  update-is_healthy m g h =
      dispatch-is_healthy m.state (record m { anim_frame = m.anim_frame + 1 }) g refl h

  -- What a hit has done to `m` before its state changes.
  abbrev knocked : Monster F → ℕ → Position F → Direction → Monster F
  knocked m damage p d = record m {
    direction = get_direction_to pl m.position p;
    position =
        clamp_position pl (fadd m.position.x (fmul (mx pl d) m.knockback_dist))
          (fadd m.position.y (fmul (my pl d) m.knockback_dist));
    hp = m.hp - damage;
  }

  module _ (m : Monster F) (damage : ℕ) (p : Position F) (d : Direction) (attacker : ℤ) where
    -- A dead monster is not hit.
    pub take_damage_dead : m.state ≡ dead → take_damage pl m damage p d attacker ≡ ok m
    unfolding take_damage
    take_damage_dead e = ground arith

    -- A hit for all the hit points or more kills, whatever the monster was doing.
    pub take_damage_kills :
        m.state ≢ dead
        → m.hp ≤ damage
        → (m' : Monster F) × (take_damage pl m damage p d attacker ≡ ok m')
          × (m'.hp ≡ 0)
          × (m'.state ≡ dead)
          × (m'.anim_frame ≡ 0)
    unfolding take_damage
    take_damage_kills e h =
        let m' : Monster F = knocked m damage p d in
        (
          record m' { state = dead; anim_frame = 0; start_move_pos = m'.position },
          ground arith,
          omega arith,
          refl,
          refl,
        )

    -- Any other hit costs the damage, stuns for the full time, also a monster that is stunned already,
    -- and turns it on its attacker.
    pub take_damage_stuns :
        m.state ≢ dead
        → damage < m.hp
        → (m' : Monster F) × (take_damage pl m damage p d attacker ≡ ok m')
          × (m'.hp + damage ≡ m.hp)
          × (m'.state ≡ stun)
          × (m'.anim_frame ≡ 0)
          × (m'.hit_stun_frame ≡ monster_hit_stun_frame)
          × (m'.target_player_id ≡ attacker)
    unfolding take_damage
    take_damage_stuns e h =
        let m' : Monster F = knocked m damage p d in
        (
          record m' {
            state = stun;
            anim_frame = 0;
            start_move_pos = m'.position;
            hit_stun_frame = monster_hit_stun_frame;
            target_player_id = attacker;
          },
          ground arith,
          omega arith,
          refl,
          refl,
          refl,
          refl,
        )

    -- A hit keeps a monster healthy.
    pub take_damage-is_healthy :
        is_healthy m ≡ true → holds_after is_healthy (take_damage pl m damage p d attacker) ≡ true
    unfolding take_damage
    take_damage-is_healthy h = ground arith
