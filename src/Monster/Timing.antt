-- ===== src/Monster/Timing.antt =====
-- How long a state lasts: ticks of a monster that nobody hits.
use my_mmoproject.Base.{ℕ, zero, suc, ◌+◌, ◌-◌, ◌<◌, ◌≡◌, refl, ap, ◌∙◌, arith}
use my_mmoproject.Fault.{Result, ok, ◌>>=◌}
use my_mmoproject.Actor.{Platform, monster_attack_total_frame}
use my_mmoproject.Monster.{
  idle, chase, attack, stun, dead, Monster, attack_update, stun_update, dead_update, update,
  monster_respawn_frame,
}

module _ (pl : Platform) where
  open pl use {F, Seed}

  -- `n` ticks.
  unfoldable pub ticks : ℕ → Monster F → Seed → Result (Monster F × Seed)
  ticks zero m g = ok (m, g)
  ticks (suc n) m g = update pl m g >>= λ s. ticks n s.0 s.1

  dead_tick :
      (m : Monster F) (g : Seed)
      → m.state ≡ dead
      → m.anim_frame + 1 < monster_respawn_frame
      → update pl m g ≡ ok (record m { anim_frame = m.anim_frame + 1 }, g)
  unfolding update dead_update
  dead_tick m g e h = ground arith

  stun_tick :
      (m : Monster F) (g : Seed)
      → m.state ≡ stun
      → 0 < m.hit_stun_frame
      → update pl m g
        ≡ ok (record m { anim_frame = m.anim_frame + 1; hit_stun_frame = m.hit_stun_frame - 1 }, g)
  unfolding update stun_update
  stun_tick m g e h = ground arith

  attack_tick :
      (m : Monster F) (g : Seed)
      → m.state ≡ attack
      → m.anim_frame + 1 < monster_attack_total_frame
      → update pl m g ≡ ok (record m { anim_frame = m.anim_frame + 1 }, g)
  unfolding update attack_update
  attack_tick m g e h = ground arith

  -- What the last tick of each state makes of the monster.
  abbrev pub revived : Monster F → Monster F
  revived m = record m {
    state = idle;
    anim_frame = 0;
    start_move_pos = m.spawn_pos;
    position = m.spawn_pos;
    hp = m.max_hp;
  }

  abbrev pub chasing : Monster F → Monster F
  chasing m = record m { state = chase; anim_frame = 0; start_move_pos = m.position }

  dead_last :
      (m : Monster F) (g : Seed)
      → m.state ≡ dead
      → m.anim_frame + 1 ≡ monster_respawn_frame
      → update pl m g ≡ ok (revived m, g)
  unfolding update dead_update
  dead_last m g e h = ground arith

  stun_last :
      (m : Monster F) (g : Seed)
      → m.state ≡ stun
      → m.hit_stun_frame ≡ 0
      → update pl m g ≡ ok (chasing m, g)
  unfolding update stun_update
  stun_last m g e h = ground arith

  attack_last :
      (m : Monster F) (g : Seed)
      → m.state ≡ attack
      → m.anim_frame + 1 ≡ monster_attack_total_frame
      → update pl m g ≡ ok (chasing m, g)
  unfolding update attack_update
  attack_last m g e h = ground arith

  -- A dead monster lies where it fell until the 500th tick after its death, ...
  pub dead_stays :
      (n : ℕ) (m : Monster F) (g : Seed)
      → m.state ≡ dead
      → m.anim_frame + n < monster_respawn_frame
      → ticks n m g ≡ ok (record m { anim_frame = m.anim_frame + n }, g)
  unfolding ticks
  dead_stays zero m g e h =
      let same : m.anim_frame ≡ m.anim_frame + 0 = omega arith in
      ap (λ k. ok (record m { anim_frame = k }, g)) same
  dead_stays (suc n) m g e h =
      let same : m.anim_frame + 1 + n ≡ m.anim_frame + suc n = omega arith in
      rw (dead_tick m g e (omega arith)) (
        dead_stays n (record m { anim_frame = m.anim_frame + 1 }) g e (omega arith)
        ∙ ap (λ k. ok (record m { anim_frame = k }, g)) same)

  -- ... and at that tick it stands up at its spawn position with all its hit points.
  pub dead_revives :
      (n : ℕ) (m : Monster F) (g : Seed)
      → m.state ≡ dead
      → m.anim_frame + suc n ≡ monster_respawn_frame
      → ticks (suc n) m g ≡ ok (revived m, g)
  unfolding ticks
  dead_revives zero m g e h = rw (dead_last m g e (omega arith)) refl
  dead_revives (suc n) m g e h =
      rw (dead_tick m g e (omega arith))
        (dead_revives n (record m { anim_frame = m.anim_frame + 1 }) g e (omega arith))

  -- A stunned monster whose counter stands at `n` chases again at tick `n + 1`, where it was.
  pub stun_ends :
      (n : ℕ) (m : Monster F) (g : Seed)
      → m.state ≡ stun
      → m.hit_stun_frame ≡ n
      → ticks (suc n) m g ≡ ok (chasing (record m { hit_stun_frame = 0 }), g)
  unfolding ticks
  stun_ends zero m g e h =
      rw (stun_last m g e h) (ap (λ k. ok (chasing (record m { hit_stun_frame = k }), g)) h)
  stun_ends (suc n) m g e h = rw (stun_tick m g e (omega arith)) (
      stun_ends n
        (record m { anim_frame = m.anim_frame + 1; hit_stun_frame = m.hit_stun_frame - 1 }) g e
        (omega arith))

  -- An attack lasts 80 ticks, and the monster chases again.
  pub attack_ends :
      (n : ℕ) (m : Monster F) (g : Seed)
      → m.state ≡ attack
      → m.anim_frame + suc n ≡ monster_attack_total_frame
      → ticks (suc n) m g ≡ ok (chasing m, g)
  unfolding ticks
  attack_ends zero m g e h = rw (attack_last m g e (omega arith)) refl
  attack_ends (suc n) m g e h =
      rw (attack_tick m g e (omega arith))
        (attack_ends n (record m { anim_frame = m.anim_frame + 1 }) g e (omega arith))
