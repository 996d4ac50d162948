-- ===== src/Monster/Tests.antt =====
-- A monster on the machine of Actor/Naturals, and the theorems at it.
use my_mmoproject.Base.{ℕ, ◌≡◌, refl, true}
use my_mmoproject.Base.Int.{pos}
use my_mmoproject.Fault.{ok}
use my_mmoproject.Actor.{down}
use my_mmoproject.Actor.Naturals.{naturals, here}
use my_mmoproject.Monster.{Monster, dead, attack, update, take_damage}
use my_mmoproject.Monster.Transitions.{steps_to, update_steps}
use my_mmoproject.Monster.Health.{
  is_healthy, holds, update-is_healthy, holds_after, take_damage-is_healthy,
}
use my_mmoproject.Monster.Timing.{ticks, dead_revives, revived}

abbrev wolf : Monster ℕ
wolf = record {
  monster_id = 7;
  position = here;
  spawn_pos = here;
  start_move_pos = here;
  sector = record { x = 0; y = 0 };
  dest_sector = record { x = 0; y = 0 };
  monster_type = 0;
  direction = down;
  before_direction = down;
  state = attack;
  before_state = attack;
  anim_frame = 3;
  speed = 2;
  hp = 60;
  max_hp = 100;
  hit_stun_frame = 0;
  target_player_id = pos 1;
  target_pos = here;
  knockback_dist = 100;
}

abbrev corpse : Monster ℕ
corpse = record wolf { state = dead; hp = 0; anim_frame = 497 }

update_steps_example : steps_to naturals attack (update naturals wolf 5) ≡ true
update_steps_example = update_steps naturals wolf 5

update-is_healthy_example : holds naturals is_healthy (update naturals wolf 5) ≡ true
update-is_healthy_example = update-is_healthy naturals wolf 5 refl

take_damage-is_healthy_example :
    holds_after naturals is_healthy (take_damage naturals wolf 35 here down (pos 4)) ≡ true
take_damage-is_healthy_example = take_damage-is_healthy naturals wolf 35 here down (pos 4) refl

dead_revives_example : ticks naturals 3 corpse 5 ≡ ok (revived naturals corpse, 5)
dead_revives_example = dead_revives naturals 2 corpse 5 refl refl
