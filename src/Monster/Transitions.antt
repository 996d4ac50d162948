-- ===== src/Monster/Transitions.antt =====
-- Which states a tick and a hit lead to. No call fails in MyAssert.
use my_mmoproject.Base.{◌+◌, ◌≡◌, refl, Bool, true, false, ◌||◌, arith}
use my_mmoproject.Fault.{Result, ok, err}
use my_mmoproject.Actor.{Platform}
use my_mmoproject.Monster.{
  MonsterState, idle, move, chase, attack, stun, dead, return, state_eq, Monster, idle_update,
  patrol_update, chase_update, attack_update, stun_update, dead_update, return_update, keep_seed,
  dispatch, update,
}

-- The transitions of one tick.
abbrev pub allowed : MonsterState → MonsterState → Bool
allowed idle t = state_eq t idle || state_eq t move
allowed move t = state_eq t move || (state_eq t idle || state_eq t return)
allowed chase t = state_eq t chase || (state_eq t attack || (state_eq t idle || state_eq t return))
allowed attack t = state_eq t attack || state_eq t chase
allowed stun t = state_eq t stun || state_eq t chase
allowed dead t = state_eq t dead || state_eq t idle
allowed return t = state_eq t return || state_eq t idle

module _ (pl : Platform) where
  open pl use {F, Seed}

  -- The call succeeds, in a state that the tick may lead to.
  abbrev pub steps_to : MonsterState → Result (Monster F × Seed) → Bool
  steps_to s (ok (m, g)) = allowed s m.state
  steps_to s (err e) = false

  idle_steps :
      (m : Monster F) (g : Seed) → m.state ≡ idle → steps_to idle (idle_update pl m g) ≡ true
  unfolding idle_update
  idle_steps m g e = ground arith

  patrol_steps :
      (m : Monster F) (g : Seed) → m.state ≡ move → steps_to move (patrol_update pl m g) ≡ true
  unfolding patrol_update
  patrol_steps m g e = ground arith

  chase_steps :
      (m : Monster F) (g : Seed)
      → m.state ≡ chase
      → steps_to chase (keep_seed pl g (chase_update pl m)) ≡ true
  unfolding chase_update
  chase_steps m g e = ground arith

  attack_steps :
      (m : Monster F) (g : Seed)
      → m.state ≡ attack
      → steps_to attack (keep_seed pl g (attack_update pl m)) ≡ true
  unfolding attack_update
  attack_steps m g e = ground arith

  stun_steps :
      (m : Monster F) (g : Seed)
      → m.state ≡ stun
      → steps_to stun (keep_seed pl g (stun_update pl m)) ≡ true
  unfolding stun_update
  stun_steps m g e = ground arith

  dead_steps :
      (m : Monster F) (g : Seed)
      → m.state ≡ dead
      → steps_to dead (keep_seed pl g (dead_update pl m)) ≡ true
  unfolding dead_update
  dead_steps m g e = ground arith

  return_steps :
      (m : Monster F) (g : Seed)
      → m.state ≡ return
      → steps_to return (keep_seed pl g (return_update pl m)) ≡ true
  unfolding return_update
  return_steps m g e = ground arith

  dispatch_steps :
      (s : MonsterState) (m : Monster F) (g : Seed)
      → m.state ≡ s
      → steps_to s (dispatch pl s m g) ≡ true
  unfolding dispatch
  dispatch_steps idle m g e = idle_steps m g e
  dispatch_steps move m g e = patrol_steps m g e
  dispatch_steps chase m g e = chase_steps m g e
  dispatch_steps attack m g e = attack_steps m g e
  dispatch_steps stun m g e = stun_steps m g e
  dispatch_steps dead m g e = dead_steps m g e
  dispatch_steps return m g e = return_steps m g e

  -- A tick never fails in MyAssert, and leads only along the allowed transitions.
  pub update_steps : (m : Monster F) (g : Seed) → steps_to m.state (update pl m g) ≡ true
  unfolding update
  update_steps m g = dispatch_steps m.state (record m { anim_frame = m.anim_frame + 1 }) g refl
