-- ===== src/Field/Update/Frame.antt =====
-- A frame never stops the process. Here: a tick and a hit of one player or monster succeed, and leave
-- its id and its sectors as they are.
pub mod Ready
pub mod Strikes
pub mod Struck
pub mod Ticks
pub mod Sectors
pub mod Whole
use my_mmoproject.Base.{
  ℕ, ◌+◌, ◌≡◌, refl, arith, Bool, true, false, not, if◌then◌else◌, Option, none, some,
}
use my_mmoproject.Base.Int.{ℤ}
use my_mmoproject.Fault.{Result, ok, err}
use my_mmoproject.Actor.{Platform, Position, Direction}
use my_mmoproject.Monster.{Monster}
use my_mmoproject.Player.{Player}
use my_mmoproject.Monster
use my_mmoproject.Player
use my_mmoproject.Field.Update.Passes.{follow}

module _ (pl : Platform) where
  open pl use {F, Seed}

  abbrev pub SamePlayer : Player F → Result (Player F) → Type 0
  SamePlayer p (err e) = ⊥
  SamePlayer p (ok q) =
      (q.seq_id ≡ p.seq_id)
      × (q.current_sector ≡ p.current_sector)
      × (q.dest_sector ≡ p.dest_sector)

  player_dispatch-SamePlayer :
      (s : Player.PlayerState) (p : Player F) → p.state ≡ s → SamePlayer p (Player.dispatch pl s p)
  unfolding Player.dispatch
  player_dispatch-SamePlayer Player.idle p e = ground arith
  player_dispatch-SamePlayer Player.move p e = ground arith
  player_dispatch-SamePlayer Player.attack p e = ground arith
  player_dispatch-SamePlayer Player.stun p e = ground arith
  player_dispatch-SamePlayer Player.dead p e = ground arith

  unless_gone :
      (p : Player F) (b : Bool) (r : Result (Player F))
      → SamePlayer p r
      → SamePlayer p (if not b then ok p else r)
  unless_gone p true r h = h
  unless_gone p false r h = (refl, refl, refl)

  pub update-SamePlayer : (p : Player F) → SamePlayer p (Player.update pl p)
  unfolding Player.update
  update-SamePlayer p =
      unless_gone p p.connect _
        (player_dispatch-SamePlayer p.state (record p { anim_frame = p.anim_frame + 1 }) refl)

  pub take_damage-SamePlayer :
      (p : Player F) (damage : ℕ) (a : Position F) (d : Direction)
      → SamePlayer p (Player.take_damage pl p damage a d)
  unfolding Player.take_damage
  take_damage-SamePlayer p damage a d = ground arith

  abbrev pub SameMonster : Monster F → Result (Monster F) → Type 0
  SameMonster m (err e) = ⊥
  SameMonster m (ok n) =
      (n.monster_id ≡ m.monster_id) × (n.sector ≡ m.sector) × (n.dest_sector ≡ m.dest_sector)

  abbrev pub SameTick : Monster F → Result (Monster F × Seed) → Type 0
  SameTick m (err e) = ⊥
  SameTick m (ok (n, g)) =
      (n.monster_id ≡ m.monster_id) × (n.sector ≡ m.sector) × (n.dest_sector ≡ m.dest_sector)

  monster_dispatch-SameTick :
      (s : Monster.MonsterState) (m : Monster F) (g : Seed)
      → m.state ≡ s
      → SameTick m (Monster.dispatch pl s m g)
  unfolding Monster.dispatch Monster.idle_update Monster.patrol_update Monster.chase_update
      Monster.attack_update Monster.stun_update Monster.dead_update Monster.return_update
  monster_dispatch-SameTick Monster.idle m g e = ground arith
  monster_dispatch-SameTick Monster.move m g e = ground arith
  monster_dispatch-SameTick Monster.chase m g e = ground arith
  monster_dispatch-SameTick Monster.attack m g e = ground arith
  monster_dispatch-SameTick Monster.stun m g e = ground arith
  monster_dispatch-SameTick Monster.dead m g e = ground arith
  monster_dispatch-SameTick Monster.return m g e = ground arith

  pub update-SameTick : (m : Monster F) (g : Seed) → SameTick m (Monster.update pl m g)
  unfolding Monster.update
  update-SameTick m g =
      monster_dispatch-SameTick m.state (record m { anim_frame = m.anim_frame + 1 }) g refl

  pub take_damage-SameMonster :
      (m : Monster F) (damage : ℕ) (a : Position F) (d : Direction) (id : ℤ)
      → SameMonster m (Monster.take_damage pl m damage a d id)
  unfolding Monster.take_damage
  take_damage-SameMonster m damage a d id = ground arith

  pub follow-SameMonster :
      (m : Monster F) (o : Option (Position F))
      → m.state ≡ Monster.chase
      → SameMonster m (follow pl m o)
  unfolding follow Monster.give_up_chase
  follow-SameMonster m none e = ground arith
  follow-SameMonster m (some p) e = (refl, refl, refl)
