-- ===== src/Field/Update/Hits.antt =====
-- The hits of a frame: processPlayerAttackHit, processMonsterAttackHit and possibleChasePlayer.
use my_mmoproject.Base.{
  ℕ, ◌-◌, Bool, false, ◌||◌, List, [], ◌∷◌, Option, none, some, ltb, ◌==◌, not, if◌then◌else◌,
}
use my_mmoproject.Base.Int.{ℤ, pos, negsuc}
use my_mmoproject.Fault.{Result, ok, ◌>>=◌}
use my_mmoproject.Sector.{Sector, get_around_sectors}
use my_mmoproject.Actor.{Platform, Position, distance, num, monster_attack_damage}
use my_mmoproject.Monster.{Monster}
use my_mmoproject.Player.{Player}
use my_mmoproject.Monster
use my_mmoproject.Player
use my_mmoproject.Field.{Field, find, set_at, set_player, player_key, members}
use my_mmoproject.Field.Broadcast.{broadcast_monster_damaged, broadcast_character_damaged}
use my_mmoproject.Field.Handlers.{get_skill_config}
use my_mmoproject.Field.Report.{monster_key}
use my_mmoproject.Field.Update.Drops.{drop_item, request_kill_count_update}

module _ (pl : Platform) where
  open pl use {F, flt, fle, feq, of_int}

  abbrev pub set_monster : Field pl → Monster F → Field pl
  set_monster f m = record f { monsters = set_at (monster_key pl) m.monster_id m f.monsters }

  -- The first loop: a target that is gone, dead or on its way back is erased.
  abbrev pub is_valid_target : Option (Monster F) → Bool
  is_valid_target none = false
  is_valid_target (some m) =
      not (Monster.state_eq m.state Monster.dead || Monster.state_eq m.state Monster.return)

  unfoldable pub valid_targets : List (Monster F) → List ℕ → List ℕ
  valid_targets ms [] = []
  valid_targets ms (id ∷ ids) =
      let rest = valid_targets ms ids in
      if is_valid_target (find (monster_key pl) id ms) then id ∷ rest else rest

  -- The comparison of the sort, at the positions of the two monsters.
  unfoldable pub sorts_before : Player F → List (Monster F) → ℕ → ℕ → Bool
  sorts_before p ms a b = nearer (find (monster_key pl) a ms) (find (monster_key pl) b ms)
    where
      nearer : Option (Monster F) → Option (Monster F) → Bool
      nearer (some m) (some n) =
          let far_a = distance pl p.position m.position in
          let far_b = distance pl p.position n.position in
          if feq far_a far_b then ltb a b else flt far_a far_b
      nearer m n = false

  -- std::sort by that comparison.
  unfoldable pub insert_target : (ℕ → ℕ → Bool) → ℕ → List ℕ → List ℕ
  insert_target before id [] = id ∷ []
  insert_target before id (other ∷ ids) =
      let rest = insert_target before id ids in
      if before other id then other ∷ rest else id ∷ other ∷ ids

  unfoldable pub sort_targets : (ℕ → ℕ → Bool) → List ℕ → List ℕ
  sort_targets before [] = []
  sort_targets before (id ∷ ids) = insert_target before id (sort_targets before ids)

  -- isInAttackRange
  unfoldable pub is_in_attack_range : Position F → Position F → ℕ → Bool
  is_in_attack_range attacker target range_len =
      fle (distance pl attacker target) (of_int range_len)

  -- What a hit does to the field, with the monster behind it.
  unfoldable pub hit_monster : Player F → Monster F → Field pl → Result (Field pl)
  hit_monster p m f = do
    m' ← Monster.take_damage pl m p.attack_power p.position p.direction (pos p.seq_id)
    near ← get_around_sectors f.cache m'.sector
    let f' : Field pl = broadcast_monster_damaged pl m' near (set_monster f m')
    let killed : Result (Field pl) = drop_item pl m' f' >>= request_kill_count_update pl p 1
    if Monster.state_eq m'.state Monster.dead then killed else ok f'

  -- The last loop, `most` hits at most.
  unfoldable pub hit_targets : Player F → ℕ → ℕ → List ℕ → Field pl → Result (Field pl)
  hit_targets p range_len most [] f = ok f
  hit_targets p range_len most (id ∷ ids) f =
      let go_on : ℕ → Field pl → Result (Field pl) = λ n f'. hit_targets p range_len n ids f' in
      elim (find (monster_key pl) id f.monsters) [
        | none ↦ go_on most f
        | some m ↦
            if is_in_attack_range p.position m.position range_len
            then hit_monster p m f >>= (λ f'. if most == 1 then ok f' else go_on (most - 1) f')
            else go_on most f
      ]

  unfoldable pub process_player_attack_hit : Player F → Field pl → Result (Field pl)
  process_player_attack_hit p f = hit_with (get_skill_config p.pending_attack_skill_id)
    where
      targets : List ℕ
      targets =
          sort_targets (sorts_before p f.monsters)
            (valid_targets f.monsters p.pending_attack_targets)

      hit_with : Option (ℕ × ℕ) → Result (Field pl)
      hit_with none = ok f
      hit_with (some (range_len, most)) =
          let p' : Player F = record p { pending_attack_targets = targets } in
          hit_targets p' range_len most targets (set_player pl f p')

  -- possibleChasePlayer: where the target stands, if it can be chased.
  unfoldable pub possible_chase_player : Field pl → ℤ → Option (Position F)
  possible_chase_player f (negsuc n) = none
  possible_chase_player f (pos id) = living (find (player_key pl) id f.players)
    where
      living : Option (Player F) → Option (Position F)
      living none = none
      living (some p) = if Player.state_eq p.state Player.dead then none else some p.position

  -- The loops of processMonsterAttackHit, with the closest player so far.
  unfoldable pub closest_of :
      Monster F → List (Player F) → F × Option (Player F) → F × Option (Player F)
  closest_of m [] best = best
  closest_of m (p ∷ ps) (closest_dist, best) =
      let dist = distance pl m.position p.position in
      closest_of m ps (
        if Player.state_eq p.state Player.dead
        then (closest_dist, best)
        else if fle dist closest_dist
        then (dist, some p)
        else (closest_dist, best))

  unfoldable pub closest_player :
      Monster F → Field pl → List Sector → F × Option (Player F) → F × Option (Player F)
  closest_player m f [] best = best
  closest_player m f (s ∷ near) best = closest_player m f near (closest_of m (members pl f s) best)

  unfoldable pub hit_player : Monster F → Option (Player F) → Field pl → Result (Field pl)
  hit_player m none f = ok f
  hit_player m (some p) f = do
    p' ← Player.take_damage pl p monster_attack_damage m.position m.direction
    near ← get_around_sectors f.cache p'.current_sector
    ok (broadcast_character_damaged pl p' m near (set_player pl f p'))

  -- MONSTER_ATTACK_RANGE is 50.
  unfoldable pub process_monster_attack_hit : Monster F → Field pl → Result (Field pl)
  process_monster_attack_hit m f = do
    near ← get_around_sectors f.cache m.sector
    hit_player m (closest_player m f near (num pl 50, none)).1 f
