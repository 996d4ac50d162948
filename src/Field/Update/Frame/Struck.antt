-- ===== src/Field/Update/Frame/Struck.antt =====
-- The hit of a monster on the player that is closest to it never stops the process.
use my_mmoproject.Base.{
  ℕ, Option-cases, ◌≡◌, sym, ap, ◌∙◌, subst, Bool, true, false, List, [], ◌∷◌, Option, none, some,
  if◌then◌else◌, arith, inl, inr,
}
use my_mmoproject.Fault.{ok}
use my_mmoproject.Sector.{Sector, in_map, get_around_sectors, around}
use my_mmoproject.Actor.{Platform, distance, monster_attack_damage, num}
use my_mmoproject.Monster.{Monster}
use my_mmoproject.Player.{Player}
use my_mmoproject.Player
use my_mmoproject.Field.{Field, find, set_player, player_key, push_found, resolve, members}
use my_mmoproject.Field.Find.{key-find}
use my_mmoproject.Field.Broadcast.{nobody, broadcast_character_damaged}
use my_mmoproject.Field.Update.Hits.{
  closest_of, closest_player, hit_player, process_monster_attack_hit,
}
use my_mmoproject.Field.Update.Frame.{take_damage-SamePlayer}
use my_mmoproject.Field.Update.Frame.Ready.{
  All, IsReady, Goes, Goes-bind, Goes-here, around_ready, player_on_map, set_player-Goes,
}
use my_mmoproject.Field.Update.Frame.Strikes.{same_player, broadcast-Goes}

module _ (pl : Platform) where
  open pl use {F}

  -- A player that the field has.
  abbrev IsIn : Field pl → Option (Player F) → Type 0
  IsIn f none = Unit
  IsIn f (some p) = find (player_key pl) p.seq_id f.players ≡ some p

  resolved-IsIn :
      (f : Field pl) (ids : List ℕ)
      → All (λ (p : Player F). IsIn f (some p)) (resolve (player_key pl) f.players ids)
  resolved-IsIn f [] = tt
  resolved-IsIn f (id ∷ ids) = elim (Option-cases (find (player_key pl) id f.players)) [
    | inl gone ↦ rw gone (resolved-IsIn f ids)
    | inr (p, here) ↦
        let own : find (player_key pl) p.seq_id f.players ≡ some p =
          ap (λ k. find (player_key pl) k f.players) (key-find (player_key pl) id f.players here)
          ∙ here in
        subst
          (λ o.
            All (λ (q : Player F). IsIn f (some q))
              (push_found o (resolve (player_key pl) f.players ids)))
          (sym here) (own, resolved-IsIn f ids)
  ]

  chosen-IsIn :
      (f : Field pl) (a b : Bool) (old new : F × Option (Player F))
      → IsIn f old.1
      → IsIn f new.1
      → IsIn f (if a then old else if b then new else old).1
  chosen-IsIn f true b old new h k = h
  chosen-IsIn f false true old new h k = k
  chosen-IsIn f false false old new h k = h

  closest_of-IsIn :
      (f : Field pl) (m : Monster F) (ps : List (Player F)) (d : F) (best : Option (Player F))
      → All (λ (p : Player F). IsIn f (some p)) ps
      → IsIn f best
      → IsIn f (closest_of pl m ps (d, best)).1
  unfolding closest_of
  closest_of-IsIn f m [] d best h b = b
  closest_of-IsIn f m (p ∷ ps) d best (h, hs) b = closest_of-IsIn f m ps _ _ hs (
      chosen-IsIn f (Player.state_eq p.state Player.dead)
        (pl.fle (distance pl m.position p.position) d) (d, best)
        (distance pl m.position p.position, some p) b h)

  closest_player-IsIn :
      (f : Field pl) (m : Monster F) (near : List Sector) (best : F × Option (Player F))
      → IsIn f best.1
      → IsIn f (closest_player pl m f near best).1
  unfolding closest_player
  closest_player-IsIn f m [] best b = b
  closest_player-IsIn f m (s ∷ near) best b =
      closest_player-IsIn f m near (closest_of pl m (members pl f s) best)
        (closest_of-IsIn f m (members pl f s) best.0 best.1 (resolved-IsIn f (f.sectors s)) b)

  hit_player-Goes :
      (m : Monster F) (o : Option (Player F)) (f : Field pl)
      → IsReady pl f
      → IsIn f o
      → Goes pl 0 f (hit_player pl m o f)
  unfolding hit_player broadcast_character_damaged
  hit_player-Goes m none f ready here = Goes-here pl f ready
  hit_player-Goes m (some p) f ready here =
      let (q, run, id, cur, dst) =
        same_player pl p _
          (take_damage-SamePlayer pl p monster_attack_damage m.position m.direction) in
      let (on, to) = player_on_map pl f ready p.seq_id p here in
      let near : get_around_sectors f.cache q.current_sector ≡ ok (around q.current_sector) =
        around_ready pl f ready q.current_sector (ap in_map cur ∙ on) in
      rw (run, near)
        (Goes-bind pl 0 0 0 (omega arith) f (ok (set_player pl f q))
          (λ g. ok (broadcast_character_damaged pl q m (around q.current_sector) g))
          (set_player-Goes pl f ready p q (ap (λ k. find (player_key pl) k f.players) id ∙ here) cur
            (ap in_map dst ∙ to))
          (λ g e ready' kp km few.
            broadcast-Goes pl (nobody pl) _ (around q.current_sector) g ready'))

  pub process_monster_attack_hit-Goes :
      (m : Monster F) (f : Field pl)
      → IsReady pl f
      → in_map m.sector ≡ true
      → Goes pl 0 f (process_monster_attack_hit pl m f)
  unfolding process_monster_attack_hit
  process_monster_attack_hit-Goes m f ready on =
      rw (around_ready pl f ready m.sector on) (
        hit_player-Goes m _ f ready
          (closest_player-IsIn f m (around m.sector) (num pl 50, none) tt))
