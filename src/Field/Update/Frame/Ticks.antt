-- ===== src/Field/Update/Frame/Ticks.antt =====
-- A round of each loop of fieldUpdate never stops the process.
use my_mmoproject.Base.{
  ℕ, ◌+◌, ◌≤◌, ◌≡◌, refl, ap, ◌∙◌, subst, Bool, true, false, Option, some, if◌then◌else◌, length,
  arith, Bool-cases, inl, inr,
}
use my_mmoproject.Fault.{Result, ok, err, ◌>>=◌}
use my_mmoproject.Sector.{in_map, sector_eq}
use my_mmoproject.Actor.{Platform, Position, calc_sector, calc_sector-in_map}
use my_mmoproject.Monster.{Monster}
use my_mmoproject.Player.{Player}
use my_mmoproject.Monster
use my_mmoproject.Field.{
  Field, find, found, set_player, player_key, update_sector_check, update_monster_sector_check,
}
use my_mmoproject.Field.Find.{key-find}
use my_mmoproject.Field.Loot.{find-set_at}
use my_mmoproject.Field.Report.{monster_key}
use my_mmoproject.Field.Update.Hits.{
  set_monster, possible_chase_player, process_player_attack_hit, process_monster_attack_hit,
}
use my_mmoproject.Field.Update.Passes.{tick_player, player_hits, tick_monster, follow, monster_hits}
use my_mmoproject.Field.Update.Frame.{
  SameMonster, SameTick, update-SamePlayer, update-SameTick, follow-SameMonster,
}
use my_mmoproject.Field.Update.Frame.Ready.{
  IsReady, Goes, Goes-bind, Lands, Lands-bind, Goes-here, player_on_map, monster_on_map,
  set_player-Goes, set_monster-Goes,
}
use my_mmoproject.Field.Update.Frame.Struck.{process_monster_attack_hit-Goes}
use my_mmoproject.Field.Update.Frame.Strikes.{
  request_room, same_player, same_monster, process_player_attack_hit-Lands,
}

ok-injective {ℓ} : {A : Type ℓ} {a b : A} → ok a ≡ ok b → a ≡ b
ok-injective e = cc

module _ (pl : Platform) where
  open pl use {F, Seed}

  abbrev pub HasPlayer : ℕ → Field pl → Type 0
  HasPlayer id f = (p : Player F) × (find (player_key pl) id f.players ≡ some p)

  abbrev pub HasMonster : ℕ → Field pl → Type 0
  HasMonster id f = (m : Monster F) × (find (monster_key pl) id f.monsters ≡ some m)

  checked_player :
      (p : Player F)
      → ((update_sector_check pl p).seq_id ≡ p.seq_id)
        × ((update_sector_check pl p).current_sector ≡ p.current_sector)
        × (in_map p.dest_sector ≡ true → in_map (update_sector_check pl p).dest_sector ≡ true)
  unfolding update_sector_check
  checked_player p = elim (Bool-cases (sector_eq (calc_sector pl p.position) p.current_sector)) [
    | inl same ↦ rw same (refl, refl, λ h. h)
    | inr moved ↦ rw moved (refl, refl, λ h. calc_sector-in_map pl p.position)
  ]

  -- The last line of a player's round.
  check_player-Goes :
      (id : ℕ) (f : Field pl)
      → IsReady pl f
      → HasPlayer id f
      → Goes pl 0 f (
          found (find (player_key pl) id f.players) >>= λ p.
          ok (set_player pl f (update_sector_check pl p)))
  check_player-Goes id f ready (p, here) =
      let (same, cur, dst) = checked_player p in
      let key : p.seq_id ≡ id = key-find (player_key pl) id f.players here in
      rw here (
        set_player-Goes pl f ready p (update_sector_check pl p)
          (ap (λ k. find (player_key pl) k f.players) (same ∙ key) ∙ here) cur
          (dst (player_on_map pl f ready id p here).1))

  hit_if-Lands :
      (b : Bool) (f : Field pl) (r : Result (Field pl))
      → IsReady pl f
      → Lands pl 1 f r
      → Lands pl 1 f (if b then r else ok f)
  hit_if-Lands true f r ready g = g
  hit_if-Lands false f r ready g =
      let (h, e, ready', kp, km, few) = Goes-here pl f ready in
      inl (h, e, ready', kp, km, omega arith)

  pub tick_player-Lands :
      (id : ℕ) (f : Field pl)
      → IsReady pl f
      → HasPlayer id f
      → length f.db_requests + 1 ≤ request_room
      → Lands pl 1 f (tick_player pl id f)
  unfolding tick_player
  tick_player-Lands id f ready (p, here) fits =
      let (q, run, same, cur, dst) = same_player pl p _ (update-SamePlayer pl p) in
      let key : q.seq_id ≡ id = same ∙ key-find (player_key pl) id f.players here in
      let old : find (player_key pl) q.seq_id f.players ≡ some p =
        ap (λ k. find (player_key pl) k f.players) key ∙ here in
      let fits_map : in_map q.dest_sector ≡ true =
        ap in_map dst ∙ (player_on_map pl f ready id p here).1 in
      let there : (g : Field pl)
          → ok (set_player pl f q) ≡ ok g
          → find (player_key pl) q.seq_id g.players ≡ some q =
        λ g e.
          subst (λ (h : Field pl). find (player_key pl) q.seq_id h.players ≡ some q)
            (ok-injective e) (find-set_at (player_key pl) q.seq_id q f.players old refl) in
      rw (here, run)
        (Lands-bind pl 0 1 1 (omega arith) f (ok (set_player pl f q))
          (λ g. (if player_hits pl q then process_player_attack_hit pl q g else ok g) >>= λ h.
            found (find (player_key pl) id h.players) >>= λ r.
            ok (set_player pl h (update_sector_check pl r)))
          (inl (set_player-Goes pl f ready p q old cur fits_map))
          (λ g e ready' kp km few.
            Lands-bind pl 1 0 1 (omega arith) g
              (if player_hits pl q then process_player_attack_hit pl q g else ok g) _
              (hit_if-Lands (player_hits pl q) g _ ready'
                (process_player_attack_hit-Lands pl q g ready' (there g e) (omega arith)))
              (λ h e' ready'' kp' km' few'.
                inl (check_player-Goes id h ready'' (kp' id (kp id (p, here)))))))

  checked_monster :
      (m : Monster F)
      → ((update_monster_sector_check pl m).monster_id ≡ m.monster_id)
        × ((update_monster_sector_check pl m).sector ≡ m.sector)
        × (in_map m.dest_sector ≡ true
            → in_map (update_monster_sector_check pl m).dest_sector ≡ true)
  unfolding update_monster_sector_check
  checked_monster m = elim (Bool-cases (sector_eq (calc_sector pl m.position) m.sector)) [
    | inl same ↦ rw same (refl, refl, λ h. h)
    | inr moved ↦ rw moved (refl, refl, λ h. calc_sector-in_map pl m.position)
  ]

  check_monster-Goes :
      (id : ℕ) (f : Field pl)
      → IsReady pl f
      → HasMonster id f
      → Goes pl 0 f (
          found (find (monster_key pl) id f.monsters) >>= λ m.
          ok (set_monster pl f (update_monster_sector_check pl m)))
  check_monster-Goes id f ready (m, here) =
      let (same, sec, dst) = checked_monster m in
      let key : m.monster_id ≡ id = key-find (monster_key pl) id f.monsters here in
      rw here (
        set_monster-Goes pl f ready m (update_monster_sector_check pl m)
          (ap (λ k. find (monster_key pl) k f.monsters) (same ∙ key) ∙ here) sec
          (dst (monster_on_map pl f ready id m here).1))

  same_tick :
      (m : Monster F) (r : Result (Monster F × Seed))
      → SameTick pl m r
      → (n : Monster F × Seed) × (r ≡ ok n)
        × (n.0.monster_id ≡ m.monster_id)
        × (n.0.sector ≡ m.sector)
        × (n.0.dest_sector ≡ m.dest_sector)
  same_tick m (ok n) h = (n, refl, h.0, h.1, h.2)
  same_tick m (err e) h = absurd h

  follow_if :
      (m : Monster F) (b : Bool) (o : Option (Position F))
      → Monster.state_eq m.state Monster.chase ≡ b
      → SameMonster pl m (if b then follow pl m o else ok m)
  follow_if m true o e = follow-SameMonster pl m o (ground arith)
  follow_if m false o e = (refl, refl, refl)

  hit_back_if-Goes :
      (b : Bool) (m : Monster F) (f : Field pl)
      → IsReady pl f
      → in_map m.sector ≡ true
      → Goes pl 0 f (if b then process_monster_attack_hit pl m f else ok f)
  hit_back_if-Goes true m f ready on = process_monster_attack_hit-Goes pl m f ready on
  hit_back_if-Goes false m f ready on = Goes-here pl f ready

  -- The monster behind its tick, with the seed.
  ticked-Goes :
      (m n : Monster F) (g : Seed) (f : Field pl)
      → IsReady pl f
      → find (monster_key pl) n.monster_id f.monsters ≡ some m
      → n.sector ≡ m.sector
      → in_map n.dest_sector ≡ true
      → Goes pl 0 f (ok (set_monster pl (record f { seed = g }) n))
  ticked-Goes m n g f ready here same fits =
      set_monster-Goes pl (record f { seed = g })
        (record {
          placed = record {
            players_held = ready.placed.players_held;
            cached = ready.placed.cached;
          };
          monsters_held = ready.monsters_held;
          items_placed = ready.items_placed;
        })
        m n here same fits

  pub tick_monster-Goes :
      (id : ℕ) (f : Field pl) → IsReady pl f → HasMonster id f → Goes pl 0 f (tick_monster pl id f)
  unfolding tick_monster
  tick_monster-Goes id f ready (m, here) =
      let seen : Monster F = record m { before_state = m.state; before_direction = m.direction } in
      let aim = possible_chase_player pl f m.target_player_id in
      let (n, chased, id1, sec1, dst1) =
        same_monster pl seen _ (follow_if seen (Monster.state_eq m.state Monster.chase) aim refl) in
      let (t, run, id2, sec2, dst2) = same_tick n _ (update-SameTick pl n f.seed) in
      let (on, to) = monster_on_map pl f ready id m here in
      let key : t.0.monster_id ≡ id = id2 ∙ id1 ∙ key-find (monster_key pl) id f.monsters here in
      rw (here, chased, run)
        (Goes-bind pl 0 0 0 (omega arith) f (ok (set_monster pl (record f { seed = t.1 }) t.0))
          (λ g. (if monster_hits pl t.0 then process_monster_attack_hit pl t.0 g else ok g) >>= λ h.
            found (find (monster_key pl) id h.monsters) >>= λ r.
            ok (set_monster pl h (update_monster_sector_check pl r)))
          (ticked-Goes m t.0 t.1 f ready (ap (λ k. find (monster_key pl) k f.monsters) key ∙ here)
            (sec2 ∙ sec1) (ap in_map (dst2 ∙ dst1) ∙ to))
          (λ g e ready' kp km few.
            Goes-bind pl 0 0 0 (omega arith) g
              (if monster_hits pl t.0 then process_monster_attack_hit pl t.0 g else ok g) _
              (hit_back_if-Goes (monster_hits pl t.0) t.0 g ready' (ap in_map (sec2 ∙ sec1) ∙ on))
              (λ h e' ready'' kp' km' few'.
                check_monster-Goes id h ready'' (km' id (km id (m, here))))))
