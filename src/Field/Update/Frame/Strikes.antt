-- ===== src/Field/Update/Frame/Strikes.antt =====
-- The hits of a frame never stop the process: a hit on a monster, its drop and its request, and a hit
-- on the player that is closest to a monster.
use my_mmoproject.Base.{
  ℕ, zero, suc, ◌⊎◌, leb→le, Option-cases, ◌%◌, ◌+◌, ◌*◌, ◌≤◌, ◌≡◌, refl, sym, ap, ◌∙◌, subst, Bool,
  true, false, List, [], ◌∷◌, ◌++◌, Option, none, some, if◌then◌else◌, length, arith, Bool-cases,
  inl, inr, length-append, leb, ◌==◌,
}
use my_mmoproject.Base.Int.{pos}
use my_mmoproject.Fault.{Result, ok, err, out_of_fuel, ◌>>=◌}
use my_mmoproject.Ring.{ringbuffer_size}
use my_mmoproject.Ring.Geometry.{get_free_size}
use my_mmoproject.Sector.{Sector, in_map, get_around_sectors, around}
use my_mmoproject.Actor.{Platform, calc_sector, calc_sector-in_map}
use my_mmoproject.Monster.{Monster}
use my_mmoproject.Player.{Player}
use my_mmoproject.Monster
use my_mmoproject.Packet.{Packet, item_spawn}
use my_mmoproject.Field.{Field, Item, Job, find, set_player, player_key, at_sector, new_item}
use my_mmoproject.Field.Find.{key-find}
use my_mmoproject.Field.Broadcast.{
  broadcast, item_spawn_of, broadcast_lem, nobody, broadcast_monster_damaged, broadcast_item_spawn,
}
use my_mmoproject.Field.Handlers.{get_skill_config}
use my_mmoproject.Field.Report.{monster_key}
use my_mmoproject.Field.Update.Drops.{
  draw_below, draw_fuel, redraw_from, roll_drop, place_item, drop_item, request,
  request_kill_count_update, pick_drop, drop_table,
}
use my_mmoproject.Field.Update.Hits.{
  set_monster, hit_monster, hit_targets, process_player_attack_hit, valid_targets, sort_targets,
  sorts_before, is_in_attack_range,
}
use my_mmoproject.Field.Update.Frame.{SamePlayer, SameMonster, take_damage-SameMonster}
use my_mmoproject.Field.Update.Frame.Ready.{
  IsReady, AllThrown, Lands, Lands-bind, Goes, Goes-bind, Goes-here, around_ready, posts-IsReady,
  player_on_map, monster_on_map, set_player-Goes, set_monster-Goes,
}

-- Requests that fit in the ring: 30,000 cells, one of which stays free, for pointers of 8 bytes.
abbrev pub request_room : ℕ
request_room = 3749

module _ (pl : Platform) where
  open pl use {F, Seed, rand}

  -- A draw is kept, or all that the fuel allows are thrown away.
  draw_cases :
      (n : ℕ) (g : Seed)
      → ((d : ℕ × Seed) × (draw_below pl n g ≡ ok d))
        ⊎ (AllThrown pl n g × (draw_below pl n g ≡ err out_of_fuel))
  unfolding draw_below AllThrown
  draw_cases zero g = inr (tt, refl)
  draw_cases (suc n) g = elim (Bool-cases (leb redraw_from (rand g).0)) [
    | inr kept ↦ inl (rand g, rw kept refl)
    | inl thrown ↦ elim (draw_cases n (rand g).1) [
      | inl (d, e) ↦ inl (d, rw thrown e)
      | inr (all, e) ↦ inr ((leb→le _ _ thrown, all), rw thrown e)
    ]
  ]

  -- Posting keeps a field ready.
  posts-Goes :
      (f : Field pl) (later : List (ℕ × Packet))
      → IsReady pl f
      → Goes pl 0 f (ok (record f { posts = later }))
  posts-Goes f later ready =
      (_, refl, posts-IsReady pl f ready later, (λ id h. h), (λ id h. h), omega arith)

  request-Goes :
      (f : Field pl) (job : Job F)
      → IsReady pl f
      → length f.db_requests + 1 ≤ request_room
      → Goes pl 1 f (request pl f job)
  unfolding request get_free_size
  request-Goes f job ready fits =
      let room : leb 8 (get_free_size ringbuffer_size 0 (8 * length f.db_requests)) ≡ true =
        ground arith in
      (
        record f { db_requests = f.db_requests ++ (job ∷ []) },
        rw room refl,
        record {
          placed = record {
            players_held = ready.placed.players_held;
            cached = ready.placed.cached;
          };
          monsters_held = ready.monsters_held;
          items_placed = ready.items_placed;
        },
        (λ id h. h),
        (λ id h. h),
        omega (arith, length-append f.db_requests (job ∷ [])),
      )

  pub broadcast-Goes :
      (skip : Player F → Bool) (packet : Packet) (near : List Sector) (f : Field pl)
      → IsReady pl f
      → Goes pl 0 f (ok (broadcast pl skip packet near f))
  broadcast-Goes skip packet near f ready =
      subst (λ g. Goes pl 0 f (ok g)) (sym (broadcast_lem pl skip packet near f))
        (posts-Goes f _ ready)

  place_item-Goes :
      (m : Monster F) (o : Option (ℕ × ℕ)) (f : Field pl)
      → IsReady pl f
      → Goes pl 0 f (place_item pl m o f)
  unfolding place_item broadcast_item_spawn
  place_item-Goes m none f ready = Goes-here pl f ready
  place_item-Goes m (some (item_id, count)) f ready =
      let s = calc_sector pl m.position in
      let on_map : in_map s ≡ true = calc_sector-in_map pl m.position in
      let i : Item F = record (new_item (f.item_unique_id + 1) item_id count m.position) {
        sector = s;
      } in
      let g : Field pl = record f {
        item_unique_id = f.item_unique_id + 1;
        items = i ∷ f.items;
        item_sectors = at_sector f.item_sectors s (i.item_unique_id ∷ f.item_sectors s);
      } in
      let (h, run, ready', kp, km, few) =
        broadcast-Goes (nobody pl) (item_spawn (item_spawn_of pl i)) (around s) g (record {
          placed = record {
            players_held = ready.placed.players_held;
            cached = ready.placed.cached;
          };
          monsters_held = ready.monsters_held;
          items_placed = (on_map, ready.items_placed);
        }) in
      (h, rw (around_ready pl f ready s on_map) run, ready', kp, km, few)

  seed-IsReady : (f : Field pl) (g : Seed) → IsReady pl f → IsReady pl (record f { seed = g })
  seed-IsReady f g ready = record {
    placed = record { players_held = ready.placed.players_held; cached = ready.placed.cached };
    monsters_held = ready.monsters_held;
    items_placed = ready.items_placed;
  }

  drop_item-Lands : (m : Monster F) (f : Field pl) → IsReady pl f → Lands pl 0 f (drop_item pl m f)
  unfolding drop_item roll_drop
  drop_item-Lands m f ready = elim (draw_cases draw_fuel f.seed) [
    | inr (thrown, e) ↦ inr (f.seed, thrown, rw e refl)
    | inl (d, e) ↦
        let (f', run, ready', kp, km, few) =
          place_item-Goes m (pick_drop (d.0 % 100) 0 drop_table) (record f { seed = d.1 })
            (seed-IsReady f d.1 ready) in
        inl (f', rw e run, ready', kp, km, few)
  ]

  -- A successful call with what it keeps.
  pub same_monster :
      (m : Monster F) (r : Result (Monster F))
      → SameMonster pl m r
      → (n : Monster F) × (r ≡ ok n)
        × (n.monster_id ≡ m.monster_id)
        × (n.sector ≡ m.sector)
        × (n.dest_sector ≡ m.dest_sector)
  same_monster m (ok n) h = (n, refl, h.0, h.1, h.2)
  same_monster m (err e) h = absurd h

  pub same_player :
      (p : Player F) (r : Result (Player F))
      → SamePlayer pl p r
      → (q : Player F) × (r ≡ ok q)
        × (q.seq_id ≡ p.seq_id)
        × (q.current_sector ≡ p.current_sector)
        × (q.dest_sector ≡ p.dest_sector)
  same_player p (ok q) h = (q, refl, h.0, h.1, h.2)
  same_player p (err e) h = absurd h

  -- The monster in its changed form, and what the players around it are told.
  told_monster-Goes :
      (m n : Monster F) (packet : Packet) (near : List Sector) (f : Field pl)
      → IsReady pl f
      → find (monster_key pl) n.monster_id f.monsters ≡ some m
      → n.sector ≡ m.sector
      → in_map n.dest_sector ≡ true
      → Goes pl 0 f (ok (broadcast pl (nobody pl) packet near (set_monster pl f n)))
  told_monster-Goes m n packet near f ready here same fits =
      Goes-bind pl 0 0 0 (omega arith) f (ok (set_monster pl f n))
        (λ g. ok (broadcast pl (nobody pl) packet near g))
        (set_monster-Goes pl f ready m n here same fits)
        (λ g e ready' kp km few. broadcast-Goes (nobody pl) packet near g ready')

  module _ (p : Player F) where
    killed-Lands :
        (m : Monster F) (b : Bool) (f : Field pl)
        → IsReady pl f
        → length f.db_requests + 1 ≤ request_room
        → Lands pl 1 f (if b then drop_item pl m f >>= request_kill_count_update pl p 1 else ok f)
    unfolding request_kill_count_update
    killed-Lands m false f ready fits =
        let (g, e, ready', kp, km, few) = Goes-here pl f ready in
        inl (g, e, ready', kp, km, omega arith)
    killed-Lands m true f ready fits =
        Lands-bind pl 0 1 1 (omega arith) f (drop_item pl m f) _ (drop_item-Lands m f ready)
          (λ g e ready' kp km few. inl (request-Goes g _ ready' (omega arith)))

    hit_monster-Lands :
        (m : Monster F) (f : Field pl)
        → IsReady pl f
        → find (monster_key pl) m.monster_id f.monsters ≡ some m
        → length f.db_requests + 1 ≤ request_room
        → Lands pl 1 f (hit_monster pl p m f)
    unfolding hit_monster broadcast_monster_damaged
    hit_monster-Lands m f ready here fits =
        let (n, run, id, sec, dst) =
          same_monster m _
            (take_damage-SameMonster pl m p.attack_power p.position p.direction (pos p.seq_id)) in
        let (on, to) = monster_on_map pl f ready m.monster_id m here in
        let near : get_around_sectors f.cache n.sector ≡ ok (around n.sector) =
          around_ready pl f ready n.sector (ap in_map sec ∙ on) in
        let here' : find (monster_key pl) n.monster_id f.monsters ≡ some m =
          ap (λ k. find (monster_key pl) k f.monsters) id ∙ here in
        rw (run, near)
          (Lands-bind pl 0 1 1 (omega arith) f
            (ok (broadcast_monster_damaged pl n (around n.sector) (set_monster pl f n)))
            (λ g.
              if Monster.state_eq n.state Monster.dead
              then drop_item pl n g >>= request_kill_count_update pl p 1
              else ok g)
            (inl (told_monster-Goes m n _ (around n.sector) f ready here' sec (ap in_map dst ∙ to)))
            (λ g e ready' kp km few. killed-Lands n _ g ready' (omega arith)))

    hit_targets-Lands :
        (range_len : ℕ) (ids : List ℕ) (f : Field pl)
        → IsReady pl f
        → length f.db_requests + 1 ≤ request_room
        → Lands pl 1 f (hit_targets pl p range_len 1 ids f)
    unfolding hit_targets
    hit_targets-Lands range_len [] f ready fits =
        let (g, e, ready', kp, km, few) = Goes-here pl f ready in
        inl (g, e, ready', kp, km, omega arith)
    hit_targets-Lands range_len (id ∷ ids) f ready fits =
        elim (Option-cases (find (monster_key pl) id f.monsters)) [
          | inl gone ↦ rw (gone, hit_targets) (hit_targets-Lands range_len ids f ready fits)
          | inr (m, here) ↦
              elim (Bool-cases (is_in_attack_range pl p.position m.position range_len)) [
                | inr far ↦
                    rw (here, hit_targets, far) (hit_targets-Lands range_len ids f ready fits)
                | inl near ↦
                    let key : m.monster_id ≡ id = key-find (monster_key pl) id f.monsters here in
                    let here' : find (monster_key pl) m.monster_id f.monsters ≡ some m =
                      ap (λ k. find (monster_key pl) k f.monsters) key ∙ here in
                    rw (here, hit_targets, near)
                      (Lands-bind pl 1 0 1 (omega arith) f (hit_monster pl p m f) (λ g. ok g)
                        (hit_monster-Lands m f ready here' fits)
                        (λ g e ready' kp km few. inl (Goes-here pl g ready')))
              ]
        ]

  pub process_player_attack_hit-Lands :
      (p : Player F) (f : Field pl)
      → IsReady pl f
      → find (player_key pl) p.seq_id f.players ≡ some p
      → length f.db_requests + 1 ≤ request_room
      → Lands pl 1 f (process_player_attack_hit pl p f)
  unfolding process_player_attack_hit get_skill_config
  process_player_attack_hit-Lands p f ready here fits =
      let targets =
        sort_targets pl (sorts_before pl p f.monsters)
          (valid_targets pl f.monsters p.pending_attack_targets) in
      let p' : Player F = record p { pending_attack_targets = targets } in
      elim (Bool-cases (p.pending_attack_skill_id == 0)) [
        | inl basic ↦ rw basic (
            Lands-bind pl 0 1 1 (omega arith) f (ok (set_player pl f p'))
              (λ g. hit_targets pl p' 160 1 targets g)
              (inl (
                set_player-Goes pl f ready p p' here refl
                  (player_on_map pl f ready p.seq_id p here).1))
              (λ g e ready' kp km few. hit_targets-Lands p' 160 targets g ready' (omega arith)))
        | inr other ↦
            let (g, e, ready', kp, km, few) = Goes-here pl f ready in
            inl (g, rw other e, ready', kp, km, omega arith)
      ]
