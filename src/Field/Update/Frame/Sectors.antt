-- ===== src/Field/Update/Frame/Sectors.antt =====
-- A monster's change of sector and the ageing of the items never stop the process.
use my_mmoproject.Base.{
  ℕ, ◌≡◌, refl, ap, ◌∙◌, true, ◌||◌, List, [], ◌∷◌, ◌++◌, some, arith, Bool-cases, inl, inr, ◌==◌,
}
use my_mmoproject.Sector.{Sector, around, sector_eq, erase_common, calc_despawn_and_spawn_sector}
use my_mmoproject.Sector.Diff.{sector_eq_refl}
use my_mmoproject.Actor.{Platform}
use my_mmoproject.Monster.{Monster}
use my_mmoproject.Monster
use my_mmoproject.Packet.{Packet, monster_spawn, monster_despawn, item_despawn}
use my_mmoproject.Field.{
  Field, Item, find, set_at, remove_at, item_key, elem, erase, at_sector, update_item, is_expired,
}
use my_mmoproject.Field.Find.{key-find}
use my_mmoproject.Field.Broadcast.{
  addressed, audience, monster_spawn_of, broadcast, broadcast_lem, nobody, broadcast_monster_spawn,
  broadcast_monster_despawn, broadcast_item_despawn,
}
use my_mmoproject.Field.Report.{monster_key}
use my_mmoproject.Field.Update.Passes.{
  move_monster, change_monster_sector, relocate, age_item, age_items,
}
use my_mmoproject.Field.Update.Passes.Held.{stands_in, relocate-IsHeld}
use my_mmoproject.Field.Update.Frame.Ready.{
  All, IsReady, Goes, Goes-bind, Goes-here, around_ready, monster_on_map, LiesOnMap, set_at-Kept,
}
use my_mmoproject.Field.Update.Frame.Ticks.{HasMonster}

module _ (pl : Platform) where
  open pl use {F}

  two_broadcasts :
      (f : Field pl) (first : Packet) (near : List Sector) (second : Packet) (far : List Sector)
      → (later : List (ℕ × Packet)) × (broadcast pl
            (nobody pl)
            second
            far
            (broadcast pl (nobody pl) first near f)
          ≡ record f { posts = later })
  two_broadcasts f first near second far = (
    _,
    ap (broadcast pl (nobody pl) second far) (broadcast_lem pl (nobody pl) first near f)
        ∙ broadcast_lem pl (nobody pl) second far _,
  )

  -- The monster behind its change of sector.
  entered : Monster F → Monster F
  entered m = record m { sector = m.dest_sector }

  pub move_monster-Goes :
      (id : ℕ) (f : Field pl)
      → IsReady pl f
      → HasMonster pl id f
      → Goes pl 0 f (move_monster pl id f)
  unfolding move_monster change_monster_sector calc_despawn_and_spawn_sector broadcast_monster_spawn
      broadcast_monster_despawn entered
  move_monster-Goes id f ready (m, here) =
      let stays =
        Monster.state_eq m.before_state Monster.dead || sector_eq m.sector m.dest_sector in
      let (on, to) = monster_on_map pl f ready id m here in
      let key : m.monster_id ≡ id = key-find (monster_key pl) id f.monsters here in
      let here' : find (monster_key pl) m.monster_id f.monsters ≡ some m =
        ap (λ k. find (monster_key pl) k f.monsters) key ∙ here in
      let held : elem m.monster_id (f.monster_sectors m.sector) ≡ true =
        ready.monsters_held.held m.monster_id m.sector
        ∙ ap
            (stands_in (monster_key pl) (λ (q : Monster F). q.sector)
              (λ (q : Monster F). q.dest_sector) m.sector)
            here'
        ∙ sector_eq_refl m.sector in
      elim (Bool-cases stays) [
        | inl still ↦ rw (here, still) (Goes-here pl f ready)
        | inr moves ↦
            let (spawn, despawn) = erase_common (around m.dest_sector) (around m.sector) in
            let (later, told) =
              two_broadcasts f (monster_spawn (monster_spawn_of pl m)) spawn
                (monster_despawn m.monster_id) despawn in
            (
              record f {
                posts = later;
                monsters = set_at (monster_key pl) m.monster_id (entered m) f.monsters;
                monster_sectors = relocate m.monster_id m.sector m.dest_sector f.monster_sectors;
              },
              rw
                  (
                    here,
                    moves,
                    held,
                    around_ready pl f ready m.dest_sector to,
                    around_ready pl f ready m.sector on,
                    told,
                  )
                  refl,
              record {
                placed = record {
                  players_held = ready.placed.players_held;
                  cached = ready.placed.cached;
                };
                monsters_held =
                    relocate-IsHeld (monster_key pl) (λ (q : Monster F). q.sector)
                      (λ (q : Monster F). q.dest_sector) f.monsters f.monster_sectors
                      ready.monsters_held m (entered m) here' to refl;
                items_placed = ready.items_placed;
              },
              (λ k h. h),
              set_at-Kept (monster_key pl) (entered m) f.monsters here',
              omega arith,
            )
      ]

  All-remove_at :
      (id : ℕ) (items : List (Item F))
      → All (LiesOnMap pl) items
      → All (LiesOnMap pl) (remove_at (item_key pl) id items)
  All-remove_at id [] h = tt
  All-remove_at id (i ∷ items) (h, hs) = elim (Bool-cases (id == i.item_unique_id)) [
    | inl same ↦ rw same (All-remove_at id items hs)
    | inr differs ↦ rw differs (h, All-remove_at id items hs)
  ]

  All-set_at :
      (id : ℕ) (new : Item F) (items : List (Item F))
      → LiesOnMap pl new
      → All (LiesOnMap pl) items
      → All (LiesOnMap pl) (set_at (item_key pl) id new items)
  All-set_at id new [] k h = tt
  All-set_at id new (i ∷ items) k (h, hs) = elim (Bool-cases (id == i.item_unique_id)) [
    | inl same ↦ rw same (k, hs)
    | inr differs ↦ rw differs (h, All-set_at id new items k hs)
  ]

  age_item-Goes :
      (i : Item F) (f : Field pl) → IsReady pl f → LiesOnMap pl i → Goes pl 0 f (age_item pl i f)
  unfolding age_item update_item broadcast_item_despawn
  age_item-Goes i f ready on = elim (Bool-cases (is_expired (update_item i))) [
    | inl old ↦ (
      record f {
        posts =
            f.posts
            ++ addressed pl (item_despawn i.item_unique_id)
                (audience pl (nobody pl) (around i.sector) f);
        items = remove_at (item_key pl) i.item_unique_id f.items;
        item_sectors =
            at_sector f.item_sectors i.sector (erase i.item_unique_id (f.item_sectors i.sector));
      },
      rw
          (
            old,
            around_ready pl f ready i.sector on,
            broadcast_lem pl (nobody pl) (item_despawn i.item_unique_id) (around i.sector) f,
          )
          refl,
      record {
        placed = record { players_held = ready.placed.players_held; cached = ready.placed.cached };
        monsters_held = ready.monsters_held;
        items_placed = All-remove_at i.item_unique_id f.items ready.items_placed;
      },
      (λ k h. h),
      (λ k h. h),
      omega arith,
    )
    | inr young ↦ (
      record f { items = set_at (item_key pl) i.item_unique_id (update_item i) f.items },
      rw young refl,
      record {
        placed = record { players_held = ready.placed.players_held; cached = ready.placed.cached };
        monsters_held = ready.monsters_held;
        items_placed = All-set_at i.item_unique_id (update_item i) f.items on ready.items_placed;
      },
      (λ k h. h),
      (λ k h. h),
      omega arith,
    )
  ]

  pub age_items-Goes :
      (items : List (Item F)) (f : Field pl)
      → IsReady pl f
      → All (LiesOnMap pl) items
      → Goes pl 0 f (age_items pl items f)
  unfolding age_items
  age_items-Goes [] f ready h = Goes-here pl f ready
  age_items-Goes (i ∷ items) f ready (h, hs) =
      Goes-bind pl 0 0 0 (omega arith) f (age_item pl i f) (age_items pl items)
        (age_item-Goes i f ready h) (λ g e ready' kp km few. age_items-Goes items g ready' hs)
