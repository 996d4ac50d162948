-- ===== src/Field/Update/Frame/Whole.antt =====
-- fieldUpdate never stops the process.
use my_mmoproject.Base.{
  ℕ, inl, inr, ◌⊎◌, ◌+◌, ◌≤◌, ◌≡◌, refl, sym, ap, ◌∙◌, subst, true, some, List, [], ◌∷◌, length,
  map, arith,
}
use my_mmoproject.Fault.{Result, ok, err, out_of_fuel, ◌>>=◌}
use my_mmoproject.Actor.{Platform}
use my_mmoproject.Player.{Player}
use my_mmoproject.Field.{Field, find, player_key, elem}
use my_mmoproject.Field.Find.{find-elem}
use my_mmoproject.Field.Report.{monster_key}
use my_mmoproject.Field.Update.Passes.{
  each, tick_player, move_player, tick_monster, move_monster, age_items, field_update, player_ids,
  monster_ids,
}
use my_mmoproject.Field.Update.Passes.Placed.{pass-Moves, still_there}
use my_mmoproject.Field.Update.Frame.Ready.{
  All, IsReady, IsMonstersHeld, LiesOnMap, Goes, AllThrown, Lands, Lands-bind, each-Lands, times,
}
use my_mmoproject.Field.Update.Frame.Strikes.{request_room}
use my_mmoproject.Field.Update.Frame.Sectors.{move_monster-Goes, age_items-Goes}
use my_mmoproject.Field.Update.Frame.Ticks.{
  HasPlayer, HasMonster, tick_player-Lands, tick_monster-Goes,
}

-- What the container has at its start is found in it.
All-found :
    {A : Type 0} (key : A → ℕ) (as' : List A) (ids : List ℕ)
    → ((id : ℕ) → elem id ids ≡ true → elem id (map key as') ≡ true)
    → All (λ id. (a : A) × (find key id as' ≡ some a)) ids
All-found key as' [] h = tt
All-found key as' (id ∷ ids) h = (
  find-elem key id as' (h id (ground arith)),
  All-found key as' ids (λ k e. h k (ground (arith, e))),
)

module _ (pl : Platform) where
  open pl use {F}

  times_one : (as' : List (Player F)) → times pl 1 (map (player_key pl) as') ≡ length as'
  times_one [] = refl
  times_one (a ∷ as') = omega (arith, times_one as')

  times_zero : (ids : List ℕ) → times pl 0 ids ≡ 0
  times_zero [] = refl
  times_zero (id ∷ ids) = omega (arith, times_zero ids)

  players-Lands :
      (f : Field pl)
      → IsReady pl f
      → length f.db_requests + length f.players ≤ request_room
      → Lands pl (length f.players) f (each pl (tick_player pl) (player_ids pl f) f)
  players-Lands f ready fits =
      subst (λ n. Lands pl n f (each pl (tick_player pl) (player_ids pl f) f)) (times_one f.players)
        (each-Lands pl (HasPlayer pl) (λ a b id kp km h. kp id h) 1 request_room (tick_player pl)
          (λ id g r h room. tick_player-Lands pl id g r h room) (player_ids pl f) f ready
          (All-found (player_key pl) f.players (player_ids pl f) (λ id h. h))
          (omega (arith, times_one f.players)))

  moves-Goes :
      (f : Field pl) → IsReady pl f → Goes pl 0 f (each pl (move_player pl) (player_ids pl f) f)
  moves-Goes f ready =
      let (g, e, placed, rest, look) = pass-Moves pl f ready.placed in
      (
        g,
        e,
        record {
          placed = placed;
          monsters_held =
              subst (λ m. IsMonstersHeld pl m g.monster_sectors) (sym rest.monsters)
                (subst (λ s. IsMonstersHeld pl f.monsters s) (sym rest.monster_sectors)
                  ready.monsters_held);
          items_placed = subst (All (LiesOnMap pl)) (sym rest.items) ready.items_placed;
        },
        (λ id (p, here).
            let (q, is) = still_there pl (elem id (player_ids pl f)) _ here in (q, look id ∙ is)),
        (λ id (m, here). (m, ap (find (monster_key pl) id) rest.monsters ∙ here)),
        (let same : length g.db_requests ≡ length f.db_requests = ap length rest.requests in
            omega arith),
      )

  monsters-Lands :
      (step : ℕ → Field pl → Result (Field pl))
      → ((id : ℕ) (f : Field pl) → IsReady pl f → HasMonster pl id f → Goes pl 0 f (step id f))
      → (f : Field pl) → IsReady pl f
      → length f.db_requests ≤ request_room
      → Lands pl 0 f (each pl step (monster_ids pl f) f)
  monsters-Lands step go f ready fits =
      subst (λ n. Lands pl n f (each pl step (monster_ids pl f) f)) (times_zero (monster_ids pl f))
        (each-Lands pl (HasMonster pl) (λ a b id kp km h. km id h) 0 request_room step
          (λ id g r h room. inl (go id g r h)) (monster_ids pl f) f ready
          (All-found (monster_key pl) f.monsters (monster_ids pl f) (λ id h. h))
          (omega (arith, times_zero (monster_ids pl f))))

  -- A frame never stops the process in an assertion: on a field whose players and monsters stand where the
  -- sectors say and whose items lie on the map, with room in the request ring for one request of each
  -- player, fieldUpdate returns, its field is such a field again, and it has made at most one request
  -- for each player; or a loop of rollDrop has thrown away a thousand draws in a row, each of 32700 or
  -- more, and that alone has ended the model's run.
  pub field_update_succeeds :
      (f : Field pl)
      → IsReady pl f
      → length f.db_requests + length f.players ≤ request_room
      → ((f' : Field pl) × (field_update pl f ≡ ok f')
          × IsReady pl f'
          × (length f'.db_requests ≤ length f.db_requests + length f.players))
        ⊎ ((g : pl.Seed) × AllThrown pl 1000 g × (field_update pl f ≡ err out_of_fuel))
  unfolding field_update
  field_update_succeeds f ready fits =
      let n = length f.players in
      elim (Lands-bind pl n 0 n (omega arith) f (each pl (tick_player pl) (player_ids pl f) f)
        (λ f1. each pl (move_player pl) (player_ids pl f1) f1 >>= λ f2.
          each pl (tick_monster pl) (monster_ids pl f2) f2 >>= λ f3.
          each pl (move_monster pl) (monster_ids pl f3) f3 >>= λ f4. age_items pl f4.items f4)
        (players-Lands f ready fits)
        (λ f1 e1 r1 kp1 km1 few1.
          Lands-bind pl 0 0 0 (omega arith) f1 (each pl (move_player pl) (player_ids pl f1) f1) _
            (inl (moves-Goes f1 r1))
            (λ f2 e2 r2 kp2 km2 few2.
              Lands-bind pl 0 0 0 (omega arith) f2
                (each pl (tick_monster pl) (monster_ids pl f2) f2) _
                (monsters-Lands (tick_monster pl) (tick_monster-Goes pl) f2 r2 (omega arith))
                (λ f3 e3 r3 kp3 km3 few3.
                  Lands-bind pl 0 0 0 (omega arith) f3
                    (each pl (move_monster pl) (monster_ids pl f3) f3) _
                    (monsters-Lands (move_monster pl) (move_monster-Goes pl) f3 r3 (omega arith))
                    (λ f4 e4 r4 kp4 km4 few4.
                      inl (age_items-Goes pl f4.items f4 r4 r4.items_placed)))))) [
                        | inl (g, e, ready', kp, km, few) ↦ inl (g, e, ready', few)
                        | inr (g, thrown, e) ↦ inr (g, thrown, e)
                      ]
