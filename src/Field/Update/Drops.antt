-- ===== src/Field/Update/Drops.antt =====
-- What a dead monster leaves behind (rollDrop of FieldServer/DropTable.h, dropItem), and the job for
-- the database that its death makes.
use my_mmoproject.Base.{
  ℕ, zero, suc, ◌+◌, ◌*◌, ◌%◌, List, [], ◌∷◌, ◌++◌, Option, none, some, leb, ltb, if◌then◌else◌,
  length,
}
use my_mmoproject.Fault.{Result, ok, err, out_of_fuel, ◌>>=◌, ◌>>◌, my_assert}
use my_mmoproject.Ring.{ringbuffer_size}
use my_mmoproject.Ring.Geometry.{get_free_size}
use my_mmoproject.Sector.{get_around_sectors}
use my_mmoproject.Actor.{Platform, calc_sector}
use my_mmoproject.Monster.{Monster}
use my_mmoproject.Player.{Player}
use my_mmoproject.Field.{Field, Item, new_item, at_sector, Job, kill_count_update, ranking_query}
use my_mmoproject.Field.Broadcast.{broadcast_item_spawn}

-- DropEntry: the item, how many, and its weight.
pub record DropEntry : Type 0 where
  pub item_id : ℕ
  pub count : ℕ
  pub drop_rate : ℕ

-- kDropTable; eItemId::Gold is 0 and Potion 1.
abbrev pub drop_table : List DropEntry
drop_table =
    record { item_id = 0; count = 1; drop_rate = 50 }
    ∷ record { item_id = 0; count = 5; drop_rate = 20 }
    ∷ record { item_id = 0; count = 10; drop_rate = 10 }
    ∷ record { item_id = 1; count = 1; drop_rate = 20 }
    ∷ []

-- The loop over the table, with the weights so far.
unfoldable pub pick_drop : ℕ → ℕ → List DropEntry → Option (ℕ × ℕ)
pick_drop roll acc [] = none
pick_drop roll acc (e ∷ es) =
    let rest = pick_drop roll (acc + e.drop_rate) es in
    if ltb roll (acc + e.drop_rate) then some (e.item_id, e.count) else rest

-- Draws of 32700 … 32767 are thrown away; after as many of them as the fuel allows.
abbrev pub redraw_from : ℕ
redraw_from = 32700

abbrev pub draw_fuel : ℕ
draw_fuel = 1000

module _ (pl : Platform) where
  open pl use {F, Seed, rand}

  -- The loop of rollDrop: a draw that is kept, and the seed behind it.
  unfoldable pub draw_below : ℕ → Seed → Result (ℕ × Seed)
  draw_below zero g = err out_of_fuel
  draw_below (suc n) g =
      let again = draw_below n (rand g).1 in
      if leb redraw_from (rand g).0 then again else ok (rand g)

  unfoldable pub roll_drop : Seed → Result (Option (ℕ × ℕ) × Seed)
  roll_drop g = do (draw, g') ← draw_below draw_fuel g; ok (pick_drop (draw % 100) 0 drop_table, g')

  -- dropItem behind the roll; InterlockedIncrement64 gives the new id.
  unfoldable pub place_item : Monster F → Option (ℕ × ℕ) → Field pl → Result (Field pl)
  place_item m none f = ok f
  place_item m (some (item_id, count)) f =
      let s = calc_sector pl m.position in
      let i : Item F = record (new_item (f.item_unique_id + 1) item_id count m.position) {
        sector = s;
      } in
      let f' : Field pl = record f {
        item_unique_id = f.item_unique_id + 1;
        items = i ∷ f.items;
        item_sectors = at_sector f.item_sectors s (i.item_unique_id ∷ f.item_sectors s);
      } in
      get_around_sectors f.cache s >>= λ near. ok (broadcast_item_spawn pl i near f')

  unfoldable pub drop_item : Monster F → Field pl → Result (Field pl)
  drop_item m f = do (drop, g) ← roll_drop f.seed; place_item m drop (record f { seed = g })

  -- `mDBReqQ[fieldIdx]->Enqueue(&job, sizeof(job))`: the ring takes pointers of 8 bytes. The jobs are
  -- those that the database thread has not taken.
  unfoldable pub request : Field pl → Job F → Result (Field pl)
  request f job =
      my_assert (leb 8 (get_free_size ringbuffer_size 0 (8 * length f.db_requests)))
      >> ok (record f { db_requests = f.db_requests ++ (job ∷ []) })

  unfoldable pub request_kill_count_update : Player F → ℕ → Field pl → Result (Field pl)
  request_kill_count_update p kill_cnt f =
      request f (kill_count_update p.seq_id p.account_no p.nickname kill_cnt)

  unfoldable pub request_ranking_query : Player F → Field pl → Result (Field pl)
  request_ranking_query p f = request f (ranking_query p.seq_id p.account_no p.nickname)
