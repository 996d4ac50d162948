-- ===== src/Field/Loot.antt =====
-- LOOT_REQ (handleLootReq): an item goes to one player, once.
use my_mmoproject.Base.{
  ℕ, ◌+◌, ◌≡◌, ◌≢◌, refl, ap, ◌∙◌, true, false, List, [], ◌∷◌, ◌++◌, Option, none, some, ◌==◌,
  Bool-cases, inl, inr, arith,
}
use my_mmoproject.Fault.{ok}
use my_mmoproject.Sector.Diff.{sector_eq_refl}
use my_mmoproject.Sector.{Sector, get_around_sectors}
use my_mmoproject.Message.{Message, shift_out}
use my_mmoproject.Actor.{Platform, distance}
use my_mmoproject.Player.{Player}
use my_mmoproject.Packet.{item_despawn, loot_res}
use my_mmoproject.Field.{
  Field, Item, find, set_at, remove_at, erase, elem, set_player, player_key, item_key, at_sector,
  post,
}
use my_mmoproject.Field.Broadcast.{
  broadcast_item_despawn, broadcast_lem, nobody, audience, addressed, send_loot_res,
}
use my_mmoproject.Field.Handlers.{
  loot, take_item, handle_loot_req, add_to_inventory, item_id_max, loot_range,
}

module _ {A : Type 0} (key : A → ℕ) where
  pub find-set_at :
      (id : ℕ) (new : A) (as' : List A) {old : A}
      → find key id as' ≡ some old
      → key new ≡ id
      → find key id (set_at key id new as') ≡ some new
  find-set_at id new [] e k = absurd (ground (arith, e))
  find-set_at id new (a ∷ as') {old} e k = elim (Bool-cases (id == key a)) [
    | inl hit ↦ let back : (id == key new) ≡ true = ground (arith, k) in rw (hit, back) refl
    | inr miss ↦
        let deeper : find key id as' ≡ some old = (rw miss at e) in
        rw (miss, miss) (find-set_at id new as' deeper k)
  ]

  pub find-remove_at : (id : ℕ) (as' : List A) → find key id (remove_at key id as') ≡ none
  find-remove_at id [] = refl
  find-remove_at id (a ∷ as') = ground (arith, find-remove_at id as')

  pub find-remove_at_other :
      (id other : ℕ) (as' : List A)
      → other ≢ id
      → find key other (remove_at key id as') ≡ find key other as'
  find-remove_at_other id other [] h = refl
  find-remove_at_other id other (a ∷ as') h = ground (arith, h, find-remove_at_other id other as' h)

pub elem-erase : (id : ℕ) (ids : List ℕ) → elem id (erase id ids) ≡ false
elem-erase id [] = refl
elem-erase id (b ∷ bs) = ground (arith, elem-erase id bs)

-- What take_item makes of the field.
module _ (pl : Platform) (f : Field pl) (p : Player pl.F) (i : Item pl.F) (near : List Sector) where
  abbrev pub paid : Player pl.F
  paid = add_to_inventory pl p i.item_id i.count

  abbrev pub heard : Field pl
  heard = set_player pl f paid

  abbrev taken : Field pl
  taken = record heard {
    posts =
        (f.posts
          ++ addressed pl (item_despawn i.item_unique_id) (audience pl (nobody pl) near heard))
        ++ ((p.seq_id, loot_res 0 i.item_id i.count) ∷ []);
    total_loot = f.total_loot + 1;
    item_sectors =
        at_sector f.item_sectors i.sector (erase i.item_unique_id (f.item_sectors i.sector));
    items = remove_at (item_key pl) i.item_unique_id f.items;
  }

  take_item_lem :
      get_around_sectors f.cache i.sector ≡ ok near
      → elem i.item_unique_id (f.item_sectors i.sector) ≡ true
      → take_item pl f p i ≡ ok taken
  unfolding take_item send_loot_res broadcast_item_despawn
  take_item_lem around held =
      rw (around, broadcast_lem pl (nobody pl) (item_despawn i.item_unique_id) near heard, held)
        refl

  -- An item within reach goes to the player: his inventory has its count more, the item is gone from
  -- the field and from its sector while every other item stays, the players around its sector hear of
  -- its despawn, and the player hears, after that, of his success.
  pub loot_taken :
      (msg : Message) {m : Message}
      → shift_out msg 8 ≡ ok (m, i.item_unique_id)
      → find (player_key pl) p.seq_id f.players ≡ some p
      → find (item_key pl) i.item_unique_id f.items ≡ some i
      → pl.flt (pl.of_int loot_range) (distance pl p.position i.position) ≡ false
      → get_around_sectors f.cache i.sector ≡ ok near
      → elem i.item_unique_id (f.item_sectors i.sector) ≡ true
      → (f' : Field pl) × (handle_loot_req pl f msg p.seq_id ≡ ok f')
        × (find (player_key pl) p.seq_id f'.players
            ≡ some (add_to_inventory pl p i.item_id i.count))
        × (find (item_key pl) i.item_unique_id f'.items ≡ none)
        × (elem i.item_unique_id (f'.item_sectors i.sector) ≡ false)
        × ((other : ℕ)
            → other ≢ i.item_unique_id
            → find (item_key pl) other f'.items ≡ find (item_key pl) other f.items)
        × (f'.posts
            ≡ (f.posts
                ++ addressed pl
                    (item_despawn i.item_unique_id)
                    (audience pl (nobody pl) near heard))
              ++ ((p.seq_id, loot_res 0 i.item_id i.count) ∷ []))
  unfolding handle_loot_req loot
  loot_taken msg read here there close around held =
      let cleared : at_sector f.item_sectors i.sector
            (erase i.item_unique_id (f.item_sectors i.sector)) i.sector
          ≡ erase i.item_unique_id (f.item_sectors i.sector) =
        rw (sector_eq_refl i.sector) refl in
      (
        taken,
        rw (read, here, there, close) (take_item_lem around held),
        find-set_at (player_key pl) p.seq_id paid f.players here refl,
        find-remove_at (item_key pl) i.item_unique_id f.items,
        ap (elem i.item_unique_id) cleared ∙ elem-erase i.item_unique_id (f.item_sectors i.sector),
        (λ other differs.
            find-remove_at_other (item_key pl) i.item_unique_id other f.items differs),
        refl,
      )

module _ (pl : Platform) (f : Field pl) (seq_id id : ℕ) where
  open pl use {F, flt, of_int}

  -- An item that is not there any more, or that lies out of reach, is refused: the player is told so
  -- (result 1), and nothing else of the field changes.
  pub loot_refused :
      (msg : Message) {m : Message} {p : Player F}
      → shift_out msg 8 ≡ ok (m, id)
      → find (player_key pl) seq_id f.players ≡ some p
      → ((i : Item F)
          → find (item_key pl) id f.items ≡ some i
          → flt (of_int loot_range) (distance pl p.position i.position) ≡ true)
      → handle_loot_req pl f msg seq_id ≡ ok (post pl f p.seq_id (loot_res 1 item_id_max 0))
  unfolding handle_loot_req loot send_loot_res
  loot_refused msg {p = p} read here far =
      rw (read, here) (refuse (find (item_key pl) id f.items) far)
    where
      refuse :
          (o : Option (Item F))
          → ((i : Item F)
              → o ≡ some i
              → flt (of_int loot_range) (distance pl p.position i.position) ≡ true)
          → loot pl f p o ≡ ok (post pl f p.seq_id (loot_res 1 item_id_max 0))
      refuse none far = refl
      refuse (some i) far = rw (far i refl) refl
