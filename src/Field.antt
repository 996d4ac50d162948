-- ===== src/Field.antt =====
-- A field of FieldServer/FieldServer.cpp: its players, monsters and items, the sectors that they stand
-- in, and what it has posted to sessions. A `Player*` is the player's session id, a `Monster*` or
-- `FieldItem*` its id; a message given to sendPost stands as its packet, whose bytes
-- `Packet.compose` makes. An unordered container is a list in the order in which the loops meet it.
pub mod Broadcast
pub mod Handlers
pub mod Moves
pub mod Loot
pub mod Report
pub mod Find
pub mod Update
pub mod Leave
pub mod Serve
mod Tests
use my_mmoproject.Base.{
  ℕ, zero, suc, ◌+◌, ◌-◌, Bool, true, false, List, [], ◌∷◌, ◌++◌, Option, none, some, ltb, leb,
  ◌==◌, not, if◌then◌else◌,
}
use my_mmoproject.Base.Int.{ℤ}
use my_mmoproject.Fault.{Result, ok, err, debug_break, ◌>>=◌, ◌>>◌, my_assert}
use my_mmoproject.Sector.{Sector, sector_eq, Cache}
use my_mmoproject.Actor.{Platform, Position, calc_sector}
use my_mmoproject.Monster.{Monster}
use my_mmoproject.Player.{Player}
use my_mmoproject.Packet.{Packet}

-- FieldItem
pub record Item (F : Type 0) : Type 0 where
  pub item_unique_id : ℕ
  pub item_id : ℕ
  pub count : ℕ
  pub position : Position F
  pub sector : Sector
  pub life_frame : ℕ

-- A constructed FieldItem.
abbrev pub new_item : {F : Type 0} → ℕ → ℕ → ℕ → Position F → Item F
new_item unique_id item_id count p = record {
  item_unique_id = unique_id;
  item_id = item_id;
  count = count;
  position = p;
  sector = record { x = 0; y = 0 };
  life_frame = 0;
}

-- FieldItem::Update and FieldItem::IsExpired
unfoldable pub update_item : {F : Type 0} → Item F → Item F
update_item i = record i { life_frame = i.life_frame + 1 }

unfoldable pub is_expired : {F : Type 0} → Item F → Bool
is_expired i = leb 1500 i.life_frame

-- sectors, monsterSectors and itemSectors: the ids in each sector.
abbrev pub Sectors : Type 0
Sectors = Sector → List ℕ

abbrev pub elem : ℕ → List ℕ → Bool
elem a [] = false
elem a (b ∷ bs) = let rest = elem a bs in if a == b then true else rest

abbrev pub erase : ℕ → List ℕ → List ℕ
erase a [] = []
erase a (b ∷ bs) = let rest = erase a bs in if a == b then rest else b ∷ rest

abbrev pub at_sector : Sectors → Sector → List ℕ → Sectors
at_sector m s ids t = if sector_eq t s then ids else m t

-- What the parts of a field are found by.
abbrev pub find {ℓ} : {A : Type ℓ} → (A → ℕ) → ℕ → List A → Option A
find key id [] = none
find key id (a ∷ as') = let rest = find key id as' in if id == key a then some a else rest

-- A change of the object at `id` in place.
abbrev pub set_at {ℓ} : {A : Type ℓ} → (A → ℕ) → ℕ → A → List A → List A
set_at key id new [] = []
set_at key id new (a ∷ as') =
    let rest = set_at key id new as' in if id == key a then new ∷ as' else a ∷ rest

abbrev pub remove_at {ℓ} : {A : Type ℓ} → (A → ℕ) → ℕ → List A → List A
remove_at key id [] = []
remove_at key id (a ∷ as') =
    let rest = remove_at key id as' in if id == key a then rest else a ∷ rest

-- The objects that a sector's ids stand for.
abbrev pub push_found {ℓ} : {A : Type ℓ} → Option A → List A → List A
push_found none as' = as'
push_found (some a) as' = a ∷ as'

abbrev pub resolve {ℓ} : {A : Type ℓ} → (A → ℕ) → List A → List ℕ → List A
resolve key as' [] = []
resolve key as' (id ∷ ids) = push_found (find key id as') (resolve key as' ids)

abbrev pub found {ℓ} : {A : Type ℓ} → Option A → Result A
found none = err debug_break
found (some a) = ok a

-- What a field tells the authentication thread: notifyDisconnect and notifyMoveField, by the account.
pub data Notice : Type 0 where
  player_disconnected : ℕ → Notice
  player_move_field : ℕ → ℤ → Notice

-- DBJob: DBPositionSave, DBKillCountUpdate and DBRankingQuery.
pub data Job (F : Type 0) : Type 0 where
  position_save : ℕ → ℕ → Position F → Job F
  kill_count_update : ℕ → ℕ → ℕ → ℕ → Job F
  ranking_query : ℕ → ℕ → ℕ → Job F

module _ (pl : Platform) where
  open pl use {F, Seed}

  pub record Field : Type 0 where
    pub players : List (Player F)
    pub sectors : Sectors
    pub monsters : List (Monster F)
    pub monster_sectors : Sectors
    pub items : List (Item F)
    pub item_sectors : Sectors
    pub cache : Cache
    pub posts : List (ℕ × Packet)
    pub disconnects : List ℕ
    pub disconnect_sync : ℕ
    pub total_loot : ℕ
    pub seed : Seed
    pub item_unique_id : ℕ
    pub db_requests : List (Job F)
    pub notifies : List Notice

  abbrev pub player_key : Player F → ℕ
  player_key p = p.seq_id

  abbrev pub item_key : Item F → ℕ
  item_key i = i.item_unique_id

  -- sendPost
  abbrev pub post : Field → ℕ → Packet → Field
  post f session packet = record f { posts = f.posts ++ ((session, packet) ∷ []) }

  -- disconnectSession
  abbrev pub disconnect : Field → ℕ → Field
  disconnect f session = record f { disconnects = f.disconnects ++ (session ∷ []) }

  abbrev pub members : Field → Sector → List (Player F)
  members f s = resolve player_key f.players (f.sectors s)

  abbrev pub set_player : Field → Player F → Field
  set_player f p = record f { players = set_at player_key p.seq_id p f.players }

  -- enterSector: the player, and the field with the player in its sector.
  unfoldable pub enter_sector : Field → Player F → Result Field
  enter_sector f p =
      let s = calc_sector pl p.position in
      my_assert (not (elem p.seq_id (f.sectors s)))
      >> ok (record (set_player f (record p { dest_sector = s; current_sector = s })) {
        sectors = at_sector f.sectors s (p.seq_id ∷ f.sectors s);
      })

  -- removeFromSector
  unfoldable pub remove_from_sector : Field → Player F → Result Field
  remove_from_sector f p =
      my_assert (elem p.seq_id (f.sectors p.current_sector))
      >> ok (record f {
        sectors =
            at_sector f.sectors p.current_sector (erase p.seq_id (f.sectors p.current_sector));
      })

  -- updateSectorChechk
  unfoldable pub update_sector_check : Player F → Player F
  update_sector_check p =
      let s = calc_sector pl p.position in
      if sector_eq s p.current_sector then p else record p { dest_sector = s }

  -- updateMonsterSectorCheck
  unfoldable pub update_monster_sector_check : Monster F → Monster F
  update_monster_sector_check m =
      let s = calc_sector pl m.position in
      if sector_eq s m.sector then m else record m { dest_sector = s }
