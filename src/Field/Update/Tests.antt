-- ===== src/Field/Update/Tests.antt =====
-- A frame of a field with a player who is about to change his sector, and the theorems there.
use my_mmoproject.Base.{refl, ◌⊎◌, ◌≤◌, length, ℕ, ◌≡◌, [], ◌∷◌, some, if◌then◌else◌, arith}
use my_mmoproject.Fault.{ok, err, out_of_fuel}
use my_mmoproject.Sector.{sector_eq}
use my_mmoproject.Sector.Cache.{near_sector_initialization_lem}
use my_mmoproject.Actor.{Platform}
use my_mmoproject.Actor.Naturals.{naturals}
use my_mmoproject.Player.{Player}
use my_mmoproject.Field.{Field, find, player_key}
use my_mmoproject.Field.Tests.{make_player, corner, meadow, grey_wolf, coin}
use my_mmoproject.Field.Update.Passes.{each, move_player, player_ids, field_update}
use my_mmoproject.Field.Update.Frame.Ready.{IsReady, AllThrown}
use my_mmoproject.Field.Update.Frame.Whole.{field_update_succeeds}
use my_mmoproject.Field.Update.Passes.Placed.{IsPlacedIn, IsPlaced, arrived, move_players-IsPlaced}

abbrev walker : Player ℕ
walker = record (make_player 1) { dest_sector = record { x = 1; y = 0 } }

abbrev crossing : Field naturals
crossing = record meadow {
  players = walker ∷ make_player 2 ∷ [];
  sectors = λ s. if sector_eq s corner then 1 ∷ 2 ∷ [] else [];
  cache = near_sector_initialization_lem.0;
}

crossing_held : IsPlacedIn naturals crossing.players crossing.sectors
crossing_held = record { held = λ id s. ground arith; mapped = λ id. ground arith }

crossing-IsPlaced : IsPlaced naturals crossing
crossing-IsPlaced = record {
  players_held = crossing_held;
  cached = near_sector_initialization_lem.1;
}

move_players-IsPlaced_example :
    (f' : Field naturals) × (each naturals
        (move_player naturals)
        (player_ids naturals crossing)
        crossing
      ≡ ok f')
    × IsPlaced naturals f'
    × ((id : ℕ) (p : Player ℕ)
        → find (player_key naturals) id crossing.players ≡ some p
        → find (player_key naturals) id f'.players ≡ some (arrived naturals p))
move_players-IsPlaced_example = move_players-IsPlaced naturals crossing crossing-IsPlaced

-- The machine with dice that always show 7.
abbrev pub loaded : Platform
loaded = record naturals { Seed = Unit; rand = λ g. (7, tt) }

-- A player who crosses a border, a wolf that chases him, and a coin.
abbrev pub busy_field : Field loaded
busy_field = record {
  players = walker ∷ make_player 2 ∷ [];
  sectors = crossing.sectors;
  monsters = grey_wolf ∷ [];
  monster_sectors = λ s. if sector_eq s corner then 7 ∷ [] else [];
  items = coin ∷ [];
  item_sectors = λ s. if sector_eq s corner then 9 ∷ [] else [];
  cache = near_sector_initialization_lem.0;
  posts = [];
  disconnects = [];
  disconnect_sync = 0;
  total_loot = 0;
  seed = tt;
  item_unique_id = 20;
  db_requests = [];
  notifies = [];
}

pub busy_field-IsReady : IsReady loaded busy_field
busy_field-IsReady = record {
  placed = record {
    players_held = record { held = λ id s. ground arith; mapped = λ id. ground arith };
    cached = near_sector_initialization_lem.1;
  };
  monsters_held = record { held = λ id s. ground arith; mapped = λ id. ground arith };
  items_placed = (refl, tt);
}

field_update_succeeds_example :
    ((f' : Field loaded) × (field_update loaded busy_field ≡ ok f')
      × IsReady loaded f'
      × (length f'.db_requests ≤ 2))
    ⊎ ((g : Unit {0}) × AllThrown loaded 1000 g
        × (field_update loaded busy_field ≡ err out_of_fuel))
field_update_succeeds_example =
    field_update_succeeds loaded busy_field busy_field-IsReady (omega arith)
