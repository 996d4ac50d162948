-- ===== src/Sector/Tests.antt =====
-- Moves on the map of sectors, and the theorems at them.
use my_mmoproject.Base.{◌≡◌, refl, true, false, List, ◌&&◌}
use my_mmoproject.Fault.{ok}
use my_mmoproject.Sector.{Sector, calc_despawn_and_spawn_sector, around, in_map}
use my_mmoproject.Sector.Around.{contains, adjacent, contains-around, distinct, distinct-around}
use my_mmoproject.Sector.Cache.{near_sector_initialization_lem}
use my_mmoproject.Sector.Diff.{calc_despawn_and_spawn_sector_lem}

abbrev old_sector : Sector
old_sector = record { x = 3; y = 4 }

abbrev new_sector : Sector
new_sector = record { x = 4; y = 4 }

abbrev seen_sector : Sector
seen_sector = record { x = 5; y = 3 }

contains-around_example :
    contains seen_sector (around new_sector)
    ≡ (in_map seen_sector && adjacent seen_sector new_sector)
contains-around_example = contains-around seen_sector new_sector

distinct-around_example : distinct (around new_sector) ≡ true
distinct-around_example = distinct-around new_sector

calc_despawn_and_spawn_sector_example :
    (spawn despawn : List Sector) × (calc_despawn_and_spawn_sector
        (near_sector_initialization_lem.0)
        old_sector
        new_sector
      ≡ ok (spawn, despawn))
    × (contains seen_sector spawn ≡ true)
    × (contains seen_sector despawn ≡ false)
calc_despawn_and_spawn_sector_example =
    calc_despawn_and_spawn_sector_lem (near_sector_initialization_lem.0) old_sector new_sector
      seen_sector (near_sector_initialization_lem.1) refl refl refl
