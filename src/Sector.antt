-- ===== src/Sector.antt =====
-- The sectors of the map (FieldServer/MapConfig.h) and the functions of FieldServer/FieldServer.cpp
-- that say which sectors see one another: nearSectorInitalization, getAroundSectors,
-- calcDespawnAndSpawnSector. Coordinates of a sector lie in 0 … 19; the offsets around it are ℤ.
pub mod Around
pub mod Cache
pub mod Diff
mod Tests
use my_mmoproject.Base.{
  ℕ, zero, suc, ◌+◌, Bool, true, false, ◌&&◌, ◌||◌, List, [], ◌∷◌, Option, none, some, ltb, ◌==◌,
  if◌then◌else◌,
}
use my_mmoproject.Base.Int.{ℤ, pos, negsuc, ◌+ℤ◌}
use my_mmoproject.Fault.{Result, ok, err, debug_break, ◌>>=◌, ◌>>◌, my_assert}

-- map::Sector
pub record Sector : Type 0 where
  pub x : ℕ
  pub y : ℕ

-- Sector::operator==
abbrev pub sector_eq : Sector → Sector → Bool
sector_eq a b = a.x == b.x && a.y == b.y

-- SECTOR_COL_CNT and SECTOR_ROW_CNT
abbrev pub sector_col_cnt : ℕ
sector_col_cnt = 20

abbrev pub sector_row_cnt : ℕ
sector_row_cnt = 20

-- A sector that the map has.
abbrev pub in_map : Sector → Bool
in_map s = ltb s.x sector_col_cnt && ltb s.y sector_row_cnt

-- One round of the loop over the nine offsets: the neighbour, unless it falls outside the map.
unfoldable pub neighbour : ℤ → ℤ → Option Sector
neighbour (pos col) (pos row) =
    if ltb row sector_row_cnt && ltb col sector_col_cnt
    then some (record { x = col; y = row })
    else none
neighbour (negsuc col) row = none
neighbour (pos col) (negsuc row) = none

-- `dx` and `dy`, side by side
abbrev pub offsets : List (ℤ × ℤ)
offsets =
    (negsuc 0, negsuc 0)
    ∷ (negsuc 0, pos 0)
    ∷ (negsuc 0, pos 1)
    ∷ (pos 0, negsuc 0)
    ∷ (pos 0, pos 0)
    ∷ (pos 0, pos 1)
    ∷ (pos 1, negsuc 0)
    ∷ (pos 1, pos 0)
    ∷ (pos 1, pos 1)
    ∷ []

abbrev pub emplace {ℓ} : {A : Type ℓ} → Option A → List A → List A
emplace none out = out
emplace (some s) out = s ∷ out

unfoldable pub collect : Sector → List (ℤ × ℤ) → List Sector
collect center [] = []
collect center ((dx, dy) ∷ os) =
    emplace (neighbour (pos center.x +ℤ dx) (pos center.y +ℤ dy)) (collect center os)

-- `around`, of the loop body of nearSectorInitalization
unfoldable pub around : Sector → List Sector
unfolding collect
around center = collect center offsets

-- mAroundSectorCache
abbrev pub Cache : Type 0
Cache = Sector → Option (List Sector)

abbrev pub is_none {ℓ} : {A : Type ℓ} → Option A → Bool
is_none none = true
is_none (some a) = false

unfoldable pub insert : Cache → Sector → List Sector → Cache
insert cache key value s = if sector_eq key s then some value else cache s

-- The rounds of the inner loop from column `col` on, `n` of them, ...
unfoldable pub init_cols : ℕ → ℕ → ℕ → Cache → Result Cache
init_cols zero col row cache = ok cache
init_cols (suc n) col row cache = do
  let center : Sector = record { x = col; y = row }
  my_assert (is_none (cache center))
  init_cols n (col + 1) row (insert cache center (around center))

-- ... and of the outer loop, whose bound is SECTOR_COL_CNT too.
unfoldable pub init_rows : ℕ → ℕ → Cache → Result Cache
init_rows zero row cache = ok cache
init_rows (suc n) row cache = do
  cache' ← init_cols sector_col_cnt 0 row cache
  init_rows n (row + 1) cache'

unfoldable pub near_sector_initialization : Result Cache
near_sector_initialization = init_rows sector_col_cnt 0 (λ s. none)

abbrev pub or_break {ℓ} : {A : Type ℓ} → Option A → Result A
or_break none = err debug_break
or_break (some a) = ok a

-- The cache must have the sector.
unfoldable pub get_around_sectors : Cache → Sector → Result (List Sector)
get_around_sectors cache center = or_break (cache center)

-- `despawnSector.erase(destIter)` at the first sector equal to `s`, if there is one.
unfoldable pub erase_first : Sector → List Sector → Option (List Sector)
erase_first s [] = none
erase_first s (d ∷ ds) =
    let rest = erase_first s ds in
    if sector_eq s d then some ds else elim rest [ none ↦ none | some ds' ↦ some (d ∷ ds') ]

-- What a round does with the sector `s` and what the rounds after it left.
abbrev pub keep_or_erase :
    Sector → Option (List Sector) → List Sector × List Sector → List Sector × List Sector
keep_or_erase s none (spawn, despawn) = (s ∷ spawn, despawn)
keep_or_erase s (some ds) (spawn, despawn) = (spawn, despawn)

abbrev pub or_else {ℓ} : {A : Type ℓ} → Option A → A → A
or_else none a = a
or_else (some b) a = b

-- The loop over `spawnSector`: a sector that stands in both lists is erased from both.
unfoldable pub erase_common : List Sector → List Sector → List Sector × List Sector
erase_common [] despawn = ([], despawn)
erase_common (s ∷ spawn) despawn =
    keep_or_erase s (erase_first s despawn)
      (erase_common spawn (or_else (erase_first s despawn) despawn))

-- calcDespawnAndSpawnSector and calcMonsterDespawnAndSpawnSector, at the sector that is left
-- and the one that is entered.
unfoldable pub calc_despawn_and_spawn_sector :
    Cache → Sector → Sector → Result (List Sector × List Sector)
calc_despawn_and_spawn_sector cache current dest = do
  spawn ← get_around_sectors cache dest
  despawn ← get_around_sectors cache current
  ok (erase_common spawn despawn)
