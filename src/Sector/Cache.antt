-- ===== src/Sector/Cache.antt =====
-- nearSectorInitalization runs through, and the cache then has every sector of the map.
use mathlib.Core.Path.{fun_ext}
use my_mmoproject.Base.{
  ℕ, zero, suc, ◌+◌, ◌≡◌, ap, sym, ◌∙◌, true, ◌&&◌, ◌||◌, none, some, ltb, ◌==◌, if◌then◌else◌,
  arith, ◌<◌,
}
use my_mmoproject.Fault.{ok, err, debug_break}
use my_mmoproject.Sector.{
  Sector, in_map, around, Cache, insert, init_cols, init_rows, near_sector_initialization,
  get_around_sectors, is_none, sector_col_cnt,
}

-- The cache when the loops have come to this row and column.
abbrev filled : ℕ → ℕ → Cache
filled row col s =
    if ltb s.x sector_col_cnt && (ltb s.y row || (s.y == row && ltb s.x col))
    then some (around s)
    else none

insert-filled :
    (row col : ℕ)
    → col < sector_col_cnt
    → insert (filled row col) (record { x = col; y = row }) (around (record { x = col; y = row }))
      ≡ filled row (col + 1)
unfolding insert
insert-filled row col h = fun_ext λ s. ground arith

init_cols-filled :
    (n col row : ℕ)
    → col + n ≡ sector_col_cnt
    → init_cols n col row (filled row col) ≡ ok (filled row sector_col_cnt)
unfolding init_cols
init_cols-filled zero col row h =
    let last : col ≡ sector_col_cnt = omega arith in ap (λ c. ok (filled row c)) last
init_cols-filled (suc n) col row h =
    rw (fresh, insert-filled row col (omega arith)) (init_cols-filled n (col + 1) row (omega arith))
  where
    fresh : is_none (filled row col (record { x = col; y = row })) ≡ true
    fresh = ground arith

filled_next_row : (row : ℕ) → filled row sector_col_cnt ≡ filled (row + 1) 0
filled_next_row row = fun_ext λ s. ground arith

init_rows-filled :
    (n row last : ℕ) → row + n ≡ last → init_rows n row (filled row 0) ≡ ok (filled last 0)
unfolding init_rows
init_rows-filled zero row last h = let e : row ≡ last = omega arith in ap (λ r. ok (filled r 0)) e
init_rows-filled (suc n) row last h =
    rw (init_cols-filled sector_col_cnt 0 row (omega arith), filled_next_row row)
      (init_rows-filled n (row + 1) last (omega arith))

filled_start : filled 0 0 ≡ (λ s. none)
filled_start = fun_ext λ s. ground arith

-- The initialisation never meets a sector twice, and after it getAroundSectors answers for exactly
-- the sectors of the map, with what stands around them; for any other it breaks.
pub near_sector_initialization_lem :
    (cache : Cache) × (near_sector_initialization ≡ ok cache)
    × ((s : Sector)
        → get_around_sectors cache s ≡ (if in_map s then ok (around s) else err debug_break))
unfolding near_sector_initialization get_around_sectors
near_sector_initialization_lem = (
  filled sector_col_cnt 0,
  rw (← filled_start) (init_rows-filled sector_col_cnt 0 sector_col_cnt (omega arith)),
  λ s. ground arith,
)

ok-injective {ℓ} : {A : Type ℓ} {a b : A} → ok a ≡ ok b → a ≡ b
ok-injective e = cc

pub get_around_sectors-cached :
    (cache : Cache) (s : Sector)
    → near_sector_initialization ≡ ok cache
    → get_around_sectors cache s ≡ (if in_map s then ok (around s) else err debug_break)
get_around_sectors-cached cache s h =
    let (built, run, answers) = near_sector_initialization_lem in
    ap (λ c. get_around_sectors c s) (ok-injective (sym h ∙ run)) ∙ answers s
