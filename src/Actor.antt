-- ===== src/Actor.antt =====
-- What players and monsters share: floating-point numbers and `rand()` as the machine gives them,
-- positions (FieldServer/MapConfig.h), directions (_Shared/Protocol.h), getDirectionTo and the constants
-- of _Shared/AttackConfig.h, and calcSector of FieldServer/FieldServer.cpp.
pub mod Naturals
mod Tests
use my_mmoproject.Base.{
  ℕ, zero, suc, ◌+◌, ◌-◌, ◌*◌, ◌%◌, ◌≤◌, ◌<◌, ◌≡◌, Bool, true, false, ◌&&◌, ◌||◌, not, List, [],
  ◌∷◌, ltb, leb, ◌==◌, if◌then◌else◌, arith,
}
use my_mmoproject.Base.Int.{ℤ, pos, negsuc}
use my_mmoproject.Sector.{Sector, in_map, sector_col_cnt, sector_row_cnt}

-- `float` with its operations, the C library's `sqrt` and `rand`, and conversions. `literal m e` is
-- the constant m / 10 ^ e, `bits` the pattern that is sent and
-- `of_bits` the float of a pattern, `rand` the draw from a generator state.
pub record Platform : Type 1 where
  pub F : Type 0
  pub fadd : F → F → F
  pub fsub : F → F → F
  pub fmul : F → F → F
  pub fdiv : F → F → F
  pub fsqrt : F → F
  pub flt : F → F → Bool
  pub fle : F → F → Bool
  pub feq : F → F → Bool
  pub literal : ℤ → ℕ → F
  pub of_int : ℕ → F
  pub to_int : F → ℤ
  pub bits : F → ℕ
  pub of_bits : ℕ → F
  pub Seed : Type 0
  pub rand : Seed → ℕ × Seed

-- eDirection
pub data Direction : Type 0 where
  down down_left down_right left right up up_left up_right : Direction

-- The values of eDirection, in order.
abbrev pub directions : List Direction
directions = down ∷ down_left ∷ down_right ∷ left ∷ right ∷ up ∷ up_left ∷ up_right ∷ []

-- static_cast<int8_t>(direction)
abbrev pub direction_code : Direction → ℕ
direction_code down = 0
direction_code down_left = 1
direction_code down_right = 2
direction_code left = 3
direction_code right = 4
direction_code up = 5
direction_code up_left = 6
direction_code up_right = 7

-- static_cast<eDirection>(n), at a number below eDirection::Max
abbrev pub direction_at : ℕ → Direction
direction_at n =
    if n == 0
    then down
    else if n == 1
    then down_left
    else if n == 2
    then down_right
    else if n == 3
    then left
    else if n == 4
    then right
    else if n == 5
    then up
    else if n == 6
    then up_left
    else up_right

-- The enum of AttackConfig.h
abbrev pub player_hit_stun_frame : ℕ
player_hit_stun_frame = 30

abbrev pub player_attack_total_frame : ℕ
player_attack_total_frame = 30

abbrev pub monster_hit_stun_frame : ℕ
monster_hit_stun_frame = 50

abbrev pub monster_attack_total_frame : ℕ
monster_attack_total_frame = 80

abbrev pub allow_delay_frame : ℕ
allow_delay_frame = 25

abbrev pub player_attack_awindup_frame : ℕ
player_attack_awindup_frame = 8

abbrev pub player_attack_damage : ℕ
player_attack_damage = 35

abbrev pub monster_attack_windup_frame : ℕ
monster_attack_windup_frame = 20

abbrev pub monster_attack_damage : ℕ
monster_attack_damage = 10

abbrev pub player_max_hp : ℕ
player_max_hp = 100

pub record Position (F : Type 0) : Type 0 where
  pub x : F
  pub y : F

-- std::clamp(col, 0, cnt - 1) on int32_t
abbrev pub clamp_index : ℤ → ℕ → ℕ
clamp_index (negsuc n) cnt = 0
clamp_index (pos n) cnt = if ltb n cnt then n else cnt - 1

module _ (pl : Platform) where
  open pl use {F, fadd, fsub, fmul, fdiv, fsqrt, flt, fle, feq, literal, of_int, to_int}

  abbrev pub num : ℕ → F
  num n = literal (pos n) 0

  -- Position::operator-
  unfoldable pub distance : Position F → Position F → F
  distance a b =
      fsqrt (fadd (fmul (fsub a.x b.x) (fsub a.x b.x)) (fmul (fsub a.y b.y) (fsub a.y b.y)))

  -- std::clamp
  unfoldable pub clamp : F → F → F → F
  clamp v lo hi = if flt v lo then lo else if flt hi v then hi else v

  -- The edges of the world: SECTOR_WORLD_W * SECTOR_COL_CNT and SECTOR_WORLD_H * SECTOR_ROW_CNT.
  abbrev pub world_w : F
  world_w = of_int 6400

  abbrev pub world_h : F
  world_h = of_int 4700

  -- Both coordinates clamped to the world, as moveUpdate and takeDamage do.
  unfoldable pub clamp_position : F → F → Position F
  clamp_position x y = record {
    x = clamp x (literal (pos 0) 1) world_w;
    y = clamp y (literal (pos 0) 1) world_h;
  }

  -- kDirectionVectorTable
  abbrev pub mx : Direction → F
  mx down = literal (pos 0) 1
  mx down_left = literal (negsuc 707106) 6
  mx down_right = literal (pos 707107) 6
  mx left = literal (negsuc 9) 1
  mx right = literal (pos 10) 1
  mx up = literal (pos 0) 1
  mx up_left = literal (negsuc 707106) 6
  mx up_right = literal (pos 707107) 6

  abbrev pub my : Direction → F
  my down = literal (pos 10) 1
  my down_left = literal (pos 707107) 6
  my down_right = literal (pos 707107) 6
  my left = literal (pos 0) 1
  my right = literal (pos 0) 1
  my up = literal (negsuc 9) 1
  my up_left = literal (negsuc 707106) 6
  my up_right = literal (negsuc 707106) 6

  -- The loop of getDirectionTo over the directions that are left, with the best so far.
  unfoldable pub best_direction : F → F → List Direction → Direction → F → Direction
  best_direction dx dy [] best best_dot = best
  best_direction dx dy (d ∷ ds) best best_dot =
      let dot = fadd (fmul dx (mx d)) (fmul dy (my d)) in
      let better = flt best_dot dot in
      best_direction dx dy ds (if better then d else best) (if better then dot else best_dot)

  unfoldable pub get_direction_to : Position F → Position F → Direction
  get_direction_to from to =
      let dx = fsub to.x from.x in
      let dy = fsub to.y from.y in
      let len = fsqrt (fadd (fmul dx dx) (fmul dy dy)) in
      if flt len (literal (pos 1) 4)
      then down
      else best_direction (fdiv dx len) (fdiv dy len) directions down (literal (negsuc 1) 0)

  -- SECTOR_WORLD_W is 320 and SECTOR_WORLD_H is 235.
  unfoldable pub calc_sector : Position F → Sector
  calc_sector p = record {
    x = clamp_index (to_int (fdiv p.x (of_int 320))) sector_col_cnt;
    y = clamp_index (to_int (fdiv p.y (of_int 235))) sector_row_cnt;
  }

  -- Every position has a sector of the map, wherever it lies.
  pub calc_sector-in_map : (p : Position F) → in_map (calc_sector p) ≡ true
  unfolding calc_sector
  calc_sector-in_map p = ground arith

  -- What is relied on of the comparison of floats: it is irreflexive, and an edge of the world is not
  -- below 0.
  pub record IsOrdered : Type 0 where
    pub irreflexive : (a : F) → flt a a ≡ false
    pub wide : flt world_w (literal (pos 0) 1) ≡ false
    pub high : flt world_h (literal (pos 0) 1) ≡ false

  -- Neither below 0 nor past an edge of the world.
  pub record InWorld (p : Position F) : Type 0 where
    pub x_low : flt p.x (literal (pos 0) 1) ≡ false
    pub x_high : flt world_w p.x ≡ false
    pub y_low : flt p.y (literal (pos 0) 1) ≡ false
    pub y_high : flt world_h p.y ≡ false

  clamp_between :
      (v lo hi : F)
      → ((a : F) → flt a a ≡ false)
      → flt hi lo ≡ false
      → (flt (clamp v lo hi) lo ≡ false) × (flt hi (clamp v lo hi) ≡ false)
  unfolding clamp
  clamp_between v lo hi irr wide = ground (arith, irr lo, irr hi)

  pub clamp_position-InWorld : IsOrdered → (x y : F) → InWorld (clamp_position x y)
  unfolding clamp_position
  clamp_position-InWorld o x y =
      let (a, b) = clamp_between x (literal (pos 0) 1) world_w o.irreflexive o.wide in
      let (c, d) = clamp_between y (literal (pos 0) 1) world_h o.irreflexive o.high in
      record { x_low = a; x_high = b; y_low = c; y_high = d }
