-- ===== src/Sector/Around.antt =====
-- What stands around a sector: exactly the sectors of the map at most one step away in each
-- coordinate.
use my_mmoproject.Base.{
  ℕ, ◌+◌, ◌≡◌, refl, ap, ◌∙◌, Bool, true, false, ◌&&◌, ◌||◌, not, List, [], ◌∷◌, Option, none, some,
  leb, ◌==◌, arith, and_parts,
}
use my_mmoproject.Base.Int.{ℤ, pos, negsuc, ◌+ℤ◌}
use my_mmoproject.Sector.{Sector, sector_eq, in_map, neighbour, offsets, emplace, collect, around}

abbrev pub contains : Sector → List Sector → Bool
contains s [] = false
contains s (t ∷ ts) = sector_eq s t || contains s ts

-- At most one step apart in each coordinate.
abbrev pub adjacent : Sector → Sector → Bool
adjacent s t = (leb s.x (t.x + 1) && leb t.x (s.x + 1)) && (leb s.y (t.y + 1) && leb t.y (s.y + 1))

-- `s` is the neighbour of the center at this offset.
abbrev hits : Sector → Sector → ℤ × ℤ → Bool
hits s c (dx, dy) = contains s (emplace (neighbour (pos c.x +ℤ dx) (pos c.y +ℤ dy)) [])

contains-emplace :
    (s : Sector) (o : Option Sector) (ts : List Sector)
    → contains s (emplace o ts) ≡ (contains s (emplace o []) || contains s ts)
contains-emplace s none ts = refl
contains-emplace s (some t) ts = ground arith

abbrev any_hits : Sector → Sector → List (ℤ × ℤ) → Bool
any_hits s c [] = false
any_hits s c (o ∷ os) = hits s c o || any_hits s c os

contains-collect : (s c : Sector) (os : List (ℤ × ℤ)) → contains s (collect c os) ≡ any_hits s c os
unfolding collect
contains-collect s c [] = refl
contains-collect s c ((dx, dy) ∷ os) =
    contains-emplace s (neighbour (pos c.x +ℤ dx) (pos c.y +ℤ dy)) (collect c os)
    ∙ ap (λ b. hits s c (dx, dy) || b) (contains-collect s c os)

-- An offset in one coordinate leads from `c` to `x`.
abbrev leads : ℕ → ℤ → ℕ → Bool
leads c (pos n) x = c + n == x
leads c (negsuc n) x = c == x + n + 1

hits-leads :
    (s c : Sector) (dx dy : ℤ)
    → hits s c (dx, dy) ≡ (in_map s && (leads c.x dx s.x && leads c.y dy s.y))
unfolding neighbour ◌+ℤ◌
hits-leads s c dx dy = ground arith

-- Nine products are the product of two sums of three.
factor :
    (m a b c d e f : Bool)
    → (m && (a && d)
        || (m && (a && e)
            || (m && (a && f)
                || (m && (b && d)
                    || (m && (b && e)
                        || (m && (b && f)
                            || (m && (c && d) || (m && (c && e) || (m && (c && f) || false)))))))))
      ≡ (m && ((a || (b || c)) && (d || (e || f))))
factor false a b c d e f = refl
factor true false false c d e f = ground arith
factor true _ _ c d e f = ground arith

leads_any :
    (c x : ℕ)
    → (leads c (negsuc 0) x || (leads c (pos 0) x || leads c (pos 1) x))
      ≡ (leb x (c + 1) && leb c (x + 1))
leads_any c x = ground arith

-- The nine offsets lead to all that is adjacent.
offsets_complete : (s c : Sector) → any_hits s c offsets ≡ (in_map s && adjacent s c)
offsets_complete s c = simp hits-leads (
    factor (in_map s) (leads c.x (negsuc 0) s.x) (leads c.x (pos 0) s.x) (leads c.x (pos 1) s.x)
      (leads c.y (negsuc 0) s.y) (leads c.y (pos 0) s.y) (leads c.y (pos 1) s.y)
    ∙ rw (leads_any c.x s.x, leads_any c.y s.y) refl)

pub contains-around : (s c : Sector) → contains s (around c) ≡ (in_map s && adjacent s c)
unfolding around
contains-around s c = contains-collect s c offsets ∙ offsets_complete s c

-- Seeing is mutual between sectors of the map.
pub around_symm :
    (s t : Sector)
    → in_map s ≡ true
    → in_map t ≡ true
    → contains s (around t) ≡ contains t (around s)
around_symm s t hs ht = rw (contains-around s t, contains-around t s, hs, ht) (ground arith)

-- No sector stands twice.
abbrev pub distinct : List Sector → Bool
distinct [] = true
distinct (t ∷ ts) = not (contains t ts) && distinct ts

abbrev int_eq : ℤ → ℤ → Bool
int_eq (pos a) (pos b) = a == b
int_eq (negsuc a) (negsuc b) = a == b
int_eq (pos a) (negsuc b) = false
int_eq (negsuc a) (pos b) = false

abbrev away : ℤ × ℤ → List (ℤ × ℤ) → Bool
away o [] = true
away (dx, dy) ((ex, ey) ∷ os) = not (int_eq dx ex && int_eq dy ey) && away (dx, dy) os

abbrev apart : List (ℤ × ℤ) → Bool
apart [] = true
apart (o ∷ os) = away o os && apart os

-- Two offsets that lead to one coordinate are one.
leads_unique : (c x : ℕ) (d e : ℤ) → leads c d x ≡ true → leads c e x ≡ true → int_eq d e ≡ true
leads_unique c x d e h k = ground arith

neighbour-leads :
    (c n : Sector) (dx dy : ℤ)
    → neighbour (pos c.x +ℤ dx) (pos c.y +ℤ dy) ≡ some n
    → (leads c.x dx n.x ≡ true) × (leads c.y dy n.y ≡ true)
unfolding neighbour ◌+ℤ◌
neighbour-leads c n dx dy h = ground arith

hits_away :
    (c n : Sector) (dx dy : ℤ) (os : List (ℤ × ℤ))
    → (leads c.x dx n.x ≡ true) × (leads c.y dy n.y ≡ true)
    → away (dx, dy) os ≡ true
    → any_hits n c os ≡ false
hits_away c n dx dy [] h a = refl
hits_away c n dx dy ((ex, ey) ∷ os) h a = ground (
  arith,
  hits-leads n c ex ey,
  leads_unique c.x n.x dx ex,
  leads_unique c.y n.y dy ey,
  hits_away c n dx dy os h,
)

distinct-emplace :
    (c : Sector) (dx dy : ℤ) (os : List (ℤ × ℤ)) (o : Option Sector)
    → neighbour (pos c.x +ℤ dx) (pos c.y +ℤ dy) ≡ o
    → away (dx, dy) os ≡ true
    → distinct (collect c os) ≡ true
    → distinct (emplace o (collect c os)) ≡ true
distinct-emplace c dx dy os none e a h = h
distinct-emplace c dx dy os (some n) e a h =
    rw (contains-collect n c os, hits_away c n dx dy os (neighbour-leads c n dx dy e) a) h

distinct-collect :
    (c : Sector) (os : List (ℤ × ℤ)) → apart os ≡ true → distinct (collect c os) ≡ true
unfolding collect
distinct-collect c [] h = refl
distinct-collect c ((dx, dy) ∷ os) h =
    let (first, others) = and_parts (away (dx, dy) os) (apart os) h in
    distinct-emplace c dx dy os _ refl first (distinct-collect c os others)

pub distinct-around : (c : Sector) → distinct (around c) ≡ true
unfolding around
distinct-around c = distinct-collect c offsets refl
