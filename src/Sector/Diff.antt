-- ===== src/Sector/Diff.antt =====
-- calcDespawnAndSpawnSector: what comes into sight and what goes out of it.
use my_mmoproject.Base.{
  ◌≡◌, refl, ap, ◌∙◌, Bool, true, false, ◌&&◌, not, List, [], ◌∷◌, Option, none, some,
  if◌then◌else◌, arith, inl, inr, Bool-cases,
}
use my_mmoproject.Fault.{ok, err, debug_break}
use my_mmoproject.Sector.{
  Sector, sector_eq, in_map, around, Cache, erase_first, erase_common, keep_or_erase, or_else,
  calc_despawn_and_spawn_sector, get_around_sectors, near_sector_initialization,
}
use my_mmoproject.Sector.Cache.{get_around_sectors-cached}
use my_mmoproject.Sector.Around.{contains, distinct, distinct-around, contains-around, adjacent}

-- What erase_first finds and what it leaves, in a list where no sector stands twice.
abbrev Erased : Sector → List Sector → Option (List Sector) → Type 0
Erased s ds none = contains s ds ≡ false
Erased s ds (some rest) =
    (contains s ds ≡ true)
    × (distinct rest ≡ true)
    × ((t : Sector) → contains t rest ≡ (contains t ds && not (sector_eq t s)))

pub sector_eq→eq : (a b : Sector) → sector_eq a b ≡ true → a ≡ b
sector_eq→eq a b h = ground arith

pub sector_eq_refl : (a : Sector) → sector_eq a a ≡ true
sector_eq_refl a = ground arith

contains_of_eq :
    (a b : Sector) (ds : List Sector) → sector_eq a b ≡ true → contains a ds ≡ contains b ds
contains_of_eq a b ds h = ap (λ t. contains t ds) (sector_eq→eq a b h)

sector_eq_of_eq : (a b t : Sector) → sector_eq a b ≡ true → sector_eq t a ≡ sector_eq t b
sector_eq_of_eq a b t h = ap (sector_eq t) (sector_eq→eq a b h)

and_true : (b : Bool) → b ≡ (b && true)
and_true true = refl
and_true false = refl

-- The first one found is the only one.
erased_here :
    (s d t : Sector) (ds : List Sector)
    → sector_eq s d ≡ true
    → distinct (d ∷ ds) ≡ true
    → contains t ds ≡ (contains t (d ∷ ds) && not (sector_eq t s))
erased_here s d t ds e h = elim (Bool-cases (sector_eq t d)) [
  | inl same ↦ rw (same, sector_eq_of_eq s d t e, same, contains_of_eq t d ds same) (ground arith)
  | inr other ↦ rw (other, sector_eq_of_eq s d t e, other) (and_true (contains t ds))
]

Erased-below :
    (s d : Sector) (ds : List Sector) (o : Option (List Sector))
    → sector_eq s d ≡ false
    → distinct (d ∷ ds) ≡ true
    → Erased s ds o
    → Erased s (d ∷ ds) (elim o [ none ↦ none | some ds' ↦ some (d ∷ ds') ])
Erased-below s d ds none e h v = ground arith
Erased-below s d ds (some rest) e h v =
    (ground arith, ground (arith, v.2 d), λ t. ground (arith, v.2 t))

erase_first-Erased :
    (s : Sector) (ds : List Sector) → distinct ds ≡ true → Erased s ds (erase_first s ds)
unfolding erase_first
erase_first-Erased s [] h = refl
erase_first-Erased s (d ∷ ds) h = elim (Bool-cases (sector_eq s d)) [
  | inl same ↦ rw same (ground arith, ground arith, λ t. erased_here s d t ds same h)
  | inr other ↦
      rw other
        (Erased-below s d ds (erase_first s ds) other h (erase_first-Erased s ds (ground arith)))
]

-- What one round keeps, at a sector `t`.
round_lem :
    (s t : Sector) (news old : List Sector) (o : Option (List Sector))
    (r : List Sector × List Sector)
    → Erased s old o
    → contains s news ≡ false
    → (contains t r.0 ≡ (contains t news && not (contains t (or_else o old))))
      × (contains t r.1 ≡ (contains t (or_else o old) && not (contains t news)))
    → let out = keep_or_erase s o r in
      (contains t out.0 ≡ (contains t (s ∷ news) && not (contains t old)))
      × (contains t out.1 ≡ (contains t old && not (contains t (s ∷ news))))
round_lem s t news old none (spawn, despawn) v fresh h = elim (Bool-cases (sector_eq t s)) [
  | inl same ↦
      let here : contains t old ≡ false = contains_of_eq t s old same ∙ v in ground (arith, here, h)
  | inr other ↦ ground (arith, h)
]
round_lem s t news old (some rest) (spawn, despawn) v fresh h = elim (Bool-cases (sector_eq t s)) [
  | inl same ↦
      let here : contains t old ≡ true = contains_of_eq t s old same ∙ v.0 in
      let gone : contains t news ≡ false = contains_of_eq t s news same ∙ fresh in
      ground (arith, here, gone, h, v.2 t)
  | inr other ↦ ground (arith, h, v.2 t)
]

or_else-distinct :
    (s : Sector) (old : List Sector) (o : Option (List Sector))
    → distinct old ≡ true
    → Erased s old o
    → distinct (or_else o old) ≡ true
or_else-distinct s old none h v = h
or_else-distinct s old (some rest) h v = v.1

erase_common_lem :
    (t : Sector) (news old : List Sector)
    → distinct news ≡ true
    → distinct old ≡ true
    → let out = erase_common news old in
      (contains t out.0 ≡ (contains t news && not (contains t old)))
      × (contains t out.1 ≡ (contains t old && not (contains t news)))
unfolding erase_common
erase_common_lem t [] old h k = (refl, ground arith)
erase_common_lem t (s ∷ news) old h k =
    let v = erase_first-Erased s old k in
    let o = erase_first s old in
    round_lem s t news old o (erase_common news (or_else o old)) v (ground arith)
      (erase_common_lem t news (or_else o old) (ground arith) (or_else-distinct s old o k v))

-- For a move between two sectors of the map, the list of what comes into sight holds exactly what
-- stands around the new sector and not around the old one, and the list of what goes out of sight
-- holds exactly the converse.
pub calc_despawn_and_spawn_sector_lem :
    (cache : Cache) (current dest t : Sector)
    → near_sector_initialization ≡ ok cache
    → in_map current ≡ true
    → in_map dest ≡ true
    → in_map t ≡ true
    → (spawn despawn : List Sector) × (calc_despawn_and_spawn_sector cache current dest
        ≡ ok (spawn, despawn))
      × (contains t spawn ≡ (adjacent t dest && not (adjacent t current)))
      × (contains t despawn ≡ (adjacent t current && not (adjacent t dest)))
unfolding calc_despawn_and_spawn_sector
calc_despawn_and_spawn_sector_lem cache current dest t built mc md ht =
    let hc : get_around_sectors cache current ≡ ok (around current) =
      get_around_sectors-cached cache current built
      ∙ ap (λ b. if b then ok (around current) else err debug_break) mc in
    let hd : get_around_sectors cache dest ≡ ok (around dest) =
      get_around_sectors-cached cache dest built
      ∙ ap (λ b. if b then ok (around dest) else err debug_break) md in
    let out = erase_common (around dest) (around current) in
    let (gained, lost) =
      erase_common_lem t (around dest) (around current) (distinct-around dest)
        (distinct-around current) in
    (
      out.0,
      out.1,
      rw (hd, hc) refl,
      gained ∙ rw (contains-around t dest, contains-around t current, ht) refl,
      lost ∙ rw (contains-around t dest, contains-around t current, ht) refl,
    )
