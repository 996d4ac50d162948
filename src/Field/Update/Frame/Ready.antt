-- ===== src/Field/Update/Frame/Ready.antt =====
-- The fields that a frame can go on with, and the changes that keep a field so.
use my_mmoproject.Base.{
  ℕ, zero, suc, ◌⊎◌, ◌+◌, ◌≤◌, ◌≡◌, ◌≢◌, ◌==◌, ==_iff, Bool-cases, inl, inr, refl, ap, ◌∙◌, subst,
  true, List, [], ◌∷◌, some, length, arith,
}
use my_mmoproject.Fault.{Result, ok, err, out_of_fuel, ◌>>=◌}
use my_mmoproject.Sector.{Sector, in_map, get_around_sectors, around}
use my_mmoproject.Sector.Cache.{get_around_sectors-cached}
use my_mmoproject.Actor.{Platform}
use my_mmoproject.Monster.{Monster}
use my_mmoproject.Player.{Player}
use my_mmoproject.Packet.{Packet}
use my_mmoproject.Field.{Field, Item, Sectors, find, set_at, set_player, player_key}
use my_mmoproject.Field.Loot.{find-set_at}
use my_mmoproject.Field.Find.{find-set_at_other}
use my_mmoproject.Field.Report.{monster_key}
use my_mmoproject.Field.Update.Drops.{draw_fuel, redraw_from}
use my_mmoproject.Field.Update.Hits.{set_monster}
use my_mmoproject.Field.Update.Passes.{each}
use my_mmoproject.Field.Update.Passes.Held.{IsHeld, IsOnMap, change-IsHeld}
use my_mmoproject.Field.Update.Passes.Placed.{IsPlaced}

abbrev pub All : {A : Type 0} → (A → Type 0) → List A → Type 0
All P [] = Unit
All P (a ∷ as') = P a × All P as'

-- The id is still known.
abbrev pub Kept : {A : Type 0} → (A → ℕ) → List A → List A → Type 0
Kept {A} key as' bs =
    (id : ℕ) → (a : A) × (find key id as' ≡ some a) → (b : A) × (find key id bs ≡ some b)

-- A change in place loses no id.
pub set_at-Kept :
    {A : Type 0} (key : A → ℕ) (new : A) (as' : List A) {old : A}
    → find key (key new) as' ≡ some old
    → Kept key as' (set_at key (key new) new as')
set_at-Kept key new as' here id (a, e) = elim (Bool-cases (id == key new)) [
  | inl same ↦ (
    new,
    ap (λ n. find key n (set_at key (key new) new as')) ((==_iff id (key new)).0 same)
        ∙ find-set_at key (key new) new as' here refl,
  )
  | inr differs ↦
      let d : id ≢ key new = ground arith in
      (a, find-set_at_other key (key new) id new as' refl d ∙ e)
]

module _ (pl : Platform) where
  open pl use {F}

  abbrev pub IsMonstersHeld : List (Monster F) → Sectors → Type 0
  IsMonstersHeld =
      IsHeld (monster_key pl) (λ (m : Monster F). m.sector) (λ (m : Monster F). m.dest_sector)

  abbrev pub LiesOnMap : Item F → Type 0
  LiesOnMap i = in_map i.sector ≡ true

  -- Players and monsters stand where the sectors say, and items lie on the map.
  pub record IsReady (f : Field pl) : Type 0 where
    pub placed : IsPlaced pl f
    pub monsters_held : IsMonstersHeld f.monsters f.monster_sectors
    pub items_placed : All LiesOnMap f.items

  -- The call succeeds with such a field; it loses no player and no monster, and makes at most `n`
  -- requests to the database.
  abbrev pub Goes : ℕ → Field pl → Result (Field pl) → Type 0
  Goes n f r =
      (f' : Field pl) × (r ≡ ok f')
      × IsReady f'
      × Kept (player_key pl) f.players f'.players
      × Kept (monster_key pl) f.monsters f'.monsters
      × (length f'.db_requests ≤ length f.db_requests + n)

  pub Goes-bind :
      (n k t : ℕ)
      → n + k ≤ t
      → (f : Field pl) (r : Result (Field pl)) (next : Field pl → Result (Field pl)) → Goes n f r
      → ((g : Field pl)
          → r ≡ ok g
          → IsReady g
          → Kept (player_key pl) f.players g.players
          → Kept (monster_key pl) f.monsters g.monsters
          → length g.db_requests ≤ length f.db_requests + n
          → Goes k g (next g))
      → Goes t f (r >>= next)
  Goes-bind n k t sum f r next (g, e, ready, kp, km, few) go =
      let (h, e', ready', kp', km', few') = go g e ready kp km few in
      (
        h,
        ap (λ x. x >>= next) e ∙ e',
        ready',
        (λ id has. kp' id (kp id has)),
        (λ id has. km' id (km id has)),
        omega arith,
      )

  module _ (f : Field pl) (ready : IsReady f) where
    pub Goes-here : Goes 0 f (ok f)
    Goes-here = (f, refl, ready, (λ id h. h), (λ id h. h), omega arith)

    pub around_ready : (s : Sector) → in_map s ≡ true → get_around_sectors f.cache s ≡ ok (around s)
    around_ready s h = get_around_sectors-cached f.cache s ready.placed.cached ∙ rw h refl

    pub posts-IsReady : (later : List (ℕ × Packet)) → IsReady (record f { posts = later })
    posts-IsReady later = record {
      placed = record { players_held = ready.placed.players_held; cached = ready.placed.cached };
      monsters_held = ready.monsters_held;
      items_placed = ready.items_placed;
    }

    pub player_on_map :
        (id : ℕ) (p : Player F)
        → find (player_key pl) id f.players ≡ some p
        → (in_map p.current_sector ≡ true) × (in_map p.dest_sector ≡ true)
    player_on_map id p e =
        subst
          (IsOnMap (player_key pl) (λ (q : Player F). q.current_sector)
            (λ (q : Player F). q.dest_sector))
          e (ready.placed.players_held.mapped id)

    pub monster_on_map :
        (id : ℕ) (m : Monster F)
        → find (monster_key pl) id f.monsters ≡ some m
        → (in_map m.sector ≡ true) × (in_map m.dest_sector ≡ true)
    monster_on_map id m e =
        subst
          (IsOnMap (monster_key pl) (λ (q : Monster F). q.sector)
            (λ (q : Monster F). q.dest_sector))
          e (ready.monsters_held.mapped id)

    pub set_player-Goes :
        (p q : Player F)
        → find (player_key pl) q.seq_id f.players ≡ some p
        → q.current_sector ≡ p.current_sector
        → in_map q.dest_sector ≡ true
        → Goes 0 f (ok (set_player pl f q))
    set_player-Goes p q here same fits = (
      set_player pl f q,
      refl,
      record {
        placed = record {
          players_held =
              change-IsHeld (player_key pl) (λ (q : Player F). q.current_sector)
                (λ (q : Player F). q.dest_sector) f.players f.sectors ready.placed.players_held p q
                here fits same;
          cached = ready.placed.cached;
        };
        monsters_held = ready.monsters_held;
        items_placed = ready.items_placed;
      },
      set_at-Kept (player_key pl) q f.players here,
      (λ id h. h),
      omega arith,
    )

    pub set_monster-Goes :
        (m n : Monster F)
        → find (monster_key pl) n.monster_id f.monsters ≡ some m
        → n.sector ≡ m.sector
        → in_map n.dest_sector ≡ true
        → Goes 0 f (ok (set_monster pl f n))
    set_monster-Goes m n here same fits = (
      set_monster pl f n,
      refl,
      record {
        placed = record { players_held = ready.placed.players_held; cached = ready.placed.cached };
        monsters_held =
            change-IsHeld (monster_key pl) (λ (q : Monster F). q.sector)
              (λ (q : Monster F). q.dest_sector) f.monsters f.monster_sectors ready.monsters_held m
              n here fits same;
        items_placed = ready.items_placed;
      },
      (λ id h. h),
      set_at-Kept (monster_key pl) n f.monsters here,
      omega arith,
    )

  -- So many draws in a row are thrown away.
  unfoldable pub AllThrown : ℕ → pl.Seed → Type 0
  AllThrown zero g = Unit
  AllThrown (suc n) g = (redraw_from ≤ (pl.rand g).0) × AllThrown n (pl.rand g).1

  -- The call succeeds, or its fuel has ended in the loop of rollDrop.
  abbrev pub Lands : ℕ → Field pl → Result (Field pl) → Type 0
  Lands n f r = Goes n f r ⊎ ((g : pl.Seed) × AllThrown draw_fuel g × (r ≡ err out_of_fuel))

  pub Lands-bind :
      (n k t : ℕ)
      → n + k ≤ t
      → (f : Field pl) (r : Result (Field pl)) (next : Field pl → Result (Field pl)) → Lands n f r
      → ((g : Field pl)
          → r ≡ ok g
          → IsReady g
          → Kept (player_key pl) f.players g.players
          → Kept (monster_key pl) f.monsters g.monsters
          → length g.db_requests ≤ length f.db_requests + n
          → Lands k g (next g))
      → Lands t f (r >>= next)
  Lands-bind n k t sum f r next (inr (g, thrown, e)) go = inr (g, thrown, ap (λ x. x >>= next) e)
  Lands-bind n k t sum f r next (inl (g, e, ready, kp, km, few)) go =
      elim (go g e ready kp km few) [
        | inl (h, e', ready', kp', km', few') ↦ inl (
          h,
          ap (λ x. x >>= next) e ∙ e',
          ready',
          (λ id has. kp' id (kp id has)),
          (λ id has. km' id (km id has)),
          omega arith,
        )
        | inr (seed, thrown, e') ↦ inr (seed, thrown, ap (λ x. x >>= next) e ∙ e')
      ]

  -- A loop over ids that are all known, with at most `n` requests in each round and room for all.
  abbrev pub times : ℕ → List ℕ → ℕ
  times n [] = 0
  times n (id ∷ ids) = n + times n ids

  pub each-Lands :
      (Has : ℕ → Field pl → Type 0)
      → ((f g : Field pl) (id : ℕ)
          → Kept (player_key pl) f.players g.players
          → Kept (monster_key pl) f.monsters g.monsters
          → Has id f
          → Has id g)
      → (n room : ℕ) (step : ℕ → Field pl → Result (Field pl))
      → ((id : ℕ) (f : Field pl)
          → IsReady f
          → Has id f
          → length f.db_requests + n ≤ room
          → Lands n f (step id f))
      → (ids : List ℕ) (f : Field pl) → IsReady f
      → All (λ id. Has id f) ids
      → length f.db_requests + times n ids ≤ room
      → Lands (times n ids) f (each pl step ids f)
  unfolding each
  each-Lands Has keep n room step go [] f ready has fits = inl (Goes-here f ready)
  each-Lands Has keep n room step go (id ∷ ids) f ready (h, hs) fits =
      Lands-bind n (times n ids) (n + times n ids) (omega arith) f (step id f) (each pl step ids)
        (go id f ready h (omega arith))
        (λ g e ready' kp km few.
          each-Lands Has keep n room step go ids g ready' (carry g kp km ids hs) (omega arith))
    where
      carry :
          (g : Field pl)
          → Kept (player_key pl) f.players g.players
          → Kept (monster_key pl) f.monsters g.monsters
          → (js : List ℕ) → All (λ j. Has j f) js
          → All (λ j. Has j g) js
      carry g kp km [] t = tt
      carry g kp km (j ∷ js) (a, as') = (keep f g j kp km a, carry g kp km js as')
