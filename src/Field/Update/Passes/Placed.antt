-- ===== src/Field/Update/Passes/Placed.antt =====
-- Every player stands in the set of the sector that he is in and in no other: the second pass of
-- fieldUpdate keeps it.
use my_mmoproject.Base.{
  ℕ, ◌≡◌, ◌≢◌, refl, sym, ap, ◌∙◌, subst, Bool, true, false, List, [], ◌∷◌, Option, none, some,
  ◌==◌, if◌then◌else◌, Bool-cases, inl, inr, arith, ==_iff,
}
use my_mmoproject.Fault.{Result, ok}
use my_mmoproject.Sector.{
  Sector, sector_eq, in_map, get_around_sectors, calc_despawn_and_spawn_sector, erase_common,
  near_sector_initialization, around,
}
use my_mmoproject.Sector.Cache.{get_around_sectors-cached}
use my_mmoproject.Sector.Diff.{sector_eq→eq, sector_eq_refl}
use my_mmoproject.Actor.{Platform}
use my_mmoproject.Player.{Player}
use my_mmoproject.Packet.{Packet}
use my_mmoproject.Field.{Field, Sectors, find, set_at, player_key, elem}
use my_mmoproject.Field.Loot.{find-set_at}
use my_mmoproject.Field.Find.{find-set_at_other, key-find, elem-find, find-elem}
use my_mmoproject.Field.Broadcast.{
  broadcast_spawn, broadcast_despawn, broadcast_lem, is_player, same_character,
}
use my_mmoproject.Field.Update.Visibility.{
  post_all_lem, tell_spawn_batch, tell_monster_spawn_batch, tell_item_spawn_batch,
  send_despawn_batch, send_monster_despawn_batch, send_item_despawn_batch,
}
use my_mmoproject.Field.Update.Passes.Held.{IsHeld, IsOnMap, stands_in, relocate-IsHeld}
use my_mmoproject.Field.Update.Passes.{
  relocate, each, tell_move, change_sector, move_player, player_ids,
}

module _ (pl : Platform) where
  open pl use {F}

  -- The player's own sectors, as Held reads them.
  abbrev pub IsPlacedIn : List (Player F) → Sectors → Type 0
  IsPlacedIn =
      IsHeld (player_key pl) (λ (p : Player F). p.current_sector) (λ (p : Player F). p.dest_sector)

  -- A sector's set holds a player exactly if he is in that sector; the sectors that players are in or
  -- head for are on the map, and the cache is the one that nearSectorInitalization fills.
  pub record IsPlaced (f : Field pl) : Type 0 where
    pub players_held : IsPlacedIn f.players f.sectors
    pub cached : near_sector_initialization ≡ ok f.cache

  abbrev pub player_in : Sector → Option (Player F) → Bool
  player_in =
      stands_in (player_key pl) (λ (q : Player F). q.current_sector)
        (λ (q : Player F). q.dest_sector)

  -- A call that leaves the monsters, the items and the requests as they are.
  pub record SameRest (f f' : Field pl) : Type 0 where
    pub monsters : f'.monsters ≡ f.monsters
    pub monster_sectors : f'.monster_sectors ≡ f.monster_sectors
    pub items : f'.items ≡ f.items
    pub requests : f'.db_requests ≡ f.db_requests

  -- The player behind the pass.
  abbrev pub arrived : Player F → Player F
  arrived p = record p { current_sector = p.dest_sector }

  -- A call that only posts.
  abbrev pub OnlyPosts : (Field pl → Field pl) → Type 0
  OnlyPosts g = (f : Field pl) → (later : List (ℕ × Packet)) × (g f ≡ record f { posts = later })

  then_posts : (g h : Field pl → Field pl) → OnlyPosts g → OnlyPosts h → OnlyPosts (λ f. h (g f))
  then_posts g h pg ph f =
      let (a, ea) = pg f in let (b, eb) = ph (record f { posts = a }) in (b, ap h ea ∙ eb)

  module _ (p : Player F) (spawn despawn : List Sector) where
    tell_move_lem : OnlyPosts (tell_move pl p spawn despawn)
    unfolding tell_move tell_spawn_batch tell_monster_spawn_batch tell_item_spawn_batch
        send_despawn_batch send_monster_despawn_batch send_item_despawn_batch broadcast_spawn
        broadcast_despawn
    tell_move_lem =
        then_posts (λ f. broadcast_spawn pl p spawn f) _
          (λ f. (_, broadcast_lem pl (is_player pl p) _ spawn f))
          (then_posts (tell_spawn_batch pl p spawn) _ (λ f. post_all_lem pl p.seq_id _ f)
            (then_posts (tell_monster_spawn_batch pl p spawn) _ (λ f. post_all_lem pl p.seq_id _ f)
              (then_posts (tell_item_spawn_batch pl p spawn) _ (λ f. post_all_lem pl p.seq_id _ f)
                (then_posts (λ f. broadcast_despawn pl p despawn f) _
                  (λ f. (_, broadcast_lem pl (same_character pl p) _ despawn f))
                  (then_posts (send_despawn_batch pl p despawn) _
                    (λ f. post_all_lem pl p.seq_id _ f)
                    (then_posts (send_monster_despawn_batch pl p despawn)
                      (send_item_despawn_batch pl p despawn) (λ f. post_all_lem pl p.seq_id _ f)
                      (λ f. post_all_lem pl p.seq_id _ f)))))))

  module _ (f : Field pl) (placed : IsPlaced f) (id : ℕ) (p : Player F)
      (here : find (player_key pl) id f.players ≡ some p) where
    same_id : p.seq_id ≡ id
    same_id = key-find (player_key pl) id f.players here

    own_map : (in_map p.current_sector ≡ true) × (in_map p.dest_sector ≡ true)
    own_map =
        subst
          (IsOnMap (player_key pl) (λ (q : Player F). q.current_sector)
            (λ (q : Player F). q.dest_sector))
          here (placed.players_held.mapped id)

    around_here : (s : Sector) → in_map s ≡ true → get_around_sectors f.cache s ≡ ok (around s)
    around_here s h = get_around_sectors-cached f.cache s placed.cached ∙ rw h refl

    -- The field behind the player's change of sector, with what has been posted.
    abbrev settled_field : List (ℕ × Packet) → Field pl
    settled_field later = record f {
      posts = later;
      players = set_at (player_key pl) p.seq_id (arrived p) f.players;
      sectors = relocate p.seq_id p.current_sector p.dest_sector f.sectors;
    }

    change_sector_lem :
        (later : List (ℕ × Packet)) × (change_sector pl p f ≡ ok (settled_field later))
    unfolding change_sector calc_despawn_and_spawn_sector
    change_sector_lem =
        let held : elem p.seq_id (f.sectors p.current_sector) ≡ true =
          ap (λ n. elem n (f.sectors p.current_sector)) same_id
          ∙ placed.players_held.held id p.current_sector
          ∙ ap (player_in p.current_sector) here
          ∙ sector_eq_refl p.current_sector in
        let (spawn, despawn) = erase_common (around p.dest_sector) (around p.current_sector) in
        let (later, told) = tell_move_lem p spawn despawn f in
        (
          later,
          rw
              (
                held,
                around_here p.dest_sector own_map.1,
                around_here p.current_sector own_map.0,
                told,
              )
              refl,
        )

    here' : find (player_key pl) p.seq_id f.players ≡ some p
    here' = ap (λ n. find (player_key pl) n f.players) same_id ∙ here

    find-arrived :
        find (player_key pl) p.seq_id (set_at (player_key pl) p.seq_id (arrived p) f.players)
        ≡ some (arrived p)
    find-arrived = find-set_at (player_key pl) p.seq_id (arrived p) f.players here' refl

    find_other :
        (other : ℕ)
        → other ≢ p.seq_id
        → find (player_key pl) other (set_at (player_key pl) p.seq_id (arrived p) f.players)
          ≡ find (player_key pl) other f.players
    find_other other h =
        find-set_at_other (player_key pl) p.seq_id other (arrived p) f.players refl h

    settled_field-IsPlaced : (later : List (ℕ × Packet)) → IsPlaced (settled_field later)
    settled_field-IsPlaced later = record {
      players_held =
          relocate-IsHeld (player_key pl) (λ (q : Player F). q.current_sector)
            (λ (q : Player F). q.dest_sector) f.players f.sectors placed.players_held p (arrived p)
            here' own_map.1 refl;
      cached = placed.cached;
    }

  -- Whether a player has been moved, for each of the ids.
  abbrev pub moved_if : Bool → Option (Player F) → Option (Player F)
  moved_if moved none = none
  moved_if moved (some p) = some (if moved then arrived p else p)

  -- What the calls for the ids do: they succeed, keep the placement, move these players, and leave the
  -- others where they are.
  abbrev pub Moves : List ℕ → Field pl → Result (Field pl) → Type 0
  Moves ids f r =
      (f' : Field pl) × (r ≡ ok f')
      × IsPlaced f'
      × SameRest f f'
      × ((id : ℕ)
          → find (player_key pl) id f'.players
            ≡ moved_if (elem id ids) (find (player_key pl) id f.players))

  moved_if-false : (o : Option (Player F)) → o ≡ moved_if false o
  moved_if-false none = refl
  moved_if-false (some p) = refl

  arrived_same : (p : Player F) → sector_eq p.current_sector p.dest_sector ≡ true → p ≡ arrived p
  arrived_same p h =
      ap (λ s. record p { current_sector = s }) (sector_eq→eq p.current_sector p.dest_sector h)

  unchanged : (f : Field pl) → SameRest f f
  unchanged f = record { monsters = refl; monster_sectors = refl; items = refl; requests = refl }

  SameRest-trans : (f g h : Field pl) → SameRest f g → SameRest g h → SameRest f h
  SameRest-trans f g h a b = record {
    monsters = b.monsters ∙ a.monsters;
    monster_sectors = b.monster_sectors ∙ a.monster_sectors;
    items = b.items ∙ a.items;
    requests = b.requests ∙ a.requests;
  }

  module _ (f : Field pl) (placed : IsPlaced f) (id : ℕ) (p : Player F)
      (here : find (player_key pl) id f.players ≡ some p) where
    own : (id' : ℕ) → (id' == id) ≡ true → find (player_key pl) id' f.players ≡ some p
    own id' same = ap (λ n. find (player_key pl) n f.players) ((==_iff id' id).0 same) ∙ here

    move_player-Moves : Moves (id ∷ []) f (move_player pl id f)
    unfolding move_player
    move_player-Moves = elim (Bool-cases (sector_eq p.current_sector p.dest_sector)) [
      | inl still ↦ (
        f,
        rw (here, still) refl,
        placed,
        unchanged f,
        λ id'. elim (Bool-cases (id' == id)) [
          | inl same ↦ rw same (
              own id' same
              ∙ ap some (arrived_same p still)
              ∙ ap (moved_if true) (sym (own id' same)))
          | inr differs ↦ rw differs (moved_if-false _)
        ],
      )
      | inr moves ↦
          let (later, run) = change_sector_lem f placed id p here in
          (
            settled_field f placed id p here later,
            rw (here, moves) run,
            settled_field-IsPlaced f placed id p here later,
            record { monsters = refl; monster_sectors = refl; items = refl; requests = refl },
            λ id'. elim (Bool-cases (id' == id)) [
              | inl same ↦ rw same (
                  ap
                    (λ n.
                      find (player_key pl) n
                        (set_at (player_key pl) p.seq_id (arrived p) f.players))
                    ((==_iff id' id).0 same ∙ sym (same_id f placed id p here))
                  ∙ find-arrived f placed id p here
                  ∙ ap (moved_if true) (sym (own id' same)))
              | inr differs ↦
                  let h : id' ≢ p.seq_id = ground (arith, same_id f placed id p here) in
                  rw differs (find_other f placed id p here id' h ∙ moved_if-false _)
            ],
          )
    ]

  moved_twice :
      (id id' : ℕ) (ids : List ℕ) (o : Option (Player F))
      → moved_if (elem id' ids) (moved_if (elem id' (id ∷ [])) o) ≡ moved_if (elem id' (id ∷ ids)) o
  moved_twice id id' ids none = refl
  moved_twice id id' ids (some p) = elim (Bool-cases (id' == id)) [
    | inl same ↦ rw same (collapse (elem id' ids))
    | inr differs ↦ rw differs refl
  ]
    where
      collapse : (b : Bool) → some (if b then arrived (arrived p) else arrived p) ≡ some (arrived p)
      collapse true = refl
      collapse false = refl

  pub still_there :
      (b : Bool) (o : Option (Player F)) {p : Player F}
      → o ≡ some p
      → (q : Player F) × (moved_if b o ≡ some q)
  still_there b none e = absurd (ground (arith, e))
  still_there b (some p) e = (_, refl)

  each-Moves :
      (ids : List ℕ) (f : Field pl)
      → IsPlaced f
      → ((id : ℕ)
          → elem id ids ≡ true
          → (p : Player F) × (find (player_key pl) id f.players ≡ some p))
      → Moves ids f (each pl (move_player pl) ids f)
  unfolding each
  each-Moves [] f placed there = (f, refl, placed, unchanged f, λ id. moved_if-false _)
  each-Moves (id ∷ ids) f placed there =
      let (p, here) = there id (ground arith) in
      let (f1, run, placed1, rest1, look) = move_player-Moves f placed id p here in
      let there1 : (id' : ℕ)
          → elem id' ids ≡ true
          → (q : Player F) × (find (player_key pl) id' f1.players ≡ some q) =
        λ id' h.
          let (q, was) = there id' (ground (arith, h)) in
          let (q', is) = still_there (elem id' (id ∷ [])) _ was in (q', look id' ∙ is) in
      let (f2, run2, placed2, rest2, look2) = each-Moves ids f1 placed1 there1 in
      (
        f2,
        rw run run2,
        placed2,
        SameRest-trans f f1 f2 rest1 rest2,
        λ id'. look2 id' ∙ ap (moved_if (elem id' ids)) (look id') ∙ moved_twice id id' ids _,
      )

  pub pass-Moves :
      (f : Field pl)
      → IsPlaced f
      → Moves (player_ids pl f) f (each pl (move_player pl) (player_ids pl f) f)
  pass-Moves f placed =
      each-Moves (player_ids pl f) f placed (λ id h. find-elem (player_key pl) id f.players h)

  -- The second pass of fieldUpdate, on a field whose sectors hold exactly the players that are in them:
  -- it never stops in an assertion, every player is in the sector that he headed for, and the
  -- sectors hold exactly the players that are in them again.
  pub move_players-IsPlaced :
      (f : Field pl)
      → IsPlaced f
      → (f' : Field pl) × (each pl (move_player pl) (player_ids pl f) f ≡ ok f')
        × IsPlaced f'
        × ((id : ℕ) (p : Player F)
            → find (player_key pl) id f.players ≡ some p
            → find (player_key pl) id f'.players ≡ some (arrived p))
  move_players-IsPlaced f placed =
      let (f', run, placed', rest, look) = pass-Moves f placed in
      (
        f',
        run,
        placed',
        λ id p e. look id ∙ rw (elem-find (player_key pl) id f.players e) (ap (moved_if true) e),
      )
