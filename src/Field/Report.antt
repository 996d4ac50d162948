-- ===== src/Field/Report.antt =====
-- FieldServer::monsterProc (FieldServer/FieldServer.cpp): what the players around a monster hear when its
-- state or its direction has changed since the last report.
use my_mmoproject.Base.{
  ℕ, ◌≡◌, refl, sym, ap, ◌∙◌, ◌++◌, append-nil, append_assoc, Bool, true, false, ◌&&◌, ◌||◌, List,
  [], ◌∷◌, if◌then◌else◌, Bool-cases, inl, inr, arith,
}
use my_mmoproject.Fault.{Result, ok, ◌>>=◌, ◌>>◌, my_assert}
use my_mmoproject.Sector.{Sector, sector_eq, get_around_sectors}
use my_mmoproject.Actor.{Platform, direction_code}
use my_mmoproject.Monster.{
  Monster, MonsterState, idle, move, chase, attack, stun, dead, return, state_eq, direction_eq,
}
use my_mmoproject.Field.{Field, elem, erase, at_sector, set_at}
use my_mmoproject.Player.{Player}
use my_mmoproject.Packet.{
  Packet, monster_despawn, monster_spawn, monster_move_start, monster_move_stop, monster_attack,
}
use my_mmoproject.Field.Broadcast.{
  broadcast, audience, addressed, monster_spawn_of, broadcast_lem, nobody,
  broadcast_monster_move_start, broadcast_monster_move_stop, broadcast_monster_attack,
  broadcast_monster_spawn, broadcast_monster_despawn,
}

module _ (pl : Platform) where
  open pl use {F, bits}

  -- wasMoving
  abbrev pub is_moving : MonsterState → Bool
  is_moving s = state_eq s move || (state_eq s chase || state_eq s return)

  unfoldable pub report_moving : Field pl → Monster F → List Sector → Field pl
  report_moving f m near =
      if is_moving m.before_state
      then broadcast_monster_move_start pl m near (broadcast_monster_move_stop pl m near f)
      else broadcast_monster_move_start pl m near f

  -- The monster taken out of the list of its sector and put at the front of the list of the other.
  abbrev pub moved_sectors : Field pl → Monster F → Field pl
  moved_sectors f m = record f {
    monster_sectors =
        at_sector
          (at_sector f.monster_sectors m.sector (erase m.monster_id (f.monster_sectors m.sector)))
          m.dest_sector
          (m.monster_id
            ∷ at_sector f.monster_sectors m.sector (erase m.monster_id (f.monster_sectors m.sector))
                m.dest_sector);
  }

  -- A revived monster changes its sector between its despawn and its spawn.
  unfoldable pub move_revived : Field pl → Monster F → Result (Field pl × Monster F)
  move_revived f m =
      if sector_eq m.sector m.dest_sector
      then ok (f, m)
      else my_assert (elem m.monster_id (f.monster_sectors m.sector))
        >> ok (moved_sectors f m, record m { sector = m.dest_sector })

  unfoldable pub report_revived : Field pl → Monster F → Result (Field pl × Monster F)
  report_revived f m = do
    old_near ← get_around_sectors f.cache m.sector
    (f', m') ← move_revived (broadcast_monster_despawn pl m old_near f) m
    new_near ← get_around_sectors f.cache m'.sector
    ok (broadcast_monster_spawn pl m' new_near f', m')

  -- The switch of monsterProc; the cache of sectors never changes.
  unfoldable pub report : Field pl → Monster F → MonsterState → Result (Field pl × Monster F)
  report f m move = do near ← get_around_sectors f.cache m.sector; ok (report_moving f m near, m)
  report f m chase = do near ← get_around_sectors f.cache m.sector; ok (report_moving f m near, m)
  report f m return = do near ← get_around_sectors f.cache m.sector; ok (report_moving f m near, m)
  report f m attack = do
    near ← get_around_sectors f.cache m.sector
    ok (broadcast_monster_attack pl m near (broadcast_monster_move_stop pl m near f), m)
  report f m idle =
      let stopped : Result (Field pl × Monster F) = get_around_sectors f.cache m.sector >>= λ near.
      ok (broadcast_monster_move_stop pl m near f, m) in
      if state_eq m.before_state dead then report_revived f m else stopped
  report f m stun = ok (f, m)
  report f m dead = ok (f, m)

  abbrev pub is_settled : Monster F → Bool
  is_settled m = state_eq m.state m.before_state && direction_eq m.direction m.before_direction

  -- The loop body of monsterProc at one monster: the field and the monster behind it.
  unfoldable pub proc_monster : Field pl → Monster F → Result (Field pl × Monster F)
  proc_monster f m =
      let told : Result (Field pl × Monster F) = report f m m.state >>= λ s.
      ok (s.0, record s.1 { before_state = s.1.state; before_direction = s.1.direction }) in
      if is_settled m then ok (f, m) else told

  abbrev pub monster_key : Monster F → ℕ
  monster_key m = m.monster_id

  -- The loop of monsterProc over the field's monsters.
  unfoldable pub monster_proc : List (Monster F) → Field pl → Result (Field pl)
  monster_proc [] f = ok f
  monster_proc (m ∷ ms) f = do
    (f', m') ← proc_monster f m
    monster_proc ms (record f' { monsters = set_at monster_key m'.monster_id m' f'.monsters })

  abbrev stop_packet : Monster F → Packet
  stop_packet m =
      monster_move_stop m.monster_id (bits m.position.x) (bits m.position.y)
        (direction_code m.direction)

  abbrev start_packet : Monster F → Packet
  start_packet m =
      monster_move_start m.monster_id (bits m.position.x) (bits m.position.y)
        (direction_code m.direction) (bits m.speed)

  abbrev moving_news : Monster F → List Packet
  moving_news m =
      if is_moving m.before_state then stop_packet m ∷ start_packet m ∷ [] else start_packet m ∷ []

  -- What a change of state or direction is worth to those around, a return to life aside.
  abbrev pub news : Monster F → MonsterState → List Packet
  news m move = moving_news m
  news m chase = moving_news m
  news m return = moving_news m
  news m attack = stop_packet m ∷ monster_attack m.monster_id ∷ []
  news m idle = stop_packet m ∷ []
  news m stun = []
  news m dead = []

  abbrev pub told_all : List Packet → List (Player F) → List (ℕ × Packet)
  told_all [] ps = []
  told_all (packet ∷ packets) ps = addressed pl packet ps ++ told_all packets ps

  abbrev pub is_revival : Monster F → MonsterState → Bool
  is_revival m s = state_eq s idle && state_eq m.before_state dead

  settled :
      (m : Monster F)
      → is_settled (record m { before_state = m.state; before_direction = m.direction }) ≡ true
  settled m = ground arith

  module _ (f : Field pl) (m : Monster F) (near far : List Sector) where
    -- What the players around the monster's sector, `near`, and around the one that it heads for, `far`, are
    -- sent.
    abbrev pub heard : MonsterState → List (ℕ × Packet)
    heard s =
        if is_revival m s
        then addressed pl (monster_despawn m.monster_id) (audience pl (nobody pl) near f)
          ++ addressed pl (monster_spawn (monster_spawn_of pl m))
              (audience pl (nobody pl) (if sector_eq m.sector m.dest_sector then near else far) f)
        else told_all (news m s) (audience pl (nobody pl) near f)

    one_told :
        (a : Packet)
        → (broadcast pl (nobody pl) a near f).posts
          ≡ f.posts ++ told_all (a ∷ []) (audience pl (nobody pl) near f)
    one_told a =
        ap (λ (g : Field pl). g.posts) (broadcast_lem pl (nobody pl) a near f)
        ∙ ap (◌++◌ f.posts) (sym (append-nil _))

    two_told :
        (a b : Packet)
        → (broadcast pl (nobody pl) b near (broadcast pl (nobody pl) a near f)).posts
          ≡ f.posts ++ told_all (a ∷ b ∷ []) (audience pl (nobody pl) near f)
    two_told a b =
        ap (λ g. (broadcast pl (nobody pl) b near g).posts) (broadcast_lem pl (nobody pl) a near f)
        ∙ ap (λ (g : Field pl). g.posts) (broadcast_lem pl (nobody pl) b near _)
        ∙ append_assoc f.posts _ _
        ∙ ap (λ x. f.posts ++ (addressed pl a (audience pl (nobody pl) near f) ++ x))
            (sym (append-nil _))

    -- The call succeeds, and has posted this.
    abbrev Posts : Result (Field pl × Monster F) → List (ℕ × Packet) → Type 0
    Posts r more =
        (f' : Field pl) × (m' : Monster F) × (r ≡ ok (f', m')) × (f'.posts ≡ f.posts ++ more)

    module _ (cached : get_around_sectors f.cache m.sector ≡ ok near)
        (far_cached : get_around_sectors f.cache m.dest_sector ≡ ok far)
        (placed : elem m.monster_id (f.monster_sectors m.sector) ≡ true) where
      abbrev despawned : Field pl
      despawned = record f {
        posts =
            f.posts ++ addressed pl (monster_despawn m.monster_id) (audience pl (nobody pl) near f);
      }

      moving-Posts :
          Posts
            (get_around_sectors f.cache m.sector >>= λ n. ok (report_moving f m n, m))
            (told_all (moving_news m) (audience pl (nobody pl) near f))
      unfolding report_moving broadcast_monster_move_start broadcast_monster_move_stop
      moving-Posts = elim (Bool-cases (is_moving m.before_state)) [
        | inl went ↦ (
          broadcast_monster_move_start pl m near (broadcast_monster_move_stop pl m near f),
          m,
          rw (cached, went) refl,
          rw went (two_told (stop_packet m) (start_packet m)),
        )
        | inr stood ↦ (
          broadcast_monster_move_start pl m near f,
          m,
          rw (cached, stood) refl,
          rw stood (one_told (start_packet m)),
        )
      ]

      revived-Posts : Posts (report_revived f m) (
          addressed pl (monster_despawn m.monster_id) (audience pl (nobody pl) near f)
          ++ addressed pl
              (monster_spawn (monster_spawn_of pl m))
              (audience pl (nobody pl) (if sector_eq m.sector m.dest_sector then near else far) f))
      unfolding report_revived move_revived broadcast_monster_despawn broadcast_monster_spawn
      revived-Posts = elim (Bool-cases (sector_eq m.sector m.dest_sector)) [
        | inl same ↦ (
          broadcast pl (nobody pl) (monster_spawn (monster_spawn_of pl m)) near despawned,
          m,
          rw
              (
                cached,
                broadcast_lem pl (nobody pl) (monster_despawn m.monster_id) near f,
                same,
                cached,
              )
              refl,
          rw same (
              ap (λ (g : Field pl). g.posts)
                (broadcast_lem pl (nobody pl) (monster_spawn (monster_spawn_of pl m)) near _)
              ∙ append_assoc f.posts _ _),
        )
        | inr other ↦ (
          broadcast pl (nobody pl) (monster_spawn (monster_spawn_of pl m)) far
              (moved_sectors despawned m),
          record m { sector = m.dest_sector },
          rw
              (
                cached,
                broadcast_lem pl (nobody pl) (monster_despawn m.monster_id) near f,
                other,
                placed,
                far_cached,
              )
              refl,
          rw other (
              ap (λ (g : Field pl). g.posts)
                (broadcast_lem pl (nobody pl) (monster_spawn (monster_spawn_of pl m)) far _)
              ∙ append_assoc f.posts _ _),
        )
      ]

      report-Posts : (s : MonsterState) → Posts (report f m s) (heard s)
      unfolding report broadcast_monster_move_stop broadcast_monster_attack
      report-Posts move = moving-Posts
      report-Posts chase = moving-Posts
      report-Posts return = moving-Posts
      report-Posts attack = (
        broadcast_monster_attack pl m near (broadcast_monster_move_stop pl m near f),
        m,
        rw cached refl,
        two_told (stop_packet m) (monster_attack m.monster_id),
      )
      report-Posts idle = elim (Bool-cases (state_eq m.before_state dead)) [
        | inl revived ↦ rw revived revived-Posts
        | inr other ↦
            rw other
              (broadcast_monster_move_stop pl m near f, m, rw cached refl, one_told (stop_packet m))
      ]
      report-Posts stun = (f, m, refl, sym (append-nil f.posts))
      report-Posts dead = (f, m, refl, sym (append-nil f.posts))

      -- monsterProc's round for a monster that has changed, that its sector holds, and whose two sectors
      -- the cache has: it never fails in an assertion, posts exactly the news of the change to the players
      -- around (of a return to life, the despawn around the old sector and the spawn around the new one),
      -- and the next round, without a further change, posts nothing.
      pub proc_monster_once :
          is_settled m ≡ false
          → (f' : Field pl) × (m' : Monster F) × (proc_monster f m ≡ ok (f', m'))
            × (f'.posts ≡ f.posts ++ heard m.state)
            × (proc_monster f' m' ≡ ok (f', m'))
      unfolding proc_monster
      proc_monster_once changed =
          let (f', m', done, posted) = report-Posts m.state in
          (
            f',
            record m' { before_state = m'.state; before_direction = m'.direction },
            rw (changed, done) refl,
            posted,
            rw (settled m') refl,
          )
