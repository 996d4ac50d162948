-- ===== src/Field/Broadcast.antt =====
-- The broadcast functions of FieldServer/FieldServer.cpp: one packet to every player in the given
-- sectors, except for the one that it is about where the function leaves that one out.
use my_mmoproject.Base.{
  ℕ, ◌≡◌, refl, sym, ap, ◌∙◌, Bool, false, List, [], ◌∷◌, ◌++◌, ◌==◌, if◌then◌else◌, append_assoc,
  append-nil, Bool-cases, inl, inr,
}
use my_mmoproject.Sector.{Sector}
use my_mmoproject.Actor.{Platform, direction_code}
use my_mmoproject.Monster.{Monster}
use my_mmoproject.Player.{Player}
use my_mmoproject.Packet.{
  Packet, CharacterSpawn, MonsterSpawn, ItemSpawn, other_character_spawn, character_despawn,
  move_start, move_stop, monster_spawn, monster_despawn, monster_move_start, monster_move_stop,
  other_character_attack, monster_damaged, monster_attack, character_damaged, item_spawn,
  item_despawn, loot_res,
}
use my_mmoproject.Field.{Field, Item, post, members, resolve, player_key, Sectors}
use my_mmoproject.Monster
use my_mmoproject.Player

module _ (pl : Platform) where
  open pl use {F, bits}

  -- The loop over the players of a sector; `skip` holds of those that are passed over.
  unfoldable pub post_each : (Player F → Bool) → Packet → List (Player F) → Field pl → Field pl
  post_each skip packet [] f = f
  post_each skip packet (p ∷ ps) f =
      post_each skip packet ps (if skip p then f else post pl f p.seq_id packet)

  -- The loop over the sectors.
  unfoldable pub broadcast : (Player F → Bool) → Packet → List Sector → Field pl → Field pl
  broadcast skip packet [] f = f
  broadcast skip packet (s ∷ near) f =
      broadcast skip packet near (post_each skip packet (members pl f s) f)

  abbrev pub nobody : Player F → Bool
  nobody p = false

  -- `player == &sendPlayer`
  abbrev pub is_player : Player F → Player F → Bool
  is_player sender p = p.seq_id == sender.seq_id

  -- `player->mCharacterID == targetPlayer.mCharacterID`
  abbrev pub same_character : Player F → Player F → Bool
  same_character target p = p.character_id == target.character_id

  abbrev pub character_spawn : Player F → CharacterSpawn
  character_spawn p = record {
    character_id = p.character_id;
    x = bits p.position.x;
    y = bits p.position.y;
    state = Player.state_code p.state;
    direction = direction_code p.direction;
    speed = bits p.speed;
    anim_frame = p.anim_frame;
    character_type = p.character_type;
    nickname = p.nickname;
  }

  abbrev pub monster_spawn_of : Monster F → MonsterSpawn
  monster_spawn_of m = record {
    monster_id = m.monster_id;
    x = bits m.position.x;
    y = bits m.position.y;
    state = Monster.state_code m.state;
    direction = direction_code m.direction;
    hp = m.hp;
    monster_type = m.monster_type;
    anim_frame = m.anim_frame;
  }

  abbrev pub item_spawn_of : Item F → ItemSpawn
  item_spawn_of i = record {
    item_unique_id = i.item_unique_id;
    item_id = i.item_id;
    x = bits i.position.x;
    y = bits i.position.y;
  }

  unfoldable pub broadcast_item_spawn : Item F → List Sector → Field pl → Field pl
  broadcast_item_spawn i = broadcast nobody (item_spawn (item_spawn_of i))

  unfoldable pub broadcast_item_despawn : Item F → List Sector → Field pl → Field pl
  broadcast_item_despawn i = broadcast nobody (item_despawn i.item_unique_id)

  unfoldable pub broadcast_monster_damaged : Monster F → List Sector → Field pl → Field pl
  broadcast_monster_damaged m = broadcast nobody (
      monster_damaged m.monster_id m.hp (bits m.position.x) (bits m.position.y)
        (direction_code m.direction))

  unfoldable pub broadcast_character_damaged :
      Player F → Monster F → List Sector → Field pl → Field pl
  broadcast_character_damaged p attacker = broadcast nobody (
      character_damaged p.character_id p.hp (bits p.position.x) (bits p.position.y)
        (direction_code p.direction) attacker.monster_id)

  unfoldable pub broadcast_move_start : Player F → List Sector → Field pl → Field pl
  broadcast_move_start p = broadcast (is_player p) (
      move_start p.character_id (bits p.position.x) (bits p.position.y) (direction_code p.direction)
        (bits p.speed))

  unfoldable pub broadcast_move_stop : Player F → List Sector → Field pl → Field pl
  broadcast_move_stop p = broadcast (is_player p) (
      move_stop p.character_id (bits p.position.x) (bits p.position.y) (direction_code p.direction))

  unfoldable pub broadcast_player_attack : Player F → List Sector → Field pl → Field pl
  broadcast_player_attack p = broadcast (is_player p) (other_character_attack p.character_id)

  unfoldable pub broadcast_monster_move_start : Monster F → List Sector → Field pl → Field pl
  broadcast_monster_move_start m = broadcast nobody (
      monster_move_start m.monster_id (bits m.position.x) (bits m.position.y)
        (direction_code m.direction) (bits m.speed))

  unfoldable pub broadcast_monster_move_stop : Monster F → List Sector → Field pl → Field pl
  broadcast_monster_move_stop m = broadcast nobody (
      monster_move_stop m.monster_id (bits m.position.x) (bits m.position.y)
        (direction_code m.direction))

  unfoldable pub broadcast_monster_attack : Monster F → List Sector → Field pl → Field pl
  broadcast_monster_attack m = broadcast nobody (monster_attack m.monster_id)

  unfoldable pub broadcast_monster_spawn : Monster F → List Sector → Field pl → Field pl
  broadcast_monster_spawn m = broadcast nobody (monster_spawn (monster_spawn_of m))

  unfoldable pub broadcast_monster_despawn : Monster F → List Sector → Field pl → Field pl
  broadcast_monster_despawn m = broadcast nobody (monster_despawn m.monster_id)

  unfoldable pub broadcast_spawn : Player F → List Sector → Field pl → Field pl
  broadcast_spawn p = broadcast (is_player p) (other_character_spawn (character_spawn p))

  unfoldable pub broadcast_despawn : Player F → List Sector → Field pl → Field pl
  broadcast_despawn p = broadcast (same_character p) (character_despawn p.character_id)

  -- sendLootRes; a result of 0 is success.
  unfoldable pub send_loot_res : Player F → Bool → ℕ → ℕ → Field pl → Field pl
  send_loot_res p success item_id count f =
      post pl f p.seq_id (loot_res (if success then 0 else 1) item_id count)

  -- The players in the sectors that are not passed over, in the loops' order.
  abbrev pub kept : (Player F → Bool) → List (Player F) → List (Player F)
  kept skip [] = []
  kept skip (p ∷ ps) = let rest = kept skip ps in if skip p then rest else p ∷ rest

  abbrev pub heard_in :
      (Player F → Bool) → List Sector → List (Player F) → Sectors → List (Player F)
  heard_in skip [] players sectors = []
  heard_in skip (s ∷ near) players sectors =
      kept skip (resolve (player_key pl) players (sectors s)) ++ heard_in skip near players sectors

  abbrev pub audience : (Player F → Bool) → List Sector → Field pl → List (Player F)
  audience skip near f = heard_in skip near f.players f.sectors

  abbrev pub addressed : Packet → List (Player F) → List (ℕ × Packet)
  addressed packet [] = []
  addressed packet (p ∷ ps) = (p.seq_id, packet) ∷ addressed packet ps

  addressed-append :
      (packet : Packet) (ps qs : List (Player F))
      → addressed packet (ps ++ qs) ≡ addressed packet ps ++ addressed packet qs
  addressed-append packet [] qs = refl
  addressed-append packet (p ∷ ps) qs = ap (◌∷◌ (p.seq_id, packet)) (addressed-append packet ps qs)

  post_each_lem :
      (skip : Player F → Bool) (packet : Packet) (ps : List (Player F)) (f : Field pl)
      → post_each skip packet ps f ≡ record f { posts = f.posts ++ addressed packet (kept skip ps) }
  unfolding post_each
  post_each_lem skip packet [] f = ap (λ x. record f { posts = x }) (sym (append-nil f.posts))
  post_each_lem skip packet (p ∷ ps) f = elim (Bool-cases (skip p)) [
    | inl passed ↦ rw passed (post_each_lem skip packet ps f)
    | inr told ↦ rw told (
        post_each_lem skip packet ps (post pl f p.seq_id packet)
        ∙ ap (λ x. record f { posts = x })
            (append_assoc f.posts ((p.seq_id, packet) ∷ []) (addressed packet (kept skip ps))))
  ]

  -- A broadcast posts its packet to the players that its sectors hold and that it does not pass over, in
  -- the order of its loops, behind what was posted before, and changes nothing else of the field.
  pub broadcast_lem :
      (skip : Player F → Bool) (packet : Packet) (near : List Sector) (f : Field pl)
      → broadcast skip packet near f
        ≡ record f { posts = f.posts ++ addressed packet (audience skip near f) }
  unfolding broadcast
  broadcast_lem skip packet [] f = ap (λ x. record f { posts = x }) (sym (append-nil f.posts))
  broadcast_lem skip packet (s ∷ near) f =
      ap (broadcast skip packet near) (post_each_lem skip packet (members pl f s) f)
      ∙ (broadcast_lem skip packet near
            (record f { posts = f.posts ++ addressed packet (kept skip (members pl f s)) })
          ∙ ap (λ x. record f { posts = x })
              (append_assoc f.posts (addressed packet (kept skip (members pl f s)))
                  (addressed packet (audience skip near f))
                ∙ ap (◌++◌ f.posts) (
                    sym (
                      addressed-append packet (kept skip (members pl f s))
                        (audience skip near f)))))
