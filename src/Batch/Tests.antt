-- ===== src/Batch/Tests.antt =====
-- Two players, a wolf and no item near a player.
use my_mmoproject.Base.{◌≡◌, List, [], ◌∷◌}
use my_mmoproject.Fault.{ok}
use my_mmoproject.Packet.{
  CharacterSpawn, MonsterSpawn, other_character_spawn_batch, monster_spawn_batch, item_spawn_batch,
}
use my_mmoproject.Batch.{send_spawn_batch, send_monster_spawn_batch, send_item_spawn_batch}
use my_mmoproject.Batch.Chunks.{batches, spawn_batches}

abbrev two_players : List CharacterSpawn
two_players =
    record {
      character_id = 1;
      x = 2;
      y = 3;
      state = 0;
      direction = 1;
      speed = 4;
      anim_frame = 5;
      character_type = 0;
      nickname = 65;
    }
    ∷ record {
      character_id = 2;
      x = 9;
      y = 9;
      state = 1;
      direction = 0;
      speed = 4;
      anim_frame = 1;
      character_type = 0;
      nickname = 66;
    }
    ∷ []

abbrev one_wolf : List MonsterSpawn
one_wolf =
    record {
      monster_id = 7;
      x = 2;
      y = 3;
      state = 0;
      direction = 1;
      hp = 60;
      monster_type = 0;
      anim_frame = 5;
    }
    ∷ []

spawn_batches_example :
    (send_spawn_batch (λ k. k) 77 two_players
      ≡ ok (batches (λ k. k) 77 other_character_spawn_batch 127 2 two_players))
    × (send_monster_spawn_batch (λ k. k) 77 one_wolf
        ≡ ok (batches (λ k. k) 77 monster_spawn_batch 221 1 one_wolf))
    × (send_item_spawn_batch (λ k. k) 77 [] ≡ ok (batches (λ k. k) 77 item_spawn_batch 352 0 []))
spawn_batches_example = spawn_batches (λ k. k) 77 two_players one_wolf []
