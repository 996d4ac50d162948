-- ===== src/Batch.antt =====
-- The batches of FieldServer/FieldServer.cpp: sendSpawnBatch, sendMonsterSpawnBatch and
-- sendItemSpawnBatch write the records of what stands near a player into as few messages as they fit
-- in. The three functions differ in the records only. `cnt` and the count of a batch are int16_t:
-- the model counts in ℕ, so it speaks of fewer than 2 ^ 15 records.
pub mod Parts
pub mod Chunks
mod Tests
use my_mmoproject.Base.{
  ℕ, zero, suc, ◌+◌, ◌-◌, ◌*◌, ◌/◌, Bool, List, [], ◌∷◌, ◌++◌, Option, none, some, ltb, ◌==◌,
  if◌then◌else◌, length,
}
use my_mmoproject.Fault.{Result, ok, err, debug_break, ◌>>=◌}
use my_mmoproject.Message.{Message, init_message, put_data, buffer_size}
use my_mmoproject.Message.Fields.{Field, write_fields}
use my_mmoproject.Packet.{
  Packet, CharacterSpawn, MonsterSpawn, ItemSpawn, other_character_spawn_batch, monster_spawn_batch,
  item_spawn_batch, character_fields, monster_fields, item_fields, character_record_size,
  monster_record_size, item_record_size, int16, header_bytes, header_size, type_code,
}

-- A batch packet: its type, and the size and the fields of a record.
pub record Kind {ℓ} (A : Type ℓ) : Type ℓ where
  pub packet : List A → Packet
  pub record_size : ℕ
  pub fields : A → List Field

-- maxBatch
abbrev pub max_batch : ℕ → ℕ
max_batch record_size = (buffer_size - 2 - 2 - header_size) / record_size

-- `cnt < maxBatch ? cnt : maxBatch`
unfoldable pub next_count : ℕ → ℕ → ℕ
next_count cnt most = if ltb cnt most then cnt else most

module _ {ℓ} {A : Type ℓ} (clock : ℕ → ℕ) (session : ℕ) (kind : Kind A) where
  -- A new message for `count` records, with the header, the type and the count. `clock` gives the
  -- time of InitMessage when `cnt` records are left to write.
  unfoldable pub begin_batch : ℕ → ℕ → Result Message
  begin_batch cnt count = do
    m ←
        put_data (init_message session 0 (clock cnt))
          (header_bytes (2 + 2 + kind.record_size * count) 0) header_size
    write_fields m (int16 (type_code (kind.packet [])) ∷ int16 count ∷ [])

  abbrev pub posted : Option Message → List Message
  posted none = []
  posted (some m) = m ∷ []

  -- The loop over the records near the player, with `cnt` records left in all and `count` left in the
  -- message `msg`; a message is posted when the next one begins, the last one at the end.
  unfoldable pub batch_loop : List A → ℕ → ℕ → Option Message → Result (List Message)
  batch_loop [] cnt count msg = ok (posted msg)
  batch_loop (a ∷ rest) cnt zero msg = do
    m ← begin_batch cnt (next_count cnt (max_batch kind.record_size))
    m' ← write_fields m (kind.fields a)
    later ← batch_loop rest (cnt - 1) ((next_count cnt (max_batch kind.record_size)) - 1) (some m')
    ok (posted msg ++ later)
  batch_loop (a ∷ rest) cnt (suc count) none = err debug_break
  batch_loop (a ∷ rest) cnt (suc count) (some m) = do
    m' ← write_fields m (kind.fields a)
    batch_loop rest (cnt - 1) count (some m')

  -- The whole function on the records that it finds: each adds one to `cnt`, so one turn of
  -- `while (cnt != 0)` writes them all, and none at all posts nothing.
  unfoldable pub send_batch : List A → Result (List Message)
  send_batch records =
      if length records == 0 then ok [] else batch_loop records (length records) 0 none

abbrev pub character_kind : Kind CharacterSpawn
character_kind = record {
  packet = other_character_spawn_batch;
  record_size = character_record_size;
  fields = character_fields;
}

abbrev pub monster_kind : Kind MonsterSpawn
monster_kind = record {
  packet = monster_spawn_batch;
  record_size = monster_record_size;
  fields = monster_fields;
}

abbrev pub item_kind : Kind ItemSpawn
item_kind = record {
  packet = item_spawn_batch;
  record_size = item_record_size;
  fields = item_fields;
}

-- sendSpawnBatch, sendMonsterSpawnBatch and sendItemSpawnBatch
unfoldable pub send_spawn_batch : (ℕ → ℕ) → ℕ → List CharacterSpawn → Result (List Message)
send_spawn_batch clock session records = send_batch clock session character_kind records

unfoldable pub send_monster_spawn_batch : (ℕ → ℕ) → ℕ → List MonsterSpawn → Result (List Message)
send_monster_spawn_batch clock session records = send_batch clock session monster_kind records

unfoldable pub send_item_spawn_batch : (ℕ → ℕ) → ℕ → List ItemSpawn → Result (List Message)
send_item_spawn_batch clock session records = send_batch clock session item_kind records
