-- ===== src/Packet.antt =====
-- The packets that FieldServer/FieldServer.cpp sends (formats in _Shared/Protocol.h): for each, the
-- `header.Len` that its function computes and the fields that it writes, in order. A float is its bit
-- pattern, a `char[20]` the number that its bytes make.
pub mod Layout
pub mod Wire
mod Tests
use my_mmoproject.Base.{ℕ, zero, suc, ◌+◌, ◌*◌, Bool, List, [], ◌∷◌, ◌++◌, if◌then◌else◌, length}
use my_mmoproject.Fault.{Result, ok, err, ◌>>=◌}
use my_mmoproject.Bytes.{to_bytes}
use my_mmoproject.Message.{Message, init_message, put_data}
use my_mmoproject.Message.Fields.{Field, write_fields}

-- What a spawn message says of a player; a batch is a list of these.
pub record CharacterSpawn : Type 0 where
  pub character_id : ℕ
  pub x : ℕ
  pub y : ℕ
  pub state : ℕ
  pub direction : ℕ
  pub speed : ℕ
  pub anim_frame : ℕ
  pub character_type : ℕ
  pub nickname : ℕ

pub record MonsterSpawn : Type 0 where
  pub monster_id : ℕ
  pub x : ℕ
  pub y : ℕ
  pub state : ℕ
  pub direction : ℕ
  pub hp : ℕ
  pub monster_type : ℕ
  pub anim_frame : ℕ

pub record ItemSpawn : Type 0 where
  pub item_unique_id : ℕ
  pub item_id : ℕ
  pub x : ℕ
  pub y : ℕ

pub record RankEntry : Type 0 where
  pub nickname : ℕ
  pub kill_count : ℕ

pub data Packet : Type 0 where
  field_auth_fail : Packet
  field_auth_res : ℕ → ℕ → ℕ → Packet
  other_character_spawn : CharacterSpawn → Packet
  other_character_spawn_batch : List CharacterSpawn → Packet
  character_despawn : ℕ → Packet
  move_start : ℕ → ℕ → ℕ → ℕ → ℕ → Packet
  move_stop : ℕ → ℕ → ℕ → ℕ → Packet
  monster_spawn : MonsterSpawn → Packet
  monster_spawn_batch : List MonsterSpawn → Packet
  monster_despawn : ℕ → Packet
  monster_move_start : ℕ → ℕ → ℕ → ℕ → ℕ → Packet
  monster_move_stop : ℕ → ℕ → ℕ → ℕ → Packet
  other_character_attack : ℕ → Packet
  monster_damaged : ℕ → ℕ → ℕ → ℕ → ℕ → Packet
  monster_attack : ℕ → Packet
  character_damaged : ℕ → ℕ → ℕ → ℕ → ℕ → ℕ → Packet
  item_spawn : ItemSpawn → Packet
  item_spawn_batch : List ItemSpawn → Packet
  item_despawn : ℕ → Packet
  loot_res : ℕ → ℕ → ℕ → Packet
  ranking_res : List RankEntry → ℕ → ℕ → Packet

-- PacketType
abbrev pub type_code : Packet → ℕ
type_code field_auth_fail = 101
type_code (field_auth_res c x y) = 102
type_code (other_character_spawn r) = 103
type_code (other_character_spawn_batch rs) = 104
type_code (character_despawn c) = 105
type_code (move_start c x y d s) = 106
type_code (move_stop c x y d) = 107
type_code (monster_spawn r) = 108
type_code (monster_spawn_batch rs) = 109
type_code (monster_despawn m) = 110
type_code (monster_move_start m x y d s) = 111
type_code (monster_move_stop m x y d) = 112
type_code (other_character_attack c) = 114
type_code (monster_damaged m h x y d) = 115
type_code (monster_attack m) = 116
type_code (character_damaged c h x y d m) = 117
type_code (item_spawn r) = 118
type_code (item_spawn_batch rs) = 119
type_code (item_despawn i) = 120
type_code (loot_res r i c) = 122
type_code (ranking_res es r k) = 124

abbrev pub int8 : ℕ → Field
int8 v = record { size = 1; value = v }

abbrev pub int16 : ℕ → Field
int16 v = record { size = 2; value = v }

abbrev pub int32 : ℕ → Field
int32 v = record { size = 4; value = v }

abbrev pub float32 : ℕ → Field
float32 v = record { size = 4; value = v }

abbrev pub int64 : ℕ → Field
int64 v = record { size = 8; value = v }

abbrev pub char20 : ℕ → Field
char20 v = record { size = 20; value = v }

-- RECORD_SIZE of sendSpawnBatch, sendMonsterSpawnBatch and sendItemSpawnBatch
abbrev pub character_record_size : ℕ
character_record_size = 8 + 4 + 4 + 1 + 1 + 4 + 4 + 1 + 20

abbrev pub monster_record_size : ℕ
monster_record_size = 8 + 4 + 4 + 1 + 1 + 4 + 1 + 4

abbrev pub item_record_size : ℕ
item_record_size = 8 + 1 + 4 + 4

-- header.Len, as each function computes it.
unfoldable pub header_len : Packet → ℕ
header_len field_auth_fail = 2 + 1
header_len (field_auth_res c x y) = 2 + 8 + 4 + 4
header_len (other_character_spawn r) = 2 + 8 + 4 + 4 + 1 + 1 + 4 + 4 + 1 + 20
header_len (other_character_spawn_batch rs) = 2 + 2 + character_record_size * length rs
header_len (character_despawn c) = 2 + 8
header_len (move_start c x y d s) = 2 + 8 + 4 + 4 + 1 + 4
header_len (move_stop c x y d) = 2 + 8 + 4 + 4 + 1
header_len (monster_spawn r) = 2 + 8 + 4 + 4 + 1 + 1 + 4 + 1 + 4
header_len (monster_spawn_batch rs) = 2 + 2 + monster_record_size * length rs
header_len (monster_despawn m) = 2 + 8
header_len (monster_move_start m x y d s) = 2 + 8 + 4 + 4 + 1 + 4
header_len (monster_move_stop m x y d) = 2 + 8 + 4 + 4 + 1
header_len (other_character_attack c) = 2 + 8
header_len (monster_damaged m h x y d) = 2 + (8 + 4 + 4 + 4 + 1)
header_len (monster_attack m) = 2 + 8
header_len (character_damaged c h x y d m) = 2 + 8 + 4 + 4 + 4 + 1 + 8
header_len (item_spawn r) = 2 + 8 + 1 + 4 + 4
header_len (item_spawn_batch rs) = 2 + 2 + item_record_size * length rs
header_len (item_despawn i) = 2 + 8
header_len (loot_res r i c) = 2 + 1 + 1 + 4
header_len (ranking_res es r k) = 2 + 2 + length es * (20 + 8) + 8 * 2

abbrev pub character_fields : CharacterSpawn → List Field
character_fields r =
    int64 r.character_id
    ∷ float32 r.x
    ∷ float32 r.y
    ∷ int8 r.state
    ∷ int8 r.direction
    ∷ float32 r.speed
    ∷ int32 r.anim_frame
    ∷ int8 r.character_type
    ∷ char20 r.nickname
    ∷ []

abbrev pub monster_fields : MonsterSpawn → List Field
monster_fields r =
    int64 r.monster_id
    ∷ float32 r.x
    ∷ float32 r.y
    ∷ int8 r.state
    ∷ int8 r.direction
    ∷ int32 r.hp
    ∷ int8 r.monster_type
    ∷ int32 r.anim_frame
    ∷ []

abbrev pub item_fields : ItemSpawn → List Field
item_fields r = int64 r.item_unique_id ∷ int8 r.item_id ∷ float32 r.x ∷ float32 r.y ∷ []

abbrev pub rank_fields : RankEntry → List Field
rank_fields e = char20 e.nickname ∷ int64 e.kill_count ∷ []

-- The fields of each element, one element after the other.
abbrev pub each {ℓ} : {A : Type ℓ} → (A → List Field) → List A → List Field
each f [] = []
each f (a ∷ as') = f a ++ each f as'

-- What is written behind the packet type.
unfoldable pub payload : Packet → List Field
payload field_auth_fail = int8 0 ∷ []
payload (field_auth_res c x y) = int64 c ∷ float32 x ∷ float32 y ∷ []
payload (other_character_spawn r) = character_fields r
payload (other_character_spawn_batch rs) = int16 (length rs) ∷ each character_fields rs
payload (character_despawn c) = int64 c ∷ []
payload (move_start c x y d s) = int64 c ∷ float32 x ∷ float32 y ∷ int8 d ∷ float32 s ∷ []
payload (move_stop c x y d) = int64 c ∷ float32 x ∷ float32 y ∷ int8 d ∷ []
payload (monster_spawn r) = monster_fields r
payload (monster_spawn_batch rs) = int16 (length rs) ∷ each monster_fields rs
payload (monster_despawn m) = int64 m ∷ []
payload (monster_move_start m x y d s) = int64 m ∷ float32 x ∷ float32 y ∷ int8 d ∷ float32 s ∷ []
payload (monster_move_stop m x y d) = int64 m ∷ float32 x ∷ float32 y ∷ int8 d ∷ []
payload (other_character_attack c) = int64 c ∷ []
payload (monster_damaged m h x y d) = int64 m ∷ int32 h ∷ float32 x ∷ float32 y ∷ int8 d ∷ []
payload (monster_attack m) = int64 m ∷ []
payload (character_damaged c h x y d m) =
    int64 c ∷ int32 h ∷ float32 x ∷ float32 y ∷ int8 d ∷ int64 m ∷ []
payload (item_spawn r) = item_fields r
payload (item_spawn_batch rs) = int16 (length rs) ∷ each item_fields rs
payload (item_despawn i) = int64 i ∷ []
payload (loot_res r i c) = int8 r ∷ int8 i ∷ int32 c ∷ []
payload (ranking_res es r k) = int16 (length es) ∷ (each rank_fields es ++ (int64 r ∷ int64 k ∷ []))

-- The three bytes of struct Header, packed: Len and RandKey.
abbrev pub header_bytes : ℕ → ℕ → List ℕ
header_bytes len rand_key = to_bytes 2 len ++ to_bytes 1 rand_key

-- sizeof(Header)
abbrev pub header_size : ℕ
header_size = 3

-- InitMessage, PutData of the header, and the `<<` of the type and of the fields; `now` is
-- timeGetTime().
unfoldable pub compose : ℕ → ℕ → Packet → Result Message
compose session now p = do
  m ← put_data (init_message session 0 now) (header_bytes (header_len p) 0) header_size
  write_fields m (int16 (type_code p) ∷ payload p)
