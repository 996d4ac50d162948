-- ===== src/Message.antt =====
-- utility::Message (_lib/AcceptEx_IOCP_NetworkLib/utility/Message.h and Message.cpp): the buffer that
-- packets are written to and read from. `written` holds the bytes from `mBegin` to `mRearPtr`, which
-- are all that any operation reads, so `mRearPtr` is its length; `front` and `end` are offsets from
-- `mBegin`. BufferSize and MaxSize are equal, so `operator<<` never takes its Resize branch, whose
-- guard asks for `mSize + sizeof(data) < MaxSize` at `mSize == BufferSize`.
pub mod Fields
use my_mmoproject.Base.{
  ℕ, ◌+◌, ◌-◌, Bool, List, [], ◌∷◌, ◌++◌, ltb, leb, if◌then◌else◌, length, take, drop, slice,
}
use my_mmoproject.Fault.{Result, ok, err, has_not_data, not_enough_space, ◌>>=◌}
use my_mmoproject.Bytes.{to_bytes, of_bytes}

pub record Message : Type 0 where
  pub written : List ℕ
  pub front : ℕ
  pub end : ℕ
  pub owner_id : ℕ
  pub rand_key : ℕ
  pub request_time : ℕ

-- eBufferSize::BufferSize and eBufferSize::MaxSize
abbrev pub buffer_size : ℕ
buffer_size = 6000

-- A new Message after InitMessage; `now` is timeGetTime().
unfoldable pub init_message : ℕ → ℕ → ℕ → Message
init_message session_id rand_key now = record {
  written = [];
  front = 0;
  end = buffer_size;
  owner_id = session_id;
  rand_key = rand_key;
  request_time = now;
}

-- `src` holds the bytes at `src`, `size` of them at least.
unfoldable pub put_data : Message → List ℕ → ℕ → Result Message
put_data m src size =
    if ltb m.end (length m.written + size)
    then err not_enough_space
    else ok (record m { written = m.written ++ take size src })

unfoldable pub get_data : Message → ℕ → Result (Message × List ℕ)
get_data m size =
    if ltb (length m.written) (m.front + size)
    then err has_not_data
    else ok (record m { front = m.front + size }, slice m.front size m.written)

unfoldable pub peek : Message → ℕ → Result (List ℕ)
peek m size =
    if ltb (length m.written) (m.front + size)
    then err has_not_data
    else ok (slice m.front size m.written)

-- `operator<<(const T data)` at a T of `size` bytes.
unfoldable pub shift_in : Message → ℕ → ℕ → Result Message
shift_in m size v =
    if ltb m.end (length m.written + size)
    then err not_enough_space
    else ok (record m { written = m.written ++ to_bytes size v })

-- `operator>>(T &data)` at a T of `size` bytes.
unfoldable pub shift_out : Message → ℕ → Result (Message × ℕ)
shift_out m size =
    if ltb (length m.written) (m.front + size)
    then err has_not_data
    else ok (record m { front = m.front + size }, of_bytes (slice m.front size m.written))

-- GetUseSize
unfoldable pub get_use_size : Message → ℕ
get_use_size m =
    if leb m.front (length m.written)
    then length m.written - m.front
    else m.end - m.front + length m.written
