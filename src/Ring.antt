-- ===== src/Ring.antt =====
-- utility::MyRingBuffer (_lib/AcceptEx_IOCP_NetworkLib/utility/MyRingBuffer.cpp and .h): the byte
-- queue under every session's receive buffer and under the queues between the threads.
-- A pointer into the buffer is its offset from `mBegin`; `end` is `mEnd - mBegin`.
pub mod Geometry
pub mod Window
pub mod Refine
pub mod Spsc
mod Tests
use Prim.Native.Nat.{bit_or}
use my_mmoproject.Base.{
  ℕ, ◌+◌, ◌-◌, ◌^◌, Bool, List, [], ◌++◌, ltb, leb, ◌==◌, if◌then◌else◌, replicate, slice,
}
use my_mmoproject.Base.Int.{ℤ, pos, negsuc}
use my_mmoproject.Fault.{Result, ok, err, debug_break, ◌>>=◌}
use Geometry.{
  get_use_size, get_free_size, get_direct_use_size, get_direct_free_size, copy_in, copy_out,
  advance,
}

pub record Ring : Type 0 where
  pub buf : List ℕ
  pub end : ℕ
  pub front : ℕ
  pub rear : ℕ
  pub fail : ℕ

-- eRingBufferFailBit
pub data FailBit : Type 0 where
  buffer_full buffer_empty buffer_peek_empty argment_size_invalid : FailBit

abbrev pub bit_number : FailBit → ℕ
bit_number buffer_full = 1
bit_number buffer_empty = 2
bit_number buffer_peek_empty = 3
bit_number argment_size_invalid = 4

-- RINGBUFFER_SIZE
abbrev pub ringbuffer_size : ℕ
ringbuffer_size = 30000

-- The constructor, at any size of the array.
unfoldable pub create : ℕ → Ring
create size = record { buf = replicate size 0; end = size; front = 0; rear = 0; fail = 0 }

-- mBFail |= 1 << bit
abbrev pub set_fail : Ring → FailBit → Ring
set_fail r b = record r { fail = bit_or r.fail (2 ^ bit_number b) }

-- RINGBUFFER_ASSERT()
abbrev pub ring_assert : Ring → Result Ring
ring_assert r = if r.fail == 0 then ok r else err debug_break

-- `f += move`, with `f` taken back by the size of the buffer once it reaches `mEnd`.
unfoldable pub move_front : Ring → ℤ → Ring
move_front r (negsuc n) = if r.fail == 0 then set_fail r argment_size_invalid else r
move_front r (pos n) = if r.fail == 0 then record r { front = advance r.end r.front n } else r

unfoldable pub move_rear : Ring → ℤ → Result Ring
move_rear r (negsuc n) = do r' ← ring_assert r; ok (set_fail r' argment_size_invalid)
move_rear r (pos n) = do r' ← ring_assert r; ok (record r' { rear = advance r'.end r'.rear n })

-- The bytes go to `Dest`; a refused call stores none.
unfoldable pub peek : Ring → ℤ → Result (Ring × List ℕ)
peek r (negsuc n) = do r' ← ring_assert (set_fail r argment_size_invalid); ok (r', [])
peek r (pos size) =
    if ltb (get_use_size r.end r.front r.rear) size
    then ok (set_fail r buffer_empty, [])
    else ok (r, copy_out r.buf r.front (get_direct_use_size r.end r.front r.rear) size)

-- `src` holds the bytes at `Src`, `size` of them at least.
unfoldable pub enqueue : Ring → List ℕ → ℤ → Result Ring
unfolding move_rear
enqueue r src (negsuc n) = ok (set_fail r argment_size_invalid)
enqueue r src (pos size) =
    if ltb (get_free_size r.end r.front r.rear) size
    then ring_assert (set_fail r buffer_full)
    else move_rear
        (record r {
          buf = copy_in r.buf r.rear (get_direct_free_size r.end r.front r.rear) size src;
        })
        (pos size)

unfoldable pub dequeue : Ring → ℤ → Result (Ring × List ℕ)
unfolding move_front
dequeue r (negsuc n) = do r' ← ring_assert (set_fail r argment_size_invalid); ok (r', [])
dequeue r (pos size) =
    if ltb (get_use_size r.end r.front r.rear) size
    then (do r' ← ring_assert (set_fail r buffer_empty); ok (r', []))
    else ok (
      move_front r (pos size),
      copy_out r.buf r.front (get_direct_use_size r.end r.front r.rear) size,
    )

unfoldable pub clear_buffer : Ring → Ring
clear_buffer r = record r { front = 0; rear = 0; fail = 0 }
