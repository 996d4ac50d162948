-- ===== src/Framing.antt =====
-- NetworkLib::completeRecv (_lib/AcceptEx_IOCP_NetworkLib/AcceptEx_IOCP_NetworkLib.cpp): the bytes of
-- a finished WSARecv are cut into packets by the struct Header of Header.h, and each packet's bytes
-- are handed to onRecv as a Message.
pub mod Frame
pub mod Loop
pub mod Stream
pub mod Ends
mod Tests
use my_mmoproject.Base.{
  ℕ, zero, suc, ◌+◌, ◌-◌, List, [], ◌∷◌, Bool, true, false, ltb, leb, ◌==◌, ◌||◌, if◌then◌else◌,
  take, drop,
}
use my_mmoproject.Base.Int.{pos}
use my_mmoproject.Fault.{Result, ok, err, ◌>>=◌}
use my_mmoproject.Bytes.{of_bytes}
use my_mmoproject.Message.{Message, init_message, put_data}
use my_mmoproject.Packet.{header_size}
use my_mmoproject.Ring.{Ring, peek, dequeue, move_front, move_rear}
use my_mmoproject.Ring.Geometry.{get_use_size, get_direct_use_size}

-- header.Len as the bits of an int16_t, and header.RandKey.
unfoldable pub header_len : List ℕ → ℕ
header_len header = of_bytes (take 2 header)

unfoldable pub header_rand_key : List ℕ → ℕ
header_rand_key header = of_bytes (drop 2 header)

-- `header.Len <= 0`
abbrev pub is_nonpositive : ℕ → Bool
is_nonpositive len = (len == 0) || leb 32768 len

-- The two PutData of a body that goes round the end of the array, or the one of a body that does not.
unfoldable pub put_body : Message → Ring → ℕ → Result Message
put_body m r len =
    let deq_size = get_direct_use_size r.end r.front r.rear in
    if ltb deq_size len
    then (do m' ← put_data m (drop r.front r.buf) deq_size; put_data m' r.buf (len - deq_size))
    else put_data m (drop r.front r.buf) len

-- How one turn of the loop ends: it breaks, it disconnects the session, or it hands a message to
-- onRecv.
pub data Turn : Type 0 where
  waiting : Ring → Turn
  disconnected : Ring → Turn
  delivered : Ring → Message → Turn

-- Behind the Peek of the header, which leaves the ring `r`.
unfoldable pub receive_body : ℕ → ℕ → Ring → ℕ → List ℕ → Result Turn
receive_body session now r use_size header =
    let len = header_len header in
    if is_nonpositive len
    then ok (disconnected r)
    else if leb (len + header_size) use_size
    then (do
      (r', header') ← dequeue r (pos header_size)
      m ← put_body (init_message session (header_rand_key header') now) r' (header_len header')
      ok (delivered (move_front r' (pos (header_len header'))) m))
    else ok (waiting r)

-- One turn of the loop; `now` is the timeGetTime() of InitMessage.
unfoldable pub turn : ℕ → ℕ → Ring → Result Turn
turn session now r =
    let use_size = get_use_size r.end r.front r.rear in
    if ltb header_size use_size
    then (do (r', header) ← peek r (pos header_size); receive_body session now r' use_size header)
    else ok (waiting r)

-- What a call of completeRecv comes to: the messages handed to onRecv, the first one first, and
-- whether it disconnected the session, in place of the registerRecv that it ends with otherwise.
pub record Received : Type 0 where
  pub ring : Ring
  pub messages : List Message
  pub cut : Bool

abbrev pub resume : (Ring → Result Received) → Turn → Result Received
resume rest (waiting r) = ok (record { ring = r; messages = []; cut = false })
resume rest (disconnected r) = ok (record { ring = r; messages = []; cut = true })
resume rest (delivered r m) = do a ← rest r; ok (record a { messages = m ∷ a.messages })

-- The loop. `clock` gives the time of each turn, which `k` counts; a turn that goes on takes at
-- least four bytes, so as many turns as the buffer has cells are enough.
unfoldable pub receive_loop : (ℕ → ℕ) → ℕ → ℕ → ℕ → Ring → Result Received
receive_loop clock session k zero r = ok (record { ring = r; messages = []; cut = false })
receive_loop clock session k (suc fuel) r =
    turn session (clock k) r >>= resume (receive_loop clock session (suc k) fuel)

unfoldable pub complete_recv : (ℕ → ℕ) → ℕ → Ring → ℕ → Result Received
complete_recv clock session r transferred = do
  r' ← move_rear r (pos transferred)
  receive_loop clock session 0 r'.end r'
