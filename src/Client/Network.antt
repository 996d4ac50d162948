-- ===== src/Client/Network.antt =====
-- ClientProject/Network/Network.cpp: Unmarshal cuts the received bytes into messages and queues them, and
-- PopPacket takes them out. The ring is the client's copy of MyRingBuffer (ClientProject/utility), which
-- differs from Ring in where a ring that has failed stops the process; the packet queue, a ring of
-- pointers, is the list of its messages.
pub mod Received
use my_mmoproject.Base.{
  ℕ, zero, suc, ◌+◌, ◌-◌, ◌*◌, Bool, true, false, ◌||◌, List, [], ◌∷◌, ◌++◌, Option, none, some,
  leb, ltb, if◌then◌else◌, length,
}
use my_mmoproject.Base.Int.{pos}
use my_mmoproject.Fault.{Result, ok, err, out_of_range, out_of_fuel, ◌>>=◌}
use my_mmoproject.Message.{Message, init_message, put_data, buffer_size}
use my_mmoproject.Packet.{header_size}
use my_mmoproject.Ring.{Ring, peek, dequeue, move_front, ringbuffer_size}
use my_mmoproject.Ring.Geometry.{get_use_size, get_free_size}
use my_mmoproject.Framing.{header_len}
use my_mmoproject.Client.World.{World}
use my_mmoproject.Client.Scene.{packet_proc}

-- mPacketQueue has no room for one more pointer.
abbrev pub is_queue_full : List Message → Bool
is_queue_full queue = ltb (get_free_size ringbuffer_size 0 (8 * length queue)) 8

-- How a turn of the loop ends: it breaks, or has taken a message.
pub data Cut : Type 0 where
  waits : Ring → Cut
  takes : Ring → Message → Cut

-- Behind the Peek. A Len that is negative, or above the size of tempBuf, makes the source go on with memory
-- that is not its own.
unfoldable pub take_packet : Ring → ℕ → List ℕ → List Message → Result Cut
take_packet r use_size header queue =
    let len = header_len header in
    if leb 32768 len
    then if is_queue_full queue then ok (waits r) else err out_of_range
    else if ltb use_size (header_size + len)
    then ok (waits r)
    else if is_queue_full queue
    then ok (waits r)
    else if ltb buffer_size len
    then err out_of_range
    else (do
      (r', bytes) ← dequeue (move_front r (pos header_size)) (pos len)
      m ← put_data (init_message 0 0 0) bytes len
      ok (takes r' m))

unfoldable pub cut_packet : Ring → List Message → Result Cut
cut_packet r queue =
    let use_size = get_use_size r.end r.front r.rear in
    if ltb use_size header_size
    then ok (waits r)
    else (do (r', header) ← peek r (pos header_size); take_packet r' use_size header queue)

-- The loop, on fuel: a turn that goes on takes three bytes at least, so as many turns as the ring has
-- cells are enough.
abbrev pub go_on :
    (Ring → List Message → Result (Ring × List Message))
    → List Message
    → Cut
    → Result (Ring × List Message)
go_on rest queue (waits r) = ok (r, queue)
go_on rest queue (takes r m) = rest r (queue ++ (m ∷ []))

unfoldable pub unmarshal_loop : ℕ → Ring → List Message → Result (Ring × List Message)
unmarshal_loop zero r queue = err out_of_fuel
unmarshal_loop (suc fuel) r queue = cut_packet r queue >>= go_on (unmarshal_loop fuel) queue

unfoldable pub unmarshal : Ring → List Message → Result (Ring × List Message)
unmarshal r queue = unmarshal_loop r.end r queue

-- PopPacket
unfoldable pub pop_packet : List Message → Option (Message × List Message)
pop_packet [] = none
pop_packet (m ∷ queue) = some (m, queue)

-- The loop of SceneManager::Update in the field: packetProc of each message, until the queue is empty.
-- FieldScene::packetProc returns true.
unfoldable pub process_packets : List Message → World → Result World
process_packets [] w = ok w
process_packets (m ∷ queue) w = packet_proc w m >>= process_packets queue
