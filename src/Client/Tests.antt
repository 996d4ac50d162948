-- ===== src/Client/Tests.antt =====
-- A ring with the frames of an item that appears and goes, and a byte of the next frame, and the theorem
-- of the client's receiving there.
use my_mmoproject.Base.{◌≡◌, refl, List, [], ◌∷◌, ◌++◌, arith}
use my_mmoproject.Fault.{ok}
use my_mmoproject.Bytes.{to_bytes}
use my_mmoproject.Message.{Message}
use my_mmoproject.Packet.{Packet, item_spawn, item_despawn, header_len, payload}
use my_mmoproject.Ring.{Ring}
use my_mmoproject.Ring.Refine.{IsValid, contents}
use my_mmoproject.Client.World.{World, new_remote_player, spawn_item_actor}
use my_mmoproject.Client.Scene.Reads.{apply}
use my_mmoproject.Client.Scene.Chains.{in_turn}
use my_mmoproject.Client.Network.{unmarshal, process_packets}
use my_mmoproject.Client.Network.Received.{AreSendable, of_header, frames, frames_applied}

-- Just logged in.
abbrev alone : World
alone = record {
  actors = [];
  monsters = [];
  items = [];
  local_player = new_remote_player 7 0 0 1 0;
}

abbrev apple : Packet
apple = item_spawn (record { item_unique_id = 5; item_id = 1; x = 3; y = 4 })

abbrev told : List Packet
told = apple ∷ item_despawn 5 ∷ []

-- 22 bytes of the first frame, 13 of the second, and one more.
abbrev received : Ring
received = record {
  buf =
      19 ∷ 0 ∷ 0 ∷ 118 ∷ 0 ∷ 5 ∷ 0 ∷ 0 ∷ 0 ∷ 0 ∷ 0 ∷ 0 ∷ 0 ∷ 1 ∷ 3 ∷ 0 ∷ 0 ∷ 0 ∷ 4 ∷ 0 ∷ 0 ∷ 0 ∷ 10
      ∷ 0 ∷ 0 ∷ 120 ∷ 0 ∷ 5 ∷ 0 ∷ 0 ∷ 0 ∷ 0 ∷ 0 ∷ 0 ∷ 0 ∷ 19 ∷ 0 ∷ 0 ∷ 0 ∷ 0 ∷ [];
  end = 40;
  front = 0;
  rear = 36;
  fail = 0;
}

received-IsValid : IsValid received
received-IsValid = omega arith

told-AreSendable : AreSendable told
unfolding header_len payload
told-AreSendable = (
  omega arith,
  (omega arith, (omega arith, (omega arith, (omega arith, (omega arith, tt))))),
  (omega arith, (omega arith, (omega arith, tt)), tt),
)

holds_told : contents received ≡ frames told ++ (19 ∷ [])
unfolding header_len payload to_bytes
holds_told = refl

frames_applied_example :
    (r' : Ring) × (queue : List Message) × (unmarshal received [] ≡ ok (r', queue))
    × (process_packets queue alone ≡ in_turn apply told alone)
    × IsValid r'
    × (contents r' ≡ 19 ∷ [])
frames_applied_example =
    frames_applied alone told (19 ∷ []) received-IsValid told-AreSendable (of_header (omega arith))
      (omega arith) holds_told

-- The item has come and gone.
told_applied : in_turn apply told alone ≡ ok alone
unfolding apply spawn_item_actor
told_applied = refl
