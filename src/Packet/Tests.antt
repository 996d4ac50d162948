-- ===== src/Packet/Tests.antt =====
-- A monster's move as a packet, and the theorems at it.
use my_mmoproject.Base.{◌+◌, ◌≡◌, ◌≤◌, ◌∷◌, length, arith}
use my_mmoproject.Fault.{ok}
use my_mmoproject.Message.{Message}
use my_mmoproject.Message.Fields.{total_size, encode}
use my_mmoproject.Packet.{
  Packet, monster_move_start, header_len, type_code, payload, int16, compose,
}
use my_mmoproject.Packet.Layout.{header_len-payload}
use my_mmoproject.Packet.Wire.{body, frame, compose-frame}

abbrev wolf_moves : Packet
wolf_moves = monster_move_start 7 100 200 3 2

small : 3 + header_len wolf_moves ≤ 6000
unfolding header_len
small = omega arith

header_len-payload_example :
    header_len wolf_moves ≡ total_size (int16 (type_code wolf_moves) ∷ payload wolf_moves)
header_len-payload_example = header_len-payload wolf_moves

compose-frame_example :
    (m : Message) × (compose 77 0 wolf_moves ≡ ok m)
    × (m.written ≡ frame wolf_moves)
    × (m.front ≡ 0)
    × (m.owner_id ≡ 77)
    × (length (encode (body wolf_moves)) ≡ header_len wolf_moves)
compose-frame_example = compose-frame 77 0 wolf_moves small
