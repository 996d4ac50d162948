-- ===== src/Client/Network/Received.antt =====
-- From the server's frames to the client's world.
use mathlib.Core.Path.{fun_ext}
use my_mmoproject.Base.{
  ℕ, zero, suc, ◌+◌, ◌≤◌, ◌<◌, ◌≡◌, refl, sym, ap, ◌∙◌, List, [], ◌∷◌, ◌++◌, length, arith,
  append-nil, append_assoc, length-append, take_all,
}
use my_mmoproject.Base.Int.{pos}
use my_mmoproject.Fault.{ok, ◌>>=◌}
use my_mmoproject.Message.{Message, init_message, put_data, buffer_size}
use my_mmoproject.Message.Fields.{AllFit, encode, length-encode}
use my_mmoproject.Packet.{Packet, header_len, header_size, header_bytes}
use my_mmoproject.Packet.Wire.{body, frame, length-header_bytes}
use my_mmoproject.Packet.Layout.{header_len-payload}
use my_mmoproject.Ring.{Ring, peek, move_front}
use my_mmoproject.Ring.Geometry.{get_use_size, get_free_size, get_direct_use_size, copy_out}
use my_mmoproject.Ring.Refine.{
  IsValid, contents, length-contents, dequeue_takes, peek-dequeue, move_front_takes,
}
use my_mmoproject.Framing
use my_mmoproject.Framing.Frame.{append_cancel, header_len-header_bytes}
use my_mmoproject.Client.World.{World}
use my_mmoproject.Client.Scene.Reads.{apply, packet_proc-eq-apply}
use my_mmoproject.Client.Scene.Chains.{in_turn}
use my_mmoproject.Client.Network.{
  waits, takes, take_packet, cut_packet, unmarshal_loop, unmarshal, process_packets,
}

module _ {r : Ring} (v : IsValid r) (queue : List Message) where
  -- Peek and MoveFront hand out a header.
  header_passed :
      (header rest : List ℕ)
      → length header ≡ header_size
      → contents r ≡ header ++ rest
      → (peek r (pos header_size) ≡ ok (r, header))
        × IsValid (move_front r (pos header_size))
        × (contents (move_front r (pos header_size)) ≡ rest)
        × ((move_front r (pos header_size)).end ≡ r.end)
        × (get_use_size r.end r.front r.rear ≡ header_size + length rest)
  header_passed header rest three e =
      let stock : get_use_size r.end r.front r.rear ≡ header_size + length rest =
        omega (arith, length-contents v, ap length e, length-append header rest, three) in
      let enough : header_size ≤ length (contents r) =
        omega (arith, ap length e, length-append header rest, three) in
      let (r', out, done, v', size, split, same) = dequeue_takes v header_size enough in
      let cut : header ++ rest ≡ out ++ contents r' = sym e ∙ split in
      let (head, tail) = append_cancel {a = header} {c = out} cut (omega (arith, three, size)) in
      let (v'', size', split', same') = move_front_takes v header_size enough in
      let copied = copy_out r.buf r.front (get_direct_use_size r.end r.front r.rear) header_size in
      let cut' : header ++ rest ≡ copied ++ contents (move_front r (pos header_size)) =
        sym e ∙ split' in
      let (head', tail') =
        append_cancel {a = header} {c = copied} cut' (omega (arith, three, size')) in
      (
        ap (λ o. peek r (pos header_size)) head
            ∙ (peek-dequeue v header_size done ∙ ap (λ o. ok (r, o)) (sym head)),
        v'',
        sym tail',
        same',
        stock,
      )

  -- A whole packet is taken off the ring, and its message holds the type and the fields.
  cut_takes :
      (p : Packet) (rest : List ℕ)
      → header_size + header_len p ≤ buffer_size
      → length queue < 3749
      → contents r ≡ frame p ++ rest
      → (r' : Ring) × (m : Message) × (cut_packet r queue ≡ ok (takes r' m))
        × IsValid r'
        × (contents r' ≡ rest)
        × (r'.end ≡ r.end)
        × (m.front ≡ 0)
        × (m.written ≡ encode (body p))
  unfolding cut_packet take_packet put_data init_message get_free_size
  cut_takes p rest fits room e =
      let len = header_len p in
      let bytes = encode (body p) in
      let header = header_bytes len 0 in
      let sized : length bytes ≡ len = length-encode (body p) ∙ sym (header_len-payload p) in
      let e' : contents r ≡ header ++ (bytes ++ rest) = e ∙ append_assoc header bytes rest in
      let (peeked, v1, left, same, stock) =
        header_passed header (bytes ++ rest) (length-header_bytes len 0) e' in
      let r1 = move_front r (pos header_size) in
      let (r2, out, taken, v2, size, split, same') =
        dequeue_takes v1 len (omega (arith, ap length left, length-append bytes rest, sized)) in
      let cut : bytes ++ rest ≡ out ++ contents r2 = sym left ∙ split in
      let (head, tail) = append_cancel {a = bytes} {c = out} cut (omega (arith, sized, size)) in
      let read : Framing.header_len header ≡ len =
        header_len-header_bytes len 0 (omega (arith, fits)) in
      let more : length (bytes ++ rest) ≡ len + length rest =
        length-append bytes rest ∙ ap (λ n. n + length rest) sized in
      (
        r2,
        record (init_message 0 0 0) { written = out },
        ground (arith, stock, peeked, read, more, fits, room, taken, take_all len out, size),
        v2,
        sym tail,
        same' ∙ same,
        refl,
        sym head,
      )

  -- What is left of a packet waits for the rest of it.
  cut_waits_header :
      (rest : List ℕ)
      → length rest < header_size
      → contents r ≡ rest
      → cut_packet r queue ≡ ok (waits r)
  unfolding cut_packet
  cut_waits_header rest short e = ground (arith, short, length-contents v, ap length e)

  cut_waits_body :
      (header tail : List ℕ)
      → length header ≡ header_size
      → Framing.header_len header < 32768
      → length tail < Framing.header_len header
      → contents r ≡ header ++ tail
      → cut_packet r queue ≡ ok (waits r)
  unfolding cut_packet take_packet
  cut_waits_body header tail three small short e =
      let (peeked, v1, left, same, stock) = header_passed header tail three e in
      ground (arith, stock, peeked, small, short)

-- Less than a header, or a header and less than the bytes that it counts.
pub data IsPart (rest : List ℕ) : Type 0 where
  of_header : length rest < header_size → IsPart rest
  of_body :
      (header tail : List ℕ)
      → length header ≡ header_size
      → Framing.header_len header < 32768
      → length tail < Framing.header_len header
      → rest ≡ header ++ tail
      → IsPart rest

part_waits :
    {r : Ring} (v : IsValid r) (queue : List Message) {rest : List ℕ}
    → IsPart rest
    → contents r ≡ rest
    → cut_packet r queue ≡ ok (waits r)
part_waits v queue {rest} (of_header short) e = cut_waits_header v queue rest short e
part_waits v queue {rest} (of_body header tail three small short split) e =
    cut_waits_body v queue header tail three small short (e ∙ split)

abbrev pub frames : List Packet → List ℕ
frames [] = []
frames (p ∷ ps) = frame p ++ frames ps

-- Packets that a message has room for and whose fields fit their types.
abbrev pub AreSendable : List Packet → Type 0
AreSendable [] = Unit
AreSendable (p ∷ ps) = (header_size + header_len p ≤ buffer_size) × AllFit (body p) × AreSendable ps

-- The messages of these packets, in order.
abbrev Carry : List Message → List Packet → Type 0
Carry [] [] = Unit
Carry (m ∷ ms) (p ∷ ps) = (m.front ≡ 0) × (m.written ≡ encode (body p)) × Carry ms ps
Carry ms ps = ⊥

loop_cuts :
    (fuel : ℕ) {r : Ring} (queue : List Message) (ps : List Packet) (rest : List ℕ)
    → IsValid r
    → AreSendable ps
    → IsPart rest
    → length queue + length ps ≤ 3749
    → length ps < fuel
    → contents r ≡ frames ps ++ rest
    → (r' : Ring) × (ms : List Message) × (unmarshal_loop fuel r queue ≡ ok (r', queue ++ ms))
      × Carry ms ps
      × IsValid r'
      × (contents r' ≡ rest)
unfolding unmarshal_loop
loop_cuts zero queue ps rest v good part room enough e = absurd (omega arith)
loop_cuts (suc fuel) {r} queue [] rest v good part room enough e =
    (r, [], rw (part_waits v queue part e) (ap (λ q. ok (r, q)) (sym (append-nil queue))), tt, v, e)
loop_cuts (suc fuel) {r} queue (p ∷ ps) rest v good part room enough e =
    let (r1, m, done, v1, left, same, fresh, written) =
      cut_takes v queue p (frames ps ++ rest) good.0 (omega arith)
        (e ∙ append_assoc (frame p) (frames ps) rest) in
    let (r2, ms, more, carry, v2, left') =
      loop_cuts fuel (queue ++ (m ∷ [])) ps rest v1 good.2 part
        (omega (arith, length-append queue (m ∷ []))) (omega arith) left in
    (
      r2,
      m ∷ ms,
      rw done (more ∙ ap (λ q. ok (r2, q)) (append_assoc queue (m ∷ []) ms)),
      (fresh, written, carry),
      v2,
      left',
    )

processed :
    (ms : List Message) (ps : List Packet) (w : World)
    → AreSendable ps
    → Carry ms ps
    → process_packets ms w ≡ in_turn apply ps w
unfolding process_packets
processed [] [] w good c = refl
processed [] (p ∷ ps) w good c = absurd c
processed (m ∷ ms) [] w good c = absurd c
processed (m ∷ ms) (p ∷ ps) w good c =
    ap (λ r. r >>= process_packets ms) (packet_proc-eq-apply w m p good.0 good.1 c.0 c.1)
    ∙ ap (λ k. apply w p >>= k) (fun_ext λ w'. processed ms ps w' good.2 c.2)

fewer : (ps : List Packet) → length ps ≤ length (frames ps)
fewer [] = omega arith
fewer (p ∷ ps) = omega (
  arith,
  fewer ps,
  length-append (frame p) (frames ps),
  length-append (header_bytes (header_len p) 0) (encode (body p)),
  length-header_bytes (header_len p) 0,
)

stock_fits : {r : Ring} → IsValid r → length (contents r) < r.end
unfolding get_use_size
stock_fits {r} v =
    let stock = length-contents v in
    let front_in = v.front_in in let rear_in = v.rear_in in ground (arith, stock, front_in, rear_in)

-- Frames of the server that the client has received, with a part of a packet behind them: Unmarshal queues
-- a message for each and keeps the part, and SceneManager::Update does to the client's world what
-- the packets say, one after the other, up to the first that an assertion refuses.
pub frames_applied :
    {r : Ring} (w : World) (ps : List Packet) (rest : List ℕ)
    → IsValid r
    → AreSendable ps
    → IsPart rest
    → length ps ≤ 3749
    → contents r ≡ frames ps ++ rest
    → (r' : Ring) × (queue : List Message) × (unmarshal r [] ≡ ok (r', queue))
      × (process_packets queue w ≡ in_turn apply ps w)
      × IsValid r'
      × (contents r' ≡ rest)
unfolding unmarshal
frames_applied {r} w ps rest v good part room e =
    let fuel : length ps < r.end =
      omega (arith, fewer ps, stock_fits v, ap length e, length-append (frames ps) rest) in
    let (r', ms, done, carry, v', left) =
      loop_cuts r.end [] ps rest v good part (omega arith) fuel e in
    (r', ms, done, processed ms ps w good carry, v', left)
