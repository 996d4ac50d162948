-- ===== src/Framing/Frame.antt =====
-- One turn of completeRecv's loop, on a ring that holds a whole packet, a part of one, or a header
-- that no packet has.
use my_mmoproject.Base.{
  ℕ, ◌+◌, ◌-◌, ◌≤◌, ◌<◌, ◌≡◌, ◌⊎◌, refl, ap, ap₂, sym, subst, ◌∙◌, List, [], ◌++◌, length, take,
  drop, slice, arith, length-append, take-append_of_length, drop-append_of_length, append_assoc,
  length-take, length-slice,
}
use my_mmoproject.Base.Int.{pos}
use my_mmoproject.Fault.{ok, err, not_enough_space}
use my_mmoproject.Bytes.{to_bytes, length-to_bytes, of_bytes-to_bytes}
use my_mmoproject.Message.{Message, init_message, put_data, buffer_size}
use my_mmoproject.Packet.{header_size, header_bytes}
use my_mmoproject.Ring.{Ring, peek, dequeue, move_front}
use my_mmoproject.Ring.Geometry.{get_use_size, get_direct_use_size, copy_out}
use my_mmoproject.Ring.Refine.{
  IsValid, contents, length-contents, dequeue_takes, peek-dequeue, move_front_takes,
}
use my_mmoproject.Framing.{
  header_len, header_rand_key, put_body, waiting, disconnected, delivered, receive_body, turn,
}

-- The header's fields are read back.
pub header_len-header_bytes : (len key : ℕ) → len < 65536 → header_len (header_bytes len key) ≡ len
unfolding header_len
header_len-header_bytes len key h =
    rw (take-append_of_length 2 (to_bytes 2 len) (to_bytes 1 key) (length-to_bytes 2 len))
      (of_bytes-to_bytes 2 len h)

pub header_rand_key-header_bytes :
    (len key : ℕ) → key < 256 → header_rand_key (header_bytes len key) ≡ key
unfolding header_rand_key
header_rand_key-header_bytes len key h =
    rw (drop-append_of_length 2 (to_bytes 2 len) (to_bytes 1 key) (length-to_bytes 2 len))
      (of_bytes-to_bytes 1 key h)

-- Two lists that start with runs of the same length.
pub append_cancel : {a b c d : List ℕ} → a ++ b ≡ c ++ d → length a ≡ length c → (a ≡ c) × (b ≡ d)
append_cancel {a} {b} {c} {d} e h = (
  sym (take-append_of_length (length a) a b refl)
      ∙ (ap (take (length a)) e ∙ take-append_of_length (length a) c d (sym h)),
  sym (drop-append_of_length (length a) a b refl)
      ∙ (ap (drop (length a)) e ∙ drop-append_of_length (length a) c d (sym h)),
)

-- The body is written as Dequeue would copy it out.
put_body_fits :
    (m : Message) (r : Ring) (len : ℕ)
    → length m.written + len ≤ m.end
    → length r.buf ≡ r.end
    → put_body m r len
      ≡ ok (record m {
        written =
            m.written ++ copy_out r.buf r.front (get_direct_use_size r.end r.front r.rear) len;
      })
unfolding put_body put_data copy_out
put_body_fits m r len room storage =
    let d = get_direct_use_size r.end r.front r.rear in
    ground (
      arith,
      length-append m.written (slice r.front d r.buf),
      length-take d (drop r.front r.buf),
      append_assoc m.written (slice r.front d r.buf) (slice 0 (len - d) r.buf),
    )

-- A body that is larger than a message raises NotEnoughSpace.
put_body_overflow :
    (m : Message) (r : Ring) (len : ℕ)
    → m.written ≡ []
    → m.end < len
    → length r.buf ≡ r.end
    → r.front < r.end
    → r.rear < r.end
    → put_body m r len ≡ err not_enough_space
unfolding put_body put_data get_direct_use_size
put_body_overflow m r len fresh big storage front_in rear_in =
    let d = get_direct_use_size r.end r.front r.rear in
    ground (
      arith,
      length-append m.written (slice r.front d r.buf),
      length-slice r.front d r.buf,
      ap length fresh,
      length-append m.written (slice r.front (r.rear - r.front) r.buf),
      length-slice r.front (r.rear - r.front) r.buf,
      length-append m.written (slice r.front (r.end - r.front) r.buf),
      length-slice r.front (r.end - r.front) r.buf,
    )

module _ (session now : ℕ) {r : Ring} (v : IsValid r) where
  -- Of a header and what stands behind it, Peek and Dequeue hand out the header.
  header_taken :
      (header rest : List ℕ)
      → length header ≡ header_size
      → contents r ≡ header ++ rest
      → (r' : Ring) × (peek r (pos header_size) ≡ ok (r, header))
        × (dequeue r (pos header_size) ≡ ok (r', header))
        × IsValid r'
        × (contents r' ≡ rest)
        × (r'.end ≡ r.end)
  header_taken header rest three e =
      let (r', out, done, v', size, split, same) =
        dequeue_takes v header_size (omega (arith, ap length e, length-append header rest)) in
      let (head, tail) = append_cancel (sym e ∙ split) (omega (arith, three, size)) in
      (
        r',
        subst (λ o. peek r (pos header_size) ≡ ok (r, o)) (sym head)
            (peek-dequeue v header_size done),
        subst (λ o. dequeue r (pos header_size) ≡ ok (r', o)) (sym head) done,
        v',
        sym tail,
        same,
      )

  -- A body that the ring holds and a message has room for goes into the message, and MoveFront
  -- passes over it.
  body_taken :
      (m : Message) (body rest : List ℕ)
      → m.written ≡ []
      → length body ≤ m.end
      → contents r ≡ body ++ rest
      → (put_body m r (length body) ≡ ok (record m { written = body }))
        × IsValid (move_front r (pos (length body)))
        × (contents (move_front r (pos (length body))) ≡ rest)
        × ((move_front r (pos (length body))).end ≡ r.end)
  body_taken m body rest fresh room e =
      let (v', size, split, same) =
        move_front_takes v (length body) (omega (arith, ap length e, length-append body rest)) in
      let (out, tail) = append_cancel (sym e ∙ split) (sym size) in
      (
        put_body_fits m r (length body) (omega (arith, ap length fresh)) v.storage
            ∙ ap (λ w. ok (record m { written = w })) (ap₂ ◌++◌ fresh (sym out)),
        v',
        sym tail,
        same,
      )

module _ (session now : ℕ) {r : Ring} (v : IsValid r) (header rest : List ℕ)
    (three : length header ≡ header_size) (held : contents r ≡ header ++ rest) where
  -- What the ring holds behind a header makes up the rest of its use size.
  use_size-behind : get_use_size r.end r.front r.rear ≡ header_size + length rest
  use_size-behind =
      omega (arith, length-contents v, ap length held, length-append header rest, three)

  -- A turn that has more than a header looks at it.
  turn_looks :
      0 < length rest
      → turn session now r ≡ receive_body session now r (header_size + length rest) header
  unfolding turn
  turn_looks more =
      let peeked = (header_taken session now v header rest three held).1 in
      let stock = use_size-behind in ground (arith, stock, peeked, more)

  -- A Len that is not positive disconnects the session.
  pub turn_cuts :
      0 < length rest
      → (header_len header ≡ 0) ⊎ (32768 ≤ header_len header)
      → turn session now r ≡ ok (disconnected r)
  unfolding receive_body
  turn_cuts more bad = turn_looks more ∙ ground (arith, bad)

  -- A packet that is not there as a whole stays in the ring.
  pub turn_waits :
      0 < length rest
      → 0 < header_len header
      → header_len header < 32768
      → length rest < header_len header
      → turn session now r ≡ ok (waiting r)
  unfolding receive_body
  turn_waits more lo hi short = turn_looks more ∙ ground (arith, lo, hi, short)

  -- A whole packet is taken off the ring and goes to onRecv with its key.
  pub turn_delivers :
      (body behind : List ℕ)
      → rest ≡ body ++ behind
      → length body ≡ header_len header
      → 0 < header_len header
      → header_len header ≤ buffer_size
      → (r' : Ring) × (turn session now r
          ≡ ok (
              delivered r'
                (record (init_message session (header_rand_key header) now) { written = body })))
        × IsValid r'
        × (contents r' ≡ behind)
        × (r'.end ≡ r.end)
  unfolding receive_body init_message
  turn_delivers body behind split size lo fits =
      let m = init_message session (header_rand_key header) now in
      let (r', peeked, taken, v', left, same) = header_taken session now v header rest three held in
      let (put, v'', left', same') =
        body_taken session now v' m body behind refl (omega (arith, size)) (left ∙ split) in
      let more : length rest ≡ length body + length behind =
        ap length split ∙ length-append body behind in
      (
        move_front r' (pos (length body)),
        turn_looks (omega (arith, more)) ∙ ground (arith, more, size, lo, fits, taken, put),
        v'',
        left',
        same' ∙ same,
      )

  -- A whole packet with a Len above the size of a message raises NotEnoughSpace.
  pub turn_overflows :
      header_len header ≤ length rest
      → buffer_size < header_len header
      → header_len header < 32768
      → turn session now r ≡ err not_enough_space
  unfolding receive_body init_message
  turn_overflows whole big hi =
      let (r', peeked, taken, v', left, same) = header_taken session now v header rest three held in
      let m = init_message session (header_rand_key header) now in
      turn_looks (omega arith)
      ∙ ground (
        arith,
        big,
        hi,
        whole,
        taken,
        put_body_overflow m r' (header_len header) refl big v'.storage v'.front_in v'.rear_in,
      )
