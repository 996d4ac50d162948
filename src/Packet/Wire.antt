-- ===== src/Packet/Wire.antt =====
-- What a composed message holds, and when composing it raises.
use my_mmoproject.Base.{
  ℕ, ◌+◌, ◌≤◌, ◌<◌, ◌≡◌, refl, ap, ap₂, drop, append-nil, ◌∙◌, sym, List, [], ◌∷◌, ◌++◌, length,
  arith, length-append, take_all, map,
}
use my_mmoproject.Fault.{ok, err, not_enough_space}
use my_mmoproject.Bytes.{to_bytes, length-to_bytes}
use my_mmoproject.Message.{Message, init_message, put_data, buffer_size}
use my_mmoproject.Message.Fields.{
  Field, AllFit, read_fields, encode, length-encode, write_fields_appends, write_fields_overflow,
  read_fields-encode, unread,
}
use my_mmoproject.Packet.{
  Packet, header_len, payload, compose, int16, type_code, header_bytes, header_size,
}
use my_mmoproject.Packet.Layout.{header_len-payload}

-- The type and the fields.
abbrev pub body : Packet → List Field
body p = int16 (type_code p) ∷ payload p

-- The bytes on the wire.
abbrev pub frame : Packet → List ℕ
frame p = header_bytes (header_len p) 0 ++ encode (body p)

pub length-header_bytes : (len key : ℕ) → length (header_bytes len key) ≡ header_size
length-header_bytes len key = omega (
  arith,
  length-append (to_bytes 2 len) (to_bytes 1 key),
  length-to_bytes 2 len,
  length-to_bytes 1 key,
)

put_header :
    (session now len : ℕ)
    → put_data (init_message session 0 now) (header_bytes len 0) header_size
      ≡ ok (record (init_message session 0 now) { written = header_bytes len 0 })
unfolding put_data init_message
put_header session now len =
    ap (λ w. ok (record (init_message session 0 now) { written = w }))
      (take_all header_size (header_bytes len 0) (omega (arith, length-header_bytes len 0)))

-- A packet that fits into the buffer with its header is composed, and the message holds its frame:
-- a header whose Len counts exactly the bytes behind it, then the type and the fields.
pub compose-frame :
    (session now : ℕ) (p : Packet)
    → header_size + header_len p ≤ buffer_size
    → (m : Message) × (compose session now p ≡ ok m)
      × (m.written ≡ frame p)
      × (m.front ≡ 0)
      × (m.owner_id ≡ session)
      × (length (encode (body p)) ≡ header_len p)
unfolding compose init_message
compose-frame session now p h =
    let m : Message = record (init_message session 0 now) {
      written = header_bytes (header_len p) 0;
    } in
    (
      record m { written = frame p },
      rw (put_header session now (header_len p)) (
          write_fields_appends m (body p)
            (omega (arith, length-header_bytes (header_len p) 0, header_len-payload p))),
      refl,
      refl,
      refl,
      length-encode (body p) ∙ sym (header_len-payload p),
    )

-- A packet that does not fit raises NotEnoughSpace.
pub compose_overflow :
    (session now : ℕ) (p : Packet)
    → buffer_size < header_size + header_len p
    → compose session now p ≡ err not_enough_space
unfolding compose init_message
compose_overflow session now p h =
    let m : Message = record (init_message session 0 now) {
      written = header_bytes (header_len p) 0;
    } in
    rw (put_header session now (header_len p)) (
      write_fields_overflow m (body p) (omega (arith, length-header_bytes (header_len p) 0))
        (omega (arith, length-header_bytes (header_len p) 0, header_len-payload p)))

-- A receiver that has the bytes behind the header reads back the type and the fields.
pub read_body :
    (m : Message) (p : Packet)
    → AllFit (body p)
    → m.front ≡ 0
    → m.written ≡ encode (body p)
    → (m' : Message) × (read_fields m (map (λ f. f.size) (body p))
        ≡ ok (m', map (λ f. f.value) (body p)))
      × (unread m' ≡ [])
read_body m p fit e h =
    read_fields-encode m (body p) [] fit (omega arith)
      (ap₂ drop e h ∙ sym (append-nil (encode (body p))))
