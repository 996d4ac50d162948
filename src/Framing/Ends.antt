-- ===== src/Framing/Ends.antt =====
-- completeRecv on every input: the ends of a byte stream which Framing.Stream tells apart are all there
-- are.
use my_mmoproject.Base.{
  ℕ, true, false, zero, suc, ◌≤◌, ◌<◌, ◌≡◌, ◌⊎◌, inl, inr, refl, ap, sym, ◌∙◌, List, [], ◌∷◌, ◌++◌,
  length, take, drop, arith, append_assoc, length-take, length-drop, take-append-drop,
}
use native.Mathlib.Decide.{dec_le, dec_lt}
use my_mmoproject.Message.{buffer_size}
use my_mmoproject.Packet.{header_size}
use my_mmoproject.Base.Int.{pos}
use my_mmoproject.Fault.{ok, err, not_enough_space}
use my_mmoproject.Ring.{Ring, move_rear}
use my_mmoproject.Ring.Refine.{IsValid, contents}
use my_mmoproject.Framing.{header_len, complete_recv}
use my_mmoproject.Framing.Stream.{recv_waits, recv_cuts, recv_overflows}
use my_mmoproject.Framing.Loop.{
  Envelope, ArePackets, stream, deliveries, IsPartial, header_only, body_part,
}

-- What may stand behind the whole packets: a part of a packet, a header whose Len is not positive, or a
-- whole packet that is larger than a message.
pub data End : List ℕ → Type 0 where
  waits : {rest : List ℕ} → IsPartial rest → End rest
  cuts :
      (header tail : List ℕ)
      → length header ≡ header_size
      → 0 < length tail
      → (header_len header ≡ 0) ⊎ (32768 ≤ header_len header)
      → End (header ++ tail)
  overflows :
      (header tail : List ℕ)
      → length header ≡ header_size
      → buffer_size < header_len header
      → header_len header < 32768
      → header_len header ≤ length tail
      → End (header ++ tail)

-- Every run of bytes is whole packets and then one of the three ends; `n` bounds the bytes that are left.
packets_then-End :
    (n : ℕ) (bytes : List ℕ)
    → length bytes ≤ n
    → (es : List Envelope) × (rest : List ℕ) × ArePackets es
      × End rest
      × (bytes ≡ stream es ++ rest)
packets_then-End zero bytes h = ([], bytes, tt, waits (header_only bytes (omega arith)), refl)
packets_then-End (suc n) bytes h = elim (dec_le (length bytes) header_size) [
  | yes short ↦ ([], bytes, tt, waits (header_only bytes short), refl)
  | no more ↦
      let header = take 3 bytes in
      let tail = drop 3 bytes in
      let three : length header ≡ header_size = omega (arith, length-take 3 bytes) in
      let behind : 0 < length tail = omega (arith, length-drop 3 bytes) in
      let split : header ++ tail ≡ bytes = take-append-drop 3 bytes in
      elim (dec_lt 0 (header_len header)) [
        | no bad ↦
            ([], header ++ tail, tt, cuts header tail three behind (inl (omega arith)), sym split)
        | yes lo ↦ elim (dec_lt (header_len header) 32768) [
          | no bad ↦
              ([], header ++ tail, tt, cuts header tail three behind (inr (omega arith)), sym split)
          | yes hi ↦ elim (dec_le (header_len header) (length tail)) [
            | no less ↦ (
              [],
              header ++ tail,
              tt,
              waits (body_part header tail three behind lo hi (omega arith)),
              sym split,
            )
            | yes whole ↦ elim (dec_le (header_len header) buffer_size) [
              | no big ↦ (
                [],
                header ++ tail,
                tt,
                overflows header tail three (omega arith) hi whole,
                sym split,
              )
              | yes fits ↦
                  let body = take (header_len header) tail in
                  let (es, rest, good, end, e) =
                    packets_then-End n (drop (header_len header) tail)
                      (omega (arith, length-drop (header_len header) tail, length-drop 3 bytes)) in
                  (
                    record { header = header; body = body } ∷ es,
                    rest,
                    (
                      record {
                        header_fits = three;
                        counted = length-take (header_len header) tail ∙ omega arith;
                        not_empty = lo;
                        body_fits = fits;
                      },
                      good,
                    ),
                    end,
                    sym split
                        ∙ (ap (◌++◌ header) (
                              sym (take-append-drop (header_len header) tail)
                              ∙ (ap (◌++◌ body) e ∙ sym (append_assoc body (stream es) rest)))
                            ∙ sym (append_assoc header (body ++ stream es) rest)),
                  )
            ]
          ]
        ]
      ]
]

module _ (clock : ℕ → ℕ) (session : ℕ) (r : Ring) (transferred : ℕ) where
  -- What a call comes to, by what stands behind the packets.
  abbrev pub ByEnd : (es : List Envelope) {rest : List ℕ} → End rest → Type 0
  ByEnd es (waits {rest} part) =
      (r'' : Ring) × (complete_recv clock session r transferred
        ≡ ok (record { ring = r''; messages = deliveries clock session 0 es; cut = false }))
      × IsValid r''
      × (contents r'' ≡ rest)
  ByEnd es (cuts header tail three more bad) =
      (r'' : Ring) × (complete_recv clock session r transferred
        ≡ ok (record { ring = r''; messages = deliveries clock session 0 es; cut = true }))
  ByEnd es (overflows header tail three big hi whole) =
      complete_recv clock session r transferred ≡ err not_enough_space

  -- completeRecv ends on every input: whatever bytes have been received, they are whole packets and then
  -- a part of one, a header whose Len is not positive, or a whole packet that is larger than a message;
  -- and it delivers the packets and keeps the part, or delivers them and disconnects the session, or
  -- raises NotEnoughSpace.
  pub recv_total :
      {r' : Ring}
      → move_rear r (pos transferred) ≡ ok r'
      → IsValid r'
      → (es : List Envelope) × (rest : List ℕ) × (end : End rest) × ArePackets es
        × (contents r' ≡ stream es ++ rest)
        × ByEnd es end
  recv_total {r'} received v =
      let (es, rest, good, end, split) =
        packets_then-End (length (contents r')) (contents r') (omega arith) in
      (es, rest, end, good, split, by es good end split)
    where
      by :
          (es : List Envelope) {rest : List ℕ}
          → ArePackets es
          → (end : End rest) → contents r' ≡ stream es ++ rest
          → ByEnd es end
      by es good (waits {rest} part) e =
          let (r'', done, v'', left, same) =
            recv_waits clock session r transferred received v es good rest part e in
          (r'', done, v'', left)
      by es good (cuts header tail three more bad) e =
          recv_cuts clock session r transferred received v es good header tail three more bad e
      by es good (overflows header tail three big hi whole) e =
          recv_overflows clock session r transferred received v es good header tail three big hi
            whole e
