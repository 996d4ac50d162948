-- ===== src/Framing/Loop.antt =====
-- The loop of completeRecv on a ring that starts with whole packets.
use my_mmoproject.Base.{
  ℕ, suc, ◌+◌, ◌-◌, ◌≤◌, ◌<◌, ◌≡◌, refl, ap, ◌∙◌, List, [], ◌∷◌, ◌++◌, length, arith, length-append,
  append_assoc,
}
use my_mmoproject.Fault.{Result, ok, err, ◌>>=◌}
use my_mmoproject.Message.{Message, init_message, buffer_size}
use my_mmoproject.Packet.{header_size}
use my_mmoproject.Ring.{Ring}
use my_mmoproject.Ring.Geometry.{get_use_size}
use my_mmoproject.Ring.Refine.{IsValid, contents, length-contents}
use my_mmoproject.Framing.{
  header_len, header_rand_key, waiting, turn, Received, resume, receive_loop,
}
use my_mmoproject.Framing.Frame.{turn_delivers, turn_waits}

-- A packet as it stands in the byte stream.
pub record Envelope : Type 0 where
  pub header : List ℕ
  pub body : List ℕ

pub record IsPacket (e : Envelope) : Type 0 where
  pub header_fits : length e.header ≡ header_size
  pub counted : length e.body ≡ header_len e.header
  pub not_empty : 0 < header_len e.header
  pub body_fits : header_len e.header ≤ buffer_size

abbrev pub ArePackets : List Envelope → Type 0
ArePackets [] = Unit
ArePackets (e ∷ es) = IsPacket e × ArePackets es

abbrev pub stream : List Envelope → List ℕ
stream [] = []
stream (e ∷ es) = e.header ++ (e.body ++ stream es)

-- The messages for the packets, in their order: each with its own key, body and time.
abbrev pub deliveries : (ℕ → ℕ) → ℕ → ℕ → List Envelope → List Message
deliveries clock session k [] = []
deliveries clock session k (e ∷ es) =
    record (init_message session (header_rand_key e.header) (clock k)) { written = e.body }
    ∷ deliveries clock session (suc k) es

-- Bytes that do not start with a whole packet yet: no more than a header, or a header with a part of
-- its body.
pub data IsPartial : List ℕ → Type 0 where
  header_only : (rest : List ℕ) → length rest ≤ header_size → IsPartial rest
  body_part :
      (header tail : List ℕ)
      → length header ≡ header_size
      → 0 < length tail
      → 0 < header_len header
      → header_len header < 32768
      → length tail < header_len header
      → IsPartial (header ++ tail)

module _ (clock : ℕ → ℕ) (session : ℕ) where
  -- The call's result when packets come before what `rest` stands for.
  abbrev pub prepend : ℕ → List Envelope → Result Received → Result Received
  prepend k es a =
      a >>= λ b. ok (record b { messages = deliveries clock session k es ++ b.messages })

  prepend-prepend :
      (k : ℕ) (e : Envelope) (es : List Envelope) (a : Result Received)
      → (prepend (suc k) es a >>= λ b. ok (record b {
        messages =
            record (init_message session (header_rand_key e.header) (clock k)) { written = e.body }
            ∷ b.messages;
      }))
        ≡ prepend k (e ∷ es) a
  prepend-prepend k e es (ok a) = refl
  prepend-prepend k e es (err f) = refl

  prepend-nil : (k : ℕ) (a : Result Received) → a ≡ prepend k [] a
  prepend-nil k (ok a) = refl
  prepend-nil k (err f) = refl

  -- The packets at the head of the ring are delivered one a turn, whatever follows.
  pub loop_delivers :
      (k fuel : ℕ) (es : List Envelope) (rest : List ℕ) {r : Ring}
      → IsValid r
      → ArePackets es
      → contents r ≡ stream es ++ rest
      → (r' : Ring) × (receive_loop clock session k (length es + fuel) r
          ≡ prepend k es (receive_loop clock session (k + length es) fuel r'))
        × IsValid r'
        × (contents r' ≡ rest)
        × (r'.end ≡ r.end)
  unfolding receive_loop
  loop_delivers k fuel [] rest {r} v good e = (
    r,
    ap (λ n. receive_loop clock session k n r) (omega arith)
        ∙ (prepend-nil k (receive_loop clock session k fuel r)
            ∙ ap (λ j. prepend k [] (receive_loop clock session j fuel r)) (omega arith)),
    v,
    e,
    refl,
  )
  loop_delivers k fuel (p ∷ es) rest {r} v (good, more) e =
      let (r', done, v', left, same) =
        turn_delivers session (clock k) v p.header (p.body ++ (stream es ++ rest)) good.header_fits
          (e
            ∙ (append_assoc p.header (p.body ++ stream es) rest
                ∙ ap (◌++◌ p.header) (append_assoc p.body (stream es) rest)))
          p.body (stream es ++ rest) refl good.counted good.not_empty good.body_fits in
      let (last, rec, v'', left', same') = loop_delivers (suc k) fuel es rest v' more left in
      let turns : suc (length es) + fuel ≡ suc (length es + fuel) = omega arith in
      let step : Received → Result Received = λ b. ok (record b {
        messages =
            record (init_message session (header_rand_key p.header) (clock k)) { written = p.body }
            ∷ b.messages;
      }) in
      (
        last,
        ap (λ n. receive_loop clock session k n r) turns
            ∙ (ap (λ a. a >>= resume (receive_loop clock session (suc k) (length es + fuel))) done
                ∙ (ap (λ a. a >>= step) rec
                    ∙ (prepend-prepend k p es
                          (receive_loop clock session (suc k + length es) fuel last)
                        ∙ ap (λ j. prepend k (p ∷ es) (receive_loop clock session j fuel last))
                            (omega arith)))),
        v'',
        left',
        same' ∙ same,
      )

-- The loop stops at a part of a packet.
pub turn_partial :
    (session now : ℕ) {r : Ring} {rest : List ℕ}
    → IsValid r
    → IsPartial rest
    → contents r ≡ rest
    → turn session now r ≡ ok (waiting r)
unfolding turn
turn_partial session now {r} v (header_only rest short) e =
    ground (arith, length-contents v, ap length e, short)
turn_partial session now v (body_part header tail three more lo hi short) e =
    turn_waits session now v header tail three e more lo hi short

length-stream : (es : List Envelope) → ArePackets es → length es + length es ≤ length (stream es)
length-stream [] good = omega arith
length-stream (e ∷ es) (good, more) = omega (
  arith,
  length-append e.header (e.body ++ stream es),
  length-append e.body (stream es),
  length-stream es more,
  good.header_fits,
)

-- A ring with room for bytes has room for a turn behind the packets that it holds.
pub turns_left :
    {r : Ring} (es : List Envelope) (rest : List ℕ)
    → IsValid r
    → ArePackets es
    → contents r ≡ stream es ++ rest
    → (f : ℕ) × (r.end ≡ length es + suc f)
unfolding get_use_size
turns_left {r} es rest v good e = (
  r.end - length es - 1,
  ground (
    arith,
    length-contents v,
    v.front_in,
    v.rear_in,
    ap length e,
    length-append (stream es) rest,
    length-stream es good,
  ),
)
