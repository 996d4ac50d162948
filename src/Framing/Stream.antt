-- ===== src/Framing/Stream.antt =====
-- What a call of completeRecv delivers of the bytes that the ring holds: the whole packets that they
-- start with, one message for each, and what becomes of the bytes behind them.
use my_mmoproject.Base.{
  ℕ, suc, ◌≤◌, ◌<◌, ◌≡◌, ◌⊎◌, ap, ◌∙◌, List, [], ◌++◌, length, arith, Bool, true, false, append-nil,
}
use my_mmoproject.Base.Int.{pos}
use my_mmoproject.Fault.{Result, ok, err, not_enough_space, ◌>>=◌}
use my_mmoproject.Message.{buffer_size}
use my_mmoproject.Packet.{header_size}
use my_mmoproject.Ring.{Ring, move_rear}
use my_mmoproject.Ring.Refine.{IsValid, contents}
use my_mmoproject.Framing.{header_len, Turn, turn, resume, receive_loop, complete_recv}
use my_mmoproject.Framing.Frame.{turn_cuts, turn_overflows}
use my_mmoproject.Framing.Loop.{
  Envelope, ArePackets, stream, deliveries, IsPartial, prepend, loop_delivers, turn_partial,
  turns_left,
}

module _ (clock : ℕ → ℕ) (session : ℕ) (r : Ring) {r' : Ring} (transferred : ℕ)
    (received : move_rear r (pos transferred) ≡ ok r') (v : IsValid r') (es : List Envelope)
    (good : ArePackets es) where
  -- The call is a turn of the loop behind the packets' messages.
  recv_delivers :
      (rest : List ℕ)
      → contents r' ≡ stream es ++ rest
      → (r'' : Ring) × (f : ℕ) × (complete_recv clock session r transferred
          ≡ prepend clock session 0 es (
              turn session (clock (length es)) r''
              >>= resume (receive_loop clock session (suc (length es)) f)))
        × IsValid r''
        × (contents r'' ≡ rest)
        × (r''.end ≡ r'.end)
  unfolding complete_recv receive_loop
  recv_delivers rest e =
      let (f, turns) = turns_left es rest v good e in
      let (r'', done, v', left, same) = loop_delivers clock session 0 (suc f) es rest v good e in
      (
        r'',
        f,
        ap (λ a. a >>= λ q. receive_loop clock session 0 q.end q) received
            ∙ (ap (λ n. receive_loop clock session 0 n r') turns
                ∙ (done
                    ∙ ap
                        (λ j. prepend clock session 0 es (receive_loop clock session j (suc f) r''))
                        (omega arith))),
        v',
        left,
        same,
      )

  -- What the turn behind the packets comes to is what the call comes to.
  recv_ends :
      (r'' : Ring) (f : ℕ) {a : Result Turn}
      → complete_recv clock session r transferred
        ≡ prepend clock session 0 es (
            turn session (clock (length es)) r''
            >>= resume (receive_loop clock session (suc (length es)) f))
      → turn session (clock (length es)) r'' ≡ a
      → complete_recv clock session r transferred
        ≡ prepend clock session 0 es (a >>= resume (receive_loop clock session (suc (length es)) f))
  recv_ends r'' f done e =
      done
      ∙ ap
          (λ t.
            prepend clock session 0 es
              (t >>= resume (receive_loop clock session (suc (length es)) f)))
          e

  none_behind :
      (q : Ring) (b : Bool)
      → prepend clock session 0 es (ok (record { ring = q; messages = []; cut = b }))
        ≡ ok (record { ring = q; messages = deliveries clock session 0 es; cut = b })
  none_behind q b = ap (λ ms. ok (record { ring = q; messages = ms; cut = b })) (append-nil _)

  -- completeRecv hands every whole packet at the head of the received bytes to onRecv, once, in the
  -- order of the stream and with its own key, keeps the part of a packet behind them in the ring,
  -- and posts the next WSARecv.
  pub recv_waits :
      (rest : List ℕ)
      → IsPartial rest
      → contents r' ≡ stream es ++ rest
      → (r'' : Ring) × (complete_recv clock session r transferred
          ≡ ok (record { ring = r''; messages = deliveries clock session 0 es; cut = false }))
        × IsValid r''
        × (contents r'' ≡ rest)
        × (r''.end ≡ r'.end)
  recv_waits rest part e =
      let (r'', f, done, v', left, same) = recv_delivers rest e in
      (
        r'',
        recv_ends r'' f done (turn_partial session (clock (length es)) v' part left)
            ∙ none_behind r'' false,
        v',
        left,
        same,
      )

  -- A header whose Len is not positive disconnects the session; the packets before it are delivered.
  pub recv_cuts :
      (header tail : List ℕ)
      → length header ≡ header_size
      → 0 < length tail
      → (header_len header ≡ 0) ⊎ (32768 ≤ header_len header)
      → contents r' ≡ stream es ++ (header ++ tail)
      → (r'' : Ring) × (complete_recv clock session r transferred
          ≡ ok (record { ring = r''; messages = deliveries clock session 0 es; cut = true }))
  recv_cuts header tail three more bad e =
      let (r'', f, done, v', left, same) = recv_delivers (header ++ tail) e in
      let cuts = turn_cuts session (clock (length es)) v' header tail three left more bad in
      (r'', recv_ends r'' f done cuts ∙ none_behind r'' true)

  -- A whole packet whose Len is above the size of a message makes PutData throw NotEnoughSpace out
  -- of completeRecv, which nothing there catches.
  pub recv_overflows :
      (header tail : List ℕ)
      → length header ≡ header_size
      → buffer_size < header_len header
      → header_len header < 32768
      → header_len header ≤ length tail
      → contents r' ≡ stream es ++ (header ++ tail)
      → complete_recv clock session r transferred ≡ err not_enough_space
  recv_overflows header tail three big hi whole e =
      let (r'', f, done, v', left, same) = recv_delivers (header ++ tail) e in
      let throws =
        turn_overflows session (clock (length es)) v' header tail three left whole big hi in
      recv_ends r'' f done throws
