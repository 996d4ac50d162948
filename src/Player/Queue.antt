-- ===== src/Player/Queue.antt =====
-- Player::mRecvQ (FieldServer/Contents/Player.cpp) and FieldServer::onRecv: the network's threads put the
-- pointers of a player's messages into a ring, eight bytes each, and the player's thread takes them
-- out. A pointer is its address, with 0 for nullptr.
use my_mmoproject.Base.{
  ℕ, ◌+◌, ◌^◌, ◌*◌, ◌≤◌, ◌<◌, ◌≡◌, refl, sym, ap, ◌∙◌, Bool, true, false, not, List, [], ◌∷◌, ◌++◌,
  ltb, leb, if◌then◌else◌, length, arith, append_assoc, append-nil, length-append,
}
use my_mmoproject.Base.Int.{pos}
use my_mmoproject.Fault.{Result, ok, ◌>>=◌, ◌>>◌, my_assert}
use my_mmoproject.Bytes.{to_bytes, of_bytes, length-to_bytes, of_bytes-to_bytes}
use my_mmoproject.Ring.{Ring, enqueue, dequeue}
use my_mmoproject.Ring.Geometry.{get_use_size}
use my_mmoproject.Ring.Refine.{IsValid, contents, length-contents, enqueue_appends, dequeue_takes}
use my_mmoproject.Framing.Frame.{append_cancel}
use my_mmoproject.Player.{Player}

unfoldable pub en_queue_msg : Ring → ℕ → Result Ring
en_queue_msg q msg = my_assert (ltb 0 msg) >> enqueue q (to_bytes 8 msg) (pos 8)

-- DeQueueMsgOrNull of a player who is connected, or is not.
unfoldable pub de_queue_msg_or_null : Bool → Ring → Result (Ring × ℕ)
de_queue_msg_or_null connect q =
    if not connect
    then ok (q, 0)
    else if ltb (get_use_size q.end q.front q.rear) 8
    then ok (q, 0)
    else (do (q', bytes) ← dequeue q (pos 8); ok (q', of_bytes bytes))

-- CONFIG_SESSION_SENDQ_CAPPACITY
abbrev pub session_sendq_capacity : ℕ
session_sendq_capacity = 500

-- onRecv at its player, at the time `now`: the player, his queue, and whether the session is cut off.
unfoldable pub on_recv : {F : Type 0} → ℕ → ℕ → Player F → Ring → Result (Player F × Ring × Bool)
on_recv now msg p q = do
  q' ← en_queue_msg q msg
  let cnt = p.send_msg_cnt + 1
  ok (record p { send_msg_cnt = cnt; last_time = now }, q', leb session_sendq_capacity cnt)

-- What the ring holds of a run of pointers.
abbrev pub pointers : List ℕ → List ℕ
pointers [] = []
pointers (m ∷ ms) = to_bytes 8 m ++ pointers ms

length-pointers : (ms : List ℕ) → length (pointers ms) ≡ 8 * length ms
length-pointers [] = omega arith
length-pointers (m ∷ ms) =
    omega
      (arith, length-append (to_bytes 8 m) (pointers ms), length-to_bytes 8 m, length-pointers ms)

pointers-append : (ms : List ℕ) (m : ℕ) → pointers (ms ++ (m ∷ [])) ≡ pointers ms ++ to_bytes 8 m
pointers-append [] m = append-nil (to_bytes 8 m)
pointers-append (k ∷ ms) m =
    ap (λ r. to_bytes 8 k ++ r) (pointers-append ms m)
    ∙ sym (append_assoc (to_bytes 8 k) (pointers ms) (to_bytes 8 m))

-- A valid ring that holds these pointers.
pub record Holds (q : Ring) (ms : List ℕ) : Type 0 where
  pub valid : IsValid q
  pub stored : contents q ≡ pointers ms

-- A message that onRecv puts into a queue with room goes behind the others; a connected player's queue
-- hands out the oldest one, and nullptr when it is empty; and the queue of a player who is not
-- connected any more hands out nothing, whatever it holds.
pub recv_queue_lem :
    {F : Type 0} (p : Player F) (q : Ring) (ms : List ℕ)
    → Holds q ms
    → ((now msg : ℕ)
        → 0 < msg
        → msg < 256 ^ 8
        → 8 * length ms + 8 < q.end
        → (q' : Ring) × (on_recv now msg p q
            ≡ ok (
              record p { send_msg_cnt = p.send_msg_cnt + 1; last_time = now },
              q',
              leb 500 (p.send_msg_cnt + 1),
            ))
          × Holds q' (ms ++ (msg ∷ []))
          × (q'.end ≡ q.end))
      × ((oldest : ℕ) (rest : List ℕ)
          → ms ≡ oldest ∷ rest
          → oldest < 256 ^ 8
          → (q' : Ring) × (de_queue_msg_or_null true q ≡ ok (q', oldest)) × Holds q' rest)
      × (ms ≡ [] → de_queue_msg_or_null true q ≡ ok (q, 0))
      × (de_queue_msg_or_null false q ≡ ok (q, 0))
unfolding on_recv en_queue_msg de_queue_msg_or_null
recv_queue_lem p q ms h = (
  λ now msg lo hi room.
      let width = length-to_bytes 8 msg in
      let (q', done, v, e, same) =
        enqueue_appends h.valid (to_bytes 8 msg)
          (omega (arith, width, ap length h.stored, length-pointers ms)) in
      (
        q',
        ground (arith, lo, ap (λ n. enqueue q (to_bytes 8 msg) (pos n)) (sym width) ∙ done),
        record {
          valid = v;
          stored = e ∙ ap (λ r. r ++ to_bytes 8 msg) h.stored ∙ sym (pointers-append ms msg);
        },
        same,
      ),
  λ oldest rest e fits.
      let held : contents q ≡ to_bytes 8 oldest ++ pointers rest = h.stored ∙ ap pointers e in
      let width = length-to_bytes 8 oldest in
      let size : 8 ≤ length (contents q) =
        omega (arith, width, ap length held, length-append (to_bytes 8 oldest) (pointers rest)) in
      let (q', out, done, v, eight, split, same) = dequeue_takes h.valid 8 size in
      let cut : to_bytes 8 oldest ++ pointers rest ≡ out ++ contents q' = sym held ∙ split in
      let (head, tail) =
        append_cancel {a = to_bytes 8 oldest} {c = out} cut (omega (arith, width, eight)) in
      (
        q',
        ground (
          arith,
          size,
          length-contents h.valid,
          done,
          ap of_bytes (sym head),
          of_bytes-to_bytes 8 oldest fits,
        ),
        record { valid = v; stored = sym tail },
      ),
  λ e. ground (arith, ap length (h.stored ∙ ap pointers e), length-contents h.valid),
  refl,
)
