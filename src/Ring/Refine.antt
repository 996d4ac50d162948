-- ===== src/Ring/Refine.antt =====
-- MyRingBuffer as a bounded queue of bytes: what each call does to the bytes that it holds, on every
-- branch.
use my_mmoproject.Base.{
  ℕ, take, take-append_of_length, ◌+◌, ◌-◌, ◌≤◌, ◌<◌, ◌≡◌, refl, sym, subst, List, [], ◌++◌, length,
  length-replicate, arith, length-blit, blit, drop, ◌∙◌, ap,
}
use my_mmoproject.Base.Int.{pos}
use my_mmoproject.Fault.{ok, err, debug_break}
use my_mmoproject.Ring.{Ring, create, peek, enqueue, dequeue, clear_buffer, move_front, move_rear}
use my_mmoproject.Ring.Geometry.{
  get_use_size, get_free_size, get_direct_use_size, get_direct_free_size, copy_in, copy_out,
  advance, use-add-free, use-advance_rear, use-advance_front,
}
use my_mmoproject.Ring.Window.{
  window, length-window, length-copy_out, window-copy_out, window-copy_in,
}

pub record IsValid (r : Ring) : Type 0 where
  pub storage : length r.buf ≡ r.end
  pub front_in : r.front < r.end
  pub rear_in : r.rear < r.end
  pub healthy : r.fail ≡ 0

abbrev pub contents : Ring → List ℕ
contents r = window r.buf r.end r.front r.rear

pub create-IsValid : (size : ℕ) → 0 < size → IsValid (create size) × (contents (create size) ≡ [])
unfolding create
create-IsValid size h =
    (record { storage = length-replicate size 0; front_in = h; rear_in = h; healthy = refl }, refl)

pub length-contents :
    {r : Ring} → IsValid r → length (contents r) ≡ get_use_size r.end r.front r.rear
length-contents {r} v = length-window r.buf r.end r.front r.rear (omega arith) v.front_in v.rear_in

pub length-copy_in :
    (buf : List ℕ) (r direct n : ℕ) (src : List ℕ)
    → length (copy_in buf r direct n src) ≡ length buf
unfolding copy_in
length-copy_in buf r direct n src = ground (
  arith,
  length-blit r (take n src) buf,
  length-blit r (take direct src) buf,
  length-blit 0 (take (n - direct) (drop direct src)) (blit r (take direct src) buf),
)

-- What the ring is after a call of Enqueue that stores `src`.
abbrev pub stored : Ring → List ℕ → Ring
stored r src = record r {
  buf = copy_in r.buf r.rear (get_direct_free_size r.end r.front r.rear) (length src) src;
  rear = advance r.end r.rear (length src);
}

module _ {r : Ring} (v : IsValid r) where
  pub free_size : get_free_size r.end r.front r.rear + length (contents r) + 1 ≡ r.end
  free_size =
      omega (arith, length-contents v, use-add-free r.end r.front r.rear v.front_in v.rear_in)

  -- Bytes that fit with one cell to spare go to the end, and the ring stays valid.
  pub enqueue_appends :
      (src : List ℕ)
      → length (contents r) + length src < r.end
      → (r' : Ring) × (enqueue r src (pos (length src)) ≡ ok r')
        × IsValid r'
        × (contents r' ≡ contents r ++ src)
        × (r'.end ≡ r.end)
  unfolding enqueue
  enqueue_appends src h =
      let room : length src ≤ get_free_size r.end r.front r.rear = omega (arith, free_size) in
      let direct = get_direct_free_size r.end r.front r.rear in
      (
        stored r src,
        ground (arith, room),
        record {
          storage = length-copy_in r.buf r.rear direct (length src) src ∙ v.storage;
          front_in = v.front_in;
          rear_in =
              (use-advance_rear r.end r.front r.rear v.front_in v.rear_in (length src) room).0;
          healthy = v.healthy;
        },
        window-copy_in r.buf r.end r.front r.rear (omega arith) v.front_in v.rear_in src room,
        refl,
      )

  -- Bytes that do not fit stop the process in RINGBUFFER_ASSERT; none is stored.
  pub enqueue_full :
      (src : List ℕ) (n : ℕ)
      → r.end ≤ length (contents r) + n
      → enqueue r src (pos n) ≡ err debug_break
  unfolding enqueue
  enqueue_full src n h = ground (arith, free_size, v.healthy)

  moved : (n : ℕ) → move_front r (pos n) ≡ record r { front = advance r.end r.front n }
  unfolding move_front
  moved n = ground (arith, v.healthy)

  -- MoveFront passes over exactly what Dequeue would copy out.
  pub move_front_takes :
      (n : ℕ)
      → n ≤ length (contents r)
      → let out = copy_out r.buf r.front (get_direct_use_size r.end r.front r.rear) n in
        let r' = move_front r (pos n) in
        IsValid r' × (length out ≡ n) × (contents r ≡ out ++ contents r') × (r'.end ≡ r.end)
  move_front_takes n h =
      let stock : n ≤ get_use_size r.end r.front r.rear = omega (arith, length-contents v) in
      let out = copy_out r.buf r.front (get_direct_use_size r.end r.front r.rear) n in
      subst
        (λ r'. IsValid r' × (length out ≡ n) × (contents r ≡ out ++ contents r') × (r'.end ≡ r.end))
        (sym (moved n))
        (
          record {
            storage = v.storage;
            front_in = (use-advance_front r.end r.front r.rear v.front_in v.rear_in n stock).0;
            rear_in = v.rear_in;
            healthy = v.healthy;
          },
          length-copy_out r.buf r.end r.front r.rear (omega arith) v.front_in v.rear_in n stock,
          window-copy_out r.buf r.end r.front r.rear (omega arith) v.front_in v.rear_in n stock,
          refl,
        )

  -- Dequeue takes exactly the oldest `n` bytes, if so many are stored.
  pub dequeue_takes :
      (n : ℕ)
      → n ≤ length (contents r)
      → (r' : Ring) × (out : List ℕ) × (dequeue r (pos n) ≡ ok (r', out))
        × IsValid r'
        × (length out ≡ n)
        × (contents r ≡ out ++ contents r')
        × (r'.end ≡ r.end)
  unfolding dequeue
  dequeue_takes n h =
      let stock : n ≤ get_use_size r.end r.front r.rear = omega (arith, length-contents v) in
      (
        move_front r (pos n),
        copy_out r.buf r.front (get_direct_use_size r.end r.front r.rear) n,
        ground (arith, stock),
        (move_front_takes n h).0,
        (move_front_takes n h).1,
        (move_front_takes n h).2,
        (move_front_takes n h).3,
      )

  -- Fewer stored bytes than asked for stop the process.
  pub dequeue_empty : (n : ℕ) → length (contents r) < n → dequeue r (pos n) ≡ err debug_break
  unfolding dequeue
  dequeue_empty n h = ground (arith, length-contents v, v.healthy)

  -- Peek hands out what Dequeue would, and leaves the ring as it is.
  pub peek-dequeue :
      (n : ℕ) {r' : Ring} {out : List ℕ}
      → dequeue r (pos n) ≡ ok (r', out)
      → peek r (pos n) ≡ ok (r, out)
  unfolding dequeue peek
  peek-dequeue n e = ground (arith, v.healthy)

  -- A Peek for more than is stored does not stop the process, but leaves a mark: from then on Dequeue
  -- hands out the oldest bytes and does not consume them, and MoveRear stops the process, until ClearBuffer.
  pub peek_too_many :
      (n m : ℕ)
      → length (contents r) < n
      → m ≤ length (contents r)
      → (r' : Ring) × (peek r (pos n) ≡ ok (r', []))
        × (contents r' ≡ contents r)
        × (dequeue r' (pos m) ≡ ok (r', take m (contents r)))
        × (move_rear r' (pos m) ≡ err debug_break)
        × IsValid (clear_buffer r')
  unfolding peek dequeue move_front move_rear clear_buffer
  peek_too_many n m h k =
      let short : get_use_size r.end r.front r.rear < n = omega (arith, length-contents v) in
      let stock : m ≤ get_use_size r.end r.front r.rear = omega (arith, length-contents v) in
      let oldest : copy_out r.buf r.front (get_direct_use_size r.end r.front r.rear) m
          ≡ take m (contents r) =
        sym (
          ap (take m)
            (window-copy_out r.buf r.end r.front r.rear (omega arith) v.front_in v.rear_in m stock)
          ∙ take-append_of_length m _ _ (
              length-copy_out r.buf r.end r.front r.rear (omega arith) v.front_in v.rear_in m
                stock)) in
      (
        record r { fail = 4 },
        ground (arith, short, v.healthy),
        refl,
        ground (arith, stock, oldest),
        refl,
        omega arith,
      )
