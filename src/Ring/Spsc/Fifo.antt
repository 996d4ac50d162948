-- ===== src/Ring/Spsc/Fifo.antt =====
-- The invariant holds in every interleaving, so the ring is a first-in first-out queue.
use my_mmoproject.Base.{
  ℕ, ◌+◌, ◌≤◌, ◌<◌, ◌≡◌, refl, sym, ap, ◌∙◌, ap₂, subst, take-append-drop, length-replicate, List,
  ◌++◌, length, take, drop, blit, slice, take_all, length-blit, length-append, append-nil, arith,
  append_assoc,
}
use my_mmoproject.Ring.Geometry.{
  get_free_size, get_direct_use_size, get_direct_free_size, advance, use-add-free, use-advance_rear,
  use-advance_front,
}
use my_mmoproject.Ring.Window.{window, length-window}
use my_mmoproject.Ring.Spsc.{
  Producer, Consumer, System, Step, enqueue_check, enqueue_store, enqueue_publish, dequeue_check,
  dequeue_load, dequeue_publish, Reach, here, next, start, copy_position,
}
use my_mmoproject.Ring.Spsc.Stale.{
  take_next, length-next, store_position, load_position, window-store_keep, window-store,
  window-take, window-load, advance_next,
}
use my_mmoproject.Ring.Spsc.Inv.{
  ProducerInv, ConsumerInv, ConsumerInv-store, ConsumerInv-publish, ProducerInv-publish, Inv,
}

-- The store of one byte.
enqueue_store-Inv :
    (s : System) (f : ℕ) (src : List ℕ) (k : ℕ)
    → s.producer ≡ Producer.copying f src k
    → k < length src
    → Inv s
    → Inv (record s {
      buf =
          blit
            (copy_position (get_direct_free_size s.end f s.rear) (length src) s.rear k)
            (take 1 (drop k src))
            s.buf;
      producer = Producer.copying f src (k + 1);
    })
enqueue_store-Inv s f src k p lt v =
    let (old, first, now, few, more) =
      subst (ProducerInv s.buf s.end s.front s.rear) p v.producing in
    let b = take 1 (drop k src) in
    let one : length b ≡ 1 = length-next k src lt in
    let place =
      store_position s.buf s.end s.front s.rear (omega arith) v.front_in v.rear_in f (length src) k
        old first lt in
    let at = advance s.end s.rear k in
    let ahead = use-advance_rear s.end s.front s.rear v.front_in v.rear_in k (omega arith) in
    let room : 1 ≤ get_free_size s.end s.front at = omega (
      arith,
      ahead,
      use-add-free s.end s.front s.rear v.front_in v.rear_in,
      use-add-free s.end s.front at v.front_in ahead.0,
    ) in
    let keep : window (blit at b s.buf) s.end s.front s.rear ≡ window s.buf s.end s.front s.rear =
      window-store_keep s.buf s.end s.front s.rear (omega arith) v.front_in v.rear_in k b
        (omega arith) one in
    rw place (record {
      storage = length-blit at b s.buf ∙ v.storage;
      front_in = v.front_in;
      rear_in = v.rear_in;
      fifo = v.fifo ∙ ap (◌++◌ s.received) (sym keep);
      producing = (
        old,
        first,
        now,
        omega arith,
        ap (window (blit at b s.buf) s.end s.front) (
              sym (
                advance_next s.buf s.end s.front s.rear (omega arith) v.front_in v.rear_in k
                  (omega arith)))
            ∙ window-store s.buf s.end s.front at (omega arith) v.front_in ahead.0 b room one
            ∙ ap (λ w. w ++ b) more
            ∙ append_assoc (window s.buf s.end s.front s.rear) (take k src) b
            ∙ ap₂ (λ w t. w ++ t) (sym keep) (sym (take_next k src)),
      );
      consuming =
          ConsumerInv-store s.buf s.end s.front s.rear (omega arith) v.front_in v.rear_in s.consumer
            (blit at b s.buf) keep v.consuming;
    })

enqueue_publish-Inv :
    (s : System) (f : ℕ) (src : List ℕ)
    → s.producer ≡ Producer.copying f src (length src)
    → Inv s
    → Inv (record s {
      rear = advance s.end s.rear (length src);
      producer = Producer.outside;
      sent = s.sent ++ src;
    })
enqueue_publish-Inv s f src p v =
    let (old, first, room, few, stored) =
      subst (ProducerInv s.buf s.end s.front s.rear) p v.producing in
    let w = window s.buf s.end s.front s.rear in
    let more : window s.buf s.end s.front (advance s.end s.rear (length src)) ≡ w ++ src =
      stored ∙ ap (◌++◌ w) (take_all (length src) src (omega arith)) in
    record {
      storage = v.storage;
      front_in = v.front_in;
      rear_in = (use-advance_rear s.end s.front s.rear v.front_in v.rear_in (length src) room).0;
      fifo =
          ap (λ x. x ++ src) v.fifo
          ∙ (append_assoc s.received w src ∙ ap (◌++◌ s.received) (sym more));
      producing = tt;
      consuming =
          ConsumerInv-publish s.buf s.end s.front s.rear (omega arith) v.front_in v.rear_in
            s.consumer src room more v.consuming;
    }

-- The load of one byte.
dequeue_load-Inv :
    (s : System) (r n : ℕ) (out : List ℕ)
    → s.consumer ≡ Consumer.copying r n out
    → length out < n
    → Inv s
    → Inv (record s {
      consumer = Consumer.copying r n (
          out
          ++ slice
              (copy_position (get_direct_use_size s.end s.front r) n s.front (length out))
              1
              s.buf);
    })
dequeue_load-Inv s r n out p lt v =
    let (old, first, now, few, oldest) =
      subst (ConsumerInv s.buf s.end s.front s.rear) p v.consuming in
    let j = length out in
    let w = window s.buf s.end s.front s.rear in
    let place =
      load_position s.buf s.end s.front s.rear (omega arith) v.front_in v.rear_in r n j old first
        lt in
    let at = advance s.end s.front j in
    let behind = use-advance_front s.end s.front s.rear v.front_in v.rear_in j (omega arith) in
    let byte : slice at 1 s.buf ≡ take 1 (drop j w) =
      window-load s.buf s.end at s.rear (omega arith) behind.0 v.rear_in (omega (arith, behind))
      ∙ ap (take 1)
          (window-take s.buf s.end s.front s.rear (omega arith) v.front_in v.rear_in j
            (omega arith)).1 in
    let stock : j < length w =
      omega (arith, length-window s.buf s.end s.front s.rear (omega arith) v.front_in v.rear_in) in
    let longer : length (out ++ slice at 1 s.buf) ≡ j + 1 =
      length-append out (slice at 1 s.buf)
      ∙ ap (λ k. j + k) (ap length byte ∙ length-next j w stock) in
    rw place (record {
      storage = v.storage;
      front_in = v.front_in;
      rear_in = v.rear_in;
      fifo = v.fifo;
      producing = v.producing;
      consuming = (
        old,
        first,
        now,
        omega (arith, longer),
        ap₂ (λ a b. a ++ b) oldest byte ∙ sym (take_next j w) ∙ ap (λ k. take k w) (sym longer),
      );
    })

dequeue_publish-Inv :
    (s : System) (r n : ℕ) (out : List ℕ)
    → s.consumer ≡ Consumer.copying r n out
    → length out ≡ n
    → Inv s
    → Inv (record s {
      front = advance s.end s.front n;
      consumer = Consumer.outside;
      received = s.received ++ out;
    })
dequeue_publish-Inv s r n out p all v =
    let (old, first, stock, few, copied) =
      subst (ConsumerInv s.buf s.end s.front s.rear) p v.consuming in
    let w = window s.buf s.end s.front s.rear in
    let oldest : out ≡ take n w = copied ∙ ap (λ k. take k w) all in
    record {
      storage = v.storage;
      front_in = (use-advance_front s.end s.front s.rear v.front_in v.rear_in n stock).0;
      rear_in = v.rear_in;
      fifo =
          v.fifo
          ∙ (ap (◌++◌ s.received) (sym (take-append-drop n w))
              ∙ (sym (append_assoc s.received (take n w) (drop n w))
                  ∙ ap₂ (λ a b. (s.received ++ a) ++ b) (sym oldest)
                      (sym
                        (window-take s.buf s.end s.front s.rear (omega arith) v.front_in v.rear_in n
                          stock).1)));
      producing =
          ProducerInv-publish s.buf s.end s.front s.rear (omega arith) v.front_in v.rear_in
            s.producer n stock v.producing;
      consuming = tt;
    }

advance_zero : (end r : ℕ) → r < end → advance end r 0 ≡ r
unfolding advance
advance_zero end r h = ground arith

Step-Inv : {s t : System} → Step s t → Inv s → Inv t
Step-Inv (enqueue_check s src p h) v = record {
  storage = v.storage;
  front_in = v.front_in;
  rear_in = v.rear_in;
  fifo = v.fifo;
  producing = (
    v.front_in,
    h,
    h,
    omega arith,
    ap (window s.buf s.end s.front) (advance_zero s.end s.rear v.rear_in)
        ∙ sym (append-nil (window s.buf s.end s.front s.rear)),
  );
  consuming = v.consuming;
}
Step-Inv (enqueue_store s f src k p lt) v = enqueue_store-Inv s f src k p lt v
Step-Inv (enqueue_publish s f src p) v = enqueue_publish-Inv s f src p v
Step-Inv (dequeue_check s n p h) v = record {
  storage = v.storage;
  front_in = v.front_in;
  rear_in = v.rear_in;
  fifo = v.fifo;
  producing = v.producing;
  consuming = (v.rear_in, h, h, omega arith, refl);
}
Step-Inv (dequeue_load s r n out p lt) v = dequeue_load-Inv s r n out p lt v
Step-Inv (dequeue_publish s r n out p all) v = dequeue_publish-Inv s r n out p all v

Reach-Inv : {s t : System} → Inv s → Reach s t → Inv t
Reach-Inv v here = v
Reach-Inv v (next r st) = Step-Inv st (Reach-Inv v r)

start-Inv : (size : ℕ) → 0 < size → Inv (start size)
unfolding start
start-Inv size h = record {
  storage = length-replicate size 0;
  front_in = h;
  rear_in = h;
  fifo = refl;
  producing = tt;
  consuming = tt;
}

-- However the accesses of the two threads interleave, byte by byte, what the consumer has taken out is the
-- beginning of what the producer has put in, in order, and the rest stands in the ring: no byte is
-- lost, doubled or overtaken.
pub spsc_fifo :
    (size : ℕ) {t : System}
    → 0 < size
    → Reach (start size) t
    → t.sent ≡ t.received ++ window t.buf t.end t.front t.rear
spsc_fifo size h r = (Reach-Inv (start-Inv size h) r).fifo
