-- ===== src/Ring/Spsc.antt =====
-- One thread that calls Enqueue and one that calls Dequeue, with no lock between them: the calls cut
-- into the reads and writes of shared memory that MyRingBuffer.cpp makes, each byte of the copy loops
-- by itself, in any interleaving. A thread reads its own offset together with the access behind it.
-- `mRear` is written by the producer alone and `mFront` by the consumer alone.
pub mod Stale
pub mod Inv
pub mod Fifo
use my_mmoproject.Base.{
  ℕ, ◌+◌, ◌-◌, ◌≤◌, ◌<◌, ◌≡◌, replicate, List, [], ◌++◌, leb, ltb, if◌then◌else◌, length, take,
  drop, blit, slice,
}
use my_mmoproject.Ring.Geometry.{
  get_use_size, get_free_size, get_direct_use_size, get_direct_free_size, advance,
}

-- Where the copy loops stand behind `k` turns, of the `size` that they make from the offset `p`.
unfoldable pub copy_position : ℕ → ℕ → ℕ → ℕ → ℕ
copy_position direct size p k =
    if leb size direct then p + k else if ltb k direct then p + k else k - direct

-- Where the producer stands in Enqueue: the offset `f` that it read, the bytes to store, and how many
-- of them the loops have stored.
pub data Producer : Type 0 where
  outside : Producer
  copying : ℕ → List ℕ → ℕ → Producer

-- Where the consumer stands in Dequeue: the offset `r` that it read, how many bytes it is to take, and
-- those that the loops have copied.
pub data Consumer : Type 0 where
  outside : Consumer
  copying : ℕ → ℕ → List ℕ → Consumer

-- The shared ring, the two threads, and what has been sent and received so far.
pub record System : Type 0 where
  pub buf : List ℕ
  pub end : ℕ
  pub front : ℕ
  pub rear : ℕ
  pub producer : Producer
  pub consumer : Consumer
  pub sent : List ℕ
  pub received : List ℕ

pub data Step : System → System → Type 0 where
  enqueue_check :
      (s : System) (src : List ℕ)
      → s.producer ≡ Producer.outside
      → length src ≤ get_free_size s.end s.front s.rear
      → Step s (record s { producer = Producer.copying s.front src 0 })
  enqueue_store :
      (s : System) (f : ℕ) (src : List ℕ) (k : ℕ)
      → s.producer ≡ Producer.copying f src k
      → k < length src
      → Step s (record s {
        buf =
            blit
              (copy_position (get_direct_free_size s.end f s.rear) (length src) s.rear k)
              (take 1 (drop k src))
              s.buf;
        producer = Producer.copying f src (k + 1);
      })
  enqueue_publish :
      (s : System) (f : ℕ) (src : List ℕ)
      → s.producer ≡ Producer.copying f src (length src)
      → Step s (record s {
        rear = advance s.end s.rear (length src);
        producer = Producer.outside;
        sent = s.sent ++ src;
      })
  dequeue_check :
      (s : System) (n : ℕ)
      → s.consumer ≡ Consumer.outside
      → n ≤ get_use_size s.end s.front s.rear
      → Step s (record s { consumer = Consumer.copying s.rear n [] })
  dequeue_load :
      (s : System) (r n : ℕ) (out : List ℕ)
      → s.consumer ≡ Consumer.copying r n out
      → length out < n
      → Step s (record s {
        consumer = Consumer.copying r n (
            out
            ++ slice
                (copy_position (get_direct_use_size s.end s.front r) n s.front (length out))
                1
                s.buf);
      })
  dequeue_publish :
      (s : System) (r n : ℕ) (out : List ℕ)
      → s.consumer ≡ Consumer.copying r n out
      → length out ≡ n
      → Step s (record s {
        front = advance s.end s.front n;
        consumer = Consumer.outside;
        received = s.received ++ out;
      })

pub data Reach (s : System) : System → Type 0 where
  here : Reach s s
  next : {t u : System} → Reach s t → Step t u → Reach s u

-- The start: an empty ring, and no thread inside a call.
unfoldable pub start : ℕ → System
start size = record {
  buf = replicate size 0;
  end = size;
  front = 0;
  rear = 0;
  producer = Producer.outside;
  consumer = Consumer.outside;
  sent = [];
  received = [];
}
