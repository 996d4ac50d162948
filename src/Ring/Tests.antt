-- ===== src/Ring/Tests.antt =====
-- Runs of the ring on a buffer of eight cells, and the theorems at those inputs.
use my_mmoproject.Base.{ℕ, ◌≡◌, refl, List, [], ◌∷◌, ◌++◌, length, arith}
use my_mmoproject.Base.Int.{pos, negsuc}
use my_mmoproject.Fault.{Result, ok, err, debug_break, ◌>>=◌}
use my_mmoproject.Ring.{Ring, create, peek, enqueue, dequeue, move_front, move_rear, clear_buffer}
use my_mmoproject.Ring.Geometry.{
  get_use_size, get_free_size, get_direct_use_size, get_direct_free_size, copy_in, copy_out,
  advance,
}
use my_mmoproject.Ring.Refine.{
  IsValid, contents, enqueue_appends, dequeue_takes, dequeue_empty, peek_too_many,
}
use my_mmoproject.Ring.Spsc.{
  Producer, Consumer, System, copy_position, enqueue_check, enqueue_store, enqueue_publish,
  dequeue_check, dequeue_load, dequeue_publish, Reach, here, next, start,
}
use my_mmoproject.Ring.Window.{window}
use my_mmoproject.Ring.Spsc.Fifo.{spsc_fifo}

-- 5 6 7 stand before the end of the array, 8 9 at its start.
abbrev turned : Ring
turned = record { buf = 8 ∷ 9 ∷ 0 ∷ 0 ∷ 0 ∷ 5 ∷ 6 ∷ 7 ∷ []; end = 8; front = 5; rear = 2; fail = 0 }

turned-IsValid : IsValid turned
turned-IsValid = omega arith

contents-turned : contents turned ≡ 5 ∷ 6 ∷ 7 ∷ 8 ∷ 9 ∷ []
contents-turned = refl

-- Three bytes in, three out, five in round the end of the array, and a Peek for too many.
round_trip : Result (List ℕ)
round_trip = do
  a ← enqueue (create 8) (1 ∷ 2 ∷ 3 ∷ 4 ∷ 5 ∷ 6 ∷ []) (pos 6)
  b ← dequeue a (pos 5)
  c ← enqueue b.0 (7 ∷ 8 ∷ 9 ∷ 10 ∷ []) (pos 4)
  d ← peek c (pos 5)
  e ← dequeue c (pos 5)
  ok (d.1 ++ e.1)

round_trip_lem : round_trip ≡ ok (6 ∷ 7 ∷ 8 ∷ 9 ∷ 10 ∷ 6 ∷ 7 ∷ 8 ∷ 9 ∷ 10 ∷ [])
unfolding round_trip create enqueue dequeue peek move_front move_rear get_use_size get_free_size
    get_direct_use_size get_direct_free_size copy_in copy_out advance
round_trip_lem = refl

negative_size : dequeue turned (negsuc 0) ≡ err debug_break
unfolding dequeue
negative_size = refl

enqueue_appends_example :
    (r' : Ring) × (enqueue turned (1 ∷ 2 ∷ []) (pos 2) ≡ ok r')
    × IsValid r'
    × (contents r' ≡ 5 ∷ 6 ∷ 7 ∷ 8 ∷ 9 ∷ 1 ∷ 2 ∷ [])
    × (r'.end ≡ 8)
enqueue_appends_example = enqueue_appends turned-IsValid (1 ∷ 2 ∷ []) (omega arith)

dequeue_takes_example :
    (r' : Ring) × (out : List ℕ) × (dequeue turned (pos 4) ≡ ok (r', out))
    × IsValid r'
    × (length out ≡ 4)
    × (5 ∷ 6 ∷ 7 ∷ 8 ∷ 9 ∷ [] ≡ out ++ contents r')
    × (r'.end ≡ 8)
dequeue_takes_example = dequeue_takes turned-IsValid 4 (omega arith)

dequeue_empty_example : dequeue turned (pos 6) ≡ err debug_break
dequeue_empty_example = dequeue_empty turned-IsValid 6 (omega arith)

peek_too_many_example :
    (r' : Ring) × (peek turned (pos 6) ≡ ok (r', []))
    × (contents r' ≡ 5 ∷ 6 ∷ 7 ∷ 8 ∷ 9 ∷ [])
    × (dequeue r' (pos 2) ≡ ok (r', 5 ∷ 6 ∷ []))
    × (move_rear r' (pos 2) ≡ err debug_break)
    × IsValid (clear_buffer r')
peek_too_many_example = peek_too_many turned-IsValid 6 2 (omega arith) (omega arith)

-- The producer stores 1 2; the consumer takes 1 out while the producer stores 3.
abbrev last : System
last = record {
  buf = 1 ∷ 2 ∷ 3 ∷ 0 ∷ [];
  end = 4;
  front = 1;
  rear = 2;
  producer = Producer.copying 0 (3 ∷ []) 1;
  consumer = Consumer.outside;
  sent = 1 ∷ 2 ∷ [];
  received = 1 ∷ [];
}

stored_two :
    Reach (start 4) (record (start 4) { buf = 1 ∷ 2 ∷ 0 ∷ 0 ∷ []; rear = 2; sent = 1 ∷ 2 ∷ [] })
unfolding start get_free_size get_direct_free_size copy_position advance
stored_two =
    next
      (next
        (next (next here (enqueue_check _ (1 ∷ 2 ∷ []) refl (omega arith)))
          (enqueue_store _ 0 (1 ∷ 2 ∷ []) 0 refl (omega arith)))
        (enqueue_store _ 0 (1 ∷ 2 ∷ []) 1 refl (omega arith)))
      (enqueue_publish _ 0 (1 ∷ 2 ∷ []) refl)

interleaved : Reach (start 4) last
unfolding start get_use_size get_free_size get_direct_use_size get_direct_free_size copy_position
    advance
interleaved =
    next
      (next
        (next
          (next (next stored_two (dequeue_check _ 1 refl (omega arith)))
            (enqueue_check _ (3 ∷ []) refl (omega arith)))
          (dequeue_load _ 2 1 [] refl (omega arith)))
        (enqueue_store _ 0 (3 ∷ []) 0 refl (omega arith)))
      (dequeue_publish _ 2 1 (1 ∷ []) refl refl)

spsc_fifo_example : last.sent ≡ last.received ++ window last.buf last.end last.front last.rear
spsc_fifo_example = spsc_fifo 4 (omega arith) interleaved
