-- ===== src/Framing/Tests.antt =====
-- Two packets and a part of a third in a receive buffer of sixteen cells, and the theorems there.
use my_mmoproject.Base.{
  ℕ, ◌≤◌, ◌≡◌, ◌⊎◌, inl, refl, List, [], ◌∷◌, ◌++◌, replicate, length-replicate, arith, true, false,
}
use my_mmoproject.Base.Int.{pos}
use my_mmoproject.Fault.{ok, err, not_enough_space}
use my_mmoproject.Bytes.{of_bytes}
use my_mmoproject.Ring.{Ring, move_rear}
use my_mmoproject.Ring.Geometry.{advance}
use my_mmoproject.Ring.Refine.{IsValid, contents}
use my_mmoproject.Framing.{complete_recv, header_len}
use my_mmoproject.Framing.Loop.{Envelope, ArePackets, stream, deliveries, header_only}
use my_mmoproject.Framing.Stream.{recv_waits, recv_cuts, recv_overflows}
use my_mmoproject.Framing.Ends.{End, ByEnd, recv_total}

-- A packet of two bytes, one of one byte, and two bytes of a header, round the end of the array.
abbrev before : Ring
before = record {
  buf = 5 ∷ 1 ∷ 0 ∷ 0 ∷ 8 ∷ 9 ∷ 9 ∷ 9 ∷ 9 ∷ 9 ∷ 9 ∷ 9 ∷ 2 ∷ 0 ∷ 0 ∷ 4 ∷ [];
  end = 16;
  front = 12;
  rear = 12;
  fail = 0;
}

abbrev after : Ring
after = record before { rear = 6 }

abbrev packets : List Envelope
packets =
    record { header = 2 ∷ 0 ∷ 0 ∷ []; body = 4 ∷ 5 ∷ [] }
    ∷ record { header = 1 ∷ 0 ∷ 0 ∷ []; body = 8 ∷ [] }
    ∷ []

moved_rear : move_rear before (pos 10) ≡ ok after
unfolding move_rear advance
moved_rear = refl

after-IsValid : IsValid after
after-IsValid = omega arith

packets_good : ArePackets packets
unfolding header_len of_bytes
packets_good = (
  record { header_fits = refl; counted = refl; not_empty = omega arith; body_fits = omega arith },
  (
    record { header_fits = refl; counted = refl; not_empty = omega arith; body_fits = omega arith },
    tt,
  ),
)

recv_waits_example :
    (r'' : Ring) × (complete_recv (λ k. k) 77 before 10
      ≡ ok (record { ring = r''; messages = deliveries (λ k. k) 77 0 packets; cut = false }))
    × IsValid r''
    × (contents r'' ≡ 9 ∷ [])
    × (r''.end ≡ 16)
recv_waits_example =
    recv_waits (λ k. k) 77 before 10 moved_rear after-IsValid packets packets_good (9 ∷ [])
      (header_only (9 ∷ []) (omega arith)) refl

-- The first packet only, and then a header whose Len is 0.
abbrev cut_before : Ring
cut_before = record before {
  buf = 5 ∷ 0 ∷ 0 ∷ 0 ∷ 8 ∷ 9 ∷ 9 ∷ 9 ∷ 9 ∷ 9 ∷ 9 ∷ 9 ∷ 2 ∷ 0 ∷ 0 ∷ 4 ∷ [];
}

abbrev cut_after : Ring
cut_after = record cut_before { rear = 5 }

abbrev one_packet : List Envelope
one_packet = record { header = 2 ∷ 0 ∷ 0 ∷ []; body = 4 ∷ 5 ∷ [] } ∷ []

cut_moved : move_rear cut_before (pos 9) ≡ ok cut_after
unfolding move_rear advance
cut_moved = refl

cut_after-IsValid : IsValid cut_after
cut_after-IsValid = omega arith

zero_len : (header_len (0 ∷ 0 ∷ 0 ∷ []) ≡ 0) ⊎ (32768 ≤ header_len (0 ∷ 0 ∷ 0 ∷ []))
unfolding header_len of_bytes
zero_len = inl refl

recv_cuts_example :
    (r'' : Ring) × (complete_recv (λ k. k) 77 cut_before 9
      ≡ ok (record { ring = r''; messages = deliveries (λ k. k) 77 0 one_packet; cut = true }))
recv_cuts_example =
    recv_cuts (λ k. k) 77 cut_before 9 cut_moved cut_after-IsValid one_packet (packets_good.0, tt)
      (0 ∷ 0 ∷ 0 ∷ []) (8 ∷ []) refl (omega arith) zero_len refl

recv_total_example :
    (es : List Envelope) × (rest : List ℕ) × (end : End rest) × ArePackets es
    × (contents after ≡ stream es ++ rest)
    × ByEnd (λ k. k) 77 before 10 es end
recv_total_example = recv_total (λ k. k) 77 before 10 moved_rear after-IsValid

-- A packet with a Len of 6001, all there.
abbrev huge_header : List ℕ
huge_header = 113 ∷ 23 ∷ 0 ∷ []

abbrev huge_before : Ring
huge_before = record {
  buf = huge_header ++ replicate 6010 0;
  end = 6013;
  front = 0;
  rear = 0;
  fail = 0;
}

abbrev huge_after : Ring
huge_after = record huge_before { rear = 6004 }

huge_moved : move_rear huge_before (pos 6004) ≡ ok huge_after
unfolding move_rear advance
huge_moved = refl

huge_after-IsValid : IsValid huge_after
huge_after-IsValid = record {
  storage = omega (arith, length-replicate {A = ℕ} 6010 0);
  front_in = omega arith;
  rear_in = omega arith;
  healthy = refl;
}

huge_len : header_len huge_header ≡ 6001
unfolding header_len of_bytes
huge_len = refl

huge_contents : contents huge_after ≡ stream [] ++ (huge_header ++ replicate 6001 0)
huge_contents = refl

recv_overflows_example : complete_recv (λ k. k) 77 huge_before 6004 ≡ err not_enough_space
recv_overflows_example =
    recv_overflows (λ k. k) 77 huge_before 6004 huge_moved huge_after-IsValid [] tt huge_header
      (replicate 6001 0) refl (omega (arith, huge_len)) (omega (arith, huge_len))
      (omega (arith, huge_len, length-replicate {A = ℕ} 6001 0)) huge_contents
