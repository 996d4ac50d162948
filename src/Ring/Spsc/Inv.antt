-- ===== src/Ring/Spsc/Inv.antt =====
-- The invariant of the two threads, part by part, and what each access of one thread leaves to the
-- other.
use my_mmoproject.Base.{
  ℕ, ◌≤◌, ◌<◌, ◌≡◌, sym, ap, ◌∙◌, List, ◌++◌, length, take, drop, arith, take-append_le,
  drop-append_le,
}
use my_mmoproject.Ring.Geometry.{
  get_use_size, get_free_size, advance, use-add-free, use-advance_rear, use-advance_front,
}
use my_mmoproject.Ring.Window.{window, length-window}
use my_mmoproject.Ring.Spsc.{Producer, Consumer, System}
use my_mmoproject.Ring.Spsc.Stale.{window-take}

-- What the producer relies on: its bytes still fit, and those that it has stored stand behind the others.
abbrev pub ProducerInv : List ℕ → ℕ → ℕ → ℕ → Producer → Type 0
ProducerInv buf end f r Producer.outside = Unit
ProducerInv buf end f r (Producer.copying old src k) =
    (old < end)
    × (length src ≤ get_free_size end old r)
    × (length src ≤ get_free_size end f r)
    × (k ≤ length src)
    × (window buf end f (advance end r k) ≡ window buf end f r ++ take k src)

-- What the consumer relies on: so many bytes are stored, and what it has copied is the oldest of them.
abbrev pub ConsumerInv : List ℕ → ℕ → ℕ → ℕ → Consumer → Type 0
ConsumerInv buf end f r Consumer.outside = Unit
ConsumerInv buf end f r (Consumer.copying old n out) =
    (old < end)
    × (n ≤ get_use_size end f old)
    × (n ≤ get_use_size end f r)
    × (length out ≤ n)
    × (out ≡ take (length out) (window buf end f r))

-- What holds between any two accesses.
pub record Inv (s : System) : Type 0 where
  pub storage : length s.buf ≡ s.end
  pub front_in : s.front < s.end
  pub rear_in : s.rear < s.end
  pub fifo : s.sent ≡ s.received ++ window s.buf s.end s.front s.rear
  pub producing : ProducerInv s.buf s.end s.front s.rear s.producer
  pub consuming : ConsumerInv s.buf s.end s.front s.rear s.consumer

module _ (buf : List ℕ) (end f r : ℕ) (hb : end ≤ length buf) (hf : f < end) (hr : r < end) where
  pub ConsumerInv-store :
      (c : Consumer) (buf' : List ℕ)
      → window buf' end f r ≡ window buf end f r
      → ConsumerInv buf end f r c
      → ConsumerInv buf' end f r c
  ConsumerInv-store Consumer.outside buf' keep v = tt
  ConsumerInv-store (Consumer.copying old n out) buf' keep (ho, first, now, some_left, oldest) =
      (ho, first, now, some_left, oldest ∙ ap (take (length out)) (sym keep))

  pub ConsumerInv-publish :
      (c : Consumer) (src : List ℕ)
      → length src ≤ get_free_size end f r
      → window buf end f (advance end r (length src)) ≡ window buf end f r ++ src
      → ConsumerInv buf end f r c
      → ConsumerInv buf end f (advance end r (length src)) c
  ConsumerInv-publish Consumer.outside src h e v = tt
  ConsumerInv-publish (Consumer.copying old n out) src h e (ho, first, now, some_left, oldest) = (
    ho,
    first,
    omega (arith, use-advance_rear end f r hf hr (length src) h),
    some_left,
    oldest
        ∙ sym (
            ap (take (length out)) e
            ∙ take-append_le (length out) (window buf end f r) src
                (omega (arith, length-window buf end f r hb hf hr))),
  )

  pub ProducerInv-publish :
      (p : Producer) (n : ℕ)
      → n ≤ get_use_size end f r
      → ProducerInv buf end f r p
      → ProducerInv buf end (advance end f n) r p
  ProducerInv-publish Producer.outside n h v = tt
  ProducerInv-publish (Producer.copying old src k) n h (ho, first, now, few, more) =
      let moved = use-advance_front end f r hf hr n h in
      let ahead = use-advance_rear end f r hf hr k (omega arith) in
      (
        ho,
        first,
        omega (
          arith,
          moved,
          use-add-free end f r hf hr,
          use-add-free end (advance end f n) r moved.0 hr,
        ),
        few,
        (window-take buf end f (advance end r k) hb hf ahead.0 n (omega (arith, ahead.1))).1
            ∙ (ap (drop n) more
                ∙ (drop-append_le n (window buf end f r) (take k src)
                      (omega (arith, length-window buf end f r hb hf hr))
                    ∙ ap (λ w. w ++ take k src) (sym (window-take buf end f r hb hf hr n h).1))),
      )
