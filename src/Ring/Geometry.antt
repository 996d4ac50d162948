-- ===== src/Ring/Geometry.antt =====
-- The offset arithmetic of MyRingBuffer.cpp: how much is stored and free, in all and in one run
-- before the end of the array, and the copies that go round it. One cell stays free, so equal
-- offsets mean an empty buffer.
use my_mmoproject.Base.{
  ℕ, ◌+◌, ◌-◌, ◌≤◌, ◌<◌, ◌≡◌, false, List, ◌++◌, leb, ◌==◌, if◌then◌else◌, take, drop, blit, slice,
  arith,
}

-- GetUseSize(f, r)
unfoldable pub get_use_size : ℕ → ℕ → ℕ → ℕ
get_use_size end f r = if leb f r then r - f else (end - f) + r

-- GetFreeSize(f, r); the sum is taken before 1 is subtracted, since `f - mBegin - 1` may be -1.
unfoldable pub get_free_size : ℕ → ℕ → ℕ → ℕ
get_free_size end f r = if leb f r then (end - r) + f - 1 else f - r - 1

-- GetDirectUseSize(f, r)
unfoldable pub get_direct_use_size : ℕ → ℕ → ℕ → ℕ
get_direct_use_size end f r = if leb f r then r - f else end - f

-- GetDirectFreeSize(f, r)
unfoldable pub get_direct_free_size : ℕ → ℕ → ℕ → ℕ
get_direct_free_size end f r =
    if leb f r then (if f == 0 then end - r - 1 else end - r) else f - r - 1

-- The copy loops of Peek and Dequeue.
unfoldable pub copy_out : List ℕ → ℕ → ℕ → ℕ → List ℕ
copy_out buf f direct size =
    if leb size direct then slice f size buf else slice f direct buf ++ slice 0 (size - direct) buf

-- The copy loops of Enqueue.
unfoldable pub copy_in : List ℕ → ℕ → ℕ → ℕ → List ℕ → List ℕ
copy_in buf r direct size src =
    if leb size direct
    then blit r (take size src) buf
    else blit 0 (take (size - direct) (drop direct src)) (blit r (take direct src) buf)

-- The new offset of MoveFront and MoveRear.
unfoldable pub advance : ℕ → ℕ → ℕ → ℕ
advance end p move = if leb end (p + move) then p + move - end else p + move

module _ (end f r : ℕ) (hf : f < end) (hr : r < end) where
  -- What is used and what is free make up all cells but one.
  pub use-add-free : get_use_size end f r + get_free_size end f r + 1 ≡ end
  unfolding get_use_size get_free_size
  use-add-free = ground arith

  pub direct_use-le-use : get_direct_use_size end f r ≤ get_use_size end f r
  unfolding get_use_size get_direct_use_size
  direct_use-le-use = ground arith

  pub direct_free-le-free : get_direct_free_size end f r ≤ get_free_size end f r
  unfolding get_free_size get_direct_free_size
  direct_free-le-free = ground arith

  -- The store of `n` bytes leaves both offsets inside the array and counts the bytes as used.
  pub use-advance_rear :
      (n : ℕ)
      → n ≤ get_free_size end f r
      → (advance end r n < end) × (get_use_size end f (advance end r n) ≡ get_use_size end f r + n)
  unfolding get_use_size get_free_size advance
  use-advance_rear n h = ground arith

  pub use-advance_front :
      (n : ℕ)
      → n ≤ get_use_size end f r
      → (advance end f n < end) × (get_use_size end (advance end f n) r + n ≡ get_use_size end f r)
  unfolding get_use_size advance
  use-advance_front n h = ground arith

  -- A store goes round the end only when the free cells do.
  pub direct_free-lt :
      (n : ℕ)
      → n ≤ get_free_size end f r
      → leb n (get_direct_free_size end f r) ≡ false
      → (f ≤ r)
        × (get_direct_free_size end f r ≡ end - r)
        × (end - r < n)
        × (n ≤ (end - r) + f - 1)
        × (advance end r n ≡ n - (end - r))
  unfolding get_free_size get_direct_free_size advance
  direct_free-lt n h long = ground arith
