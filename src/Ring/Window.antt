-- ===== src/Ring/Window.antt =====
-- The bytes between two offsets, round the end of the array: what the copy loops of MyRingBuffer.cpp
-- take from its front and add at its rear.
use my_mmoproject.Base.{
  ℕ, ◌+◌, ◌-◌, ◌≤◌, ◌<◌, ◌≡◌, ap, ◌∙◌, inl, inr, List, ◌++◌, leb, if◌then◌else◌, length, take, drop,
  blit, slice, Bool-cases, arith, append-nil, append_assoc, length-append, length-take, length-drop,
  length-blit, length-slice, slice-append, slice-blit, slice-blit_below, slice-blit_above, take_all,
  leb→le, take-append-drop,
}
use my_mmoproject.Ring.Geometry.{
  get_use_size, get_free_size, get_direct_use_size, get_direct_free_size, copy_in, copy_out,
  advance, direct_free-lt,
}

abbrev pub window : List ℕ → ℕ → ℕ → ℕ → List ℕ
window buf end f r = if leb f r then slice f (r - f) buf else slice f (end - f) buf ++ slice 0 r buf

-- A run splits at any point inside it.
split_at :
    (buf : List ℕ) (i n m : ℕ) → n ≤ m → slice i m buf ≡ slice i n buf ++ slice (i + n) (m - n) buf
split_at buf i n m h =
    let e : m ≡ n + (m - n) = omega arith in
    ap (λ k. slice i k buf) e ∙ slice-append i n (m - n) buf

-- A run that ends at a store goes on with the stored bytes.
slice-blit_end :
    (buf xs : List ℕ) (f r m : ℕ)
    → f ≤ r
    → r + length xs ≤ length buf
    → m ≡ r - f + length xs
    → slice f m (blit r xs buf) ≡ slice f (r - f) buf ++ xs
slice-blit_end buf xs f r m h room e = ground (
  arith,
  split_at (blit r xs buf) f (r - f) m,
  slice-blit_below f (r - f) r xs buf,
  slice-blit r xs buf,
)

module _ (buf : List ℕ) (end f r : ℕ) (hb : end ≤ length buf) (hf : f < end) (hr : r < end) where
  pub length-window : length (window buf end f r) ≡ get_use_size end f r
  unfolding get_use_size
  length-window = ground (
    arith,
    length-slice f (r - f) buf,
    length-append (slice f (end - f) buf) (slice 0 r buf),
    length-slice f (end - f) buf,
    length-slice 0 r buf,
  )

  pub length-copy_out :
      (n : ℕ)
      → n ≤ get_use_size end f r
      → length (copy_out buf f (get_direct_use_size end f r) n) ≡ n
  unfolding get_use_size get_direct_use_size copy_out
  length-copy_out n h = ground (
    arith,
    length-slice f n buf,
    length-append (slice f (end - f) buf) (slice 0 (n - (end - f)) buf),
    length-slice f (end - f) buf,
    length-slice 0 (n - (end - f)) buf,
  )

  -- What Dequeue copies out stands at the head, and the rest is what it leaves.
  pub window-copy_out :
      (n : ℕ)
      → n ≤ get_use_size end f r
      → window buf end f r
        ≡ copy_out buf f (get_direct_use_size end f r) n ++ window buf end (advance end f n) r
  unfolding get_use_size get_direct_use_size copy_out advance
  window-copy_out n h = ground (
    arith,
    split_at buf f n (r - f),
    split_at buf f n (end - f),
    split_at buf 0 (n - (end - f)) r,
    append_assoc (slice f n buf) (slice (f + n) (end - f - n) buf) (slice 0 r buf),
    append_assoc (slice f (end - f) buf) (slice 0 (n - (end - f)) buf)
        (slice (n - (end - f)) (r - (n - (end - f))) buf),
  )

  -- The store in two parts, when the run before the end of the array is too short.
  window-copy_in_round :
      (src : List ℕ)
      → f ≤ r
      → end - r < length src
      → length src ≤ (end - r) + f - 1
      → let d = end - r in
        let ys = drop d src in
        window (blit 0 (take (length src - d) ys) (blit r (take d src) buf)) end f (length src - d)
        ≡ slice f (r - f) buf ++ src
  window-copy_in_round src hfr long h = ground (
    arith,
    length-take d src,
    length-drop d src,
    length-blit r xs buf,
    take_all (length src - d) ys,
    take-append-drop d src,
    slice-blit_above f (end - f) 0 ys (blit r xs buf),
    slice-blit_end buf xs f r (end - f),
    slice-blit 0 ys (blit r xs buf),
    append_assoc (slice f (r - f) buf) xs ys,
  )
    where
      d : ℕ
      d = end - r

      xs : List ℕ
      xs = take d src

      ys : List ℕ
      ys = drop d src

  -- The store in one run.
  window-copy_in_run :
      (src : List ℕ)
      → length src ≤ get_direct_free_size end f r
      → window (blit r src buf) end f (advance end r (length src)) ≡ window buf end f r ++ src
  unfolding get_direct_free_size advance
  window-copy_in_run src h = ground (
    arith,
    slice-blit_end buf src f r (r - f + length src),
    slice-blit_end buf src 0 r (r + length src),
    slice-blit_above f (end - f) r src buf,
    append-nil (slice f (end - f) (blit r src buf)),
    append_assoc (slice f (end - f) buf) (slice 0 r buf) src,
  )

  ordered_window : f ≤ r → slice f (r - f) buf ≡ window buf end f r
  ordered_window h = ground arith

  -- What Enqueue copies in stands at the end, behind what was stored.
  pub window-copy_in :
      (src : List ℕ)
      → length src ≤ get_free_size end f r
      → window
          (copy_in buf r (get_direct_free_size end f r) (length src) src)
          end
          f
          (advance end r (length src))
        ≡ window buf end f r ++ src
  unfolding copy_in
  window-copy_in src h = elim (Bool-cases (leb (length src) (get_direct_free_size end f r))) [
    | inl short ↦
        rw (short, take_all (length src) src (omega arith))
          (window-copy_in_run src (leb→le _ _ short))
    | inr long ↦
        let (ordered, direct, over, room, rear) =
          direct_free-lt end f r hf hr (length src) h long in
        rw (long, direct, rear)
          (window-copy_in_round src ordered over room ∙ ap (λ k. k ++ src) (ordered_window ordered))
  ]
