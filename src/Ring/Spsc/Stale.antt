-- ===== src/Ring/Spsc/Stale.antt =====
-- What a thread decides on an offset that the other has moved since stays right, and what one byte of its
-- copy loop does.
use my_mmoproject.Base.{
  ℕ, suc, zero, ◌+◌, ◌-◌, ◌≤◌, ◌<◌, ◌≡◌, refl, sym, ap, ◌∙◌, List, [], ◌∷◌, ◌++◌, leb, length, take,
  drop, blit, slice, if◌then◌else◌, arith, take-append_of_length, drop-append_of_length,
  slice-blit_below, slice-blit_above, take_all,
}
use my_mmoproject.Ring.Geometry.{
  get_use_size, get_free_size, get_direct_use_size, get_direct_free_size, copy_in, copy_out,
  advance,
}
use my_mmoproject.Ring.Window.{window, length-copy_out, window-copy_out, window-copy_in}
use my_mmoproject.Ring.Spsc.{copy_position}

take-suc : (k : ℕ) (l : List ℕ) → take (suc k) l ≡ take k l ++ take 1 (drop k l)
take-suc zero l = refl
take-suc (suc k) [] = refl
take-suc (suc k) (x ∷ l) = ap (◌∷◌ x) (take-suc k l)

pub take_next : (k : ℕ) (l : List ℕ) → take (k + 1) l ≡ take k l ++ take 1 (drop k l)
take_next k l = ap (λ n. take n l) {y = suc k} (omega arith) ∙ take-suc k l

pub length-next : (k : ℕ) (l : List ℕ) → k < length l → length (take 1 (drop k l)) ≡ 1
length-next k [] h = absurd (omega arith)
length-next zero (x ∷ l) h = refl
length-next (suc k) (x ∷ l) h = length-next k l (omega arith)

module _ (buf : List ℕ) (end f r : ℕ) (hb : end ≤ length buf) (hf : f < end) (hr : r < end) where
  -- A decision taken on an older front offset stores each byte at the same place, ...
  pub store_position :
      (old n k : ℕ)
      → old < end
      → n ≤ get_free_size end old r
      → k < n
      → copy_position (get_direct_free_size end old r) n r k ≡ advance end r k
  unfolding get_free_size get_direct_free_size copy_position advance
  store_position old n k ho h lt = ground arith

  -- ... and one taken on an older rear offset loads it from the same place.
  pub load_position :
      (old n k : ℕ)
      → old < end
      → n ≤ get_use_size end f old
      → k < n
      → copy_position (get_direct_use_size end f old) n f k ≡ advance end f k
  unfolding get_use_size get_direct_use_size copy_position advance
  load_position old n k ho h lt = ground arith

  -- The store of a byte leaves the stored bytes alone.
  pub window-store_keep :
      (k : ℕ) (b : List ℕ)
      → k < get_free_size end f r
      → length b ≡ 1
      → window (blit (advance end r k) b buf) end f r ≡ window buf end f r
  unfolding get_free_size advance
  window-store_keep k b h one =
      let at = if leb end (r + k) then r + k - end else r + k in
      ground (
        arith,
        one,
        slice-blit_below f (r - f) at b buf,
        slice-blit_above f (r - f) at b buf,
        slice-blit_above f (end - f) at b buf,
        slice-blit_below 0 r at b buf,
      )

  single_store :
      (b : List ℕ)
      → 1 ≤ get_free_size end f r
      → length b ≡ 1
      → blit r b buf ≡ copy_in buf r (get_direct_free_size end f r) (length b) b
  unfolding copy_in get_direct_free_size get_free_size
  single_store b h one = ground (arith, one, h, take_all (length b) b)

  -- A byte stored at the rear stands behind the others.
  pub window-store :
      (b : List ℕ)
      → 1 ≤ get_free_size end f r
      → length b ≡ 1
      → window (blit r b buf) end f (advance end r 1) ≡ window buf end f r ++ b
  window-store b h one =
      ap (λ c. window c end f (advance end r 1)) (single_store b h one)
      ∙ ap
          (λ n.
            window (copy_in buf r (get_direct_free_size end f r) (length b) b) end f
              (advance end r n))
          (sym one)
      ∙ window-copy_in buf end f r hb hf hr b (omega arith)

  pub window-take :
      (n : ℕ)
      → n ≤ get_use_size end f r
      → (copy_out buf f (get_direct_use_size end f r) n ≡ take n (window buf end f r))
        × (window buf end (advance end f n) r ≡ drop n (window buf end f r))
  window-take n h =
      let stock = length-copy_out buf end f r hb hf hr n h in
      let cut = window-copy_out buf end f r hb hf hr n h in
      (
        sym (ap (take n) cut ∙ take-append_of_length n _ _ stock),
        sym (ap (drop n) cut ∙ drop-append_of_length n _ _ stock),
      )

  single_load :
      1 ≤ get_use_size end f r → slice f 1 buf ≡ copy_out buf f (get_direct_use_size end f r) 1
  unfolding copy_out get_direct_use_size get_use_size
  single_load h = ground (arith, h)

  -- The byte at the front is the oldest one.
  pub window-load : 1 ≤ get_use_size end f r → slice f 1 buf ≡ take 1 (window buf end f r)
  window-load h = single_load h ∙ (window-take 1 h).0

  pub advance_next :
      (k : ℕ) → k < get_free_size end f r → advance end (advance end r k) 1 ≡ advance end r (k + 1)
  unfolding get_free_size advance
  advance_next k h = ground arith
