-- ===== src/Base/Lists.antt =====
-- Lists measured and cut by native numbers, under the library's names: a C array is a list of its
-- cells, and a run of `n` cells from index `i` is `slice i n`.
use Prim.Native.Nat.{ℕ, zero, suc, ◌+◌, ◌-◌, ◌≤◌, min}
use mathlib.Core.Path.{◌≡◌, refl, ap, sym, ◌∙◌}
use mathlib.Core.List.{List, [], ◌∷◌, ◌++◌}
use mathlib.Core.Option.{Option, none, some}
use native.Mathlib.Omega.{arith}

module _ {ℓ} {A : Type ℓ} where
  abbrev pub length : List A → ℕ
  length [] = 0
  length (x ∷ xs) = suc (length xs)

  abbrev pub get_elem? : List A → ℕ → Option A
  get_elem? [] i = none
  get_elem? (x ∷ xs) zero = some x
  get_elem? (x ∷ xs) (suc i) = get_elem? xs i

  abbrev pub take : ℕ → List A → List A
  take zero xs = []
  take (suc n) [] = []
  take (suc n) (x ∷ xs) = x ∷ take n xs

  abbrev pub drop : ℕ → List A → List A
  drop zero xs = xs
  drop (suc n) [] = []
  drop (suc n) (x ∷ xs) = drop n xs

  abbrev pub replicate : ℕ → A → List A
  replicate zero a = []
  replicate (suc n) a = a ∷ replicate n a

  -- The store of a run of cells from index `i` on: `*(p++) = *(src++)`, or `memcpy`.
  -- What would fall past the end of the array is not stored.
  abbrev pub blit : ℕ → List A → List A → List A
  blit i xs [] = []
  blit zero [] (b ∷ buf) = b ∷ buf
  blit zero (x ∷ xs) (b ∷ buf) = x ∷ blit zero xs buf
  blit (suc i) xs (b ∷ buf) = b ∷ blit i xs buf

  -- The load of `n` cells from index `i` on.
  abbrev pub slice : ℕ → ℕ → List A → List A
  slice i n buf = take n (drop i buf)

module _ {ℓ} {A : Type ℓ} where
  pub length-append : (xs ys : List A) → length (xs ++ ys) ≡ length xs + length ys
  length-append [] ys = omega arith
  length-append (x ∷ xs) ys = omega (arith, length-append xs ys)

  pub length-take : (n : ℕ) (xs : List A) → length (take n xs) ≡ min n (length xs)
  length-take zero xs = omega arith
  length-take (suc n) [] = omega arith
  length-take (suc n) (x ∷ xs) = omega (arith, length-take n xs)

  pub length-drop : (n : ℕ) (xs : List A) → length (drop n xs) ≡ length xs - n
  length-drop zero xs = omega arith
  length-drop (suc n) [] = omega arith
  length-drop (suc n) (x ∷ xs) = omega (arith, length-drop n xs)

  pub length-replicate : (n : ℕ) (a : A) → length (replicate n a) ≡ n
  length-replicate zero a = refl
  length-replicate (suc n) a = ap suc (length-replicate n a)

  pub length-blit : (i : ℕ) (xs buf : List A) → length (blit i xs buf) ≡ length buf
  length-blit i xs [] = refl
  length-blit zero [] (b ∷ buf) = refl
  length-blit zero (x ∷ xs) (b ∷ buf) = ap suc (length-blit zero xs buf)
  length-blit (suc i) xs (b ∷ buf) = ap suc (length-blit i xs buf)

  pub take_all : (n : ℕ) (xs : List A) → length xs ≤ n → take n xs ≡ xs
  take_all zero [] h = refl
  take_all zero (x ∷ xs) h = absurd (omega arith)
  take_all (suc n) [] h = refl
  take_all (suc n) (x ∷ xs) h = ap (◌∷◌ x) (take_all n xs (omega arith))

  pub take-nil : (n : ℕ) → take {A = A} n [] ≡ []
  take-nil zero = refl
  take-nil (suc n) = refl

  pub drop-nil : (n : ℕ) → drop {A = A} n [] ≡ []
  drop-nil zero = refl
  drop-nil (suc n) = refl

  pub take-append-drop : (n : ℕ) (xs : List A) → take n xs ++ drop n xs ≡ xs
  take-append-drop zero xs = refl
  take-append-drop (suc n) [] = refl
  take-append-drop (suc n) (x ∷ xs) = ap (◌∷◌ x) (take-append-drop n xs)

  pub take-append : (xs ys : List A) → take (length xs) (xs ++ ys) ≡ xs
  take-append [] ys = refl
  take-append (x ∷ xs) ys = ap (◌∷◌ x) (take-append xs ys)

  pub drop-append : (xs ys : List A) → drop (length xs) (xs ++ ys) ≡ ys
  drop-append [] ys = refl
  drop-append (x ∷ xs) ys = drop-append xs ys

module _ {ℓ} {A : Type ℓ} where
  pub length-slice : (i n : ℕ) (buf : List A) → i + n ≤ length buf → length (slice i n buf) ≡ n
  length-slice i n buf h = omega (arith, length-take n (drop i buf), length-drop i buf)

  take-slice-zero : (n m : ℕ) (buf : List A) → n ≤ m → take n (take m buf) ≡ take n buf
  take-slice-zero zero m buf h = refl
  take-slice-zero (suc n) zero buf h = absurd (omega arith)
  take-slice-zero (suc n) (suc m) [] h = refl
  take-slice-zero (suc n) (suc m) (b ∷ buf) h = ap (◌∷◌ b) (take-slice-zero n m buf (omega arith))

  pub take-slice : (i n m : ℕ) (buf : List A) → n ≤ m → take n (slice i m buf) ≡ slice i n buf
  take-slice i n m buf h = take-slice-zero n m (drop i buf) h

  drop-slice-zero : (n k : ℕ) (buf : List A) → drop n (take (n + k) buf) ≡ take k (drop n buf)
  drop-slice-zero zero k buf = ap (λ m. take m buf) (omega arith)
  drop-slice-zero (suc n) k [] = rw (take-nil (suc n + k), take-nil k)
  drop-slice-zero (suc n) k (b ∷ buf) =
      let e : suc n + k ≡ suc (n + k) = omega arith in rw e (drop-slice-zero n k buf)

  pub drop-drop : (i n : ℕ) (buf : List A) → drop n (drop i buf) ≡ drop (i + n) buf
  drop-drop zero n buf = ap (λ m. drop m buf) (omega arith)
  drop-drop (suc i) n [] = rw (drop-nil n, drop-nil (suc i + n))
  drop-drop (suc i) n (b ∷ buf) =
      let e : suc i + n ≡ suc (i + n) = omega arith in rw e (drop-drop i n buf)

  pub drop-slice : (i n k : ℕ) (buf : List A) → drop n (slice i (n + k) buf) ≡ slice (i + n) k buf
  drop-slice i n k buf = rw (drop-slice-zero n k (drop i buf), drop-drop i n buf)

  -- Two runs that touch make one run.
  pub slice-append :
      (i n k : ℕ) (buf : List A) → slice i (n + k) buf ≡ slice i n buf ++ slice (i + n) k buf
  slice-append i n k buf = rw (
    ← take-slice i n (n + k) buf (omega arith),
    ← drop-slice i n k buf,
    take-append-drop n (slice i (n + k) buf),
  )

module _ {ℓ} {A : Type ℓ} where
  -- A store is read back, ...
  pub slice-blit :
      (i : ℕ) (xs buf : List A)
      → i + length xs ≤ length buf
      → slice i (length xs) (blit i xs buf) ≡ xs
  slice-blit i [] [] h = refl
  slice-blit i (x ∷ xs) [] h = absurd (omega arith)
  slice-blit zero [] (b ∷ buf) h = refl
  slice-blit zero (x ∷ xs) (b ∷ buf) h = ap (◌∷◌ x) (slice-blit zero xs buf (omega arith))
  slice-blit (suc i) xs (b ∷ buf) h = slice-blit i xs buf (omega arith)

  -- ... and the cells below it and above it stay.
  pub slice-blit_below :
      (i n j : ℕ) (xs buf : List A) → i + n ≤ j → slice i n (blit j xs buf) ≡ slice i n buf
  slice-blit_below i n j xs [] h = refl
  slice-blit_below zero zero j xs (b ∷ buf) h = refl
  slice-blit_below zero (suc n) zero xs (b ∷ buf) h = absurd (omega arith)
  slice-blit_below zero (suc n) (suc j) xs (b ∷ buf) h =
      ap (◌∷◌ b) (slice-blit_below zero n j xs buf (omega arith))
  slice-blit_below (suc i) n zero xs (b ∷ buf) h = absurd (omega arith)
  slice-blit_below (suc i) n (suc j) xs (b ∷ buf) h = slice-blit_below i n j xs buf (omega arith)

  pub slice-blit_above :
      (i n j : ℕ) (xs buf : List A) → j + length xs ≤ i → slice i n (blit j xs buf) ≡ slice i n buf
  slice-blit_above i n j xs [] h = refl
  slice-blit_above zero n zero [] (b ∷ buf) h = refl
  slice-blit_above zero n zero (x ∷ xs) (b ∷ buf) h = absurd (omega arith)
  slice-blit_above zero n (suc j) xs (b ∷ buf) h = absurd (omega arith)
  slice-blit_above (suc i) n zero [] (b ∷ buf) h = refl
  slice-blit_above (suc i) n zero (x ∷ xs) (b ∷ buf) h =
      slice-blit_above i n zero xs buf (omega arith)
  slice-blit_above (suc i) n (suc j) xs (b ∷ buf) h = slice-blit_above i n j xs buf (omega arith)

module _ {ℓ} {A : Type ℓ} where
  pub take-append_of_length : (n : ℕ) (xs ys : List A) → length xs ≡ n → take n (xs ++ ys) ≡ xs
  take-append_of_length n xs ys e = ap (λ k. take k (xs ++ ys)) (sym e) ∙ take-append xs ys

  pub drop-append_of_length : (n : ℕ) (xs ys : List A) → length xs ≡ n → drop n (xs ++ ys) ≡ ys
  drop-append_of_length n xs ys e = ap (λ k. drop k (xs ++ ys)) (sym e) ∙ drop-append xs ys

  pub take-append_le : (n : ℕ) (xs ys : List A) → n ≤ length xs → take n (xs ++ ys) ≡ take n xs
  take-append_le zero xs ys h = refl
  take-append_le (suc n) [] ys h = absurd (omega arith)
  take-append_le (suc n) (x ∷ xs) ys h = ap (◌∷◌ x) (take-append_le n xs ys (omega arith))

  pub drop-append_le :
      (n : ℕ) (xs ys : List A) → n ≤ length xs → drop n (xs ++ ys) ≡ drop n xs ++ ys
  drop-append_le zero xs ys h = refl
  drop-append_le (suc n) [] ys h = absurd (omega arith)
  drop-append_le (suc n) (x ∷ xs) ys h = drop-append_le n xs ys (omega arith)
