-- ===== src/Bytes.antt =====
-- The bytes of a fundamental type as `memcpy` moves them on a little-endian machine. A signed or a
-- floating-point value is its bit pattern, a number below 256 ^ (its size).
use native.Mathlib.Nat.{pow-suc}
use my_mmoproject.Base.{
  ℕ, zero, suc, ◌+◌, ◌*◌, ◌/◌, ◌%◌, ◌^◌, ◌<◌, ◌≡◌, refl, ap, List, [], ◌∷◌, length, arith,
}

unfoldable pub to_bytes : ℕ → ℕ → List ℕ
to_bytes zero v = []
to_bytes (suc n) v = v % 256 ∷ to_bytes n (v / 256)

unfoldable pub of_bytes : List ℕ → ℕ
of_bytes [] = 0
of_bytes (b ∷ bs) = b + 256 * of_bytes bs

pub length-to_bytes : (n v : ℕ) → length (to_bytes n v) ≡ n
unfolding to_bytes
length-to_bytes zero v = refl
length-to_bytes (suc n) v = ap suc (length-to_bytes n (v / 256))

-- A value that fits is read back.
pub of_bytes-to_bytes : (n v : ℕ) → v < 256 ^ n → of_bytes (to_bytes n v) ≡ v
unfolding to_bytes of_bytes
of_bytes-to_bytes zero v h = omega arith
of_bytes-to_bytes (suc n) v h =
    let small : v < 256 ^ n * 256 = rw (pow-suc 256 n) at h in
    omega (arith, of_bytes-to_bytes n (v / 256) (omega arith))
