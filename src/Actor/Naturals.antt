-- ===== src/Actor/Naturals.antt =====
-- A machine whose floats are the natural numbers, for the runs on concrete inputs: subtraction stops at
-- 0, a negative constant is 0, and the root is the number itself.
use my_mmoproject.Base.{ℕ, suc, ◌+◌, ◌-◌, ◌*◌, ◌/◌, ◌%◌, ◌^◌, ltb, leb, ◌==◌}
use my_mmoproject.Base.Int.{ℤ, pos, negsuc}
use my_mmoproject.Actor.{Platform, Position}

abbrev pub natural_literal : ℤ → ℕ → ℕ
natural_literal (pos m) e = m / 10 ^ e
natural_literal (negsuc m) e = 0

abbrev pub naturals : Platform
naturals = record {
  F = ℕ;
  fadd = λ a b. a + b;
  fsub = λ a b. a - b;
  fmul = λ a b. a * b;
  fdiv = λ a b. a / b;
  fsqrt = λ a. a;
  flt = ltb;
  fle = leb;
  feq = λ a b. a == b;
  literal = natural_literal;
  of_int = λ n. n;
  to_int = pos;
  bits = λ n. n;
  of_bits = λ n. n;
  Seed = ℕ;
  rand = λ s. (s % 32768, suc s);
}

abbrev pub here : Position ℕ
here = record { x = 100; y = 100 }
