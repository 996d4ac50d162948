-- ===== src/Auth/Escape.antt =====
-- An escaped string stays inside its quotes and inside its buffer.
use my_mmoproject.Base.{
  ℕ, ◌+◌, ◌*◌, ◌<◌, ◌≡◌, refl, Bool, true, false, List, [], ◌∷◌, ◌++◌, Option, none, some, ◌==◌,
  if◌then◌else◌, length, arith,
}
use my_mmoproject.Auth.{nul, quote, backslash, escape_loop, escape_sql_string}

-- How SQL reads a string literal behind its opening quote: the value, and what follows the closing
-- quote; a backslash takes the next character as it is.
abbrev pub prefix_value : ℕ → Option (List ℕ × List ℕ) → Option (List ℕ × List ℕ)
prefix_value c none = none
prefix_value c (some (value, rest)) = some (c ∷ value, rest)

abbrev pub read_literal : Bool → List ℕ → Option (List ℕ × List ℕ)
read_literal escaped [] = none
read_literal true (c ∷ cs) = prefix_value c (read_literal false cs)
read_literal false (c ∷ cs) =
    let closed = some ([], cs) in
    let next = read_literal true cs in
    let more = prefix_value c (read_literal false cs) in
    if c == quote then closed else if c == backslash then next else more

-- A C string's characters.
abbrev pub HasNoNul : List ℕ → Type 0
HasNoNul [] = Unit
HasNoNul (c ∷ cs) = (0 < c) × HasNoNul cs

loop_literal :
    (size idx : ℕ) (cs tail rest : List ℕ)
    → HasNoNul cs
    → idx + 2 * length cs < size
    → read_literal false (escape_loop size idx (cs ++ (nul ∷ tail)) ++ (quote ∷ rest))
      ≡ some (cs, rest)
unfolding escape_loop
loop_literal size idx [] tail rest h room = refl
loop_literal size idx (c ∷ cs) tail rest (lo, h) room =
    ground (
      arith,
      loop_literal size (idx + 2) cs tail rest h,
      loop_literal size (idx + 1) cs tail rest h,
    )

-- The '\0' of the output is inside the buffer, too.
loop_room :
    (size idx : ℕ) (cs : List ℕ) → idx < size → idx + length (escape_loop size idx cs) < size
unfolding escape_loop
loop_room size idx [] h = omega arith
loop_room size idx (c ∷ cs) h =
    ground (arith, loop_room size (idx + 2) cs, loop_room size (idx + 1) cs)

-- An escaped string with its '\0' never leaves its buffer, however long the input is; and if the buffer
-- has more than twice the string's length, SQL reads it between quotes as exactly the string, whatever
-- the string holds, and goes on behind the closing quote.
pub escape_sql_string_lem :
    (input tail rest : List ℕ) (output_size : ℕ)
    → HasNoNul input
    → 0 < output_size
    → (length (escape_sql_string (input ++ (nul ∷ tail)) output_size) < output_size)
      × (2 * length input < output_size
          → read_literal false
              (escape_sql_string (input ++ (nul ∷ tail)) output_size ++ (quote ∷ rest))
            ≡ some (input, rest))
unfolding escape_sql_string
escape_sql_string_lem input tail rest output_size h room = (
  omega (arith, loop_room output_size 0 (input ++ (nul ∷ tail)) room),
  λ enough. loop_literal output_size 0 input tail rest h (omega arith),
)
