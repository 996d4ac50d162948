-- ===== src/Auth.antt =====
-- The login of FieldServer/FieldServer.cpp: the authentication thread is in Auth.Thread, and here are the
-- checks of a client's strings before they go into a query, escapeSqlString and isValidId. A C string
-- is the list of its characters and the '\0' behind them; the C library's isalnum is a parameter.
pub mod Escape
pub mod Thread
mod Tests
use my_mmoproject.Base.{
  ℕ, ◌+◌, Bool, true, false, ◌||◌, not, List, [], ◌∷◌, ltb, ◌==◌, if◌then◌else◌,
}

-- '\0', '\'' and '\\'
abbrev pub nul : ℕ
nul = 0

abbrev pub quote : ℕ
quote = 39

abbrev pub backslash : ℕ
backslash = 92

abbrev pub is_special : ℕ → Bool
is_special c = (c == quote) || (c == backslash)

-- The loop of escapeSqlString with `out_idx` characters written: what it writes from there on, without
-- the '\0' at the end.
unfoldable pub escape_loop : ℕ → ℕ → List ℕ → List ℕ
escape_loop output_size out_idx [] = []
escape_loop output_size out_idx (c ∷ cs) =
    let after_special = escape_loop output_size (out_idx + 2) cs in
    let after_plain = escape_loop output_size (out_idx + 1) cs in
    if c == nul
    then []
    else if ltb (out_idx + 2) output_size
    then (if is_special c then backslash ∷ c ∷ after_special else c ∷ after_plain)
    else []

unfoldable pub escape_sql_string : List ℕ → ℕ → List ℕ
escape_sql_string input output_size = escape_loop output_size 0 input

-- The loop of isValidId, up to the '\0'.
unfoldable pub all_alnum : (ℕ → Bool) → List ℕ → Bool
all_alnum isalnum [] = true
all_alnum isalnum (c ∷ cs) =
    let rest = all_alnum isalnum cs in
    if c == nul then true else if not (isalnum c) then false else rest

unfoldable pub is_valid_id : (ℕ → Bool) → List ℕ → Bool
is_valid_id isalnum [] = false
is_valid_id isalnum (c ∷ cs) = if c == nul then false else all_alnum isalnum (c ∷ cs)
