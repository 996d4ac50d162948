-- ===== src/Auth/Tests.antt =====
-- A string that would close its literal, escaped.
use my_mmoproject.Base.{false, ◌*◌, ◌<◌, ◌≡◌, [], ◌∷◌, ◌++◌, some, length, arith}
use my_mmoproject.Auth.{escape_sql_string}
use my_mmoproject.Auth.Escape.{read_literal, escape_sql_string_lem}

escape_sql_string_example :
    (length (escape_sql_string (39 ∷ 59 ∷ 0 ∷ 7 ∷ []) 41) < 41)
    × (2 * 2 < 41
        → read_literal false (escape_sql_string (39 ∷ 59 ∷ 0 ∷ 7 ∷ []) 41 ++ (39 ∷ 41 ∷ []))
          ≡ some (39 ∷ 59 ∷ [], 41 ∷ []))
escape_sql_string_example =
    escape_sql_string_lem (39 ∷ 59 ∷ []) (7 ∷ []) (41 ∷ []) 41 (omega arith, (omega arith, tt))
      (omega arith)
