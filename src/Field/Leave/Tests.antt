-- ===== src/Field/Leave/Tests.antt =====
-- The busy field of Field/Update/Tests, and the answer to a saved position there.
use my_mmoproject.Base.{◌≡◌, refl, false, none, arith}
use my_mmoproject.Fault.{ok}
use my_mmoproject.Sector.{Sector}
use my_mmoproject.Field.{find, player_key, elem}
use my_mmoproject.Field.Tests.{make_player}
use my_mmoproject.Field.Update.Tests.{loaded, busy_field, busy_field-IsReady}
use my_mmoproject.Field.Update.Frame.Ready.{IsReady}
use my_mmoproject.Field.Leave.{db_result, position_saved}
use my_mmoproject.Field.Leave.Gone.{without, position_saved-IsReady}

position_saved-IsReady_example :
    (db_result loaded (position_saved 2) busy_field
      ≡ ok (without loaded busy_field (make_player 2)))
    × (find (player_key loaded) 2 (without loaded busy_field (make_player 2)).players ≡ none)
    × ((s : Sector) → elem 2 ((without loaded busy_field (make_player 2)).sectors s) ≡ false)
    × ((without loaded busy_field (make_player 2)).posts ≡ busy_field.posts)
    × IsReady loaded (without loaded busy_field (make_player 2))
position_saved-IsReady_example =
    position_saved-IsReady loaded busy_field (make_player 2) 2 busy_field-IsReady refl (omega arith)
