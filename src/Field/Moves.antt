-- ===== src/Field/Moves.antt =====
-- MOVE_START and MOVE_STOP (handleMoveStart, handleMoveStop): the budget `mSyncCnt` by which a client
-- may be away from where the server sees it.
use my_mmoproject.Base.{ℕ, ◌≤◌, ◌≡◌, ◌⊎◌, true, some}
use my_mmoproject.Fault.{Result, ok, err}
use my_mmoproject.Sector.{Sector}
use my_mmoproject.Message.{Message}
use my_mmoproject.Actor.{Platform}
use my_mmoproject.Player.{Player}
use my_mmoproject.Packet.{Packet}
use my_mmoproject.Field.{Field, find, player_key, elem}
use my_mmoproject.Field.Handlers.{sink_maxcount}

module _ (pl : Platform) where
  open pl use {F}

  -- The player of the session is in the field with a budget that is not used up, or the session is
  -- disconnected.
  abbrev pub IsTrusted : ℕ → Field pl → Type 0
  IsTrusted session f =
      (p : Player F) × (find (player_key pl) session f.players ≡ some p)
      × (p.seq_id ≡ session)
      × ((p.sync_cnt ≤ sink_maxcount) ⊎ (elem session f.disconnects ≡ true))

  -- A call that does not stop the process leads to such a field.
  abbrev pub LeadsTo : ℕ → Result (Field pl) → Type 0
  LeadsTo session (ok f) = IsTrusted session f
  LeadsTo session (err e) = Unit

  module _ (f : Field pl) (p : Player F)
      (here : find (player_key pl) p.seq_id f.players ≡ some p) where
    -- The budget is not used up, or the session is disconnected.
    abbrev Fine : ℕ → Type 0
    Fine n = (n ≤ sink_maxcount) ⊎ (elem p.seq_id f.disconnects ≡ true)
