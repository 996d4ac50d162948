-- ===== src/Field/Leave/Gone.antt =====
-- What becomes of a player whose connection is gone: his position is saved once, and the answer takes
-- him out of the field.
use my_mmoproject.Base.{
  ℕ, ◌+◌, ◌*◌, ◌≤◌, ◌≡◌, refl, sym, ap, ◌∙◌, true, false, [], ◌∷◌, ◌++◌, none, some, leb, length,
  arith,
}
use my_mmoproject.Fault.{ok}
use my_mmoproject.Ring.{ringbuffer_size}
use my_mmoproject.Ring.Geometry.{get_free_size}
use my_mmoproject.Sector.{Sector}
use my_mmoproject.Sector.Diff.{sector_eq_refl}
use my_mmoproject.Actor.{Platform}
use my_mmoproject.Player.{Player}
use my_mmoproject.Field.{
  Field, player_disconnected, find, player_key, elem, erase, at_sector, remove_at,
}
use my_mmoproject.Field.Loot.{find-remove_at}
use my_mmoproject.Field.Find.{key-find}
use my_mmoproject.Field.Leave.{db_result, position_saved, finish_save, notify}
use my_mmoproject.Field.Update.Passes.Held.{remove-IsHeld}
use my_mmoproject.Field.Update.Passes.Placed.{player_in}
use my_mmoproject.Field.Update.Frame.Ready.{IsReady}

module _ (pl : Platform) (f : Field pl) (p : Player pl.F) where
  -- The field without the player, and with the notice of his account.
  abbrev pub without : Field pl
  without = record f {
    players = remove_at (player_key pl) p.seq_id f.players;
    sectors = at_sector f.sectors p.current_sector (erase p.seq_id (f.sectors p.current_sector));
    notifies = f.notifies ++ (player_disconnected p.account_no ∷ []);
  }

  -- The answer to a saved position, on a field where players and monsters stand where the sectors say and
  -- with room for a notice: the player is in the field and in every sector no more, the account's
  -- notice waits for the authentication thread, the field is such a field again, and no session is
  -- sent anything, so no client hears that the character is gone.
  pub position_saved-IsReady :
      (id : ℕ)
      → IsReady pl f
      → find (player_key pl) id f.players ≡ some p
      → length f.notifies + 1 ≤ 3749
      → (db_result pl (position_saved id) f ≡ ok without)
        × (find (player_key pl) id without.players ≡ none)
        × ((s : Sector) → elem id (without.sectors s) ≡ false)
        × (without.posts ≡ f.posts)
        × IsReady pl without
  unfolding db_result finish_save notify get_free_size
  position_saved-IsReady id ready here fits =
      let key : p.seq_id ≡ id = key-find (player_key pl) id f.players here in
      let own : find (player_key pl) p.seq_id f.players ≡ some p =
        ap (λ k. find (player_key pl) k f.players) key ∙ here in
      let room : leb 8 (get_free_size ringbuffer_size 0 (8 * length f.notifies)) ≡ true =
        ground arith in
      let held : elem p.seq_id (f.sectors p.current_sector) ≡ true =
        ready.placed.players_held.held p.seq_id p.current_sector
        ∙ ap (player_in pl p.current_sector) own
        ∙ sector_eq_refl p.current_sector in
      let left =
        remove-IsHeld (player_key pl) (λ (q : Player pl.F). q.current_sector)
          (λ (q : Player pl.F). q.dest_sector) f.players f.sectors ready.placed.players_held p
          own in
      let gone : find (player_key pl) id without.players ≡ none =
        ap (λ k. find (player_key pl) k without.players) (sym key)
        ∙ find-remove_at (player_key pl) p.seq_id f.players in
      (
        rw (here, room, held) refl,
        gone,
        (λ s. left.held id s ∙ ap (player_in pl s) gone),
        refl,
        record {
          placed = record { players_held = left; cached = ready.placed.cached };
          monsters_held = ready.monsters_held;
          items_placed = ready.items_placed;
        },
      )
