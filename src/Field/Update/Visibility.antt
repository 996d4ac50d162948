-- ===== src/Field/Update/Visibility.antt =====
-- What a player who changes his sector is told of the sectors that he comes near to and leaves: the
-- spawn batches as packets (Batch has their messages) and the despawns.
use my_mmoproject.Base.{ℕ, zero, suc, ◌≡◌, refl, ap₂, List, [], ◌∷◌, ◌++◌, length, take, drop, map}
use my_mmoproject.Message.{Message}
use my_mmoproject.Sector.{Sector}
use my_mmoproject.Actor.{Platform}
use my_mmoproject.Monster.{Monster}
use my_mmoproject.Player.{Player}
use my_mmoproject.Packet.{
  Packet, other_character_spawn_batch, monster_spawn_batch, item_spawn_batch, character_despawn,
  monster_despawn, item_despawn, character_record_size, monster_record_size, item_record_size,
}
use my_mmoproject.Packet.Wire.{frame}
use my_mmoproject.Batch.{max_batch}
use my_mmoproject.Batch.Chunks.{batches}
use my_mmoproject.Field.{Field, post, resolve, item_key}
use my_mmoproject.Field.Broadcast.{
  is_player, same_character, character_spawn, monster_spawn_of, item_spawn_of, heard_in,
}
use my_mmoproject.Field.Report.{monster_key}

-- The packets of a spawn batch: at most `most` records in each.
unfoldable pub packets : {A : Type 0} → (List A → Packet) → ℕ → ℕ → List A → List Packet
packets packet most zero rs = []
packets packet most (suc n) [] = []
packets packet most (suc n) (a ∷ rs) =
    packet (take most (a ∷ rs)) ∷ packets packet most n (drop most (a ∷ rs))

written_bytes : Message → List ℕ
written_bytes m = m.written

-- They are what the messages of a batch function hold.
batches-packets :
    {A : Type 0} (clock : ℕ → ℕ) (session : ℕ) (packet : List A → Packet) (most n : ℕ) (rs : List A)
    → map written_bytes (batches clock session packet most n rs)
      ≡ map frame (packets packet most n rs)
unfolding batches packets written_bytes
batches-packets clock session packet most zero rs = refl
batches-packets clock session packet most (suc n) [] = refl
batches-packets clock session packet most (suc n) (a ∷ rs) =
    ap₂ ◌∷◌ refl (batches-packets clock session packet most n (drop most (a ∷ rs)))

module _ (pl : Platform) where
  open pl use {F}

  unfoldable pub post_all : ℕ → List Packet → Field pl → Field pl
  post_all session [] f = f
  post_all session (packet ∷ rest) f = post_all session rest (post pl f session packet)

  -- A sector's objects, one sector after another.
  abbrev pub gather {ℓ} : {A : Type ℓ} → (Sector → List A) → List Sector → List A
  gather here [] = []
  gather here (s ∷ near) = here s ++ gather here near

  abbrev pub monsters_near : Field pl → List Sector → List (Monster F)
  monsters_near f = gather (λ s. resolve (monster_key pl) f.monsters (f.monster_sectors s))

  unfoldable pub tell_spawn_batch : Player F → List Sector → Field pl → Field pl
  tell_spawn_batch p near f =
      let records =
        map (character_spawn pl) (heard_in pl (is_player pl p) near f.players f.sectors) in
      post_all p.seq_id
        (packets other_character_spawn_batch (max_batch character_record_size) (length records)
          records)
        f

  unfoldable pub tell_monster_spawn_batch : Player F → List Sector → Field pl → Field pl
  tell_monster_spawn_batch p near f =
      let records = map (monster_spawn_of pl) (monsters_near f near) in
      post_all p.seq_id
        (packets monster_spawn_batch (max_batch monster_record_size) (length records) records) f

  unfoldable pub tell_item_spawn_batch : Player F → List Sector → Field pl → Field pl
  tell_item_spawn_batch p near f =
      let records =
        map (item_spawn_of pl)
          (gather (λ s. resolve (item_key pl) f.items (f.item_sectors s)) near) in
      post_all p.seq_id
        (packets item_spawn_batch (max_batch item_record_size) (length records) records) f

  -- sendDespawnBatch, sendMonsterDespawnBatch and sendItemDespawnBatch: one message for each.
  unfoldable pub send_despawn_batch : Player F → List Sector → Field pl → Field pl
  send_despawn_batch p near f =
      post_all p.seq_id
        (map (λ (q : Player F). character_despawn q.character_id)
          (heard_in pl (same_character pl p) near f.players f.sectors))
        f

  unfoldable pub send_monster_despawn_batch : Player F → List Sector → Field pl → Field pl
  send_monster_despawn_batch p near f =
      post_all p.seq_id
        (map (λ (m : Monster F). monster_despawn m.monster_id) (monsters_near f near)) f

  unfoldable pub send_item_despawn_batch : Player F → List Sector → Field pl → Field pl
  send_item_despawn_batch p near f =
      post_all p.seq_id (map item_despawn (gather (λ s. f.item_sectors s) near)) f

  -- Posting changes the posts only.
  pub post_all_lem :
      (session : ℕ) (ps : List Packet) (f : Field pl)
      → (later : List (ℕ × Packet)) × (post_all session ps f ≡ record f { posts = later })
  unfolding post_all
  post_all_lem session [] f = (f.posts, refl)
  post_all_lem session (packet ∷ rest) f = post_all_lem session rest (post pl f session packet)
