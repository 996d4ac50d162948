-- ===== src/Client/Scene/Reads.antt =====
-- The client reads a packet as the server has written it.
use my_mmoproject.Base.{
  ◌+◌, ◌≤◌, ◌≡◌, refl, sym, ap, ◌∙◌, List, [], ◌∷◌, ◌++◌, length, drop, arith, append-nil,
}
use my_mmoproject.Fault.{Result, ok, err, debug_break}
use my_mmoproject.Message.{Message, buffer_size}
use my_mmoproject.Message.Fields.{Field, AllFit, encode, unread}
use my_mmoproject.Packet.{
  Packet, CharacterSpawn, MonsterSpawn, ItemSpawn, field_auth_fail, field_auth_res,
  other_character_spawn, other_character_spawn_batch, character_despawn, move_start, move_stop,
  monster_spawn, monster_spawn_batch, monster_despawn, monster_move_start, monster_move_stop,
  other_character_attack, monster_damaged, monster_attack, character_damaged, item_spawn,
  item_spawn_batch, item_despawn, loot_res, ranking_res, payload, header_len, header_size,
  type_code, each, int64, character_fields, monster_fields, item_fields, rank_fields,
}
use my_mmoproject.Packet.Wire.{body}
use my_mmoproject.Client.World.{World, spawn_character, spawn_monster_actor, spawn_item_actor}
use my_mmoproject.Client.Scene.{
  packet_proc, switch_scene, loop_count, character_sizes, monster_sizes, item_sizes, character_read,
  monster_read, item_read, character_despawned, character_move_started, character_move_stopped,
  character_attacked, monster_move_started, monster_move_stopped, monster_damaged_to,
  monster_attacked, character_damaged_to, monster_despawned, item_despawned, on_character_despawn,
  on_character_move_start, on_character_move_stop, on_other_character_attack, on_monster_move_start,
  on_monster_move_stop, on_monster_damaged, on_monster_attack, on_character_damaged,
  on_monster_despawn, on_item_despawn, on_loot_res, on_ranking_res,
}
use my_mmoproject.Client.Scene.Chains.{
  encode-append, loop_reads, AllFit-append, IsInside, read_one, reads, in_turn, nothing_said,
  spawn_reads, batch_reads,
}

abbrev character : World → CharacterSpawn → Result World
character w r =
    spawn_character w r.character_id r.x r.y r.state r.direction r.speed r.anim_frame
      r.character_type

abbrev monster : World → MonsterSpawn → Result World
monster w r =
    spawn_monster_actor w r.monster_id r.x r.y r.state r.direction r.hp r.monster_type r.anim_frame

abbrev item : World → ItemSpawn → Result World
item w r = spawn_item_actor w r.item_unique_id r.item_id r.x r.y

-- What a packet does to the client's world.
unfoldable pub apply : World → Packet → Result World
apply w (other_character_spawn r) = character w r
apply w (other_character_spawn_batch rs) = in_turn character rs w
apply w (character_despawn c) = ok (character_despawned w c)
apply w (move_start c x y d s) = character_move_started w c x y d s
apply w (move_stop c x y d) = character_move_stopped w c x y d
apply w (monster_spawn r) = monster w r
apply w (monster_spawn_batch rs) = in_turn monster rs w
apply w (monster_despawn m) = ok (monster_despawned w m)
apply w (monster_move_start m x y d s) = monster_move_started w m x y d s
apply w (monster_move_stop m x y d) = monster_move_stopped w m x y d
apply w (other_character_attack c) = character_attacked w c
apply w (monster_damaged m h x y d) = monster_damaged_to w m h x y d
apply w (monster_attack m) = monster_attacked w m
apply w (character_damaged c h x y d m) = character_damaged_to w c h x y d
apply w (item_spawn r) = item w r
apply w (item_spawn_batch rs) = in_turn item rs w
apply w (item_despawn i) = ok (item_despawned w i)
apply w (loot_res r i c) = ok w
apply w (ranking_res es r k) = ok w
apply w field_auth_fail = err debug_break
apply w (field_auth_res c x y) = err debug_break

switched :
    (w : World) (m : Message) (p : Packet)
    → header_size + header_len p ≤ buffer_size
    → AllFit (payload p)
    → IsInside m
    → unread m ≡ encode (payload p)
    → switch_scene w m (type_code p) ≡ apply w p
unfolding switch_scene apply payload header_len on_character_despawn on_character_move_start
    on_character_move_stop on_other_character_attack on_monster_move_start on_monster_move_stop
    on_monster_damaged on_monster_attack on_character_damaged on_monster_despawn on_item_despawn
    on_loot_res on_ranking_res
switched w m (other_character_spawn r) h fit i u =
    spawn_reads character_fields character_sizes character_read character (λ a. refl) (λ w' a. refl)
      w m r fit i u
switched w m (other_character_spawn_batch rs) h fit i u =
    batch_reads character_fields character_sizes character_read character (λ a. refl) (λ w' a. refl)
      w m rs (omega arith) fit i u
switched w m (monster_spawn r) h fit i u =
    spawn_reads monster_fields monster_sizes monster_read monster (λ a. refl) (λ w' a. refl) w m r
      fit i u
switched w m (monster_spawn_batch rs) h fit i u =
    batch_reads monster_fields monster_sizes monster_read monster (λ a. refl) (λ w' a. refl) w m rs
      (omega arith) fit i u
switched w m (item_spawn r) h fit i u =
    spawn_reads item_fields item_sizes item_read item (λ a. refl) (λ w' a. refl) w m r fit i u
switched w m (item_spawn_batch rs) h fit i u =
    batch_reads item_fields item_sizes item_read item (λ a. refl) (λ w' a. refl) w m rs
      (omega arith) fit i u
switched w m (character_despawn c) h fit i u =
    let (m', done, i', u') = read_one m 8 c [] fit.0 i u in rw done refl
switched w m (monster_despawn c) h fit i u =
    let (m', done, i', u') = read_one m 8 c [] fit.0 i u in rw done refl
switched w m (item_despawn c) h fit i u =
    let (m', done, i', u') = read_one m 8 c [] fit.0 i u in rw done refl
switched w m (other_character_attack c) h fit i u =
    let (m', done, i', u') = read_one m 8 c [] fit.0 i u in rw done refl
switched w m (monster_attack c) h fit i u =
    let (m', done, i', u') = read_one m 8 c [] fit.0 i u in rw done refl
switched w m (move_start c x y d s) h fit i u =
    let (m', done, i', u') =
      reads m (payload (move_start c x y d s)) [] fit i (u ∙ sym (append-nil _)) in
    rw done refl
switched w m (move_stop c x y d) h fit i u =
    let (m', done, i', u') =
      reads m (payload (move_stop c x y d)) [] fit i (u ∙ sym (append-nil _)) in
    rw done refl
switched w m (monster_move_start c x y d s) h fit i u =
    let (m', done, i', u') =
      reads m (payload (monster_move_start c x y d s)) [] fit i (u ∙ sym (append-nil _)) in
    rw done refl
switched w m (monster_move_stop c x y d) h fit i u =
    let (m', done, i', u') =
      reads m (payload (monster_move_stop c x y d)) [] fit i (u ∙ sym (append-nil _)) in
    rw done refl
switched w m (monster_damaged c hp x y d) h fit i u =
    let (m', done, i', u') =
      reads m (payload (monster_damaged c hp x y d)) [] fit i (u ∙ sym (append-nil _)) in
    rw done refl
switched w m (character_damaged c hp x y d k) h fit i u =
    let (m', done, i', u') =
      reads m (payload (character_damaged c hp x y d k)) [] fit i (u ∙ sym (append-nil _)) in
    rw done refl
switched w m (loot_res r k c) h fit i u =
    let (m', done, i', u') = reads m (payload (loot_res r k c)) [] fit i (u ∙ sym (append-nil _)) in
    rw done refl
switched w m (ranking_res es r k) h fit i u =
    let after : List Field = int64 r ∷ int64 k ∷ [] in
    let (m1, counted, i1, u1) =
      read_one m 2 (length es) (encode (each rank_fields es ++ after)) fit.0 i u in
    let (fits, fit') = AllFit-append (each rank_fields es) after fit.1 in
    let (m2, i2, u2, looped) =
      loop_reads rank_fields (20 ∷ 8 ∷ []) (λ w' vs. ok w') (λ w' e. ok w') (λ e. refl)
        (λ w' e. refl) m1 es (encode after) fits i1
        (u1 ∙ encode-append (each rank_fields es) after) in
    let (m3, done, i3, u3) = reads m2 after [] fit' i2 (u2 ∙ sym (append-nil _)) in
    let n : loop_count (length es) ≡ length es = ground (arith, h) in
    rw (counted, n, looped w, nothing_said es w, done) refl
switched w m field_auth_fail h fit i u = refl
switched w m (field_auth_res c x y) h fit i u = refl

-- A message that holds a packet's type and fields does to the world what the packet says.
pub packet_proc-eq-apply :
    (w : World) (m : Message) (p : Packet)
    → header_size + header_len p ≤ buffer_size
    → AllFit (body p)
    → m.front ≡ 0
    → m.written ≡ encode (body p)
    → packet_proc w m ≡ apply w p
unfolding packet_proc
packet_proc-eq-apply w m p h fit fresh e =
    let start : unread m ≡ encode (body p) = ap (λ n. drop n m.written) fresh ∙ e in
    let (m', typed, i, u) =
      read_one m 2 (type_code p) (encode (payload p)) fit.0 (omega (arith, fresh)) start in
    rw typed (switched w m' p h fit.1 i u)
