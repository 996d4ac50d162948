-- ===== src/Packet/Layout.antt =====
-- The announced length of every packet is the number of bytes that follow its header.
use my_mmoproject.Base.{ℕ, ◌+◌, ◌*◌, ◌≡◌, refl, List, [], ◌∷◌, ◌++◌, length, arith}
use my_mmoproject.Message.Fields.{Field, total_size}
use my_mmoproject.Packet.{
  Packet, field_auth_fail, field_auth_res, other_character_spawn, other_character_spawn_batch,
  character_despawn, move_start, move_stop, monster_spawn, monster_spawn_batch, monster_despawn,
  monster_move_start, monster_move_stop, other_character_attack, monster_damaged, monster_attack,
  character_damaged, item_spawn, item_spawn_batch, item_despawn, loot_res, ranking_res, header_len,
  payload, each, int16, type_code, character_fields, monster_fields, item_fields, rank_fields,
}

total_size-append : (fs gs : List Field) → total_size (fs ++ gs) ≡ total_size fs + total_size gs
total_size-append [] gs = omega arith
total_size-append (f ∷ fs) gs = omega (arith, total_size-append fs gs)

total_size-each {ℓ} :
    {A : Type ℓ} (f : A → List Field) (n : ℕ) (rs : List A)
    → ((r : A) → total_size (f r) ≡ n)
    → total_size (each f rs) ≡ n * length rs
total_size-each f n [] h = omega arith
total_size-each f n (r ∷ rs) h =
    omega (arith, total_size-append (f r) (each f rs), h r, total_size-each f n rs h)

-- The Len of every packet's header is the size of its type and fields.
pub header_len-payload : (p : Packet) → header_len p ≡ total_size (int16 (type_code p) ∷ payload p)
unfolding header_len payload
header_len-payload (other_character_spawn_batch rs) =
    omega (arith, total_size-each character_fields 47 rs (λ r. refl))
header_len-payload (monster_spawn_batch rs) =
    omega (arith, total_size-each monster_fields 27 rs (λ r. refl))
header_len-payload (item_spawn_batch rs) =
    omega (arith, total_size-each item_fields 17 rs (λ r. refl))
header_len-payload (ranking_res es r k) = omega (
  arith,
  total_size-append (each rank_fields es) _,
  total_size-each rank_fields 28 es (λ r. refl),
)
header_len-payload field_auth_fail = refl
header_len-payload (field_auth_res c x y) = refl
header_len-payload (other_character_spawn r) = refl
header_len-payload (character_despawn c) = refl
header_len-payload (move_start c x y d s) = refl
header_len-payload (move_stop c x y d) = refl
header_len-payload (monster_spawn r) = refl
header_len-payload (monster_despawn m) = refl
header_len-payload (monster_move_start m x y d s) = refl
header_len-payload (monster_move_stop m x y d) = refl
header_len-payload (other_character_attack c) = refl
header_len-payload (monster_damaged m h x y d) = refl
header_len-payload (monster_attack m) = refl
header_len-payload (character_damaged c h x y d m) = refl
header_len-payload (item_spawn r) = refl
header_len-payload (item_despawn i) = refl
header_len-payload (loot_res r i c) = refl
