-- ===== src/Batch/Chunks.antt =====
-- A batch function posts the records in their order, cut into packets of at most maxBatch records,
-- each of which fits a message.
use my_mmoproject.Base.{
  ℕ, zero, suc, ◌-◌, ◌≤◌, ◌≡◌, refl, ap, ap₂, sym, ◌∙◌, false, List, [], ◌∷◌, ◌++◌, Option, none,
  some, ◌==◌, if◌then◌else◌, length, take, drop, arith, append-nil, length-drop,
}
use my_mmoproject.Fault.{Result, ok, ◌>>=◌}
use my_mmoproject.Message.{Message, init_message}
use my_mmoproject.Message.Fields.{write_fields}
use my_mmoproject.Packet.{
  Packet, other_character_spawn_batch, monster_spawn_batch, item_spawn_batch, header_len, payload,
  CharacterSpawn, MonsterSpawn, ItemSpawn,
}
use my_mmoproject.Packet.Wire.{frame}
use my_mmoproject.Batch.{
  Kind, max_batch, begin_batch, posted, next_count, batch_loop, send_batch, character_kind,
  monster_kind, item_kind, send_spawn_batch, send_monster_spawn_batch, send_item_spawn_batch,
}
use my_mmoproject.Batch.Parts.{IsKind, next_count_lem, bind_twice, one_batch}

-- The messages that the records make: one for each run of `most` records, stamped when `length rs`
-- records were left.
unfoldable pub batches :
    {A : Type 0} → (ℕ → ℕ) → ℕ → (List A → Packet) → ℕ → ℕ → List A → List Message
batches clock session packet most zero rs = []
batches clock session packet most (suc n) [] = []
batches clock session packet most (suc n) (a ∷ rs) =
    record (init_message session 0 (clock (length (a ∷ rs)))) {
      written = frame (packet (take most (a ∷ rs)));
    }
    ∷ batches clock session packet most n (drop most (a ∷ rs))

module _ {A : Type 0} (clock : ℕ → ℕ) (session : ℕ) (kind : Kind A) (good : IsKind kind) where
  loop_batches :
      (n : ℕ) (rs : List A) (msg : Option Message)
      → length rs ≤ n
      → batch_loop clock session kind rs (length rs) 0 msg
        ≡ ok (
            posted clock session kind msg
            ++ batches clock session kind.packet (max_batch kind.record_size) n rs)
  unfolding batch_loop batches
  loop_batches zero [] msg h = ap ok (sym (append-nil (posted clock session kind msg)))
  loop_batches zero (a ∷ rs) msg h = absurd (omega arith)
  loop_batches (suc n) [] msg h = ap ok (sym (append-nil (posted clock session kind msg)))
  loop_batches (suc n) (a ∷ rs) msg h =
      let most = max_batch kind.record_size in
      let (some_now, capped, few, same_take, same_drop) =
        next_count_lem most (a ∷ rs) good.some_fit (omega arith) in
      let p = next_count (length (a ∷ rs)) most - 1 in
      let m : Message = record (init_message session 0 (clock (length (a ∷ rs)))) {
        written = frame (kind.packet (a ∷ take p rs));
      } in
      let opened =
        one_batch clock session kind good a rs (length (a ∷ rs)) p (omega arith) (omega arith) in
      let IH = loop_batches n (drop p rs) (some m) (omega (arith, length-drop p rs)) in
      let next : Result (List Message) → Result (List Message) =
        λ r. r >>= λ later. ok (posted clock session kind msg ++ later) in
      let taken : a ∷ take p rs ≡ take most (a ∷ rs) =
        ap (λ c. take c (a ∷ rs)) (sym some_now) ∙ same_take in
      let dropped : drop p rs ≡ drop most (a ∷ rs) =
        ap (λ c. drop c (a ∷ rs)) (sym some_now) ∙ same_drop in
      ap
        (λ c. begin_batch clock session kind (length (a ∷ rs)) c >>= λ q.
          write_fields q (kind.fields a) >>= λ q'.
          next (batch_loop clock session kind rs (length (a ∷ rs) - 1) p (some q')))
        some_now
      ∙ (bind_twice (begin_batch clock session kind (length (a ∷ rs)) (suc p))
            (λ q. write_fields q (kind.fields a))
            (λ q'. batch_loop clock session kind rs (length (a ∷ rs) - 1) p (some q'))
            (λ later. ok (posted clock session kind msg ++ later))
          ∙ (ap next (
                opened
                ∙ (ap (λ c. batch_loop clock session kind (drop p rs) c 0 (some m))
                      (omega (arith, length-drop p rs))
                    ∙ IH))
              ∙ ap₂
                  (λ as' bs. ok (
                    posted clock session kind msg
                    ++ (record (init_message session 0 (clock (length (a ∷ rs)))) {
                      written = frame (kind.packet as');
                    }
                        ∷ batches clock session kind.packet most n bs)))
                  taken dropped))

  -- All records go out, in their order, in frames of at most maxBatch records; nothing is raised.
  pub send_batch-batches :
      (rs : List A)
      → send_batch clock session kind rs
        ≡ ok (batches clock session kind.packet (max_batch kind.record_size) (length rs) rs)
  unfolding send_batch batches
  send_batch-batches [] = refl
  send_batch-batches (a ∷ rs) =
      let some_left : (suc (length rs) == 0) ≡ false = ground arith in
      ap (λ b. if b then ok [] else batch_loop clock session kind (a ∷ rs) (length (a ∷ rs)) 0 none)
        some_left
      ∙ loop_batches (length (a ∷ rs)) (a ∷ rs) none (omega arith)

character_kind-IsKind : IsKind character_kind
unfolding header_len payload
character_kind-IsKind = record {
  some_fit = omega arith;
  all_fit = omega arith;
  sized = λ a. refl;
  announced = λ as'. refl;
  laid_out = λ as'. refl;
}

monster_kind-IsKind : IsKind monster_kind
unfolding header_len payload
monster_kind-IsKind = record {
  some_fit = omega arith;
  all_fit = omega arith;
  sized = λ a. refl;
  announced = λ as'. refl;
  laid_out = λ as'. refl;
}

item_kind-IsKind : IsKind item_kind
unfolding header_len payload
item_kind-IsKind = record {
  some_fit = omega arith;
  all_fit = omega arith;
  sized = λ a. refl;
  announced = λ as'. refl;
  laid_out = λ as'. refl;
}

-- Whatever stands near a player goes out: sendSpawnBatch posts the players' records in their order in
-- batch packets of 127 records and one of the rest, each whole in one message, sendMonsterSpawnBatch
-- the monsters' in runs of 221 and sendItemSpawnBatch the items' in runs of 352; none of them raises
-- NotEnoughSpace, and with no record nothing is posted.
pub spawn_batches :
    (clock : ℕ → ℕ) (session : ℕ) (cs : List CharacterSpawn) (ms : List MonsterSpawn)
    (is : List ItemSpawn)
    → (send_spawn_batch clock session cs
        ≡ ok (batches clock session other_character_spawn_batch 127 (length cs) cs))
      × (send_monster_spawn_batch clock session ms
          ≡ ok (batches clock session monster_spawn_batch 221 (length ms) ms))
      × (send_item_spawn_batch clock session is
          ≡ ok (batches clock session item_spawn_batch 352 (length is) is))
unfolding send_spawn_batch send_monster_spawn_batch send_item_spawn_batch
spawn_batches clock session cs ms is = (
  send_batch-batches clock session character_kind character_kind-IsKind cs,
  send_batch-batches clock session monster_kind monster_kind-IsKind ms,
  send_batch-batches clock session item_kind item_kind-IsKind is,
)
