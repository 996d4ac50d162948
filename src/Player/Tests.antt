-- ===== src/Player/Tests.antt =====
-- A player on the machine of Actor/Naturals, and the theorems at it.
use my_mmoproject.Base.{
  ℕ, ◌+◌, ◌*◌, ◌^◌, ◌<◌, ◌≡◌, refl, true, false, ◌&&◌, List, [], ◌∷◌, ◌++◌, leb, length, replicate,
  arith,
}
use my_mmoproject.Fault.{ok}
use my_mmoproject.Ring.{Ring}
use my_mmoproject.Player.Queue.{Holds, on_recv, de_queue_msg_or_null, recv_queue_lem}
use my_mmoproject.Base.Int.{pos}
use my_mmoproject.Actor.{down}
use my_mmoproject.Actor.Naturals.{naturals, here}
use my_mmoproject.Player.{Player, stun, update, take_damage}
use my_mmoproject.Player.Health.{allowed, is_healthy, holds_after, update_keeps, hit_keeps}

abbrev hero : Player ℕ
hero = record {
  account_no = 1;
  character_id = 11;
  position = here;
  start_move_pos = here;
  seq_id = 77;
  speed = 4;
  last_time = 0;
  anim_frame = 3;
  current_sector = record { x = 0; y = 0 };
  dest_sector = record { x = 0; y = 0 };
  direction = down;
  current_field_id = pos 0;
  next_field_id = pos 0;
  state = stun;
  character_type = 0;
  nickname = 65;
  connect = true;
  sync_cnt = 0;
  attack_power = 35;
  last_attack_time = 0;
  pending_attack_targets = [];
  pending_attack_skill_id = 0;
  hit_stun_frame = 0;
  hp = 60;
  max_hp = 100;
  inventory = λ i. 0;
  db_request_cnt = 0;
  send_msg_cnt = 0;
}

update_keeps_example :
    holds_after naturals (λ q. allowed stun q.state && is_healthy q) (update naturals hero) ≡ true
update_keeps_example = update_keeps naturals hero refl

hit_keeps_example : holds_after naturals is_healthy (take_damage naturals hero 35 here down) ≡ true
hit_keeps_example = hit_keeps naturals hero 35 here down refl

-- A queue of 64 bytes in which nothing waits.
abbrev quiet : Ring
quiet = record { buf = replicate 64 0; end = 64; front = 0; rear = 0; fail = 0 }

quiet-Holds : Holds quiet []
quiet-Holds = record {
  valid = record { storage = refl; front_in = omega arith; rear_in = omega arith; healthy = refl };
  stored = refl;
}

recv_queue_lem_example :
    ((now msg : ℕ)
      → 0 < msg
      → msg < 256 ^ 8
      → 8 * length {A = ℕ} [] + 8 < quiet.end
      → (q' : Ring) × (on_recv now msg hero quiet
          ≡ ok (
            record hero { send_msg_cnt = hero.send_msg_cnt + 1; last_time = now },
            q',
            leb 500 (hero.send_msg_cnt + 1),
          ))
        × Holds q' ([] ++ (msg ∷ []))
        × (q'.end ≡ quiet.end))
    × ((oldest : ℕ) (rest : List ℕ)
        → [] ≡ oldest ∷ rest
        → oldest < 256 ^ 8
        → (q' : Ring) × (de_queue_msg_or_null true quiet ≡ ok (q', oldest)) × Holds q' rest)
    × (◌≡◌ {A = List ℕ} [] [] → de_queue_msg_or_null true quiet ≡ ok (quiet, 0))
    × (de_queue_msg_or_null false quiet ≡ ok (quiet, 0))
recv_queue_lem_example = recv_queue_lem hero quiet [] quiet-Holds
