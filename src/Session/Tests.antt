-- ===== src/Session/Tests.antt =====
-- Runs of a session slot with one or two threads, and the theorems there.
use my_mmoproject.Base.{ℕ, ◌+◌, ◌≤◌, ◌≡◌, ◌⊎◌, refl, List, [], ◌∷◌, ◌++◌, arith, ◌^◌}
use my_mmoproject.Session.{
  Slot, Letter, Call, returned, post_locking, posting, flagging, releasing, notifying, Thread, free,
  handling, finishing, recv_posting, started, other_error, thread_step, session_lock, increment,
  complete_accept_ex, complete_release, arming, armed,
}
use my_mmoproject.Session.Threads.{
  total, holds, sender, watching, drains, notices, fresh, System, Step, pick, accept, Reach, start,
  next, run, post_call, entered, stopped, IsRoom, release_done, reuse,
}
use my_mmoproject.Session.Threads.Letters.{foreign}
use my_mmoproject.Session.Threads.Lifetime.{released_alone, queued_letter_watched, letters_in_order}
use my_mmoproject.Session.Threads.Lost.{Later, now, later, lost_never_released}

abbrev at : Slot → List Thread → System
at s ts = record { slot = s; threads = ts }

-- A stopped server takes the completion of AcceptEx: the slot is released.
abbrev idle : Slot
idle = record fresh { io_cnt = 0; accepts = 0 }

abbrev released : Slot
released = record fresh { io_cnt = 2 ^ 14; accepts = 0; releases = 1 }

closed_run : Reach 1 (at idle (free releasing ∷ []))
unfolding thread_step
closed_run =
    next (next start (accept [] [] (omega arith) refl stopped))
      (pick [] [] (run finishing started (omega arith)))

released_run : Reach 1 (at released (free returned ∷ []))
unfolding thread_step
released_run =
    next (next closed_run (pick [] [] (run (free releasing) started (omega arith))))
      (pick [] [] (run (free notifying) started (omega arith)))

released_alone_example :
    ((1 ≤ 1)
      → (released.releases ≡ 1)
        × (total holds (free returned ∷ []) + total notices (free returned ∷ []) ≡ 0)
        × (released.recvs + released.sends + released.accepts ≡ 0)
        × ((target : ℕ) (inside : Call)
            → IsRoom released
            → session_lock released target inside ≡ (increment released, returned)))
    × (released.joined ≡ released.left + released.accepted)
    × (released.accepted ≤ 1)
released_alone_example = released_alone released_run

-- One thread has the session's accept, another posts a letter.
abbrev letter : Letter
letter = record { owner = 1; body = 7 }

abbrev open_slot : Slot
open_slot = record fresh { accepts = 0; live = 1; accepted = 1; joined = 1; known = 1 }

abbrev posted : Slot
posted = record open_slot { io_cnt = 2; queue = letter ∷ []; enqueued = letter ∷ [] }

open_run : Reach 2 (at open_slot (handling returned ∷ free returned ∷ []))
unfolding complete_accept_ex
open_run = next start (accept [] (free returned ∷ []) (omega arith) refl entered)

posted_run : Reach 2 (at posted (handling returned ∷ free flagging ∷ []))
unfolding thread_step
posted_run =
    next
      (next (next open_run (pick (handling returned ∷ []) [] (post_call letter (omega arith))))
        (pick (handling returned ∷ []) [] (run (free (post_locking letter)) started (omega arith))))
      (pick (handling returned ∷ []) [] (run (free (posting letter)) started (omega arith)))

queued_letter_watched_example :
    (total sender (handling returned ∷ free flagging ∷ []) + posted.sends ≤ 1)
    × ((1 ≤ 1)
        → (1 ≤ total sender (handling returned ∷ free flagging ∷ []) + posted.sends)
          ⊎ (1 ≤ total watching (handling returned ∷ free flagging ∷ []))
          ⊎ (posted.live ≡ 0)
          ⊎ (1 ≤ posted.lost)
          ⊎ (1 ≤ posted.wrapped))
queued_letter_watched_example = queued_letter_watched posted_run

letters_in_order_example :
    (posted.enqueued ≡ posted.handed ++ (posted.in_flight ++ posted.queue))
    × (foreign 1 posted.queue + foreign 1 posted.in_flight ≡ 0)
    × (total drains (handling returned ∷ free flagging ∷ []) ≤ 1)
letters_in_order_example = letters_in_order posted_run

-- The first WSARecv of the session fails with an error that is not listed.
abbrev lost_slot : Slot
lost_slot = record open_slot { io_cnt = 2; lost = 1 }

lost_run : Reach 2 (at lost_slot (finishing ∷ free returned ∷ []))
unfolding thread_step
lost_run =
    next
      (next open_run (pick [] (free returned ∷ []) (run (handling returned) started (omega arith))))
      (pick [] (free returned ∷ []) (run recv_posting other_error (omega arith)))

abbrev left_over : Slot
left_over = record lost_slot { io_cnt = 1 }

after_lost :
    Later
      (at lost_slot (finishing ∷ free returned ∷ []))
      (at left_over (free returned ∷ free returned ∷ []))
unfolding thread_step
after_lost = later now (pick [] (free returned ∷ []) (run finishing started (omega arith)))

lost_never_released_example : left_over.releases + left_over.parked ≡ 0
lost_never_released_example = lost_never_released lost_run (omega arith) after_lost

-- Without the order that `Step` has: the completion of AcceptEx is taken while the thread that called
-- it has still to set mIOcnt. The live session's release is posted with its receive pending.
data Race (a : System) : System → Type 0 where
  begin : Race a a
  step : {b c : System} → Race a b → Step b c → Race a c
  early :
      {s : Slot}
      → Race a (at s (armed ∷ free returned ∷ []))
      → 1 ≤ s.accepts
      → Race a (at (complete_accept_ex s) (armed ∷ handling returned ∷ []))

-- The slot behind its second AcceptEx.
abbrev armed_slot : Slot
armed_slot = record fresh { io_cnt = 2 ^ 14; session_id = 2 }

abbrev raced : Slot
raced = record armed_slot {
  io_cnt = 2 ^ 14;
  accepts = 0;
  live = 1;
  accepted = 1;
  joined = 1;
  known = 2;
  recvs = 1;
  releases = 1;
}

armed_run : Reach 2 (at armed_slot (armed ∷ free returned ∷ []))
unfolding thread_step complete_release
armed_run =
    let others : List Thread = free returned ∷ [] in
    next
      (next
        (next
          (next
            (next
              (next (next start (accept [] others (omega arith) refl stopped))
                (pick [] others (run finishing started (omega arith))))
              (pick [] others (run (free releasing) started (omega arith))))
            (pick [] others (run (free notifying) started (omega arith))))
          (pick [] others (release_done (omega arith))))
        (pick [] others (reuse 2 (omega arith) (omega arith))))
      (pick [] others (run arming started (omega arith)))

released_with_receive_pending :
    Race
      (at armed_slot (armed ∷ free returned ∷ []))
      (at raced (free returned ∷ free returned ∷ []))
unfolding thread_step complete_accept_ex
released_with_receive_pending =
    let first : List Thread = armed ∷ [] in
    let set : List Thread = free returned ∷ [] in
    step
      (step
        (step
          (step
            (step
              (step (early begin (omega arith))
                (pick first [] (run (handling returned) started (omega arith))))
              (pick first [] (run recv_posting started (omega arith))))
            (pick [] (finishing ∷ []) (run armed started (omega arith))))
          (pick set [] (run finishing started (omega arith))))
        (pick set [] (run (free releasing) started (omega arith))))
      (pick set [] (run (free notifying) started (omega arith)))
