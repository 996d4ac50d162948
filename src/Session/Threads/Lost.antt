-- ===== src/Session/Threads/Lost.antt =====
-- A WSARecv or WSASend that fails with an error which checkAndHandleIoError does not list: nothing
-- counts its reference back.
use my_mmoproject.Base.{ℕ, zero, suc, ◌+◌, ◌≤◌, ◌≡◌, arith}
use my_mmoproject.Session.{
  Slot, Thread, free, handling, draining, Outcome, thread_step, call_step, de_queue_msg, take_recv,
  complete_release, complete_accept_ex,
}
use my_mmoproject.Session.Threads.{
  Move, run, post_call, close_call, handler_post, handler_close, leave, recv_done, send_done,
  release_done, reuse, drop_index, Accept, entered, stopped, System, Step, pick, accept, Reach,
  next,
}
use my_mmoproject.Session.Threads.Lifetime.{Reach-IsSound}

lost-le_thread_step : (s : Slot) (t : Thread) (o : Outcome) → s.lost ≤ (thread_step s t o).0.lost
unfolding thread_step call_step de_queue_msg
lost-le_thread_step s (free c) o = ground arith
lost-le_thread_step s (handling c) o = ground arith
lost-le_thread_step s (draining (suc n)) o = ground arith
lost-le_thread_step s t o = ground arith

lost-le_Move : {s : Slot} {t : Thread} {s' : Slot} {t' : Thread} → Move s t s' t' → s.lost ≤ s'.lost
unfolding take_recv complete_release
lost-le_Move {s} (run t o room) = lost-le_thread_step s t o
lost-le_Move (post_call m k) = omega arith
lost-le_Move (close_call target) = omega arith
lost-le_Move (handler_post m k) = omega arith
lost-le_Move (handler_close target) = omega arith
lost-le_Move leave = omega arith
lost-le_Move (recv_done zero k) = omega arith
lost-le_Move (recv_done (suc n) k) = omega arith
lost-le_Move (send_done k) = omega arith
lost-le_Move (release_done k) = omega arith
lost-le_Move (reuse id k new) = omega arith
lost-le_Move (drop_index k) = omega arith

lost-le_Accept : {s s' : Slot} {t' : Thread} → Accept s s' t' → s.lost ≤ s'.lost
unfolding complete_accept_ex
lost-le_Accept entered = omega arith
lost-le_Accept stopped = omega arith

lost-le_Step : {a b : System} → Step a b → a.slot.lost ≤ b.slot.lost
lost-le_Step (pick before after mv) = lost-le_Move mv
lost-le_Step (accept before after left none_armed ac) = lost-le_Accept ac

-- The systems that come after `a`.
pub data Later (a : System) : System → Type 0 where
  now : Later a a
  later : {b c : System} → Later a b → Step b c → Later a c

Reach-Later : {n : ℕ} {a b : System} → Reach n a → Later a b → Reach n b
Reach-Later r now = r
Reach-Later r (later l st) = next (Reach-Later r l) st

lost-le_Later : {a b : System} → Later a b → a.slot.lost ≤ b.slot.lost
lost-le_Later now = omega arith
lost-le_Later (later l st) = omega (arith, lost-le_Later l, lost-le_Step st)

-- Once a start has failed with such an error, the session's release is never posted and its slot never
-- goes back to the stack, whatever the threads do from there on.
pub lost_never_released :
    {n : ℕ} {a b : System}
    → Reach n a
    → 1 ≤ a.slot.lost
    → Later a b
    → b.slot.releases + b.slot.parked ≡ 0
lost_never_released r h l =
    let i = Reach-IsSound (Reach-Later r l) in omega (arith, i.counted.lives, lost-le_Later l, h)
