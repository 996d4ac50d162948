-- ===== src/Session/Threads/Count/Moves.antt =====
-- The steps of a worker, of registerRecv, registerSend, completeSend and registerAcceptEx, and the
-- completions that a worker takes, keep the account.
use my_mmoproject.Base.{ℕ, zero, suc, ◌≤◌, ◌≡◌, arith}
use my_mmoproject.Session.{
  Slot, returned, post_locking, posting, flagging, winning, announcing, close_locking, closing,
  mismatched, unlocking, releasing, notifying, Thread, free, handling, Outcome, started,
  known_error, other_error, recv_posting, failing, finishing, sending, filling, draining,
  transmitting, send_posting, clearing, rechecking, retaking, rewinning, reannouncing, arming,
  armed, thread_step, call_step, take_recv, complete_release, complete_accept_ex,
}
use my_mmoproject.Session.Threads.{
  arms, IsRoom, Move, run, post_call, close_call, handler_post, handler_close, leave, recv_done,
  send_done, release_done, reuse, drop_index, Accept, entered, stopped,
}
use my_mmoproject.Session.Threads.Count.{IsCounted, IsPool, Fits}
use my_mmoproject.Session.Threads.Count.Calls.{with_thread, free_step, handling_step}

module _ (s : Slot) (o : (Thread → ℕ) → ℕ) (pool : IsPool o) (room : IsRoom s) where
  thread_step-IsCounted :
      (t : Thread) (a : Outcome)
      → IsCounted s (with_thread t o)
      → Fits s t
      → IsCounted (thread_step s t a).0 (with_thread (thread_step s t a).1 o)
  unfolding thread_step call_step
  thread_step-IsCounted (free c) a h f = free_step s o pool room c h f
  thread_step-IsCounted (handling returned) a h f = ground arith
  thread_step-IsCounted (handling (post_locking m)) a h f =
      handling_step s o pool room (post_locking m) h f
  thread_step-IsCounted (handling (posting m)) a h f = handling_step s o pool room (posting m) h f
  thread_step-IsCounted (handling flagging) a h f = handling_step s o pool room flagging h f
  thread_step-IsCounted (handling winning) a h f = handling_step s o pool room winning h f
  thread_step-IsCounted (handling announcing) a h f = handling_step s o pool room announcing h f
  thread_step-IsCounted (handling (close_locking id)) a h f =
      handling_step s o pool room (close_locking id) h f
  thread_step-IsCounted (handling closing) a h f = handling_step s o pool room closing h f
  thread_step-IsCounted (handling mismatched) a h f = handling_step s o pool room mismatched h f
  thread_step-IsCounted (handling unlocking) a h f = handling_step s o pool room unlocking h f
  thread_step-IsCounted (handling releasing) a h f = handling_step s o pool room releasing h f
  thread_step-IsCounted (handling notifying) a h f = handling_step s o pool room notifying h f
  thread_step-IsCounted recv_posting started h f = ground arith
  thread_step-IsCounted recv_posting known_error h f = ground arith
  thread_step-IsCounted recv_posting other_error h f = ground arith
  thread_step-IsCounted failing a h f = ground arith
  thread_step-IsCounted finishing a h f = ground arith
  thread_step-IsCounted sending a h f = ground arith
  thread_step-IsCounted filling a h f = ground arith
  thread_step-IsCounted (draining (suc n)) a h f = ground arith
  thread_step-IsCounted (draining zero) a h f = ground arith
  thread_step-IsCounted transmitting a h f = ground arith
  thread_step-IsCounted send_posting started h f = ground arith
  thread_step-IsCounted send_posting known_error h f = ground arith
  thread_step-IsCounted send_posting other_error h f = ground arith
  thread_step-IsCounted clearing a h f = ground arith
  thread_step-IsCounted rechecking a h f = ground arith
  thread_step-IsCounted retaking a h f = ground arith
  thread_step-IsCounted rewinning a h f = ground arith
  thread_step-IsCounted reannouncing a h f = ground arith
  thread_step-IsCounted arming started h f = ground arith
  thread_step-IsCounted arming known_error h f = ground arith
  thread_step-IsCounted arming other_error h f = ground arith
  thread_step-IsCounted armed a h f = ground arith

module _ (s : Slot) (o : (Thread → ℕ) → ℕ) (pool : IsPool o) where
  pub Move-IsCounted :
      {t : Thread} {s' : Slot} {t' : Thread}
      → Move s t s' t'
      → IsCounted s (with_thread t o)
      → Fits s t
      → IsCounted s' (with_thread t' o)
  unfolding take_recv complete_release
  Move-IsCounted (run t a r) h f = thread_step-IsCounted s o pool r t a h f
  Move-IsCounted (post_call m k) h f = ground arith
  Move-IsCounted (close_call target) h f = ground arith
  Move-IsCounted (handler_post m k) h f = ground arith
  Move-IsCounted (handler_close target) h f = ground arith
  Move-IsCounted leave h f = ground arith
  Move-IsCounted (recv_done zero k) h f = ground arith
  Move-IsCounted (recv_done (suc n) k) h f = ground arith
  Move-IsCounted (send_done k) h f = ground arith
  Move-IsCounted (release_done k) h f = ground arith
  Move-IsCounted (reuse id k new) h f = ground arith
  Move-IsCounted (drop_index k) h f = ground arith

  pub Accept-IsCounted :
      {s' : Slot} {t' : Thread}
      → 1 ≤ s.accepts
      → o arms ≡ 0
      → Accept s s' t'
      → IsCounted s (with_thread (free returned) o)
      → IsCounted s' (with_thread t' o)
  unfolding complete_accept_ex
  Accept-IsCounted k e entered h = ground arith
  Accept-IsCounted k e stopped h = ground arith
