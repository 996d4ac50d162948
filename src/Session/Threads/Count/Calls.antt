-- ===== src/Session/Threads/Count/Calls.antt =====
-- The steps of sendPost, disconnectSession, sessionLock and sessionUnLock keep the account.
use my_mmoproject.Base.{ℕ, [], ◌∷◌, ◌+◌, arith, length-append}
use my_mmoproject.Session.{
  Slot, Call, returned, post_locking, posting, flagging, winning, announcing, close_locking,
  closing, mismatched, unlocking, releasing, notifying, Thread, free, handling, call_step,
}
use my_mmoproject.Session.Threads.{IsRoom}
use my_mmoproject.Session.Threads.Count.{IsCounted, IsPool, Fits}

-- A thread at `t` beside the others.
abbrev pub with_thread : Thread → ((Thread → ℕ) → ℕ) → (Thread → ℕ) → ℕ
with_thread t o w = w t + o w

module _ (s : Slot) (o : (Thread → ℕ) → ℕ) (pool : IsPool o) (room : IsRoom s) where
  pub free_step :
      (c : Call)
      → IsCounted s (with_thread (free c) o)
      → Fits s (free c)
      → IsCounted (call_step s c).0 (with_thread (free (call_step s c).1) o)
  unfolding call_step
  free_step returned h f = ground arith
  free_step (post_locking m) h f = ground arith
  free_step (posting m) h f = ground (arith, length-append s.queue (m ∷ []))
  free_step flagging h f = ground arith
  free_step winning h f = ground arith
  free_step announcing h f = ground arith
  free_step (close_locking id) h f = ground arith
  free_step closing h f = ground arith
  free_step mismatched h f = ground arith
  free_step unlocking h f = ground arith
  free_step releasing h f = ground arith
  free_step notifying h f = ground arith

  pub handling_step :
      (c : Call)
      → IsCounted s (with_thread (handling c) o)
      → Fits s (handling c)
      → IsCounted (call_step s c).0 (with_thread (handling (call_step s c).1) o)
  unfolding call_step
  handling_step returned h f = ground arith
  handling_step (post_locking m) h f = ground arith
  handling_step (posting m) h f = ground (arith, length-append s.queue (m ∷ []))
  handling_step flagging h f = ground arith
  handling_step winning h f = ground arith
  handling_step announcing h f = ground arith
  handling_step (close_locking id) h f = ground arith
  handling_step closing h f = ground arith
  handling_step mismatched h f = ground arith
  handling_step unlocking h f = ground arith
  handling_step releasing h f = ground arith
  handling_step notifying h f = ground arith
