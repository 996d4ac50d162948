-- ===== src/Session/Threads/Fits.antt =====
-- Where a thread may stand, kept for the thread that steps and for the others.
use my_mmoproject.Base.{
  ℕ, zero, suc, List, [], ◌∷◌, ◌++◌, ◌≤◌, ◌≡◌, ◌⊎◌, ◌↔◌, refl, arith, inl, inr,
}
use my_mmoproject.Session.{
  Slot, Call, returned, post_locking, posting, Thread, free, handling, Outcome, draining,
  thread_step, call_step, take_recv, complete_release, de_queue_msg,
}
use my_mmoproject.Session.Threads.{
  total, holds, Move, run, post_call, close_call, handler_post, handler_close, leave, recv_done,
  send_done, release_done, reuse, drop_index,
}
use my_mmoproject.Session.Threads.Count.{IsCounted, IsPool, Fits}
use my_mmoproject.Session.Threads.Count.Calls.{with_thread}

abbrev pub All {ℓ} : (Thread → Type ℓ) → List Thread → Type ℓ
All P [] = Unit
All P (t ∷ ts) = P t × All P ts

pub All-middle :
    (P : Thread → Type 0) (before after : List Thread) (t : Thread)
    → All P (before ++ (t ∷ after)) ↔ (P t × All P (before ++ after))
All-middle P [] after t = (λ h. h, λ h. h)
All-middle P (b ∷ before) after t = (
  λ h. let (a, r) = (All-middle P before after t).0 h.1 in (a, (h.0, r)),
  λ h. (h.1.0, (All-middle P before after t).1 (h.0, h.1.1)),
)

-- The session that a thread is inside of stays, while it holds a reference.
abbrev pub Stays : Slot → Slot → ℕ → Type 0
Stays s s' others = (s.known ≤ s'.known) × ((s'.session_id ≡ s.session_id) ⊎ (others ≡ 0))

Fits-Stays : (s s' : Slot) (t : Thread) → Stays s s' (holds t) → Fits s t → Fits s' t
Fits-Stays s s' (free (post_locking m)) k f = omega arith
Fits-Stays s s' (free (posting m)) k f = ground arith
Fits-Stays s s' (handling (post_locking m)) k f = omega arith
Fits-Stays s s' (handling (posting m)) k f = ground arith
Fits-Stays s s' t k f = tt

pub All-Fits :
    (s s' : Slot) (ts : List Thread)
    → Stays s s' (total holds ts)
    → All (Fits s) ts
    → All (Fits s') ts
All-Fits s s' [] k h = tt
All-Fits s s' (t ∷ ts) k h =
    (Fits-Stays s s' t (omega arith) h.0, All-Fits s s' ts (omega arith) h.1)

IsPool-thread : (t : Thread) → IsPool (λ w. w t)
IsPool-thread (free returned) = omega arith
IsPool-thread (free c) = ground arith
IsPool-thread (handling c) = ground arith
IsPool-thread t = ground arith

pub IsPool-total : (ts : List Thread) → IsPool (λ w. total w ts)
IsPool-total [] = record {
  busy_holds = omega arith;
  sender_busy = omega arith;
  watching_busy = omega arith;
  arms_opens = omega arith;
  idle_drains = λ e. refl;
}
IsPool-total (t ∷ ts) =
    let a = IsPool-thread t in
    let b = IsPool-total ts in
    record {
      busy_holds = omega (arith, a.busy_holds, b.busy_holds);
      sender_busy = omega (arith, a.sender_busy, b.sender_busy);
      watching_busy = omega (arith, a.watching_busy, b.watching_busy);
      arms_opens = omega (arith, a.arms_opens, b.arms_opens);
      idle_drains = λ e. omega (arith, a.idle_drains (omega arith), b.idle_drains (omega arith));
    }

module _ (s : Slot) where
  call_step-Fits : (c : Call) → Fits s (free c) → Fits (call_step s c).0 (free (call_step s c).1)
  unfolding call_step
  call_step-Fits (post_locking m) f = ground arith
  call_step-Fits c f = ground arith

  handling_step-Fits :
      (c : Call) → Fits s (handling c) → Fits (call_step s c).0 (handling (call_step s c).1)
  unfolding call_step
  handling_step-Fits c f = ground arith

  thread_step-Fits :
      (t : Thread) (a : Outcome) → Fits s t → Fits (thread_step s t a).0 (thread_step s t a).1
  unfolding thread_step
  thread_step-Fits (free c) a f = call_step-Fits c f
  thread_step-Fits (handling returned) a f = ground arith
  thread_step-Fits (handling c) a f = handling_step-Fits c f
  thread_step-Fits t a f = ground arith

  pub Move-Fits : {t : Thread} {s' : Slot} {t' : Thread} → Move s t s' t' → Fits s t → Fits s' t'
  unfolding take_recv
  Move-Fits (run t a r) f = thread_step-Fits t a f
  Move-Fits (post_call m k) f = k
  Move-Fits (close_call target) f = tt
  Move-Fits (handler_post m k) f = k
  Move-Fits (handler_close target) f = tt
  Move-Fits leave f = tt
  Move-Fits (recv_done zero k) f = tt
  Move-Fits (recv_done (suc n) k) f = tt
  Move-Fits (send_done k) f = tt
  Move-Fits (release_done k) f = tt
  Move-Fits (reuse id k new) f = tt
  Move-Fits (drop_index k) f = tt

  thread_step-same :
      (t : Thread) (a : Outcome)
      → ((thread_step s t a).0.known ≡ s.known) × ((thread_step s t a).0.session_id ≡ s.session_id)
  unfolding thread_step call_step de_queue_msg
  thread_step-same (free c) a = ground arith
  thread_step-same (handling c) a = ground arith
  thread_step-same (draining (suc n)) a = ground arith
  thread_step-same t a = ground arith

  pub Move-Stays :
      (o : (Thread → ℕ) → ℕ) {t : Thread} {s' : Slot} {t' : Thread}
      → Move s t s' t'
      → IsCounted s (with_thread t o)
      → Stays s s' (o holds)
  unfolding take_recv complete_release
  Move-Stays o (run t a r) c = let (e, f) = thread_step-same t a in (omega arith, inl f)
  Move-Stays o (post_call m k) c = (omega arith, inl refl)
  Move-Stays o (close_call target) c = (omega arith, inl refl)
  Move-Stays o (handler_post m k) c = (omega arith, inl refl)
  Move-Stays o (handler_close target) c = (omega arith, inl refl)
  Move-Stays o leave c = (omega arith, inl refl)
  Move-Stays o (recv_done zero k) c = (omega arith, inl refl)
  Move-Stays o (recv_done (suc n) k) c = (omega arith, inl refl)
  Move-Stays o (send_done k) c = (omega arith, inl refl)
  Move-Stays o (release_done k) c = (omega arith, inl refl)
  Move-Stays o (reuse id k new) c = (omega arith, inr (omega (arith, c.lives)))
  Move-Stays o (drop_index k) c = (omega arith, inl refl)
