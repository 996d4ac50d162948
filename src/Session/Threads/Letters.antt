-- ===== src/Session/Threads/Letters.antt =====
-- The letters of a session: they are handed out in the order in which they were queued, and every one
-- belongs to the session that sends it.
use my_mmoproject.Base.{
  ℕ, zero, suc, List, [], ◌∷◌, ◌++◌, ◌+◌, ◌≡◌, refl, sym, ap, ◌∙◌, arith, length, append_assoc,
  ◌==◌, if◌then◌else◌,
}
use my_mmoproject.Session.{
  en_queue_msg, Slot, Letter, Call, posting, Thread, free, handling, Outcome, sending, draining,
  arming, thread_step, call_step, take_recv, complete_release, complete_accept_ex, de_queue_msg,
}
use my_mmoproject.Session.Threads.{
  Move, run, post_call, close_call, handler_post, handler_close, leave, recv_done, send_done,
  release_done, reuse, drop_index, Accept, entered, stopped,
}
use my_mmoproject.Session.Threads.Count.{IsCounted, Fits}
use my_mmoproject.Session.Threads.Count.Calls.{with_thread}

-- How many of the letters belong to another session.
abbrev pub foreign : ℕ → List Letter → ℕ
foreign id [] = 0
foreign id (m ∷ ms) = (if m.owner == id then 0 else 1) + foreign id ms

foreign-append :
    (id : ℕ) (xs ys : List Letter) → foreign id (xs ++ ys) ≡ foreign id xs + foreign id ys
foreign-append id [] ys = omega arith
foreign-append id (m ∷ xs) ys = omega (arith, foreign-append id xs ys)

foreign-empty : (id : ℕ) (ms : List Letter) → length ms ≡ 0 → foreign id ms ≡ 0
foreign-empty id [] h = refl
foreign-empty id (m ∷ ms) h = absurd (omega arith)

pub record IsFifo (s : Slot) : Type 0 where
  pub fifo : s.enqueued ≡ s.handed ++ (s.in_flight ++ s.queue)
  pub waiting : foreign s.session_id s.queue ≡ 0
  pub flying : foreign s.session_id s.in_flight ≡ 0

de_queue_msg-IsFifo :
    (s : Slot) (ms : List Letter) → s.queue ≡ ms → IsFifo s → IsFifo (de_queue_msg s ms)
unfolding de_queue_msg
de_queue_msg-IsFifo s [] e h = h
de_queue_msg-IsFifo s (m ∷ rest) e h = record {
  fifo =
      h.fifo
      ∙ ap (λ q. s.handed ++ (s.in_flight ++ q)) e
      ∙ ap (◌++◌ s.handed) (sym (append_assoc s.in_flight (m ∷ []) rest));
  waiting =
      let w : foreign s.session_id (m ∷ rest) ≡ 0 = ap (foreign s.session_id) (sym e) ∙ h.waiting in
      omega arith;
  flying =
      let w : foreign s.session_id (m ∷ rest) ≡ 0 = ap (foreign s.session_id) (sym e) ∙ h.waiting in
      omega (arith, foreign-append s.session_id s.in_flight (m ∷ []), h.flying);
}

module _ (s : Slot) (h : IsFifo s) where
  queue_letter : (m : Letter) → m.owner ≡ s.session_id → IsFifo (en_queue_msg s m)
  unfolding en_queue_msg
  queue_letter m e = record {
    fifo =
        ap (λ q. q ++ (m ∷ [])) h.fifo
        ∙ append_assoc s.handed (s.in_flight ++ s.queue) (m ∷ [])
        ∙ ap (◌++◌ s.handed) (append_assoc s.in_flight s.queue (m ∷ []));
    waiting = ground (arith, foreign-append s.session_id s.queue (m ∷ []), h.waiting, e);
    flying = h.flying;
  }

  hand_over : IsFifo (record s { handed = s.handed ++ s.in_flight; in_flight = [] })
  hand_over = record {
    fifo = h.fifo ∙ sym (append_assoc s.handed s.in_flight s.queue);
    waiting = h.waiting;
    flying = refl;
  }

  call_step-IsFifo : (c : Call) → Fits s (free c) → IsFifo (call_step s c).0
  unfolding call_step
  call_step-IsFifo (posting m) f = queue_letter m f.0
  call_step-IsFifo c f = ground arith

  thread_step-IsFifo : (t : Thread) (a : Outcome) → Fits s t → IsFifo (thread_step s t a).0
  unfolding thread_step call_step
  thread_step-IsFifo (free c) a f = call_step-IsFifo c f
  thread_step-IsFifo (handling (posting m)) a f = queue_letter m f.0
  thread_step-IsFifo sending a f = hand_over
  thread_step-IsFifo (draining (suc n)) a f = de_queue_msg-IsFifo s s.queue refl h
  thread_step-IsFifo (handling c) a f = ground arith
  thread_step-IsFifo (arming) a f = ground arith
  thread_step-IsFifo t a f = ground arith

  pub Move-IsFifo :
      (o : (Thread → ℕ) → ℕ) {t : Thread} {s' : Slot} {t' : Thread}
      → Move s t s' t'
      → IsCounted s (with_thread t o)
      → Fits s t
      → IsFifo s'
  unfolding take_recv complete_release
  Move-IsFifo o (run t a r) c f = thread_step-IsFifo t a f
  Move-IsFifo o (post_call m k) c f = h
  Move-IsFifo o (close_call target) c f = h
  Move-IsFifo o (handler_post m k) c f = h
  Move-IsFifo o (handler_close target) c f = h
  Move-IsFifo o leave c f = h
  Move-IsFifo o (recv_done zero k) c f = record {
    fifo = h.fifo;
    waiting = h.waiting;
    flying = h.flying;
  }
  Move-IsFifo o (recv_done (suc n) k) c f = record {
    fifo = h.fifo;
    waiting = h.waiting;
    flying = h.flying;
  }
  Move-IsFifo o (send_done k) c f = record { fifo = h.fifo; waiting = h.waiting; flying = h.flying }
  Move-IsFifo o (release_done k) c f = record { fifo = refl; waiting = refl; flying = refl }
  Move-IsFifo o (reuse id k new) c f = record {
    fifo = h.fifo;
    waiting = foreign-empty id s.queue (omega (arith, c.untouched));
    flying = foreign-empty id s.in_flight (omega (arith, c.untouched));
  }
  Move-IsFifo o (drop_index k) c f = record {
    fifo = h.fifo;
    waiting = h.waiting;
    flying = h.flying;
  }

  pub Accept-IsFifo : {s' : Slot} {t' : Thread} → Accept s s' t' → IsFifo s'
  unfolding complete_accept_ex
  Accept-IsFifo entered = record { fifo = h.fifo; waiting = h.waiting; flying = h.flying }
  Accept-IsFifo stopped = record { fifo = h.fifo; waiting = h.waiting; flying = h.flying }
