-- ===== src/Session/Threads.antt =====
-- The threads around one session slot, in any interleaving of their steps, and what each place in
-- the code accounts for.
pub mod Count
pub mod Letters
pub mod Fits
pub mod Lifetime
pub mod Lost
use my_mmoproject.Base.{
  ℕ, zero, suc, ◌+◌, ◌-◌, ◌≤◌, ◌<◌, ◌%◌, ◌^◌, ◌≡◌, refl, sym, ◌∙◌, ap, List, [], ◌∷◌, ◌++◌, arith,
}
use my_mmoproject.Session.{
  Slot, Letter, Call, returned, post_locking, posting, flagging, winning, announcing, close_locking,
  closing, mismatched, unlocking, releasing, notifying, Thread, free, handling, recv_posting,
  failing, finishing, sending, filling, draining, transmitting, send_posting, clearing, rechecking,
  retaking, rewinning, reannouncing, arming, armed, Outcome, thread_step, take_recv,
  complete_release, complete_accept_ex,
}

-- The references that a thread holds in mIOcnt.
abbrev pub call_holds : Call → ℕ
call_holds returned = 0
call_holds (post_locking m) = 0
call_holds (posting m) = 1
call_holds flagging = 1
call_holds winning = 1
call_holds announcing = 2
call_holds (close_locking target) = 0
call_holds closing = 1
call_holds mismatched = 1
call_holds unlocking = 1
call_holds releasing = 0
call_holds notifying = 0

abbrev pub holds : Thread → ℕ
holds (free c) = call_holds c
holds (handling c) = 1 + call_holds c
holds recv_posting = 2
holds failing = 2
holds finishing = 1
holds sending = 1
holds filling = 1
holds (draining n) = 1
holds transmitting = 1
holds send_posting = 2
holds clearing = 1
holds rechecking = 1
holds retaking = 1
holds rewinning = 1
holds reannouncing = 2
holds arming = 0
holds armed = 0

-- Whether the thread is the one that mSendFlag stands for.
abbrev pub call_sender : Call → ℕ
call_sender winning = 1
call_sender announcing = 1
call_sender c = 0

abbrev pub sender : Thread → ℕ
sender (free c) = call_sender c
sender (handling c) = call_sender c
sender sending = 1
sender filling = 1
sender (draining n) = 1
sender transmitting = 1
sender send_posting = 1
sender clearing = 1
sender rewinning = 1
sender reannouncing = 1
sender t = 0

-- Whether the thread will still look at mSendFlag for what is queued.
abbrev pub call_watching : Call → ℕ
call_watching flagging = 1
call_watching c = 0

abbrev pub watching : Thread → ℕ
watching (free c) = call_watching c
watching (handling c) = call_watching c
watching rechecking = 1
watching retaking = 1
watching t = 0

-- Whether the thread is inside a sendPost or a registerSend of this session.
abbrev pub call_busy : Call → ℕ
call_busy (posting m) = 1
call_busy flagging = 1
call_busy winning = 1
call_busy announcing = 1
call_busy c = 0

abbrev pub busy : Thread → ℕ
busy (free c) = call_busy c
busy (handling c) = call_busy c
busy rechecking = 1
busy retaking = 1
busy t = sender t

-- How many letters the thread has still to take from the queue.
abbrev pub drains : Thread → ℕ
drains (draining n) = n
drains t = 0

-- Whether the thread is to post the release, or gives the slot a new life, or has called AcceptEx for
-- it and not set the count.
abbrev pub call_notices : Call → ℕ
call_notices notifying = 1
call_notices c = 0

abbrev pub notices : Thread → ℕ
notices (free c) = call_notices c
notices (handling c) = call_notices c
notices t = 0

abbrev pub opens : Thread → ℕ
opens arming = 1
opens armed = 1
opens t = 0

abbrev pub arms : Thread → ℕ
arms armed = 1
arms t = 0

-- Whether the thread will look for a count of 0.
abbrev pub call_checks : Call → ℕ
call_checks releasing = 1
call_checks c = 0

abbrev pub checks : Thread → ℕ
checks (free c) = call_checks c
checks (handling c) = call_checks c
checks t = 0

abbrev pub total : (Thread → ℕ) → List Thread → ℕ
total w [] = 0
total w (t ∷ ts) = w t + total w ts

pub total-middle :
    (w : Thread → ℕ) (before after : List Thread) (t : Thread)
    → total w (before ++ (t ∷ after)) ≡ w t + total w (before ++ after)
total-middle w [] after t = refl
total-middle w (b ∷ before) after t = omega (arith, total-middle w before after t)

-- A thread goes from one place to another. `IsRoom` bounds mIOcnt: the references, or the locks that
-- were refused since the release bit was set, never carry into the bit above them.
abbrev pub IsRoom : Slot → Type 0
IsRoom s = s.io_cnt % 2 ^ 14 + 1 < 2 ^ 14

pub data Move (s : Slot) : Thread → Slot → Thread → Type 0 where
  run : (t : Thread) (o : Outcome) → IsRoom s → Move s t (thread_step s t o).0 (thread_step s t o).1
  -- The session's user posts to an id that onAccept gave out, or disconnects any id.
  post_call : (m : Letter) → m.owner ≤ s.known → Move s (free returned) s (free (post_locking m))
  close_call : (target : ℕ) → Move s (free returned) s (free (close_locking target))
  handler_post :
      (m : Letter) → m.owner ≤ s.known → Move s (handling returned) s (handling (post_locking m))
  handler_close : (target : ℕ) → Move s (handling returned) s (handling (close_locking target))
  -- A handler that registers no further receive.
  leave : Move s (handling returned) s finishing
  recv_done : (n : ℕ) → 1 ≤ s.recvs → Move s (free returned) (take_recv s n).0 (take_recv s n).1
  send_done : 1 ≤ s.sends → Move s (free returned) (record s { sends = s.sends - 1 }) sending
  release_done : 1 ≤ s.releases → Move s (free returned) (complete_release s) (free returned)
  -- registerAcceptEx takes the slot's index from the stack and gives the session a new id.
  reuse :
      (id : ℕ)
      → 1 ≤ s.parked
      → s.session_id < id
      → Move s (free returned) (record s { parked = s.parked - 1; session_id = id }) arming
  drop_index :
      1 ≤ s.parked
      → Move s
          (free returned)
          (record s { parked = s.parked - 1; dropped = s.dropped + 1 })
          (free returned)

pub record System : Type 0 where
  pub slot : Slot
  pub threads : List Thread

-- The completion of AcceptEx: a running server's, or one that has been stopped.
pub data Accept (s : Slot) : Slot → Thread → Type 0 where
  entered : Accept s (complete_accept_ex s) (handling returned)
  stopped : Accept s (record s { accepts = s.accepts - 1 }) finishing

-- One step of the system. The completion of AcceptEx is taken when no thread stands between its call
-- of AcceptEx and the line that sets mIOcnt.
pub data Step : System → System → Type 0 where
  pick :
      {s s' : Slot} {t t' : Thread} (before after : List Thread)
      → Move s t s' t'
      → Step
          (record { slot = s; threads = before ++ (t ∷ after) })
          (record { slot = s'; threads = before ++ (t' ∷ after) })
  accept :
      {s s' : Slot} {t' : Thread} (before after : List Thread)
      → 1 ≤ s.accepts
      → total arms (before ++ after) ≡ 0
      → Accept s s' t'
      → Step
          (record { slot = s; threads = before ++ (free returned ∷ after) })
          (record { slot = s'; threads = before ++ (t' ∷ after) })

-- The slot behind the constructor's registerAcceptEx.
abbrev pub fresh : Slot
fresh = record {
  io_cnt = 1;
  session_id = 1;
  live = 0;
  send_flag = 0;
  accepted = 0;
  queue = [];
  in_flight = [];
  accepts = 1;
  recvs = 0;
  sends = 0;
  releases = 0;
  parked = 0;
  dropped = 0;
  known = 0;
  lost = 0;
  joined = 0;
  left = 0;
  enqueued = [];
  handed = [];
  wrapped = 0;
}

-- Any number of threads, none of them in a call.
abbrev pub resting : ℕ → List Thread
resting zero = []
resting (suc n) = free returned ∷ resting n

pub data Reach (n : ℕ) : System → Type 0 where
  start : Reach n (record { slot = fresh; threads = resting n })
  next : {a b : System} → Reach n a → Step a b → Reach n b
