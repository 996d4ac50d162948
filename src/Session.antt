-- ===== src/Session.antt =====
-- One session slot of _lib/AcceptEx_IOCP_NetworkLib (AcceptEx_IOCP_NetworkLib.cpp, Session.cpp) under all
-- threads that use it: `mIOcnt` with its release bit, `mSendFlag`, the send queue and the completions
-- of the port. A thread's place in the code is a `Call` or a `Thread`; one step of it is one
-- interlocked operation, one locked queue operation or one call of the system.
pub mod Threads
mod Tests
use my_mmoproject.Base.{
  ℕ, zero, suc, ◌+◌, ◌-◌, ◌/◌, ◌%◌, ◌^◌, Bool, true, false, List, [], ◌∷◌, ◌++◌, leb, ◌==◌,
  if◌then◌else◌, length, min,
}

-- A message in the send queue: its owner's id, and which message it is.
pub record Letter : Type 0 where
  pub owner : ℕ
  pub body : ℕ

-- The session and what the port and the system hold of it: `accepts`, `recvs` and `sends` count the
-- operations whose completion no worker has taken, `releases` the release completions; `parked`
-- counts the slot's index in the stack, `dropped` an index that a stopped server took from it. `known`
-- is the last id that onAccept gave out, `lost` the operations whose start failed with an error that
-- checkAndHandleIoError does not count back. `joined` and `left` count the calls of onAccept and
-- onRelease; `enqueued` and `handed` are the letters queued, and given to onSend, in this life, and
-- `wrapped` says whether the queue has held 65,536 letters in it, so that mSenqQSize has come to 0.
pub record Slot : Type 0 where
  pub io_cnt : ℕ
  pub session_id : ℕ
  pub live : ℕ
  pub send_flag : ℕ
  pub accepted : ℕ
  pub queue : List Letter
  pub in_flight : List Letter
  pub accepts : ℕ
  pub recvs : ℕ
  pub sends : ℕ
  pub releases : ℕ
  pub parked : ℕ
  pub dropped : ℕ
  pub known : ℕ
  pub lost : ℕ
  pub joined : ℕ
  pub left : ℕ
  pub enqueued : List Letter
  pub handed : List Letter
  pub wrapped : ℕ

-- Where a thread stands in sendPost, disconnectSession, sessionLock and sessionUnLock.
pub data Call : Type 0 where
  returned : Call
  post_locking : Letter → Call
  posting : Letter → Call
  flagging : Call
  winning : Call
  announcing : Call
  close_locking : ℕ → Call
  closing : Call
  mismatched : Call
  unlocking : Call
  releasing : Call
  notifying : Call

-- InterlockedIncrement16 and InterlockedDecrement16 of mIOcnt, as a bit pattern.
abbrev pub increment : Slot → Slot
increment s = record s { io_cnt = (s.io_cnt + 1) % 2 ^ 16 }

abbrev pub decrement : Slot → Slot
decrement s = record s { io_cnt = (s.io_cnt + (2 ^ 16 - 1)) % 2 ^ 16 }

-- `(ioCnt & RELEASE_IOCOUNT) != 0`, where RELEASE_IOCOUNT is 1 << 14.
abbrev pub has_release_bit : ℕ → Bool
has_release_bit io = leb 1 ((io / 2 ^ 14) % 2)

-- sessionLock: `inside` is where the caller goes on with the session, and `target` the id it wants.
unfoldable pub session_lock : Slot → ℕ → Call → Slot × Call
session_lock s target inside = (
  increment s,
  if has_release_bit ((s.io_cnt + 1) % 2 ^ 16)
      then returned
      else if s.session_id == target
      then inside
      else mismatched,
)

-- The decrement of sessionUnLock and of workerThread.
unfoldable pub session_un_lock : Slot → Slot × Call
session_un_lock s =
    (decrement s, if (s.io_cnt + (2 ^ 16 - 1)) % 2 ^ 16 == 0 then releasing else returned)

-- InterlockedCompareExchange16(&mIOcnt, RELEASE_IOCOUNT, 0) == 0
unfoldable pub try_release : Slot → Slot × Call
try_release s = if s.io_cnt == 0 then (record s { io_cnt = 2 ^ 14 }, notifying) else (s, returned)

-- mSenqQSize, the bits of a short.
abbrev pub queue_size : Slot → ℕ
queue_size s = length s.queue % 2 ^ 16

-- EnQueueMsg
unfoldable pub en_queue_msg : Slot → Letter → Slot
en_queue_msg s m = record s {
  queue = s.queue ++ (m ∷ []);
  enqueued = s.enqueued ++ (m ∷ []);
  wrapped = if leb 65535 (length s.queue) then 1 else s.wrapped;
}

-- The step of a thread in a call.
unfoldable pub call_step : Slot → Call → Slot × Call
unfolding session_lock session_un_lock try_release en_queue_msg
call_step s returned = (s, returned)
call_step s (post_locking m) = session_lock s m.owner (posting m)
call_step s (posting m) = (en_queue_msg s m, flagging)
call_step s flagging =
    if s.send_flag == 0 then (record s { send_flag = 1 }, winning) else (s, unlocking)
call_step s winning = (increment s, announcing)
call_step s announcing = (record s { sends = s.sends + 1 }, unlocking)
call_step s (close_locking target) = session_lock s target closing
call_step s closing = (record s { live = 0 }, unlocking)
call_step s mismatched = (decrement s, releasing)
call_step s unlocking = session_un_lock s
call_step s releasing = try_release s
call_step s notifying = (record s { releases = s.releases + 1 }, returned)

-- Where a thread stands: in a call of its own, in a call of a worker that handles an accept or a
-- receive, or in workerThread, registerRecv, registerSend, completeSend or registerAcceptEx.
pub data Thread : Type 0 where
  free : Call → Thread
  handling : Call → Thread
  recv_posting : Thread
  failing : Thread
  finishing : Thread
  sending : Thread
  filling : Thread
  draining : ℕ → Thread
  transmitting : Thread
  send_posting : Thread
  clearing : Thread
  rechecking : Thread
  retaking : Thread
  rewinning : Thread
  reannouncing : Thread
  arming : Thread
  armed : Thread

-- What WSARecv, WSASend and AcceptEx come to: started, one of the three errors that
-- checkAndHandleIoError knows, or another one.
pub data Outcome : Type 0 where
  started : Outcome
  known_error : Outcome
  other_error : Outcome

-- CONFIG_SEND_MESSAGE_MAXCOUNT
abbrev pub send_message_maxcount : ℕ
send_message_maxcount = 500

-- DeQueueMsgOrNull, into mSendMsgs
unfoldable pub de_queue_msg : Slot → List Letter → Slot
de_queue_msg s [] = s
de_queue_msg s (m ∷ rest) = record s { queue = rest; in_flight = s.in_flight ++ (m ∷ []) }

-- checkAndHandleIoError behind a failed start; after `failing` the count goes back.
unfoldable pub recv_started : Slot → Outcome → Slot × Thread
recv_started s started = (record s { recvs = s.recvs + 1 }, finishing)
recv_started s known_error = (record s { live = 0 }, failing)
recv_started s other_error = (record s { lost = s.lost + 1 }, finishing)

unfoldable pub send_started : Slot → Outcome → Slot × Thread
send_started s started = (record s { sends = s.sends + 1 }, finishing)
send_started s known_error = (record s { live = 0 }, failing)
send_started s other_error = (record s { lost = s.lost + 1 }, finishing)

-- registerSend, its msgCnt; a negative one is not 0, and the loop takes no letter.
unfoldable pub fill : Slot → ℕ → Slot × Thread
fill s size =
    if size == 0
    then (s, clearing)
    else if leb (2 ^ 15) size
    then (s, draining 0)
    else (s, draining (min send_message_maxcount size))

-- registerRecv, with room in the ring: WSARecv is called if the session is live.
unfoldable pub register_recv : Slot → Slot × Thread
register_recv s = if s.live == 0 then (s, finishing) else (increment s, recv_posting)

-- The step of a thread; `outcome` is what the system answers.
unfoldable pub thread_step : Slot → Thread → Outcome → Slot × Thread
unfolding call_step de_queue_msg recv_started send_started fill register_recv
thread_step s (free c) o = let (s', c') = call_step s c in (s', free c')
thread_step s (handling returned) o = register_recv s
thread_step s (handling c) o = let (s', c') = call_step s c in (s', handling c')
thread_step s recv_posting o = recv_started s o
thread_step s failing o = (decrement s, finishing)
thread_step s finishing o = let (s', c') = session_un_lock s in (s', free c')
thread_step s sending o = (record s { handed = s.handed ++ s.in_flight; in_flight = [] }, filling)
thread_step s filling o = fill s (queue_size s)
thread_step s (draining (suc n)) o = (de_queue_msg s s.queue, draining n)
thread_step s (draining zero) o = (s, transmitting)
thread_step s transmitting o = if s.live == 0 then (s, finishing) else (increment s, send_posting)
thread_step s send_posting o = send_started s o
thread_step s clearing o =
    if s.send_flag == 1 then (record s { send_flag = 0 }, rechecking) else (s, finishing)
thread_step s rechecking o = if queue_size s == 0 then (s, finishing) else (s, retaking)
thread_step s retaking o =
    if s.send_flag == 0 then (record s { send_flag = 1 }, rewinning) else (s, finishing)
thread_step s rewinning o = (increment s, reannouncing)
thread_step s reannouncing o = (record s { sends = s.sends + 1 }, finishing)
thread_step s arming started = (record s { accepts = s.accepts + 1 }, armed)
thread_step s arming known_error = (record s { parked = s.parked + 1 }, free returned)
thread_step s arming other_error = (record s { parked = s.parked + 1 }, free returned)
thread_step s armed o = (record s { io_cnt = 1 }, free returned)

-- completeRelease with ReleaseSession: onRelease for a session that was accepted, the queue and
-- what is in flight are deleted, and the index goes back to the stack.
unfoldable pub complete_release : Slot → Slot
complete_release s = record s {
  releases = s.releases - 1;
  left = s.left + s.accepted;
  accepted = 0;
  send_flag = 0;
  queue = [];
  in_flight = [];
  enqueued = [];
  handed = [];
  wrapped = 0;
  parked = s.parked + 1;
}

-- completeAcceptEx up to onAccept.
unfoldable pub complete_accept_ex : Slot → Slot
complete_accept_ex s = record s {
  accepts = s.accepts - 1;
  live = 1;
  accepted = 1;
  joined = s.joined + 1;
  known = s.session_id;
}

-- A worker that takes the completion of a receive; 0 bytes are the client's FIN.
unfoldable pub take_recv : Slot → ℕ → Slot × Thread
take_recv s zero = (record s { recvs = s.recvs - 1; live = 0 }, finishing)
take_recv s (suc n) = (record s { recvs = s.recvs - 1 }, handling returned)
