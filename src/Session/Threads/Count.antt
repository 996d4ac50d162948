-- ===== src/Session/Threads/Count.antt =====
-- What the threads and the completions account for in a session slot, and that every step of a thread
-- in a call keeps it.
pub mod Calls
pub mod Moves
use my_mmoproject.Base.{ℕ, ◌+◌, ◌≤◌, ◌<◌, ◌^◌, ◌≡◌, ◌⊎◌, length}
use my_mmoproject.Session.{Slot, Thread, free, handling, post_locking, posting}
use my_mmoproject.Session.Threads.{
  holds, sender, watching, busy, drains, notices, opens, arms, checks,
}

-- `n w` is the sum over the threads of what `w` says of one. A life of the slot is counted, or it has
-- ended: then one thread or completion has the slot, and nothing refers to the session.
pub record IsCounted (s : Slot) (n : (Thread → ℕ) → ℕ) : Type 0 where
  pub flag : s.send_flag ≤ 1
  pub one_sender : n sender + s.sends ≤ s.send_flag
  pub letters : n drains ≤ length s.queue
  pub lives :
      ((n notices + n opens + s.releases + s.parked + s.dropped ≡ 0)
        × (s.io_cnt ≡ n holds + s.recvs + s.sends + s.accepts + s.lost)
        × (s.io_cnt < 2 ^ 14))
      ⊎ ((n notices + n opens + s.releases + s.parked + s.dropped ≡ 1)
          × (n holds + s.recvs + s.sends + s.lost ≡ 0)
          × (s.accepts ≡ n arms)
          × (2 ^ 14 ≤ s.io_cnt)
          × (s.io_cnt < 2 ^ 15))
  pub untouched :
      (s.send_flag + length s.queue + length s.in_flight + n busy + s.sends + s.accepted ≡ 0)
      ⊎ ((s.session_id ≤ s.known) × (n opens + s.parked + s.dropped ≡ 0))
  pub announced : s.known ≤ s.session_id
  pub one_accept : s.accepts ≤ 1
  pub unknown : (s.accepts ≡ 0) ⊎ (s.known < s.session_id)
  pub new_id : (n opens ≡ 0) ⊎ (s.known < s.session_id)
  pub woken : (length s.queue ≡ 0) ⊎ (1 ≤ s.send_flag) ⊎ (1 ≤ n watching) ⊎ (1 ≤ s.wrapped)
  pub short : (length s.queue < 2 ^ 16) ⊎ (1 ≤ s.wrapped)
  pub stuck : (s.send_flag ≡ 0) ⊎ (1 ≤ n sender + s.sends) ⊎ (s.live ≡ 0) ⊎ (1 ≤ s.lost)
  pub checked : (1 ≤ s.io_cnt) ⊎ (1 ≤ n checks)
  pub one_entry : s.accepted ≤ 1
  pub entries : s.joined ≡ s.left + s.accepted

-- What holds of the threads by where they stand, whatever the slot.
pub record IsPool (n : (Thread → ℕ) → ℕ) : Type 0 where
  pub busy_holds : n busy ≤ n holds
  pub sender_busy : n sender ≤ n busy
  pub watching_busy : n watching ≤ n busy
  pub arms_opens : n arms ≤ n opens
  pub idle_drains : (n sender ≡ 0) → n drains ≡ 0

-- The id that a thread posts to was given out, and behind the lock it is the session's.
abbrev pub Fits : Slot → Thread → Type 0
Fits s (free (post_locking m)) = m.owner ≤ s.known
Fits s (free (posting m)) = (m.owner ≡ s.session_id) × (m.owner ≤ s.known)
Fits s (handling (post_locking m)) = m.owner ≤ s.known
Fits s (handling (posting m)) = (m.owner ≡ s.session_id) × (m.owner ≤ s.known)
Fits s t = Unit
