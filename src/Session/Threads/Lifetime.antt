-- ===== src/Session/Threads/Lifetime.antt =====
-- A session's life under all its threads: it is released once, when nothing refers to it, and its
-- letters are sent by one thread at a time, in order, and never forgotten in the queue.
use my_mmoproject.Base.{
  ℕ, zero, suc, ◌+◌, ◌≤◌, ◌≡◌, ◌⊎◌, refl, sym, subst, List, ◌∷◌, ◌++◌, length, arith, inl,
}
use mathlib.Core.Path.{fun_ext}
use my_mmoproject.Session.{
  Slot, Call, session_lock, increment, Thread, free, returned, complete_accept_ex,
}
use my_mmoproject.Session.Threads.{
  total, total-middle, IsRoom, checks, holds, sender, watching, drains, notices, opens, busy, arms,
  fresh, resting, System, Step, pick, accept, Reach, start, next, Accept, entered, stopped,
}
use my_mmoproject.Session.Threads.Count.{IsCounted, Fits}
use my_mmoproject.Session.Threads.Count.Calls.{with_thread}
use my_mmoproject.Session.Threads.Count.Moves.{Move-IsCounted, Accept-IsCounted}
use my_mmoproject.Session.Threads.Letters.{IsFifo, foreign, Move-IsFifo, Accept-IsFifo}
use my_mmoproject.Session.Threads.Fits.{
  All, All-middle, All-Fits, IsPool-total, Move-Fits, Move-Stays, Stays,
}

abbrev pub sums : List Thread → (Thread → ℕ) → ℕ
sums ts w = total w ts

sums-middle :
    (before after : List Thread) (t : Thread)
    → sums (before ++ (t ∷ after)) ≡ with_thread t (sums (before ++ after))
sums-middle before after t = fun_ext (λ w. total-middle w before after t)

pub record IsSound (a : System) : Type 0 where
  pub counted : IsCounted a.slot (sums a.threads)
  pub fits : All (Fits a.slot) a.threads
  pub letters : IsFifo a.slot

Accept-Fits : {s s' : Slot} {t' : Thread} → Accept s s' t' → Fits s' t'
Accept-Fits entered = tt
Accept-Fits stopped = tt

Accept-Stays :
    {s s' : Slot} {t' : Thread} {others : ℕ}
    → Accept s s' t'
    → s.known ≤ s.session_id
    → Stays s s' others
unfolding complete_accept_ex
Accept-Stays entered k = (k, inl refl)
Accept-Stays stopped k = (omega arith, inl refl)

-- A step of one thread keeps the invariant if it does at the thread beside the sums of the others.
module _ (s s' : Slot) (before after : List Thread) (t t' : Thread)
    (counts : IsCounted s (with_thread t (sums (before ++ after)))
      → Fits s t
      → IsCounted s' (with_thread t' (sums (before ++ after))))
    (fit : Fits s t → Fits s' t')
    (stay : IsCounted s (with_thread t (sums (before ++ after)))
      → Stays s s' (total holds (before ++ after)))
    (kept : IsCounted s (with_thread t (sums (before ++ after)))
      → Fits s t
      → IsFifo s
      → IsFifo s') where
  replaced :
      IsSound (record { slot = s; threads = before ++ (t ∷ after) })
      → IsSound (record { slot = s'; threads = before ++ (t' ∷ after) })
  replaced h =
      let c : IsCounted s (with_thread t (sums (before ++ after))) =
        subst (IsCounted s) (sums-middle before after t) h.counted in
      let (own, others) = (All-middle (Fits s) before after t).0 h.fits in
      record {
        counted = subst (IsCounted s') (sym (sums-middle before after t')) (counts c own);
        fits =
            (All-middle (Fits s') before after t').1
              (fit own, All-Fits s s' (before ++ after) (stay c) others);
        letters = kept c own h.letters;
      }

Step-IsSound : {a b : System} → Step a b → IsSound a → IsSound b
Step-IsSound (pick {s} {s'} {t} {t'} before after mv) h =
    let others = sums (before ++ after) in
    replaced s s' before after t t' (Move-IsCounted s others (IsPool-total (before ++ after)) mv)
      (Move-Fits s mv) (Move-Stays s others mv) (λ c own l. Move-IsFifo s l others mv c own) h
Step-IsSound (accept {s} {s'} {t'} before after some_left none_armed ac) h =
    let others = sums (before ++ after) in
    replaced s s' before after (free returned) t'
      (λ c own.
        Accept-IsCounted s others (IsPool-total (before ++ after)) some_left none_armed ac c)
      (λ own. Accept-Fits ac) (λ c. Accept-Stays ac c.announced) (λ c own l. Accept-IsFifo s l ac) h

total-resting : (w : Thread → ℕ) (n : ℕ) → w (free returned) ≡ 0 → total w (resting n) ≡ 0
total-resting w zero e = refl
total-resting w (suc n) e = omega (arith, total-resting w n e)

Fits-resting : (n : ℕ) → All (Fits fresh) (resting n)
Fits-resting zero = tt
Fits-resting (suc n) = (tt, Fits-resting n)

fresh-IsSound : (n : ℕ) → IsSound (record { slot = fresh; threads = resting n })
fresh-IsSound n =
    let quiet : (w : Thread → ℕ) → w (free returned) ≡ 0 → total w (resting n) ≡ 0 =
      λ w e. total-resting w n e in
    record {
      counted = omega (
        arith,
        quiet holds refl,
        quiet sender refl,
        quiet watching refl,
        quiet drains refl,
        quiet notices refl,
        quiet opens refl,
        quiet arms refl,
        quiet busy refl,
        quiet checks refl,
      );
      fits = Fits-resting n;
      letters = record { fifo = refl; waiting = refl; flying = refl };
    }

pub Reach-IsSound : {n : ℕ} {a : System} → Reach n a → IsSound a
Reach-IsSound {n} start = fresh-IsSound n
Reach-IsSound (next r st) = Step-IsSound st (Reach-IsSound r)

-- The threads and the completions of any run.
module _ {n : ℕ} {a : System} (r : Reach n a) where
  -- When a session's release has been posted, it has been posted once, no thread holds a reference to
  -- the session and none will post another release, no operation of it is pending, and every lock
  -- of it is refused. onRelease has been called once for each onAccept but the one of a session that
  -- is not released yet.
  pub released_alone :
      ((1 ≤ a.slot.releases)
        → (a.slot.releases ≡ 1)
          × (total holds a.threads + total notices a.threads ≡ 0)
          × (a.slot.recvs + a.slot.sends + a.slot.accepts ≡ 0)
          × ((target : ℕ) (inside : Call)
              → IsRoom a.slot
              → session_lock a.slot target inside ≡ (increment a.slot, returned)))
      × (a.slot.joined ≡ a.slot.left + a.slot.accepted)
      × (a.slot.accepted ≤ 1)
  unfolding session_lock
  released_alone =
      let i = Reach-IsSound r in
      let p = IsPool-total a.threads in
      (
        (λ h. (
          omega (arith, h, i.counted.lives),
          omega (arith, h, i.counted.lives),
          omega (arith, h, i.counted.lives, p.arms_opens),
          λ target inside room. ground (arith, h, i.counted.lives, room),
        )),
        i.counted.entries,
        i.counted.one_entry,
      )

  -- A session in use whose operations all started is not left over: once no thread refers to it and
  -- no operation is pending, some thread is about to find the count at 0 and post the release.
  pub unused-checked :
      total notices a.threads
          + total opens a.threads
          + a.slot.releases
          + a.slot.parked
          + a.slot.dropped
        ≡ 0
      → total holds a.threads + a.slot.recvs + a.slot.sends + a.slot.accepts + a.slot.lost ≡ 0
      → 1 ≤ total checks a.threads
  unused-checked h k = let i = Reach-IsSound r in omega (arith, i.counted.lives, i.counted.checked)

  -- At most one thread or completion sends for the session. A letter in the queue has one, or a
  -- thread that will still look at the flag, unless the session is cut off, or an operation of it
  -- failed to start with an error that is not counted back, or its queue has held 65,536 letters at
  -- once, which mSenqQSize, a short, counts as none.
  pub queued_letter_watched :
      (total sender a.threads + a.slot.sends ≤ 1)
      × ((1 ≤ length a.slot.queue)
          → (1 ≤ total sender a.threads + a.slot.sends)
            ⊎ (1 ≤ total watching a.threads)
            ⊎ (a.slot.live ≡ 0)
            ⊎ (1 ≤ a.slot.lost)
            ⊎ (1 ≤ a.slot.wrapped))
  queued_letter_watched =
      let i = Reach-IsSound r in
      (
        omega (arith, i.counted.one_sender, i.counted.flag),
        λ h. omega (arith, h, i.counted.woken, i.counted.stuck),
      )

  -- The letters given to onSend, those in flight and those in the queue are, in this order, the
  -- letters that were queued in this life of the session; all that wait belong to the session, and
  -- a thread that is to take a letter finds one.
  pub letters_in_order :
      (a.slot.enqueued ≡ a.slot.handed ++ (a.slot.in_flight ++ a.slot.queue))
      × (foreign a.slot.session_id a.slot.queue + foreign a.slot.session_id a.slot.in_flight ≡ 0)
      × (total drains a.threads ≤ length a.slot.queue)
  letters_in_order =
      let i = Reach-IsSound r in
      (i.letters.fifo, omega (arith, i.letters.waiting, i.letters.flying), i.counted.letters)
