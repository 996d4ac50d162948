-- ===== src/Auth/Thread/Faults.antt =====
-- MY_ASSERT of LoginThread::HeartBeatCheck (FieldServer/FieldServer.cpp): what a client that says nothing does to
-- the authentication thread.
use my_mmoproject.Base.{
  ℕ, ◌+◌, ◌≤◌, ◌≡◌, ◌⊎◌, inl, inr, refl, sym, ◌∙◌, true, false, List, [], ◌∷◌, arith, Bool-cases,
}
use my_mmoproject.Fault.{ok, err, debug_break}
use my_mmoproject.Actor.{Platform}
use my_mmoproject.Player.{Player}
use my_mmoproject.Auth.Thread.{heart_beat, is_overdue}

module _ (pl : Platform) where
  open pl use {F}

  -- Somebody is connected and has been silent for 30 seconds.
  abbrev pub AnySilent : ℕ → List (Player F) → Type 0
  AnySilent now [] = ⊥
  AnySilent now (p ∷ ps) = ((p.connect ≡ true) × (p.last_time + 30000 ≤ now)) ⊎ AnySilent now ps

  overdue_lem :
      (now : ℕ) (p : Player F)
      → ((p.connect ≡ true) × (p.last_time + 30000 ≤ now) → is_overdue pl now p ≡ true)
        × (is_overdue pl now p ≡ true → (p.connect ≡ true) × (p.last_time + 30000 ≤ now))
  overdue_lem now p = (λ h. ground arith, λ h. (ground arith, ground arith))

  -- The heart beat passes exactly when nobody on the thread is connected and has been silent for 30 seconds;
  -- else it stops the process.
  pub heart_beat_lem :
      (now : ℕ) (ps : List (Player F))
      → ((AnySilent now ps → heart_beat pl now ps ≡ err debug_break)
          × ((AnySilent now ps → ⊥) → heart_beat pl now ps ≡ ok tt))
  unfolding heart_beat
  heart_beat_lem now [] = (λ o. absurd o, λ n. refl)
  heart_beat_lem now (p ∷ ps) =
      let (stops, passes) = heart_beat_lem now ps in
      let (late, silent) = overdue_lem now p in
      elim (Bool-cases (is_overdue pl now p)) [
        | inl over ↦ (λ o. rw over refl, λ n. absurd (n (inl (silent over))))
        | inr early ↦ (
          λ o. elim o [
            | inl h ↦ absurd (let e : false ≡ true = sym early ∙ late h in cc)
            | inr o' ↦ rw early (stops o')
          ],
          λ n. rw early (passes (λ o. n (inr o))),
        )
      ]
