-- ===== src/Db/Ranks.antt =====
-- The order of a ranking: by kills, and where these are equal by the time of the last kill.
use mathlib.Core.List.{Perm}
use mathlib.Core.List.Perm
use my_mmoproject.Base.{
  ℕ, ◌≤◌, ◌<◌, ◌≡◌, ◌⊎◌, inl, inr, refl, ap, ◌∙◌, subst, true, false, List, [], ◌∷◌, ◌++◌, Option,
  ltb, ◌==◌, if◌then◌else◌, arith, Bool-cases, length, map, append-nil, append_assoc,
}
use my_mmoproject.Db.{
  time_or_zero, zip_times, kill_time, sort_entries, member, sort_run, break_ties, order_top,
}
use my_mmoproject.Db.Sort.{
  Entry, All, All-append, All-map, SortedBy, All-sort, sort-SortedBy, sort-perm,
}

-- The scores as ZREVRANGE gives them.
abbrev pub IsDescending : List Entry → Type 0
IsDescending [] = Unit
IsDescending (e ∷ es) = All (λ d. d.1 ≤ e.1) es × IsDescending es

module _ (hget : ℕ → Option ℕ) where
  -- The time of an entry's last kill.
  abbrev pub last_kill : Entry → ℕ
  last_kill e = time_or_zero (hget e.0)

  -- An entry that may stand before another one.
  abbrev pub Before : Entry → Entry → Type 0
  Before d e = (e.1 < d.1) ⊎ ((e.1 ≡ d.1) × (last_kill d ≤ last_kill e))

  abbrev pub IsRanked : List Entry → Type 0
  IsRanked [] = Unit
  IsRanked (e ∷ es) = All (Before e) es × IsRanked es

  append-IsRanked :
      (l r : List Entry)
      → IsRanked l
      → IsRanked r
      → All (λ d. All (Before d) r) l
      → IsRanked (l ++ r)
  append-IsRanked [] r a b c = b
  append-IsRanked (e ∷ l) r a b c =
      (All-append (Before e) l r a.0 c.0, append-IsRanked l r a.1 b c.1)

-- The map that is built from the answers of HMGET gives each member of the run its own time.
module _ (t : ℕ → ℕ) where
  abbrev times_of : List ℕ → List (ℕ × ℕ)
  times_of ms = zip_times ms (map t ms)

  kill_time_missing : (ms : List ℕ) (m : ℕ) → kill_time (times_of ms) m (t m) ≡ t m
  kill_time_missing [] m = refl
  kill_time_missing (k ∷ ms) m = elim (Bool-cases (k == m)) [
    | inl same ↦
        let e : k ≡ m = ground (arith, same) in
        rw same (ap (λ x. kill_time (times_of ms) m (t x)) e ∙ kill_time_missing ms m)
    | inr other ↦ rw other (kill_time_missing ms m)
  ]

  kill_time_any :
      (es : List Entry) → All (λ e. (f : ℕ) → kill_time (times_of (map member es)) e.0 f ≡ t e.0) es
  kill_time_any [] = tt
  kill_time_any (e ∷ es) = (
    λ f.
        let same : (e.0 == e.0) ≡ true = ground arith in
        rw same (kill_time_missing (map member es) e.0),
    All-map es (λ d h f. h (if e.0 == d.0 then t e.0 else f)) (kill_time_any es),
  )

module _ (hget : ℕ → Option ℕ) where
  abbrev times : List Entry → List (ℕ × ℕ)
  times run = zip_times (map member run) (map (λ m. time_or_zero (hget m)) (map member run))

  abbrev run_time : List Entry → ℕ → ℕ
  run_time run m = kill_time (times run) m 0

  -- A run of one score, sorted by the right times, is ranked.
  sorted-IsRanked :
      (time : ℕ → ℕ) (score : ℕ) (es : List Entry)
      → SortedBy time es
      → All (λ e. e.1 ≡ score) es
      → All (λ e. time e.0 ≡ last_kill hget e) es
      → IsRanked hget es
  unfolding SortedBy
  sorted-IsRanked time score [] s a b = tt
  sorted-IsRanked time score (e ∷ es) s a b =
      (before es s.0 a.1 b.1, sorted-IsRanked time score es s.1 a.1 b.1)
    where
      before :
          (ds : List Entry)
          → All (λ d. time e.0 ≤ time d.0) ds
          → All (λ d. d.1 ≡ score) ds
          → All (λ d. time d.0 ≡ last_kill hget d) ds
          → All (Before hget e) ds
      before [] s' a' b' = tt
      before (d ∷ ds) s' a' b' =
          (inr (omega (arith, a'.0, a.0), omega (arith, s'.0, b'.0, b.0)), before ds s'.1 a'.1 b'.1)

  All-sort_run : (P : Entry → Type 0) (run : List Entry) → All P run → All P (sort_run hget run)
  unfolding sort_run
  All-sort_run P run a = elim (Bool-cases (ltb 1 (length run))) [
    | inl many ↦ rw many (All-sort (run_time run) P run a)
    | inr few ↦ rw few a
  ]

  sort_run-perm : (run : List Entry) → Perm (sort_run hget run) run
  unfolding sort_run
  sort_run-perm run = elim (Bool-cases (ltb 1 (length run))) [
    | inl many ↦ rw many (sort-perm (run_time run) run)
    | inr few ↦ rw few Perm.rfl
  ]

  short-IsRanked : (run : List Entry) → ltb 1 (length run) ≡ false → IsRanked hget run
  short-IsRanked [] few = tt
  short-IsRanked (e ∷ []) few = (tt, tt)
  short-IsRanked (e ∷ d ∷ ds) few = absurd (ground arith)

  sort_run-IsRanked :
      (score : ℕ) (run : List Entry)
      → All (λ e. e.1 ≡ score) run
      → IsRanked hget (sort_run hget run)
  unfolding sort_run
  sort_run-IsRanked score run a = elim (Bool-cases (ltb 1 (length run))) [
    | inl many ↦
        let time = run_time run in
        rw many (
          sorted-IsRanked time score (sort_entries time run) (sort-SortedBy time run)
            (All-sort time (λ e. e.1 ≡ score) run a)
            (All-sort time (λ e. time e.0 ≡ last_kill hget e) run
              (All-map run (λ e h. h 0) (kill_time_any (λ m. time_or_zero (hget m)) run))))
    | inr few ↦ rw few (short-IsRanked run few)
  ]

  All-break :
      (P : Entry → Type 0) (score : ℕ) (run es : List Entry)
      → All P run
      → All P es
      → All P (break_ties hget score run es)
  unfolding break_ties
  All-break P score run [] a b = All-sort_run P run a
  All-break P score run (e ∷ es) a b = elim (Bool-cases (e.1 == score)) [
    | inl tie ↦
        rw tie (All-break P score (run ++ (e ∷ [])) es (All-append P run (e ∷ []) a (b.0, tt)) b.1)
    | inr ends ↦ rw ends (
        All-append P (sort_run hget run) (break_ties hget e.1 (e ∷ []) es) (All-sort_run P run a)
          (All-break P e.1 (e ∷ []) es (b.0, tt) b.1))
  ]

  break-IsRanked :
      (score : ℕ) (run es : List Entry)
      → All (λ e. e.1 ≡ score) run
      → All (λ e. e.1 ≤ score) es
      → IsDescending es
      → IsRanked hget (break_ties hget score run es)
  unfolding break_ties
  break-IsRanked score run [] a b d = sort_run-IsRanked score run a
  break-IsRanked score run (e ∷ es) a b d = elim (Bool-cases (e.1 == score)) [
    | inl tie ↦
        let same : e.1 ≡ score = ground (arith, tie) in
        rw tie (
          break-IsRanked score (run ++ (e ∷ [])) es
            (All-append (λ x. x.1 ≡ score) run (e ∷ []) a (same, tt)) b.1 d.1)
    | inr ends ↦
        let below : e.1 < score = ground (arith, ends, b.0) in
        let next = break_ties hget e.1 (e ∷ []) es in
        let bounded : All (λ x. x.1 ≤ e.1) next =
          All-break (λ x. x.1 ≤ e.1) e.1 (e ∷ []) es (omega arith, tt) d.0 in
        rw ends (
          append-IsRanked hget (sort_run hget run) next (sort_run-IsRanked score run a)
            (break-IsRanked e.1 (e ∷ []) es (refl, tt) d.0 d.1)
            (All-map (sort_run hget run)
              (λ x h. All-map next (λ y le. inl (omega (arith, below, h, le))) bounded)
              (All-sort_run (λ x. x.1 ≡ score) run a)))
  ]

  break-perm : (score : ℕ) (run es : List Entry) → Perm (break_ties hget score run es) (run ++ es)
  unfolding break_ties
  break-perm score run [] = rw append-nil (sort_run-perm run)
  break-perm score run (e ∷ es) = elim (Bool-cases (e.1 == score)) [
    | inl tie ↦ rw tie (
        subst (Perm (break_ties hget score (run ++ (e ∷ [])) es)) (append_assoc run (e ∷ []) es)
          (break-perm score (run ++ (e ∷ [])) es))
    | inr ends ↦ rw ends (Perm.append (sort_run-perm run) (break-perm e.1 (e ∷ []) es))
  ]

  -- Of the members that Redis lists by falling scores, the answer to a ranking request lists each as often,
  -- by falling scores, and those of equal scores by the times of their last kills.
  pub order_top-IsRanked :
      (top : List Entry)
      → IsDescending top
      → IsRanked hget (order_top hget top) × Perm (order_top hget top) top
  unfolding order_top
  order_top-IsRanked [] d = (tt, Perm.rfl)
  order_top-IsRanked (e ∷ es) d =
      (break-IsRanked e.1 (e ∷ []) es (refl, tt) d.0 d.1, break-perm e.1 (e ∷ []) es)
