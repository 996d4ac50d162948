-- ===== src/Db/Tests.antt =====
-- A ranking with a tie. The player whose kills are older stands first in the list, though Redis ranks the
-- other one first.
use mathlib.Core.List.{Perm}
use my_mmoproject.Base.{
  ℕ, ◌≡◌, refl, List, [], ◌∷◌, Option, some, none, Bool, ◌==◌, if◌then◌else◌, arith,
}
use my_mmoproject.Field.{ranking_query}
use my_mmoproject.Field.Leave.{ranking_result}
use my_mmoproject.Db.{Store, order_top, break_ties, sort_run, sort_entries, insert_entry, run_job}
use my_mmoproject.Db.Ranks.{IsRanked, order_top-IsRanked}

abbrev last_kills : ℕ → Option ℕ
last_kills m = if m == 1 then some 9 else if m == 2 then some 3 else none

abbrev tied : List (ℕ × ℕ)
tied = (1, 5) ∷ (2, 5) ∷ (3, 4) ∷ []

ordered : order_top last_kills tied ≡ (2, 5) ∷ (1, 5) ∷ (3, 4) ∷ []
unfolding order_top break_ties sort_run sort_entries insert_entry
ordered = refl

order_top-IsRanked_example :
    IsRanked last_kills (order_top last_kills tied) × Perm (order_top last_kills tied) tied
order_top-IsRanked_example = order_top-IsRanked last_kills tied (omega arith)

abbrev redis : Store ℕ
redis = record {
  State = Unit;
  save_position = λ s a p. (s, Bool.true);
  add_kills = λ s a k. (s, Bool.true);
  zincrby = λ s m k. (s, Bool.true);
  zrevrange = λ s n. tied;
  zrevrank = λ s m. if m == 1 then some 0 else some 1;
  zscore = λ s m. some 5;
  hset = λ s m t. (s, Bool.true);
  hget = λ s. last_kills;
}

-- Member 1 is told that he is first, and listed second.
told_first : run_job redis 0 (ranking_query 7 5 1) tt ≡ (
  tt,
  ranking_result 7
      (record { nickname = 2; kill_count = 5 }
        ∷ record { nickname = 1; kill_count = 5 }
        ∷ record { nickname = 3; kill_count = 4 }
        ∷ [])
      1
      5,
)
unfolding run_job order_top break_ties sort_run sort_entries insert_entry
told_first = refl
