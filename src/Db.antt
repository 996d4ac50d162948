-- ===== src/Db.antt =====
-- dbThread of FieldServer/FieldServer.cpp: the requests of a field's thread (Contents/DBJob.h) and the
-- answers to them. MySQL and Redis stand behind the record Store; a nickname, a member of the ranking, is
-- the number of its bytes, as it is in Player.
pub mod Sort
pub mod Ranks
mod Tests
use my_mmoproject.Base.{
  ℕ, ◌+◌, ◌-◌, ◌*◌, ◌%◌, ◌^◌, Bool, true, false, ◌&&◌, List, [], ◌∷◌, ◌++◌, Option, none, some, ltb,
  leb, ◌==◌, if◌then◌else◌, length, map, take,
}
use my_mmoproject.Actor.{Platform, Position}
use my_mmoproject.Packet.{RankEntry}
use my_mmoproject.Field.{Job, position_save, kill_count_update, ranking_query}
use my_mmoproject.Field.Leave.{DbResult, position_saved, kill_count_updated, ranking_result}

-- The two databases as dbThread calls them: the UPDATEs of Accounts, ZINCRBY and ZSCORE, ZREVRANGE (the
-- members with the highest scores, the highest one first) and ZREVRANK of ranking:killcount, HSET and
-- HMGET (one field's value at a time) of ranking:lastkilltime. An update says whether it succeeded.
pub record Store (F : Type 0) : Type 1 where
  pub State : Type 0
  pub save_position : State → ℕ → Position F → State × Bool
  pub add_kills : State → ℕ → ℕ → State × Bool
  pub zincrby : State → ℕ → ℕ → State × Bool
  pub zrevrange : State → ℕ → List (ℕ × ℕ)
  pub zrevrank : State → ℕ → Option ℕ
  pub zscore : State → ℕ → Option ℕ
  pub hset : State → ℕ → ℕ → State × Bool
  pub hget : State → ℕ → Option ℕ

-- DBRankingResult::MAX_TOP_ENTRY
abbrev pub max_top_entry : ℕ
max_top_entry = 200

-- A missing time is an empty string, which counts as 0.
abbrev pub time_or_zero : Option ℕ → ℕ
time_or_zero none = 0
time_or_zero (some t) = t

abbrev pub zip_times : List ℕ → List ℕ → List (ℕ × ℕ)
zip_times [] times = []
zip_times (m ∷ ms) [] = []
zip_times (m ∷ ms) (t ∷ times) = (m, t) ∷ zip_times ms times

-- lastKillTimeMap[m]: of a member's entries the last one counts, and without one it is 0.
abbrev pub kill_time : List (ℕ × ℕ) → ℕ → ℕ → ℕ
kill_time [] m found = found
kill_time ((k, t) ∷ times) m found = kill_time times m (if k == m then t else found)

-- std::sort of a run by the members' times.
unfoldable pub insert_entry : (ℕ → ℕ) → ℕ × ℕ → List (ℕ × ℕ) → List (ℕ × ℕ)
insert_entry time e [] = e ∷ []
insert_entry time e (d ∷ ds) =
    let later = insert_entry time e ds in
    if ltb (time d.0) (time e.0) then d ∷ later else e ∷ d ∷ ds

unfoldable pub sort_entries : (ℕ → ℕ) → List (ℕ × ℕ) → List (ℕ × ℕ)
sort_entries time [] = []
sort_entries time (e ∷ es) = insert_entry time e (sort_entries time es)

abbrev pub member : ℕ × ℕ → ℕ
member e = e.0

-- What the loop does with a run of equal scores; `hget` gives each member's time.
unfoldable pub sort_run : (ℕ → Option ℕ) → List (ℕ × ℕ) → List (ℕ × ℕ)
sort_run hget run =
    let members = map member run in
    let times = zip_times members (map (λ m. time_or_zero (hget m)) members) in
    if ltb 1 (length run) then sort_entries (λ m. kill_time times m 0) run else run

-- The two loops over the scores: `run` is what stands from `i` up to `j`, and `score` its score.
unfoldable pub break_ties : (ℕ → Option ℕ) → ℕ → List (ℕ × ℕ) → List (ℕ × ℕ) → List (ℕ × ℕ)
break_ties hget score run [] = sort_run hget run
break_ties hget score run (e ∷ es) =
    let longer = break_ties hget score (run ++ (e ∷ [])) es in
    let next = break_ties hget e.1 (e ∷ []) es in
    if e.1 == score then longer else sort_run hget run ++ next

unfoldable pub order_top : (ℕ → Option ℕ) → List (ℕ × ℕ) → List (ℕ × ℕ)
order_top hget [] = []
order_top hget (e ∷ es) = break_ties hget e.1 (e ∷ []) es

-- The first 19 bytes of a member, and its kills.
abbrev pub rank_entry : ℕ × ℕ → RankEntry
rank_entry (m, score) = record { nickname = m % 256 ^ 19; kill_count = score }

-- mRank, with -1 as its bits where the player has none.
abbrev pub my_rank : Option ℕ → ℕ
my_rank none = 2 ^ 64 - 1
my_rank (some r) = r + 1

module _ {F : Type 0} (store : Store F) where
  open store use {State, save_position, add_kills, zincrby, zrevrange, zrevrank, zscore, hset, hget}

  -- What dbThread does with one request; `now` is std::time.
  unfoldable pub run_job : ℕ → Job F → State → State × DbResult
  run_job now (position_save id account p) s =
      let (s', done) = save_position s account p in (s', position_saved id)
  run_job now (kill_count_update id account nickname kills) s =
      let (s', db_ok) = add_kills s account kills in
      let (s'', redis_ok) = zincrby s' nickname kills in
      let (s''', time_ok) = hset s'' nickname now in (s''', kill_count_updated id)
  run_job now (ranking_query id account nickname) s =
      let top = order_top (hget s) (zrevrange s max_top_entry) in
      (
        s,
        ranking_result id (map rank_entry top) (my_rank (zrevrank s nickname))
            (time_or_zero (zscore s nickname)),
      )

  -- The loop over what the request queue holds, and the answers in order.
  unfoldable pub run_jobs : ℕ → List (Job F) → State → State × List DbResult
  run_jobs now [] s = (s, [])
  run_jobs now (j ∷ js) s =
      let (s', r) = run_job now j s in let (s'', rs) = run_jobs now js s' in (s'', r ∷ rs)
