-- ===== src/Store/Runs.antt =====
-- The table `runs`: saving a run, and the queries on its history.
pub mod Saving
pub mod History
use sbackup.Base.{
  ℕ, zero, suc, String, Bool, true, false, not, ◌&&◌, ◌||◌, List, [], ◌∷◌, Result, ok, err,
  if◌then◌else◌, ◌==◌, string_eq, filter, find, take, any, map, drop,
}
use sbackup.Base.Int.{ℤ, pos, pos_part, ltb_ℤ}
use sbackup.Base.Time.{is_zero, format, stamp_lt}
use sbackup.Store.{Run, StoreError, not_null_violation, no_rows}
use sbackup.Store.Sql.{order_by}

-- `ON CONFLICT(id) DO UPDATE`: the columns that the statement does not list stay.
unfoldable pub update_row : Run → Run → Run
update_row old r = record r { job_id = old.job_id; started_at = old.started_at }

unfoldable pub upsert : Run → List Run → List Run
upsert r [] = r ∷ []
upsert r (x ∷ rows) =
    let later = upsert r rows in if x.id == r.id then update_row x r ∷ rows else x ∷ later

-- `SaveRun`: `started_at` is NOT NULL, and `timeValue` makes NULL of the zero time.
unfoldable pub save_run : Run → List Run → Result StoreError (List Run)
save_run r rows = if is_zero r.started_at then err not_null_violation else ok (upsert r rows)

-- `SELECT … WHERE id=?`, which the table's key makes unique
unfoldable pub row : String → List Run → List Run
row id rows = filter (λ r. r.id == id) rows

-- `ORDER BY started_at DESC`
unfoldable pub newer : Run → Run → Bool
newer a b = stamp_lt (format b.started_at) (format a.started_at)

-- `RecentRuns`
unfoldable pub recent_runs : String → ℤ → List Run → List Run
recent_runs job_id limit rows =
    let n = if ltb_ℤ (pos 0) limit then pos_part limit else 20 in
    take n (order_by newer (filter (λ r. job_id == "" || r.job_id == job_id) rows))

unfoldable pub first_row : List Run → Result StoreError Run
first_row [] = err no_rows
first_row (r ∷ rs) = ok r

-- `LastRun`
unfoldable pub last_run : String → List Run → Result StoreError Run
last_run job_id rows = first_row (recent_runs job_id (pos 1) rows)

-- `LastCompletedBefore`
unfoldable pub last_completed_before : String → String → List Run → Result StoreError Run
last_completed_before job_id run_id rows = first_row (
    take 1 (
      order_by newer (
        filter (λ r. r.job_id == job_id && (not (r.id == run_id) && not (r.status == "running")))
          rows)))

abbrev pub among : List Run → Run → Bool
among kept r = any (λ k. r.id == k.id) kept

-- The part of `Prune` on runs: all but the newest `max_runs` go.
unfoldable pub prune_runs : ℤ → List Run → List Run
prune_runs max_runs rows =
    if ltb_ℤ (pos 0) max_runs
    then filter (among (take (pos_part max_runs) (order_by newer rows))) rows
    else rows
