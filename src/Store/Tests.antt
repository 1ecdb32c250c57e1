-- ===== src/Store/Tests.antt =====
-- The tables at concrete rows.
use sbackup.Base.{
  ◌*◌, ◌≡◌, ◌≢◌, refl, [], none, ◌∷◌, ok, true, false, filter, string_eq, eq_iff, arith,
  if◌then◌else◌, ◌==◌, String,
}
use sbackup.Base.Int.{pos}
use sbackup.Base.Time.{minute}
use sbackup.Base.FilePath.{rel}
use sbackup.Base.Text.{split}
use sbackup.Samples.{a_run}
use sbackup.Store.{Run}
use sbackup.Store.Sql.{insert_row, order_by}
use sbackup.Store.Runs.{save_run, row, newer, first_row, last_completed_before, upsert, update_row}
use sbackup.Store.Runs.Saving.{IsKeyed, saved, row-save_run}
use sbackup.Store.Runs.History.{newer_misorders}
use sbackup.Store.Logs.{below, path_within, delete_job_runs}
use sbackup.Store.Logs.Confined.{Deletion, delete_job_runs_confined}
use sbackup.Store.Queue.{outbox_retry_delay}
use sbackup.Store.Queue.Retry.{minutes, outbox_retry_delay_lem}

abbrev job_name : String
job_name = "job"

abbrev e1 : String
e1 = "e1"

abbrev first_try : Run
first_try = a_run "a" "running" 5000000000

abbrev finished_run : Run
finished_run = a_run "a" "success" 6000000000

one_row-IsKeyed : IsKeyed (first_try ∷ [])
unfolding IsKeyed row filter
one_row-IsKeyed = (refl, tt)

saved_again :
    save_run finished_run (first_try ∷ [])
    ≡ ok (record finished_run { started_at = 5000000000 } ∷ [])
unfolding save_run upsert update_row
saved_again = refl

row-save_run_example : row "a" (record finished_run { started_at = 5000000000 } ∷ []) ≡ (
    if finished_run.id == "a"
    then saved finished_run (row "a" (first_try ∷ []))
    else row "a" (first_try ∷ []))
row-save_run_example = row-save_run finished_run (first_try ∷ []) "a" one_row-IsKeyed saved_again

abbrev older_run : Run
older_run = a_run "b" "failed" 4000000000

last_is_older : last_completed_before "job" "a" (first_try ∷ older_run ∷ []) ≡ ok older_run
unfolding last_completed_before first_row order_by insert_row filter
last_is_older = refl

newer_misorders_example : newer (a_run "a" "x" 5000000000) (a_run "b" "x" 5500000000) ≡ true
newer_misorders_example =
    newer_misorders (a_run "a" "x" 5000000000) (a_run "b" "x" 5500000000) 5 500000000 refl refl
      (omega arith) (omega arith)

log_lies_below : path_within "/var/log" "/var/log/a.jsonl" ≡ true
unfolding path_within below rel split
log_lies_below = refl

delete_job_runs_confined_example :
    Deletion
      (λ p. false)
      "/var/log"
      none
      none
      "job"
      (first_try ∷ [])
      (delete_job_runs (λ p. false) none none "job" true "/var/log" (first_try ∷ []))
delete_job_runs_confined_example =
    delete_job_runs_confined (λ p. false) "/var/log" none none "job" true (first_try ∷ [])

outbox_retry_delay_lem_example : outbox_retry_delay (pos 3) ≡ minute * minutes 3
outbox_retry_delay_lem_example = outbox_retry_delay_lem (pos 3)

not_true : false ≡ true → ⊥
not_true h = cc

differ : e1 ≢ "e2"
differ h = not_true ((eq_iff e1 "e2").1 h)
