-- ===== src/Menu/History.antt =====
-- internal/tui/history.go: the counts of the last day, the list of runs and the log of a run.
pub mod Ends
use sbackup.Base.{
  ℕ, zero, suc, ◌+◌, ◌-◌, ◌*◌, String, Bool, true, false, not, ◌&&◌, ◌||◌, List, [], ◌∷◌, Option,
  none, some, length, drop, filter, ltb, if◌then◌else◌, ◌==◌, string_eq,
}
use sbackup.Base.Int.{ℤ, pos}
use sbackup.Base.Time.{hour}
use sbackup.Config.{Config, Job}
use sbackup.Store.{Run}
use sbackup.Store.Runs.{recent_runs}
use sbackup.Menu.{
  Machine, Session, M, ◌>>=◌, ◌>>◌, pure, read_line, the_config, act, menu, read_runs, read_log,
}
use sbackup.Menu.Ask.{select}
use sbackup.Menu.Jobs.{at_index, selected_job}

pub record Counts : Type 0 where
  pub success : ℕ
  pub warning : ℕ
  pub failed : ℕ
  pub running : ℕ

unfoldable pub counted : Run → Counts → Counts
counted r n =
    if r.status == "success"
    then record n { success = n.success + 1 }
    else if r.status == "warning"
    then record n { warning = n.warning + 1 }
    else if r.status == "failed"
    then record n { failed = n.failed + 1 }
    else if r.status == "running"
    then record n { running = n.running + 1 }
    else n

-- The loop of `recentRunCounts`; the order of the rows does not matter for the sums.
unfoldable pub count_since : ℕ → List Run → Counts
count_since cutoff [] = record { success = 0; warning = 0; failed = 0; running = 0 }
count_since cutoff (r ∷ rs) =
    let rest = count_since cutoff rs in if ltb r.started_at cutoff then rest else counted r rest

-- `recentRunCounts`, on the rows of the table `runs`
unfoldable pub recent_run_counts : ℕ → List Run → Counts
recent_run_counts now rows = count_since (now - 24 * hour) (recent_runs "" (pos 100) rows)

abbrev is_problem : Run → Bool
is_problem r = r.status == "failed" || r.status == "warning"

-- The runs that `browseRuns` lists.
unfoldable pub browsed : String → Bool → List Run → List Run
browsed job_id only_problems rows =
    let runs = recent_runs job_id (pos 50) rows in
    if only_problems then filter is_problem runs else runs

-- The entries that `showRunLog` shows.
unfoldable pub last_entries : {A : Type 0} → List A → List A
last_entries entries = drop (if ltb 200 (length entries) then length entries - 200 else 0) entries

module _ (machine : Machine) (rows : ℕ → List Run) where
  -- The table `runs`, if the database can be opened and read.
  unfoldable pub read_table : String → M (Option (List Run))
  read_table path s = elim (act machine (read_runs path) s) [
    | none ↦ none
    | some (found, s') ↦ some (if found then some (rows (length s.actions)) else none, s')
  ]

  -- `showRunLog`, which ends with a `pause` whether the log can be read or not
  unfoldable pub show_run_log : Run → M (Unit {0})
  show_run_log r = do
    _ ← if r.log_path == "" then pure false else act machine (read_log r.log_path)
    _ ← read_line
    pure tt

  -- `showRunDetail`
  unfoldable pub show_run_detail : Run → M (Unit {0})
  show_run_detail r = do choice ← read_line; if choice == "1" then show_run_log r else pure tt

  unfoldable pub choose_run : List Run → M (Unit {0})
  choose_run [] = do _ ← read_line; pure tt
  choose_run (r ∷ rs) = do
    i ← select (r ∷ rs)
    elim (at_index (r ∷ rs) i) [ none ↦ pure tt | some chosen ↦ show_run_detail chosen ]

  -- `browseRuns`
  unfoldable pub browse_runs : String → Bool → M (Unit {0})
  browse_runs job_id only_problems = do
    c ← the_config
    table ← read_table c.global.state_db
    elim table [ none ↦ pure tt | some found ↦ choose_run (browsed job_id only_problems found) ]

  unfoldable pub history_round : String → M (Unit {0})
  history_round choice =
      if choice == "1"
      then browse_runs "" false
      else if choice == "2"
      then (do
        j ← selected_job
        elim j [ none ↦ pure tt | some chosen ↦ browse_runs chosen.id false ])
      else if choice == "3"
      then browse_runs "" true
      else pure tt

  -- `historyMenu`
  unfoldable pub history_menu : M (Unit {0})
  history_menu = menu history_round
