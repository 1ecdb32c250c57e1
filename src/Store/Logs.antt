-- ===== src/Store/Logs.antt =====
-- `DeleteJobRuns`: the rows of a job, and the log files below the log directory.
pub mod Confined
use sbackup.Base.{
  String, Bool, true, false, not, ◌&&◌, List, [], ◌∷◌, if◌then◌else◌, ◌==◌, string_eq, filter,
  Option, none, some, Result, ok, err,
}
use sbackup.Base.Int.{pos}
use sbackup.Base.FilePath.{rel}
use sbackup.Store.{Run}
use sbackup.Store.Runs.{recent_runs}

-- The tests on what `filepath.Rel` returns.
unfoldable pub below : Option (List String) → Bool
below none = false
below (some []) = false
below (some (e ∷ es)) = not (e == "..")

-- `pathWithin`
unfoldable pub path_within : String → String → Bool
path_within root path =
    if root == "" then false else if path == "" then false else below (rel root path)

pub data LogError : Type 0 where
  outside_log_dir : String → LogError
  remove_failed : String → LogError

-- The paths that `os.Remove` was called on, and the errors that were collected.
pub record Removal : Type 0 where
  pub removed : List String
  pub errors : List LogError

-- What `os.Remove` answers: whether it fails with something else than a missing file.
module _ (remove_fails : String → Bool) where
  -- the body of the loop over the runs
  pub remove_log : String → Run → Removal → Removal
  remove_log log_dir run done =
      if run.log_path == ""
      then done
      else if not (path_within log_dir run.log_path)
      then record done { errors = outside_log_dir run.log_path ∷ done.errors }
      else if remove_fails run.log_path
      then record done {
        removed = run.log_path ∷ done.removed;
        errors = remove_failed run.log_path ∷ done.errors;
      }
      else record done { removed = run.log_path ∷ done.removed }

  pub remove_logs : String → List Run → Removal → Removal
  remove_logs log_dir [] done = done
  remove_logs log_dir (run ∷ runs) done = remove_logs log_dir runs (remove_log log_dir run done)

  -- What follows the deletion of the rows.
  pub delete_logs_of : Bool → String → List Run → Removal
  delete_logs_of delete_logs log_dir runs =
      if delete_logs
      then remove_logs log_dir runs (record { removed = []; errors = [] })
      else record { removed = []; errors = [] }

  -- `DeleteJobRuns`, with the errors of its query and of its statement: the rows that are left, and what
  -- happened to the log files.
  pub delete_job_runs :
      Option String
      → Option String
      → String
      → Bool
      → String
      → List Run
      → Result String Removal × List Run
  delete_job_runs (some e) delete_error job_id delete_logs log_dir rows = (err e, rows)
  delete_job_runs none (some e) job_id delete_logs log_dir rows = (err e, rows)
  delete_job_runs none none job_id delete_logs log_dir rows = (
    ok (delete_logs_of delete_logs log_dir (recent_runs job_id (pos 1000000) rows)),
    filter (λ r. not (r.job_id == job_id)) rows,
  )
