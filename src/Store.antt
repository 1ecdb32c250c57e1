-- ===== src/Store.antt =====
-- internal/store/store.go: the state database. A table is the list of its rows; a row holds times as
-- instants, since `parseTime` reads back what `timeValue` writes, and NULL where the time is zero.
pub mod Sql
pub mod Runs
pub mod Logs
pub mod Queue
mod Tests
use sbackup.Base.{ℕ, String, List, ◌∷◌, [], Bool}
use sbackup.Base.Int.{ℤ}

pub record Run : Type 0 where
  pub id : String
  pub job_id : String
  pub status : String
  pub phase : String
  pub scheduled_at : ℕ
  pub started_at : ℕ
  pub finished_at : ℕ
  pub snapshot_id : String
  pub files_new : ℤ
  pub files_changed : ℤ
  pub files_unmodified : ℤ
  pub bytes_added : ℤ
  pub bytes_processed : ℤ
  pub duration_ms : ℤ
  pub warning : String
  pub error_code : String
  pub error_summary : String
  pub log_path : String

-- A row of `outbox`. `payload` is the encoded JSON; `created_at` is a column that `Outbox` lacks.
pub record Outbox : Type 0 where
  pub id : String
  pub kind : String
  pub destination_id : String
  pub payload : String
  pub attempts : ℤ
  pub next_attempt_at : ℕ
  pub created_at : ℕ
  pub last_error : String

-- The errors that the SQL itself raises: a NULL in `started_at`, an `id` that is there already, no row.
pub data StoreError : Type 0 where
  not_null_violation unique_violation no_rows : StoreError
