-- ===== src/Store/Runs/Saving.antt =====
-- What `SaveRun` does to the table.
use sbackup.Base.{
  ◌≡◌, ◌≢◌, refl, String, List, [], ◌∷◌, ok, arith, eq_iff, eq_refl, if◌then◌else◌, ◌==◌, string_eq,
  filter, Bool-cases, inl, inr,
}
use mathlib.Core.Path.{subst}
use sbackup.Store.{Run}
use sbackup.Store.Runs.{update_row, upsert, save_run, row}

-- The primary key: no two rows have the same id.
unfoldable pub IsKeyed : List Run → Type 0
IsKeyed [] = Unit
IsKeyed (r ∷ rows) = (row r.id rows ≡ []) × IsKeyed rows

-- The row of an id after a save: for another id what it was, for the run's own id the run, with the
-- start and the job of the row that was there. Every column is named.
pub saved : Run → List Run → List Run
saved r [] = r ∷ []
saved r (old ∷ _) =
    record {
      id = r.id;
      job_id = old.job_id;
      status = r.status;
      phase = r.phase;
      scheduled_at = r.scheduled_at;
      started_at = old.started_at;
      finished_at = r.finished_at;
      snapshot_id = r.snapshot_id;
      files_new = r.files_new;
      files_changed = r.files_changed;
      files_unmodified = r.files_unmodified;
      bytes_added = r.bytes_added;
      bytes_processed = r.bytes_processed;
      duration_ms = r.duration_ms;
      warning = r.warning;
      error_code = r.error_code;
      error_summary = r.error_summary;
      log_path = r.log_path;
    }
    ∷ []

row-upsert_other :
    (r : Run) (rows : List Run) (id : String) → id ≢ r.id → row id (upsert r rows) ≡ row id rows
unfolding row upsert filter update_row
row-upsert_other r [] id h = ground (arith, eq_iff r.id id)
row-upsert_other r (x ∷ rows) id h =
    ground (arith, eq_iff r.id id, eq_iff x.id r.id, eq_iff x.id id, row-upsert_other r rows id)

row-upsert_self :
    (r : Run) (rows : List Run) → IsKeyed rows → row r.id (upsert r rows) ≡ saved r (row r.id rows)
unfolding row upsert filter saved IsKeyed update_row
row-upsert_self r [] h = ground (arith, eq_refl r.id)
row-upsert_self r (x ∷ rows) h =
    ground (arith, eq_iff x.id r.id, eq_refl r.id, row-upsert_self r rows)

-- A missing id is missing however it is written.
pub row-nil : (rows : List Run) {i j : String} → i ≡ j → row i rows ≡ [] → row j rows ≡ []
row-nil rows e = subst (λ k. row k rows ≡ []) e

upsert-IsKeyed : (r : Run) (rows : List Run) → IsKeyed rows → IsKeyed (upsert r rows)
unfolding upsert IsKeyed row filter update_row
upsert-IsKeyed r [] h = (refl, tt)
upsert-IsKeyed r (x ∷ rows) h = elim (Bool-cases (x.id == r.id)) [
  | inl e ↦ rw e (row-nil rows ((eq_iff x.id r.id).0 e) h.0, h.1)
  | inr e ↦
      rw e
        (ground (arith, eq_iff x.id r.id, row-upsert_other r rows x.id), upsert-IsKeyed r rows h.1)
]

-- Saving keeps the primary key: in particular a run that is saved again has one row.
pub save_run-IsKeyed :
    (r : Run) (rows : List Run) {rows' : List Run}
    → IsKeyed rows
    → save_run r rows ≡ ok rows'
    → IsKeyed rows'
unfolding save_run
save_run-IsKeyed r rows k h = ground (arith, upsert-IsKeyed r rows k)

-- After a successful save the id of the run has one row: the run, or, column by column, the run with the
-- job and the start of the row that it replaces. Every other id has the rows that it had.
pub row-save_run :
    (r : Run) (rows : List Run) (id : String) {rows' : List Run}
    → IsKeyed rows
    → save_run r rows ≡ ok rows'
    → row id rows' ≡ (if r.id == id then saved r (row id rows) else row id rows)
unfolding save_run
row-save_run r rows id k h =
    ground (arith, eq_iff r.id id, row-upsert_self r rows k, row-upsert_other r rows id)
