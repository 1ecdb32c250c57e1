-- ===== src/Store/Logs/Confined.antt =====
-- Deleting the history of a job stays within its rows and within the log directory.
use sbackup.Base.{
  String, ◌≡◌, ◌≢◌, refl, Bool, true, false, not, ◌&&◌, ◌||◌, List, [], ◌∷◌, ◌++◌, arith, eq_iff,
  ◌==◌, string_eq, Option, none, some, Result, ok, err, All, All-filter_self, All-imp, Bool-cases,
  inl, inr, filter, if◌then◌else◌,
}
use sbackup.Base.FilePath.{CleanPath, clean, rel_parts, rel, climb}
use sbackup.Base.Int.{pos}
use sbackup.Store.Runs.{recent_runs}
use sbackup.Store.{Run}
use sbackup.Store.Logs.{
  below, path_within, Removal, remove_log, remove_logs, delete_logs_of, delete_job_runs,
}

-- A path lies strictly below a directory: its elements are those of the directory and at least one
-- more, the first of which does not lead back up.
pub record LiesBelow (root path : CleanPath) : Type 0 where
  pub first : String
  pub others : List String
  pub extends : path.parts ≡ root.parts ++ first ∷ others
  pub not_up : first ≢ ".."
  pub same_root : path.rooted ≡ root.rooted

-- A relative path that does not begin with `..` is what the target has beyond the base.
rel_parts-append :
    (base target : List String) {e : String} {es : List String}
    → rel_parts base target ≡ some (e ∷ es)
    → e ≢ ".."
    → target ≡ base ++ e ∷ es
unfolding rel_parts climb
rel_parts-append [] target h n = cc
rel_parts-append (b ∷ bs) [] h n = ground (arith)
rel_parts-append (b ∷ bs) (t ∷ ts) {e} {es} h n =
    ground (arith, eq_iff b t, rel_parts-append bs ts {e = e} {es = es})

both_rooted : (a b : Bool) → ((a && b) || (not a && not b)) ≡ true → b ≡ a
both_rooted a b h = ground arith

rel-eq-some :
    (root path : String) {o : List String}
    → rel root path ≡ some o
    → ((clean path).rooted ≡ (clean root).rooted)
      × (rel_parts (clean root).parts (clean path).parts ≡ some o)
unfolding rel
rel-eq-some root path {o} h = use_clean (clean root) (clean path) h
  where
    use_clean :
        (b t : CleanPath)
        → (if (b.rooted && t.rooted) || (not b.rooted && not t.rooted)
            then rel_parts b.parts t.parts
            else none)
          ≡ some o
        → (t.rooted ≡ b.rooted) × (rel_parts b.parts t.parts ≡ some o)
    use_clean b t e = ground arith

below-rel :
    (root path : String) (o : Option (List String))
    → rel root path ≡ o
    → below o ≡ true
    → LiesBelow (clean root) (clean path)
unfolding below
below-rel root path none e h = cc
below-rel root path (some []) e h = cc
below-rel root path (some (x ∷ xs)) e h =
    let up : x ≢ ".." = ground (arith, eq_iff x "..") in
    record {
      first = x;
      others = xs;
      extends = rel_parts-append _ _ (rel-eq-some root path e).1 up;
      not_up = up;
      same_root = (rel-eq-some root path e).0;
    }

-- A path that `pathWithin` accepts lies strictly below the cleaned directory.
pub path_within-LiesBelow :
    (root path : String) → path_within root path ≡ true → LiesBelow (clean root) (clean path)
unfolding path_within
path_within-LiesBelow root path h = below-rel root path (rel root path) refl (ground arith)

-- The rows of a job.
pub of_job : String → List Run → List Run
of_job id rows = filter (λ r. r.job_id == id) rows

of_job-delete :
    (job_id other : String) (rows : List Run)
    → other ≢ job_id
    → of_job other (filter (λ r. not (r.job_id == job_id)) rows) ≡ of_job other rows
unfolding of_job filter
of_job-delete job_id other [] h = refl
of_job-delete job_id other (r ∷ rows) h =
    ground (arith, eq_iff r.job_id job_id, eq_iff r.job_id other, of_job-delete job_id other rows)

module _ (remove_fails : String → Bool) (log_dir : String) where
  -- What has been removed lies within the log directory.
  abbrev pub IsConfined : Removal → Type 0
  IsConfined done = All (λ p. path_within log_dir p ≡ true) done.removed

  remove_log-IsConfined :
      (run : Run) (done : Removal)
      → IsConfined done
      → IsConfined (remove_log remove_fails log_dir run done)
  unfolding remove_log
  remove_log-IsConfined run done h = elim (Bool-cases (run.log_path == "")) [
    | inl e ↦ rw e h
    | inr e ↦ elim (Bool-cases (path_within log_dir run.log_path)) [
      | inr out ↦ rw (e, out) h
      | inl within ↦ elim (Bool-cases (remove_fails run.log_path)) [
        | inl f ↦ rw (e, within, f) (within, h)
        | inr f ↦ rw (e, within, f) (within, h)
      ]
    ]
  ]

  remove_logs-IsConfined :
      (runs : List Run) (done : Removal)
      → IsConfined done
      → IsConfined (remove_logs remove_fails log_dir runs done)
  unfolding remove_logs
  remove_logs-IsConfined [] done h = h
  remove_logs-IsConfined (run ∷ runs) done h =
      remove_logs-IsConfined runs (remove_log remove_fails log_dir run done)
        (remove_log-IsConfined run done h)

  delete_logs_of-IsConfined :
      (delete_logs : Bool) (runs : List Run)
      → IsConfined (delete_logs_of remove_fails delete_logs log_dir runs)
  unfolding delete_logs_of
  delete_logs_of-IsConfined true runs =
      remove_logs-IsConfined runs (record { removed = []; errors = [] }) tt
  delete_logs_of-IsConfined false runs = tt

  -- What `DeleteJobRuns` leaves, by the errors of its query and of its statement.
  abbrev pub Deletion :
      Option String → Option String → String → List Run → Result String Removal × List Run → Type 0
  Deletion (some e) delete_error job_id rows (result, left) = (result ≡ err e) × (left ≡ rows)
  Deletion none (some e) job_id rows (result, left) = (result ≡ err e) × (left ≡ rows)
  Deletion none none job_id rows (err e, left) = ⊥
  Deletion none none job_id rows (ok done, left) =
      All (λ p. LiesBelow (clean log_dir) (clean p)) done.removed
      × All (λ r. r.job_id ≢ job_id) left
      × ((other : String) → other ≢ job_id → of_job other left ≡ of_job other rows)

  -- `DeleteJobRuns` returns the error of the database and leaves the rows as they were, if its query or its
  -- statement fails; otherwise it leaves no row of the job, keeps every row of another job, and removes
  -- only files strictly below the log directory.
  pub delete_job_runs_confined :
      (query_error delete_error : Option String) (job_id : String) (delete_logs : Bool)
      (rows : List Run)
      → Deletion query_error delete_error job_id rows
          (delete_job_runs remove_fails query_error delete_error job_id delete_logs log_dir rows)
  unfolding delete_job_runs
  delete_job_runs_confined (some e) delete_error job_id delete_logs rows = (refl, refl)
  delete_job_runs_confined none (some e) job_id delete_logs rows = (refl, refl)
  delete_job_runs_confined none none job_id delete_logs rows = (
    All-imp (path_within-LiesBelow log_dir) _
        (delete_logs_of-IsConfined delete_logs (recent_runs job_id (pos 1000000) rows)),
    All-imp (λ r e. ground (arith, eq_iff r.job_id job_id)) _ (All-filter_self _ rows),
    λ other h. of_job-delete job_id other rows h,
  )
