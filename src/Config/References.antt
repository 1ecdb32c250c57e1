-- ===== src/Config/References.antt =====
-- In an accepted configuration every reference of a job finds what it names, and every job can run.
use sbackup.Base.{
  ◌≡◌, ◌≢◌, String, true, false, List, [], ◌∷◌, map, arith, eq_iff, ◌==◌, string_eq, find, some, ok,
  >>-eq-ok, All, All-imp, Bool-cases, inl, inr, ◌⊎◌, length, ◌+◌, ◌<◌,
}
use sbackup.Config.{Storage, Database, Notification, Job, Config, storage, database, notification}
use sbackup.Backup.Options.{keep_options}
use sbackup.Backup.Retention.{are_plain, keep_options-are_plain}
use sbackup.Config.Std.{Std}
use sbackup.Config.Validate.Fields.{retention_empty}
use sbackup.Config.Validate.Jobs.{
  is_known, all_known, groups, check_references, check_schedule, check_delays, check_options,
  check_job,
}
use sbackup.Config.Validate.Whole.{known_ids, validate}
use sbackup.Config.WellFormed.{validate-IsAccepted}

module _ {ℓ} {A : Type ℓ} (id_of : A → String) where
  find-is_known :
      (xs : List A) (id : String)
      → is_known (map id_of xs) id ≡ true
      → (x : A) × (find (λ y. id_of y == id) xs ≡ some x)
  unfolding is_known find
  find-is_known [] id h = cc
  find-is_known (x ∷ xs) id h = elim (Bool-cases (id_of x == id)) [
    | inl e ↦ (x, rw e)
    | inr e ↦ rw e (find-is_known xs id (rw e at h))
  ]

  all_known-All :
      (xs : List A) (ids : List String)
      → all_known (map id_of xs) ids ≡ true
      → All (λ id. (x : A) × (find (λ y. id_of y == id) xs ≡ some x)) ids
  unfolding all_known
  all_known-All xs [] h = tt
  all_known-All xs (id ∷ ids) h =
      (find-is_known xs id (ground arith), all_known-All xs ids (ground arith))

-- What the checks of one job establish.
pub record IsRunnable (c : Config) (j : Job) : Type 0 where
  pub has_storage : (s : Storage) × (storage c j.storage_id ≡ some s)
  pub has_databases : All (λ id. (d : Database) × (database c id ≡ some d)) j.sources.databases
  pub has_notifications : All (λ id. (n : Notification) × (notification c id ≡ some n)) (groups j)
  pub has_sources : 0 < length j.sources.paths + length j.sources.databases
  -- Restic is given a rule, unless a count is negative or huge.
  pub keeps_snapshots : (keep_options j ≢ []) ⊎ (are_plain j.retention ≡ false)
  pub mode_valid :
      (j.restic.backup_mode ≡ "")
      ⊎ (j.restic.backup_mode ≡ "incremental")
      ⊎ (j.restic.backup_mode ≡ "full")

module _ (std : Std) (c : Config) (j : Job) where
  sound_references :
      check_references std (known_ids c) j ≡ ok tt
      → (is_known (known_ids c).storage_ids j.storage_id ≡ true)
        × (0 < length j.sources.paths + length j.sources.databases)
        × (all_known (known_ids c).db_ids j.sources.databases ≡ true)
        × (all_known (known_ids c).notify_ids (groups j) ≡ true)
  unfolding check_references
  sound_references h = ground arith

  sound_options :
      check_options std j ≡ ok tt
      → (retention_empty j.retention ≡ false)
        × ((j.restic.backup_mode ≡ "")
            ⊎ (j.restic.backup_mode ≡ "incremental")
            ⊎ (j.restic.backup_mode ≡ "full"))
  unfolding check_options
  sound_options h = ground (
    arith,
    eq_iff j.restic.backup_mode "",
    eq_iff j.restic.backup_mode "incremental",
    eq_iff j.restic.backup_mode "full",
  )

  parts_of_check_job :
      check_job std (known_ids c) j ≡ ok tt
      → (check_references std (known_ids c) j ≡ ok tt) × (check_options std j ≡ ok tt)
  unfolding check_job
  parts_of_check_job h =
      let (refs, rest) = >>-eq-ok (check_references std (known_ids c) j) _ h in
      let (_, rest') = >>-eq-ok (check_schedule std j) _ rest in
      (refs, (>>-eq-ok (check_delays std j) (check_options std j) rest').1)

  check_job-IsRunnable : check_job std (known_ids c) j ≡ ok tt → IsRunnable c j
  unfolding known_ids storage database notification
  check_job-IsRunnable h =
      let (refs, options) = parts_of_check_job h in
      let (on_storage, sources, on_databases, on_notifications) = sound_references refs in
      let (kept, mode) = sound_options options in
      record {
        has_storage = find-is_known (λ s. s.id) c.storages j.storage_id on_storage;
        has_databases = all_known-All (λ d. d.id) c.databases j.sources.databases on_databases;
        has_notifications = all_known-All (λ n. n.id) c.notifications (groups j) on_notifications;
        has_sources = sources;
        keeps_snapshots = keep_options-are_plain j kept;
        mode_valid = mode;
      }

-- In a configuration that `Validate` accepts each job names a storage, databases and notifications that
-- exist, has a source and a valid mode, and gives `restic forget` at least one rule, unless one of its
-- counts is negative or above a million.
pub validate-IsRunnable :
    (std : Std) (c : Config) {c' : Config} → validate std c ≡ ok c' → All (IsRunnable c) c.jobs
validate-IsRunnable std c h =
    All-imp (λ j. check_job-IsRunnable std c j) c.jobs (validate-IsAccepted std c h).jobs_checked
