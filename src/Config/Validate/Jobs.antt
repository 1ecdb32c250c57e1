-- ===== src/Config/Validate/Jobs.antt =====
-- The loop of `Validate` over the jobs.
use sbackup.Base.{
  String, Bool, true, not, ◌&&◌, ◌||◌, List, [], ◌∷◌, ◌++◌, if◌then◌else◌, ◌==◌, string_eq, Result,
  ok, err, reject_if, ◌>>=◌, ◌>>◌, any, nat_eq, length, ◌+◌,
}
use sbackup.Base.Int.{pos}
use sbackup.Base.Time.{minute}
use sbackup.Base.Text.{split, trim_space}
use sbackup.Config.{Job}
use sbackup.Config.Std.{Std}
use sbackup.Config.Validate.Fields.{
  Kind, ConfigError, no_such_storage, no_such_database, no_such_notification, no_sources,
  bad_timeout, no_expression, empty_calendar, bad_interval, bad_schedule_type, bad_randomized_delay,
  bad_read_subset, bad_grace_period, bad_backup_mode, bad_compression, duplicate_sources,
  empty_retention, Seen, validate_id, retention_empty, has_duplicates, valid_read_subset, positive,
  at_least,
}

-- The maps `storageIDs`, `dbIDs` and `notifyIDs`.
pub record Known : Type 0 where
  pub storage_ids : List String
  pub db_ids : List String
  pub notify_ids : List String

unfoldable pub is_known : List String → String → Bool
is_known ids id = any (λ k. k == id) ids

-- A loop that refuses the first id that is missing.
unfoldable pub all_known : List String → List String → Bool
all_known ids [] = true
all_known ids (x ∷ xs) = is_known ids x && all_known ids xs

abbrev pub groups : Job → List String
groups j =
    j.notifications.on_success
    ++ (j.notifications.on_warning ++ (j.notifications.on_failure ++ j.notifications.on_recovery))

module _ (std : Std) where
  check_trigger : Job → String → Result ConfigError (Unit {0})
  check_trigger j type =
      if type == "calendar"
      then reject_if (any (λ e. trim_space e == "") (split b';' j.schedule.expression))
          (empty_calendar j.id)
      else if type == "interval"
      then reject_if (not (at_least (pos minute) (std.parse_duration j.schedule.expression)))
          (bad_interval j.id)
      else err (bad_schedule_type j.id)

  check_enabled : Job → Result ConfigError (Unit {0})
  unfolding check_trigger
  check_enabled j = do
    reject_if (j.schedule.expression == "") (no_expression j.id)
    check_trigger j (if j.schedule.type == "" then "calendar" else j.schedule.type)

  unfoldable pub check_schedule : Job → Result ConfigError (Unit {0})
  unfolding check_enabled
  check_schedule j = do
    reject_if
        (not (j.schedule.timeout == "") && not (positive (std.parse_duration j.schedule.timeout)))
        (bad_timeout j.id)
    if j.schedule.enabled then check_enabled j else ok tt

  unfoldable pub check_delays : Job → Result ConfigError (Unit {0})
  check_delays j = do
    reject_if
        (not (j.schedule.randomized_delay == "")
          && not (at_least (pos 0) (std.parse_duration j.schedule.randomized_delay)))
        (bad_randomized_delay j.id)
    reject_if
        (not (j.verification.full_read_data_subset == "")
          && not (valid_read_subset j.verification.full_read_data_subset))
        (bad_read_subset j.id)
    reject_if
        (not (j.schedule.grace_period == "")
          && not (at_least (pos 0) (std.parse_duration j.schedule.grace_period)))
        (bad_grace_period j.id)

  unfoldable pub check_options : Job → Result ConfigError (Unit {0})
  check_options j = do
    reject_if
        (not (j.restic.backup_mode == "")
          && (not (j.restic.backup_mode == "incremental") && not (j.restic.backup_mode == "full")))
        (bad_backup_mode j.id)
    reject_if
        (not (j.restic.compression == "")
          && (not (j.restic.compression == "auto")
              && (not (j.restic.compression == "off") && not (j.restic.compression == "max"))))
        (bad_compression j.id)
    reject_if (has_duplicates j.sources.paths || has_duplicates j.sources.databases)
        (duplicate_sources j.id)
    reject_if (retention_empty j.retention) (empty_retention j.id)

  unfoldable pub check_references : Known → Job → Result ConfigError (Unit {0})
  check_references known j = do
    reject_if (not (is_known known.storage_ids j.storage_id)) (no_such_storage j.id)
    reject_if (length j.sources.paths + length j.sources.databases == 0) (no_sources j.id)
    reject_if (not (all_known known.db_ids j.sources.databases)) (no_such_database j.id)
    reject_if (not (all_known known.notify_ids (groups j))) (no_such_notification j.id)

  -- the body of the loop over `c.Jobs`, behind `validateID`
  unfoldable pub check_job : Known → Job → Result ConfigError (Unit {0})
  check_job known j = do check_references known j; check_schedule j; check_delays j; check_options j

  unfoldable pub check_jobs : Known → List Job → Seen → Result ConfigError Seen
  check_jobs known [] seen = ok seen
  check_jobs known (j ∷ rest) seen = do
    seen' ← validate_id Kind.job j.id seen
    check_job known j
    check_jobs known rest seen'
