-- ===== src/Config/Tests.antt =====
-- The validation of a small configuration.
use sbackup.Base.{All, ok, ◌≡◌, refl}
use sbackup.Config.Validate.Whole.{
  validate, check_global, fill_defaults, check_ids, known_ids, check_monitoring,
}
use sbackup.Base.FilePath.{is_abs}
use sbackup.Config.Validate.Storages.{
  check_storages, check_storage, check_databases, check_database, check_notifications,
}
use sbackup.Config.Validate.Fields.{
  validate_id, matches_id, owner, all_rest, has_duplicates, has_duplicates_after, id_codes,
  retention_empty,
}
use sbackup.Config.Validate.Jobs.{
  check_jobs, check_job, check_references, is_known, all_known, check_delays, check_options,
  check_schedule,
}
use sbackup.Base.Int.{wrap64, ◌+ℤ◌}
use sbackup.Base.Text.{has_suffix}
use sbackup.Config.WellFormed.{IsAccepted, validate-IsAccepted}
use sbackup.Config.References.{IsRunnable, validate-IsRunnable}
use sbackup.Samples.{small, simple_std}

pub small_accepted : validate simple_std small ≡ ok small
unfolding validate check_global is_abs fill_defaults check_ids check_storages validate_id matches_id
    owner check_storage check_databases check_database check_notifications check_jobs check_job
    check_references is_known known_ids wrap64 ◌+ℤ◌ has_suffix all_rest has_duplicates
    has_duplicates_after id_codes retention_empty all_known check_delays check_options
    check_schedule check_monitoring
small_accepted = refl

validate-IsAccepted_example : IsAccepted simple_std small
validate-IsAccepted_example = validate-IsAccepted simple_std small small_accepted

validate-IsRunnable_example : All (IsRunnable small) small.jobs
validate-IsRunnable_example = validate-IsRunnable simple_std small small_accepted
