-- ===== src/Config/Validate/Whole.antt =====
-- `Validate` as a whole: the defaults that it fills in, and its checks in order.
use sbackup.Base.{
  String, Bool, true, false, not, ◌&&◌, ◌||◌, [], Option, none, some, if◌then◌else◌, ◌==◌,
  string_eq, Result, ok, err, reject_if, ◌>>=◌, ◌>>◌, map,
}
use sbackup.Base.Int.{ℤ, pos, ltb_ℤ, int_eq}
use sbackup.Base.Text.{has_prefix, has_suffix}
use sbackup.Base.FilePath.{is_abs}
use sbackup.Config.{Global, Storage, Database, Notification, Monitoring, Config}
use sbackup.Config.Std.{Std, Url}
use sbackup.Config.Validate.Fields.{
  ConfigError, bad_version, bad_timezone, not_absolute, bad_global, incomplete_monitoring,
  insecure_endpoint, bad_endpoint, bad_endpoint_path, bad_request_timeout, bad_event_retention,
  bad_key_version, bad_heartbeat, Seen, positive, parse_duration,
}
use sbackup.Config.Validate.Storages.{check_storages, check_databases, check_notifications}
use sbackup.Config.Validate.Jobs.{Known, check_jobs}

abbrev or_default : String → String → String
or_default value fallback = if value == "" then fallback else value

-- The assignments at the head of `Validate`.
unfoldable pub fill_defaults : Global → Global
fill_defaults g = record g {
  state_db = or_default g.state_db "/var/lib/sbackup/state.db";
  temp_dir = or_default g.temp_dir "/var/lib/sbackup/tmp";
  log_dir = or_default g.log_dir "/var/log/sbackup";
  timezone = or_default g.timezone "UTC";
}

-- The maps that the loops over storages, databases and notifications build.
unfoldable pub known_ids : Config → Known
known_ids c = record {
  storage_ids = map (λ (s : Storage). s.id) c.storages;
  db_ids = map (λ (d : Database). d.id) c.databases;
  notify_ids = map (λ (n : Notification). n.id) c.notifications;
}

abbrev is_given : Option ℤ → Bool
is_given none = false
is_given (some d) = true

module _ (std : Std) where
  unfoldable pub check_global : Global → Result ConfigError (Unit {0})
  check_global g = do
    reject_if (not (std.known_location g.timezone)) bad_timezone
    reject_if (not (is_abs g.state_db) || (not (is_abs g.temp_dir) || not (is_abs g.log_dir)))
        not_absolute
    reject_if
        (ltb_ℤ g.max_parallel_jobs (pos 1)
          || (ltb_ℤ g.log_retention_days (pos 0) || ltb_ℤ g.log_max_total_mb (pos 0)))
        bad_global

  check_endpoint : Option Url → Result ConfigError (Unit {0})
  check_endpoint none = err bad_endpoint
  check_endpoint (some u) = do
    reject_if u.has_user bad_endpoint
    reject_if (not (has_suffix u.path "/api/v1/report")) bad_endpoint_path

  unfoldable pub check_monitoring : Monitoring → Result ConfigError (Unit {0})
  unfolding check_endpoint
  check_monitoring m = do
    reject_if (m.endpoint == "" || (m.node_id == "" || m.key_file == "")) incomplete_monitoring
    reject_if (not (has_prefix (std.to_lower m.endpoint) "https://")) insecure_endpoint
    check_endpoint (std.parse_url m.endpoint)
    reject_if
        (not (m.request_timeout == "") && not (positive (std.parse_duration m.request_timeout)))
        bad_request_timeout
    reject_if
        (not (m.event_retention == "") && not (is_given (parse_duration std m.event_retention)))
        bad_event_retention
    reject_if (ltb_ℤ m.key_version (pos 1)) bad_key_version
    reject_if (m.heartbeat_enabled && not (positive (std.parse_duration m.heartbeat_interval)))
        bad_heartbeat

  unfoldable pub check_ids : Config → Result ConfigError Seen
  check_ids c = do
    seen ← check_storages std c.storages []
    seen' ← check_databases c.databases seen
    seen'' ← check_notifications c.notifications seen'
    check_jobs std (known_ids c) c.jobs seen''

  -- `Validate`: the configuration with its defaults filled in, or the first error
  unfoldable pub validate : Config → Result ConfigError Config
  validate c = do
    reject_if (not (c.version == pos 1)) bad_version
    check_global (fill_defaults c.global)
    _ ← check_ids c
    if c.monitoring.enabled then check_monitoring c.monitoring else ok tt
    ok (record c { global = fill_defaults c.global })
