-- ===== src/Config.antt =====
-- internal/config/config.go: the configuration, with its lookups. A pointer that may be nil is an
-- `Option`.
pub mod Std
pub mod Validate
pub mod WellFormed
pub mod References
pub mod File
pub mod Tests
use sbackup.Base.{String, Bool, List, [], ◌∷◌, Option, find, ◌==◌, string_eq}
use sbackup.Base.Int.{ℤ}

pub record Global : Type 0 where
  pub hostname : String
  pub display_name : String
  pub timezone : String
  pub language : String
  pub state_db : String
  pub temp_dir : String
  pub log_dir : String
  pub max_parallel_jobs : ℤ
  pub log_retention_days : ℤ
  pub log_max_total_mb : ℤ

pub record Tools : Type 0 where
  pub restic_path : String
  pub rclone_path : String
  pub pg_dump_path : String
  pub mysql_dump_path : String
  pub sqlite_path : String

pub record WebdavStorage : Type 0 where
  pub remote_name : String
  pub url : String
  pub vendor : String
  pub username : String
  pub rclone_config : String
  pub remote_root : String
  pub verify_tls : Bool
  pub ca_file : String
  pub allow_http : Bool
  pub allow_private_network : Bool
  pub transfers : ℤ
  pub checkers : ℤ
  pub timeout : String
  pub retries : ℤ
  pub retries_sleep : String

pub record SftpStorage : Type 0 where
  pub host : String
  pub port : ℤ
  pub username : String
  pub path : String
  pub key_file : String

pub record S3Storage : Type 0 where
  pub endpoint : String
  pub bucket : String
  pub prefix : String
  pub region : String
  pub credential_file : String
  pub path_style : Bool

pub record Storage : Type 0 where
  pub id : String
  pub name : String
  pub type : String
  pub repository_path : String
  pub password_file : String
  pub webdav : Option WebdavStorage
  pub sftp : Option SftpStorage
  pub s3 : Option S3Storage

pub record Database : Type 0 where
  pub id : String
  pub name : String
  pub type : String
  pub host : String
  pub port : ℤ
  pub database : String
  pub username : String
  pub credential_file : String
  pub path : String
  pub format : String
  pub connect_timeout : String
  pub ssl_mode : String
  pub single_transaction : Bool

pub record Sources : Type 0 where
  pub paths : List String
  pub databases : List String
  pub one_file_system : Bool
  pub strict_paths : Bool

pub record Schedule : Type 0 where
  pub enabled : Bool
  pub type : String
  pub expression : String
  pub persistent : Bool
  pub randomized_delay : String
  pub grace_period : String
  pub timeout : String

pub record Retention : Type 0 where
  pub keep_last : ℤ
  pub keep_hourly : ℤ
  pub keep_daily : ℤ
  pub keep_weekly : ℤ
  pub keep_monthly : ℤ
  pub keep_yearly : ℤ
  pub keep_within : String
  pub forget_after_backup : Bool
  pub prune_schedule : String

pub record Verification : Type 0 where
  pub metadata_after_backup : Bool
  pub standard_schedule : String
  pub full_schedule : String
  pub full_read_data_subset : String

pub record Restic : Type 0 where
  pub compression : String
  pub read_concurrency : ℤ
  pub pack_size_mb : ℤ
  pub extra_tags : List String
  pub backup_mode : String

pub record JobNotifications : Type 0 where
  pub on_success : List String
  pub on_warning : List String
  pub on_failure : List String
  pub on_recovery : List String

pub record JobMonitoring : Type 0 where
  pub report : Bool
  pub heartbeat : Bool

pub record Job : Type 0 where
  pub id : String
  pub name : String
  pub enabled : Bool
  pub storage_id : String
  pub sources : Sources
  pub excludes : List String
  pub schedule : Schedule
  pub retention : Retention
  pub verification : Verification
  pub restic : Restic
  pub notifications : JobNotifications
  pub monitoring : JobMonitoring

-- A value of `map[string]any` as YAML gives it, with what `fmt.Sprint` prints of one that is no string;
-- nil is `other "<nil>"`. The elements of a list are a string or what is printed of them.
pub data Item : Type 0 where
  string_item printed_item : String → Item

pub data Any : Type 0 where
  text : String → Any
  int : ℤ → Any
  -- a `float64` with its whole part
  float : ℤ → String → Any
  strings : List String → String → Any
  items : List Item → String → Any
  other : String → Any

pub record Notification : Type 0 where
  pub id : String
  pub name : String
  pub type : String
  pub enabled : Bool
  pub settings : List (String × Any)
  pub secret_file : String

pub record Monitoring : Type 0 where
  pub enabled : Bool
  pub endpoint : String
  pub node_id : String
  pub key_file : String
  pub key_version : ℤ
  pub report_system_info : Bool
  pub report_capacity_stats : Bool
  pub heartbeat_enabled : Bool
  pub heartbeat_interval : String
  pub request_timeout : String
  pub max_pending_events : ℤ
  pub event_retention : String

pub record Config : Type 0 where
  pub version : ℤ
  pub global : Global
  pub tools : Tools
  pub storages : List Storage
  pub databases : List Database
  pub jobs : List Job
  pub notifications : List Notification
  pub monitoring : Monitoring

-- `Config.Job`: the first job with the id
unfoldable pub job : Config → String → Option Job
job c id = find (λ j. j.id == id) c.jobs

-- `Config.Storage`
unfoldable pub storage : Config → String → Option Storage
storage c id = find (λ s. s.id == id) c.storages

-- `Config.Database`
unfoldable pub database : Config → String → Option Database
database c id = find (λ d. d.id == id) c.databases

-- `Config.Notification`
unfoldable pub notification : Config → String → Option Notification
notification c id = find (λ n. n.id == id) c.notifications
