-- ===== src/Config/File.antt =====
-- internal/config/config.go: `Default`, `Load` and `Save` over the files of `FileStore`. YAML is a
-- parameter. The directory and the lock on the file change nothing that the model keeps.
pub mod Saved
pub mod Loaded
mod Tests
use sbackup.Base.{ℕ, suc, String, true, false, [], Option, none, some, Result, ok, err, List, ◌∷◌}
use sbackup.Base.Int.{pos}
use sbackup.Base.Text.{concat}
use sbackup.Base.Maps.{lookup, put}
use sbackup.FileStore.{Disk, Faults, Stop, ended, failed, call, go_on, write_file_atomic}
use sbackup.Config.{Config}
use sbackup.Config.Std.{Std}
use sbackup.Config.Validate.Fields.{ConfigError}
use sbackup.Config.Validate.Whole.{validate}

pub record Yaml : Type 0 where
  pub marshal : Config → Result String String
  -- `yaml.Unmarshal` into a configuration that is there already
  pub unmarshal : Config → String → Result String Config

pub data FileError : Type 0 where
  invalid : ConfigError → FileError
  not_found : FileError
  malformed : String → FileError
  stopped : Stop → FileError

-- `Default`, with what `os.Hostname` gives
unfoldable pub default : String → Config
default host = record {
  version = pos 1;
  global = record {
    hostname = host;
    display_name = host;
    timezone = "UTC";
    language = "zh-CN";
    state_db = "/var/lib/sbackup/state.db";
    temp_dir = "/var/lib/sbackup/tmp";
    log_dir = "/var/log/sbackup";
    max_parallel_jobs = pos 1;
    log_retention_days = pos 30;
    log_max_total_mb = pos 500;
  };
  tools = record {
    restic_path = "restic";
    rclone_path = "rclone";
    pg_dump_path = "pg_dump";
    mysql_dump_path = "mysqldump";
    sqlite_path = "sqlite3";
  };
  storages = [];
  databases = [];
  jobs = [];
  notifications = [];
  monitoring = record {
    enabled = false;
    endpoint = "";
    node_id = "";
    key_file = "";
    key_version = pos 1;
    report_system_info = false;
    report_capacity_stats = false;
    heartbeat_enabled = false;
    heartbeat_interval = "5m";
    request_timeout = "10s";
    max_pending_events = pos 10000;
    event_retention = "30d";
  };
}

module _ (std : Std) (faults : Faults) (yaml : Yaml) (host path : String) where
  abbrev checked : Result ConfigError Config → Result FileError Config
  checked (ok c) = ok c
  checked (err e) = err (invalid e)

  abbrev decoded : Result String Config → Result FileError Config
  decoded (ok c) = checked (validate std c)
  decoded (err e) = err (malformed e)

  abbrev read : Result Stop (Unit {0}) → Option String → Result FileError Config
  read (err s) file = err (stopped s)
  read (ok u) none = err not_found
  read (ok u) (some text) = decoded (yaml.unmarshal (default host) text)

  -- `Load`
  unfoldable pub load : Disk → Result FileError Config × Disk
  load d = let (r, d') = call faults d.files d.files d in (read r (lookup path d.files), d')

abbrev pub wrapped : Result Stop (Unit {0}) × Disk → Result FileError (Unit {0}) × Disk
wrapped (ok u, d) = (ok u, d)
wrapped (err s, d) = (err (stopped s), d)

-- `fmt.Errorf("…: %w", err)`
abbrev pub about : String → Result Stop (Unit {0}) × Disk → Result Stop (Unit {0}) × Disk
about what (ok u, d) = (ok u, d)
about what (err ended, d) = (err ended, d)
about what (err (failed e), d) = (err (failed (concat (what ∷ e ∷ []))), d)

module _ (faults : Faults) (path : String) where
  -- The old contents go to the `.bak` file before the new ones replace them.
  unfoldable pub replace : String → Option String → Disk → Result Stop (Unit {0}) × Disk
  replace text none d = write_file_atomic faults path text d
  replace text (some old) d =
      go_on faults (write_file_atomic faults path text)
        (about "备份配置文件: " (write_file_atomic faults (concat (path ∷ ".bak" ∷ [])) old d))

  -- `os.OpenFile(path+".lock", os.O_CREATE|os.O_RDWR, 0600)`
  abbrev pub opened : Option String → Disk → List (String × String)
  opened none d = put (concat (path ∷ ".lock" ∷ [])) "" d.files
  opened (some text) d = d.files

  -- Behind the marshalling: the directory, the lock file, the lock, the old contents, the new ones.
  unfoldable pub locked_replace : String → Disk → Result Stop (Unit {0}) × Disk
  unfolding replace
  locked_replace text d =
      go_on faults
        (λ d1.
          go_on faults
            (λ d2.
              go_on faults
                (λ d3.
                  go_on faults (replace text (lookup path d3.files))
                    (call faults d3.files d3.files d3))
                (about "锁定配置文件: " (call faults d2.files d2.files d2)))
            (call faults (opened (lookup (concat (path ∷ ".lock" ∷ [])) d1.files) d1) d1.files d1))
        (call faults d.files d.files d)

module _ (std : Std) (faults : Faults) (yaml : Yaml) (path : String) where
  abbrev marshalled : Disk → Result String String → Result FileError (Unit {0}) × Disk
  marshalled d (err e) = (err (stopped (failed e)), d)
  marshalled d (ok text) = wrapped (locked_replace faults path (concat (text ∷ "\n" ∷ [])) d)

  abbrev validated : Disk → Result ConfigError Config → Result FileError (Unit {0}) × Disk
  validated d (err e) = (err (invalid e), d)
  validated d (ok c) = marshalled d (yaml.marshal c)

  -- `Save`: what is written has the defaults that `Validate` fills in
  unfoldable pub save : Config → Disk → Result FileError (Unit {0}) × Disk
  unfolding locked_replace
  save c d = validated d (validate std c)
