-- ===== src/Menu/Setup.antt =====
-- internal/tui/menu.go: `quickSetup` and `finishJobSetup`, with the questions about a storage and a job.
pub mod Ends
pub mod Agrees
use sbackup.Base.{
  ℕ, String, Bool, true, false, not, ◌&&◌, ◌||◌, List, [], ◌∷◌, ◌++◌, Option, none, some, length,
  ltb, if◌then◌else◌, ◌==◌, string_eq, nat_beq, any, take, ◌-◌, Result,
}
use sbackup.Base.Int.{pos}
use sbackup.Base.Text.{concat, contains_newline}
use sbackup.Config.{Config, Job, Storage, Schedule, WebdavStorage, storage, job}
use sbackup.Config.Validate.Whole.{validate}
use sbackup.Menu.{
  Machine, M, ◌>>=◌, ◌>>◌, pure, read_line, the_config, change_config, act, is_ok, save_config,
  saving, run_job, open_store, ensure_tool, configure_webdav, create_password, init_repository,
}
use sbackup.Menu.Ask.{ask, split_values, read_password}
use sbackup.Menu.Plan.{ask_schedule, ask_backup_mode}
use sbackup.Menu.Timer.{install_job_schedule}

-- A list without its last element.
abbrev pub but_last : {A : Type 0} → List A → List A
but_last xs = take (length xs - 1) xs

abbrev pub is_some : {A : Type 0} → Option A → Bool
is_some none = false
is_some (some a) = true

abbrev secret_path : String → String
secret_path id = concat ("/etc/sbackup/secrets/repositories/" ∷ id ∷ ".pass" ∷ [])

-- `newLocalStorage`
unfoldable pub new_local_storage : Config → M (Option Storage)
new_local_storage c = do
  id ← ask "local"
  name ← ask "本机备份"
  repo ← ask (concat ("/var/backups/sbackup/" ∷ c.global.hostname ∷ []))
  pure (
      if id == ""
      then none
      else some (record {
        id = id;
        name = name;
        type = "local";
        repository_path = repo;
        password_file = secret_path id;
        webdav = none;
        sftp = none;
        s3 = none;
      }))

unfoldable pub webdav_storage : String → String → String → String → String → String → Storage
webdav_storage id name endpoint username vendor root = record {
  id = id;
  name = name;
  type = "webdav";
  repository_path = "";
  password_file = secret_path id;
  webdav = some (record {
    remote_name = concat ("sbackup-" ∷ id ∷ []);
    url = endpoint;
    vendor = vendor;
    username = username;
    rclone_config = "/etc/sbackup/rclone.conf";
    remote_root = root;
    verify_tls = true;
    ca_file = "";
    allow_http = false;
    allow_private_network = false;
    transfers = pos 2;
    checkers = pos 4;
    timeout = "60s";
    retries = pos 5;
    retries_sleep = "10s";
  });
  sftp = none;
  s3 = none;
}

-- A password that was read, if it is one.
abbrev pub read_one : Option String → String
read_one none = ""
read_one (some p) = p

module _ (machine : Machine) where
  -- `validateNewStorage` and `validateNewJob`, on a copy of the configuration
  unfoldable pub validate_new_storage : Config → Storage → Bool
  validate_new_storage c s =
      is_ok (validate machine.std (record c { storages = c.storages ++ s ∷ [] }))

  unfoldable pub validate_new_job : Config → Job → Bool
  validate_new_job c j = is_ok (validate machine.std (record c { jobs = c.jobs ++ j ∷ [] }))

  -- the rest of `newWebDAVStorage`, behind the password
  unfoldable pub connect_webdav : Config → Storage → String → M (Option Storage)
  connect_webdav c s password = if not (validate_new_storage c s) then pure none else (do
    configured ← act machine (configure_webdav s password)
    pure (if configured then some s else none))

  unfoldable pub describe_webdav : Config → M (Option Storage)
  describe_webdav c = do
    id ← ask "webdav"
    name ← ask "WebDAV 备份"
    endpoint ← ask ""
    if endpoint == "" then pure none else (do
      username ← ask ""
      password ← read_password machine
      if read_one password == "" then pure none else (do
        vendor ← ask "other"
        root ← ask (concat ("/sbackup/" ∷ c.global.hostname ∷ []))
        connect_webdav c (webdav_storage id name endpoint username vendor root)
            (read_one password)))

  -- `newWebDAVStorage`
  unfoldable pub new_webdav_storage : Config → M (Option Storage)
  new_webdav_storage c = do
    ready ← act machine (ensure_tool c.tools.rclone_path)
    if ready then describe_webdav c else pure none

  unfoldable pub second_password : String → M (Option String)
  second_password first = do
    second ← read_password machine
    pure (if is_some second && read_one second == first then some first else none)

  -- The password that was typed twice; `none` where it cannot be read or differs.
  unfoldable pub typed_twice : M (Option String)
  typed_twice = do
    first ← read_password machine
    elim first [ none ↦ pure none | some p ↦ second_password p ]

  -- `createRepositoryPassword`: whether there was no error. An empty password is generated.
  unfoldable pub create_repository_password : Storage → M Bool
  create_repository_password s = do
    choice ← read_line
    password ← if choice == "2" then typed_twice else pure (some "")
    elim password [ none ↦ pure false | some p ↦ act machine (create_password s p) ]

  unfoldable pub described_job : String → String → String → List String → Schedule → String → Job
  described_job storage_id id name paths schedule mode = record {
    id = id;
    name = name;
    enabled = true;
    storage_id = storage_id;
    sources = record {
      paths = paths;
      databases = [];
      one_file_system = false;
      strict_paths = true;
    };
    excludes = [];
    schedule = schedule;
    retention = record {
      keep_last = pos 3;
      keep_hourly = pos 0;
      keep_daily = pos 14;
      keep_weekly = pos 8;
      keep_monthly = pos 12;
      keep_yearly = pos 3;
      keep_within = "";
      forget_after_backup = true;
      prune_schedule = "weekly";
    };
    verification = record {
      metadata_after_backup = true;
      standard_schedule = "weekly";
      full_schedule = "";
      full_read_data_subset = "";
    };
    restic = record {
      compression = "auto";
      read_concurrency = pos 0;
      pack_size_mb = pos 0;
      extra_tags = [];
      backup_mode = mode;
    };
    notifications = record { on_success = []; on_warning = []; on_failure = []; on_recovery = [] };
    monitoring = record { report = true; heartbeat = true };
  }

  abbrev first_schedule : Schedule
  first_schedule = record {
    enabled = true;
    type = "calendar";
    expression = "*-*-* 02:30:00";
    persistent = true;
    randomized_delay = "10m";
    grace_period = "45m";
    timeout = "6h";
  }

  unfoldable pub plan_job : String → String → String → List String → M (Option Job)
  plan_job storage_id id name paths = do
    asked ← ask_schedule machine first_schedule
    elim asked [
      | none ↦ pure none
      | some schedule ↦ do
        mode ← ask_backup_mode "incremental"
        pure (some (described_job storage_id id name paths schedule mode))
    ]

  -- `newJob`
  unfoldable pub new_job : String → M (Option Job)
  new_job storage_id = do
    id ← ask "daily"
    name ← ask "每日备份"
    raw ← ask "/etc,/home"
    if id == "" || nat_beq (length (split_values raw)) 0
        then pure none
        else plan_job storage_id id name (split_values raw)

  -- `runOneMode`, with the function that main.go passes
  unfoldable pub run_one_mode : String → String → M (Unit {0})
  run_one_mode id mode = do _ ← act machine (run_job id mode); pure tt

  -- The job is appended, and taken away again when it cannot be saved. It returns whether it was saved.
  unfoldable pub append_job : Job → M Bool
  append_job j =
      saving (save_config machine) (λ c. record c { jobs = c.jobs ++ j ∷ [] })
        (λ c. record c { jobs = but_last c.jobs }) (pure true) (pure false)

  unfoldable pub start_job : Job → M (Unit {0})
  start_job j = do
    _ ← if j.schedule.enabled then install_job_schedule machine j else pure true
    answer ← read_line
    if machine.std.to_lower answer == "n" then pure tt else run_one_mode j.id ""

  unfoldable pub add_job : Job → M (Unit {0})
  add_job j = do
    c ← the_config
    if is_some (job c j.id) || not (validate_new_job c j)
        then pure tt
        else (do saved ← append_job j; if saved then start_job j else pure tt)

  -- `finishJobSetup`
  unfoldable pub finish_job_setup : String → M (Unit {0})
  finish_job_setup storage_id = do
    j ← new_job storage_id
    elim j [ none ↦ pure tt | some described ↦ add_job described ]

  abbrev drop_storage : Config → Config
  drop_storage c = record c { storages = but_last c.storages }

  -- The storage is appended; without a password it is taken away, and saved without, whether that
  -- succeeds or not. It returns whether there is a password.
  unfoldable pub append_storage : Storage → M Bool
  append_storage s =
      saving (save_config machine) (λ c. record c { storages = c.storages ++ s ∷ [] }) drop_storage
        (do
          created ← create_repository_password s
          if created
              then pure true
              else (do change_config drop_storage; _ ← save_config machine; pure false))
        (pure false)

  unfoldable pub set_up : Storage → M (Unit {0})
  set_up s = do
    c ← the_config
    if is_some (storage c s.id) || not (validate_new_storage c s) then pure tt else (do
      appended ← append_storage s
      initialised ← if appended then act machine (init_repository s) else pure false
      if initialised then finish_job_setup s.id else pure tt)

  -- `quickSetup`
  unfoldable pub quick_setup : M (Unit {0})
  quick_setup = do
    choice ← read_line
    c ← the_config
    s ←
        if choice == "1"
        then new_local_storage c
        else if choice == "2"
        then new_webdav_storage c
        else pure none
    elim s [ none ↦ pure tt | some described ↦ set_up described ]
