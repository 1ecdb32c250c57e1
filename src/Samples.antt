-- ===== src/Samples.antt =====
-- A small configuration and a surrounding in which everything works, for the tests of the components.
use sbackup.Base.{ℕ, some, ◌+◌, ◌*◌, String, true, false, [], ◌∷◌, none, ok, err}
use sbackup.Base.Int.{pos}
use sbackup.Base.Text.{concat}
use sbackup.Config.{Config, Storage, Database, Job, Retention}
use sbackup.Config.Std.{Std}
use sbackup.Executor.Output.{finished}
use sbackup.World.{Outside, Work, missing, summary_object}
use sbackup.Store.{Run, Outbox}
use sbackup.Protocol.{Event}
use sbackup.Monitor.{Server, Node}
use sbackup.Client.{Caller}
use sbackup.Notify.{Net}
use sbackup.Monitor.Report.{Request, Clock, Codec}

abbrev pub local_storage : Storage
local_storage = record {
  id = "disk";
  name = "Disk";
  type = "local";
  repository_path = "/srv/repo";
  password_file = "/etc/sbackup/pw";
  webdav = none;
  sftp = none;
  s3 = none;
}

abbrev pub shop : Database
shop = record {
  id = "shop";
  name = "Shop";
  type = "mysql";
  host = "db";
  port = pos 0;
  database = "shop";
  username = "u";
  credential_file = "/etc/sbackup/shop.json";
  path = "";
  format = "";
  connect_timeout = "";
  ssl_mode = "";
  single_transaction = true;
}

abbrev pub keep_seven : Retention
keep_seven = record {
  keep_last = pos 7;
  keep_hourly = pos 0;
  keep_daily = pos 0;
  keep_weekly = pos 0;
  keep_monthly = pos 0;
  keep_yearly = pos 0;
  keep_within = "";
  forget_after_backup = true;
  prune_schedule = "";
}

abbrev pub nightly : Job
nightly = record {
  id = "nightly";
  name = "Nightly";
  enabled = true;
  storage_id = "disk";
  sources = record {
    paths = "/etc" ∷ [];
    databases = [];
    one_file_system = true;
    strict_paths = true;
  };
  excludes = [];
  schedule = record {
    enabled = false;
    type = "";
    expression = "";
    persistent = true;
    randomized_delay = "";
    grace_period = "";
    timeout = "";
  };
  retention = keep_seven;
  verification = record {
    metadata_after_backup = true;
    standard_schedule = "";
    full_schedule = "";
    full_read_data_subset = "";
  };
  restic = record {
    compression = "auto";
    read_concurrency = pos 2;
    pack_size_mb = pos 0;
    extra_tags = [];
    backup_mode = "";
  };
  notifications = record { on_success = []; on_warning = []; on_failure = []; on_recovery = [] };
  monitoring = record { report = false; heartbeat = false };
}

abbrev pub small : Config
small = record {
  version = pos 1;
  global = record {
    hostname = "host";
    display_name = "Host";
    timezone = "UTC";
    language = "";
    state_db = "/var/lib/sbackup/state.db";
    temp_dir = "/tmp/sbackup";
    log_dir = "/var/log/sbackup";
    max_parallel_jobs = pos 1;
    log_retention_days = pos 30;
    log_max_total_mb = pos 100;
  };
  tools = record {
    restic_path = "restic";
    rclone_path = "rclone";
    pg_dump_path = "pg_dump";
    mysql_dump_path = "mysqldump";
    sqlite_path = "sqlite3";
  };
  storages = local_storage ∷ [];
  databases = shop ∷ [];
  jobs = nightly ∷ [];
  notifications = [];
  monitoring = record {
    enabled = false;
    endpoint = "";
    node_id = "";
    key_file = "";
    key_version = pos 1;
    report_system_info = false;
    report_capacity_stats = false;
    heartbeat_enabled = false;
    heartbeat_interval = "";
    request_timeout = "";
    max_pending_events = pos 0;
    event_retention = "";
  };
}

abbrev pub simple_std : Std
simple_std = record {
  known_location = λ name. true;
  parse_duration = λ text. none;
  parse_url = λ text. none;
  parse_request_uri = λ text. none;
  to_lower = λ text. text;
}

-- Each reading of the clock is a second later; Restic prints the summary of a snapshot.
abbrev pub calm : Outside
calm = record {
  now = λ n. (1000 + n) * 1000000000;
  new_id = "run-1";
  parse_duration = λ text. none;
  quote = λ text. concat ("\"" ∷ text ∷ "\"" ∷ []);
  join = λ a b. concat (a ∷ "/" ∷ b ∷ []);
  base_name = λ path. path;
  openable = λ dir name. true;
  lock_error = "";
  open_log = λ path. none;
  save_error = λ n. none;
  store_error = λ e. "constraint failed";
  look_path = λ installed tool. true;
  is_root = true;
  executable_dir = none;
  is_script = λ path. true;
  install = λ script. none;
  read_file = λ path. ok "{}";
  decode_map = λ text. ok [];
  stat = λ path. none;
  make_dir = λ path. none;
  make_temp = λ dir prefix. ok (concat (dir ∷ "/" ∷ prefix ∷ "0" ∷ []));
  write_file = λ path text. none;
  is_left = λ path. true;
  remove_fails = λ path. false;
  open_file = λ path. none;
  close_file = λ path. none;
  chmod = λ path. none;
  lstat = λ path. missing;
  eval_symlinks = λ path. none;
  execute = λ n command. ("{summary}" ∷ [], finished);
  decode_line =
      λ line. summary_object (λ s. record s { snapshot_id = "abc123"; files_new = pos 3 });
  context_error = λ timeout. none;
}

abbrev pub fresh : Run → Work
fresh r = record {
  ticks = 0;
  saves = 0;
  rows = [];
  files = [];
  commands = [];
  run = r;
  started = [];
  finished = [];
}

-- A run of the job `job`, and a queued event.
abbrev pub a_run : String → String → ℕ → Run
a_run id status started = record {
  id = id;
  job_id = "job";
  status = status;
  phase = "";
  scheduled_at = 0;
  started_at = started;
  finished_at = 0;
  snapshot_id = "";
  files_new = pos 0;
  files_changed = pos 0;
  files_unmodified = pos 0;
  bytes_added = pos 0;
  bytes_processed = pos 0;
  duration_ms = pos 0;
  warning = "";
  error_code = "";
  error_summary = "";
  log_path = "/var/log/a.jsonl";
}

abbrev pub an_event : String → Outbox
an_event id = record {
  id = id;
  kind = "report";
  destination_id = "";
  payload = "";
  attempts = pos 0;
  next_attempt_at = 5;
  created_at = 5;
  last_error = "";
}

-- A heartbeat of the node `node`, and its request.
abbrev pub heartbeat : String → Event
heartbeat id = record {
  protocol_version = pos 1;
  event_id = id;
  event_type = "node.heartbeat";
  occurred_at = 5;
  node = record {
    id = "node";
    name = "Node";
    display_name = "";
    client_version = "";
    os = "";
    arch = "";
  };
  job = none;
  run = none;
  heartbeat = none;
  verification = none;
}

abbrev pub signed : String → Request
signed nonce = record {
  method = "POST";
  content_length = pos 10;
  body = some "body";
  path = "/api/v1/report";
  node = "node";
  timestamp = "0";
  nonce = nonce;
  signature = "v1=mac";
  key_version = "1";
}

abbrev pub known : Node
known = record {
  id = "node";
  name = "Node";
  secret_hex = "00";
  key_version = pos 1;
  last_heartbeat = 0;
  jobs = [];
}

abbrev pub quiet : Server
quiet = record { nodes = ("node", known) ∷ []; reports = []; nonces = [] }

-- The clock at the Unix epoch.
abbrev pub epoch : Clock
epoch = record {
  received = 62135596800000000000;
  looked_up = 62135596800000000001;
  locked = 62135596800000000002;
  noted = 62135596800000000003;
  cleaned = 62135596800000000004;
}

abbrev pub plain : Codec
plain = record {
  sha256 = λ text. 0 ∷ [];
  hex = λ bytes. "mac";
  unhex = λ text. some (0 ∷ []);
  hmac = λ key text. key;
  encode_event = λ e. ok "{}";
  decode_event = λ text. some (heartbeat "e1");
}

-- A node that reaches nobody, at the Unix epoch.
abbrev pub at_rest : Caller
at_rest = record {
  version = "dev";
  goos = "linux";
  goarch = "amd64";
  read_file = λ path. ok "0123456789abcdef0123456789abcdef";
  new_request = λ url. ok "/api/v1/report";
  parse_duration = λ text. none;
  seconds = λ d. d;
  event_id = "e1";
  occurred_at = 62135596800000000000;
  signing_at = 62135596800000000000;
  nonce = "n1";
  queue_id = "q1";
  queued_at = 62135596800000000000;
  queue_error = λ e. "full";
  deliver = λ timeout r. err "unreachable";
}

abbrev pub reachable : Net
reachable = record {
  read_secret = λ path. ok [];
  join_host_port = λ host port. host;
  send_mail = λ m. none;
  send_tls = λ m. none;
  post = λ url payload. ok 200;
  encode = λ e. ok "{}";
  queue_id = λ k. "q";
  queued_at = λ k. 5;
  queue_error = λ e. "full";
}
