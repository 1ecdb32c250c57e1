-- ===== src/Menu/Watch.antt =====
-- internal/tui/menu.go: the connection to the monitor.
pub mod Ends
use sbackup.Base.{
  ℕ, String, Bool, true, false, not, ◌&&◌, ◌||◌, List, [], ◌∷◌, Option, none, some, length, ltb,
  if◌then◌else◌, ◌==◌, string_eq,
}
use sbackup.Base.Int.{pos}
use sbackup.Base.Text.{byte_length, codes, concat, has_suffix, trim_suffix}
use sbackup.Config.{Config, Monitoring}
use sbackup.Menu.{
  Machine, M, ◌>>=◌, ◌>>◌, pure, read_line, the_config, change_config, act, validate_config,
  read_secret, write_secret, restore_secret, remove_file, test_monitor, Session, open_store,
}
use sbackup.Menu.Ask.{ask, read_password}
use sbackup.Menu.Setup.{is_some, read_one}

-- The address of the endpoint, completed where only the server was given.
unfoldable pub completed : String → String
completed endpoint =
    if not (endpoint == "") && not (has_suffix (trim_suffix endpoint "/") "/api/v1/report")
    then concat (trim_suffix endpoint "/" ∷ "/api/v1/report" ∷ [])
    else endpoint

abbrev key_file : String
key_file = "/etc/sbackup/secrets/monitor.key"

-- What `os.ReadFile` answered: the contents, no file, or another error.
pub data Kept : Type 0 where
  contents missing unreadable : Kept

module _ (machine : Machine) where
  unfoldable pub read_old_secret : M Kept
  read_old_secret s = elim (act machine (read_secret key_file) s) [
    | none ↦ none
    | some (found, s') ↦ some (
      if found
          then contents
          else if machine.is_missing (length s.actions)
          then missing
          else unreadable,
      s',
    )
  ]

  -- `restoreSecret`, whose errors are dropped
  unfoldable pub put_back : Kept → M (Unit {0})
  put_back contents = do _ ← act machine (restore_secret key_file); pure tt
  put_back missing = do _ ← act machine (remove_file key_file); pure tt
  put_back unreadable = pure tt

  abbrev with_monitoring : Monitoring → Config → Config
  with_monitoring m c = record c { monitoring = m }

  -- `testMonitor`
  unfoldable pub test_connection : M Bool
  test_connection = do
    c ← the_config
    opened ← act machine (open_store c.global.state_db)
    if opened then act machine (test_monitor c.monitoring) else pure false

  abbrev connected : String → String → Monitoring
  connected endpoint node = record {
    enabled = true;
    endpoint = endpoint;
    node_id = node;
    key_file = key_file;
    key_version = pos 1;
    report_system_info = true;
    report_capacity_stats = false;
    heartbeat_enabled = true;
    heartbeat_interval = "5m";
    request_timeout = "10s";
    max_pending_events = pos 10000;
    event_retention = "30d";
  }

  -- The settings are tried, and put back with the secret when they are invalid or do not connect.
  unfoldable pub try_monitor : Monitoring → Kept → M Bool
  try_monitor m kept = do
    c ← the_config
    change_config (with_monitoring m)
    valid ← validate_config machine
    connects ← if valid then test_connection else pure false
    if connects
        then pure true
        else (do change_config (with_monitoring c.monitoring); put_back kept; pure false)

  -- Behind the questions.
  unfoldable pub store_monitor : String → String → String → M Bool
  store_monitor endpoint node secret = do
    kept ← read_old_secret
    written ← act machine (write_secret key_file secret)
    if written then try_monitor (connected endpoint node) kept else pure false

  -- `configureMonitor`
  unfoldable pub configure_monitor : M Bool
  configure_monitor = do
    c ← the_config
    endpoint ← ask "https://monitor.example.com/api/v1/report"
    node ← ask c.global.hostname
    secret ← read_password machine
    if ltb (byte_length (codes (read_one secret))) 32
        then pure false
        else store_monitor (completed endpoint) node (read_one secret)

  unfoldable pub connected_menu : M Bool
  connected_menu = do
    choice ← read_line
    c ← the_config
    if choice == "1"
        then (do _ ← test_connection; pure false)
        else if choice == "2"
        then configure_monitor
        else if choice == "3"
        then (do
          change_config (with_monitoring (record c.monitoring { enabled = false }))
          pure true)
        else pure false

  -- `monitor`: whether the configuration has to be saved
  unfoldable pub monitor : M Bool
  monitor = do c ← the_config; if c.monitoring.enabled then connected_menu else configure_monitor
