-- ===== src/Lib.antt =====
-- SBackup: a model of the backup agent and of its monitor.
--
-- The agent reads a configuration (internal/config), takes locks (internal/lock), dumps databases
-- (internal/database), runs Restic on a repository (internal/repository, internal/executor) and keeps
-- its runs and its queue of events in SQLite (internal/store); internal/backup/service.go puts these
-- together. The monitor (internal/monitor) takes signed events of many agents (pkg/reportprotocol).
--
-- Base: helpers, Go's integers, texts, times and paths. A Go `int` is an exact integer, wrapped where the
--   code computes with it; a `time.Time` is the number of nanoseconds since the zero time.
-- FileStore: `writeFileAtomic` of config.go and webdav.go and the same calls of `saveLocked`, on a list of
--   files. `Faults` says which call fails and at which the process ends. What the disk loses of calls that
--   were not synced is not modelled.
-- Config: config.go. `Config.File` has `Default`, `Load` and `Save`. `Config.Validate` has a function for
--   each loop and group of checks of `Validate`; `Std` is what it asks of Go's library. The order of the errors
--   is the code's, except among the three directories, which Go visits in no fixed order.
-- Lock: lock.go. The state is the list of the lock files that are held.
-- Store: store.go. `Store.Runs` and `Store.Queue` are the tables `runs` and `outbox` with their statements,
--   `Store.Logs` is `DeleteJobRuns`. Rows are ordered by the text of their time, as SQLite does.
-- Executor: `Redact` (the regular expression as a scanner), `safeCommand` and the result of `run`.
-- Repository: `Build`, `shellQuote`, `ResticBase`; `Repository.Password` is `CreatePasswordFile`,
--   `Repository.Connection` is `Test` and `Init`, `Repository.Webdav` is `ConfigureWebDAV` of webdav.go.
-- World: what the operating system, the database driver and the commands answer (`Outside`), the state of a
--   run (`Work`), and functions that change it and fail. The answers depend on the number of the call.
-- Tools: internal/runtime/tools.go. Database: dump.go. Backup: service.go; `Backup.Run.Steps` has the parts of
--   `RunWithMode` in order and `Backup.Run` the locks, `fail` and the deferred calls.
-- Schedule: internal/schedule/systemd.go.
-- Client: internal/report/client.go; `Caller` is the system around it. Notify:
--   internal/notification/notification.go; `Net` is the network.
-- Command: cmd/sbackup/main.go. `Callbacks` is `serviceFor`, `Maintenance` is `maintenanceCmd`, `Secrets` is
--   `unique`, `secretPaths` and `redactConfig`, `Options` the options and changes of `job`.
-- Menu: internal/tui. A menu is a program on a `Session`: the lines that are not read yet, the configuration in
--   memory, the one in the file, and what was asked of the system (`Action`); `Machine` is the system's answers.
--   `Menu.Ask` has the questions, `Menu.Plan` and `Menu.Timer` the dialogue about a schedule and its timer,
--   `Menu.Setup`, `Menu.Jobs`, `Menu.Edit`, `Menu.Restoring` and `Menu.Watch` the menus of menu.go,
--   `Menu.Databases` and `Menu.History` those of database.go and history.go, `Menu.Main` is `Run`, `Menu.Labels`
--   the texts of the summaries. `Menu.Runs`, `Menu.Agreement` and `Menu.Asks` carry the proofs about programs.
-- Protocol, Monitor: the events, and the handler `report` in the two parts that it runs under the lock, so
--   that other requests can come between them. `Monitor.View` is the page, `Monitor.Persistence` is `load`
--   and `saveLocked`.
--
-- Two recursions are not on a list or a text: the loop of `AcquireSlot`, on the rounds left, of which there
-- are as many as the limit, and the loop of a menu, on fuel: one round more than there are lines to
-- read. That is enough, as every round but the last reads a line and nothing gives lines back.
--
-- Left out: the contents of log files and of the terminal, the text of some errors of `Validate`, YAML and
-- JSON (parameters), `Summary.total_duration`, cancellation other than by the timeout of the backup command,
-- what the menus print, the uninstaller, the atomic writing of a secret, the printing of the commands, the
-- dialogue with an SMTP server, the HTTP server and the rendering of the page. Opening the pipes of a
-- command is taken to succeed; a command that does not start ends with an error and no output. What a menu
-- asks of a component that is modelled elsewhere succeeds or fails as `Machine` says. A failed
-- `os.WriteFile` of a dump leaves a part of the file where `Outside` says so.
pub mod Base
pub mod Lock
pub mod Store
pub mod Command
pub mod Config
pub mod Repository
pub mod Executor
pub mod Backup
pub mod Client
pub mod World
pub mod Menu
pub mod FileStore
pub mod Tools
pub mod Database
pub mod Protocol
pub mod Monitor
pub mod Notify
pub mod Schedule
pub mod Samples
