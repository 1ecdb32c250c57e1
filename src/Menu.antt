-- ===== src/Menu.antt =====
-- internal/tui/menu.go, database.go and history.go: the menus. A menu is a program over the lines that are
-- not read yet, the configuration in memory and what it asks of the system. What it prints is left out.
pub mod Runs
pub mod Agreement
pub mod Ask
pub mod Plan
pub mod Timer
pub mod Edit
pub mod Setup
pub mod Databases
pub mod Watch
pub mod Jobs
pub mod Restoring
pub mod Labels
pub mod History
pub mod Main
pub mod Kept
pub mod Asks
mod Tests
use sbackup.Base.{
  ℕ, zero, suc, ◌+◌, String, Bool, true, false, ◌&&◌, ◌||◌, List, [], ◌∷◌, Option, none, some,
  length, if◌then◌else◌, ◌==◌, string_eq, Result, ok, err,
}
use sbackup.Base.Int.{pos, int_eq}
use sbackup.Base.Text.{trim_space}
use sbackup.Base.FilePath.{CleanPath}
use sbackup.Config.{Config, Job, Storage, Database, Monitoring}
use sbackup.Config.Std.{Std}
use sbackup.Config.Validate.Whole.{fill_defaults, validate}

-- What the menus ask of the system. Each can fail.
pub data Action : Type 0 where
  save : Config → Action
  turn_echo_off : Action
  write_units : List (String × String) → Action
  run_command : List String → Action
  remove_file : String → Action
  read_secret : String → Action
  write_secret write_json_secret : String → String → Action
  restore_secret : String → Action
  ensure_tool : String → Action
  configure_webdav : Storage → String → Action
  create_password : Storage → String → Action
  init_repository test_storage : Storage → Action
  test_monitor : Monitoring → Action
  open_store delete_runs : String → Action
  run_job : String → String → Action
  list_snapshots : String → Action
  list_files : String → String → String → Action
  restore : String → String → CleanPath → List String → Action
  run_doctor : String → String → Action
  read_runs : String → Action
  read_log : String → Action

-- The program's surroundings. `succeeds` is asked with the number of the action.
pub record Machine : Type 0 where
  pub std : Std
  pub succeeds : ℕ → Action → Bool
  pub is_root : Bool
  pub executable : Option String
  pub config_path : String
  pub has_systemctl : ℕ → Bool
  -- what the command printed that was run as this action
  pub output : ℕ → String
  -- whether the file of a secret that could not be read is missing
  pub is_missing : ℕ → Bool
  pub quote : String → String
  pub join : String → String → String
  pub directory : String → String
  pub to_upper : String → String

-- `file` is what the last `save` that returned no error was called with. The lines are those that are not
-- read yet; each ends with a line break. The newest action comes first.
pub record Session : Type 0 where
  pub config : Config
  pub file : Config
  pub input : List String
  pub actions : List Action

-- `none` is a menu that ran out of fuel.
abbrev pub M : Type 0 → Type 0
M A = Session → Option (A × Session)

infixl 5 ◌>>=◌ ◌>>◌
unfoldable pub ◌>>=◌ : {A B : Type 0} → M A → (A → M B) → M B
◌>>=◌ m f s = elim (m s) [ none ↦ none | some (a, s') ↦ f a s' ]

unfoldable pub ◌>>◌ : {B : Type 0} → M (Unit {0}) → M B → M B
unfolding ◌>>=◌
m >> k = m >>= λ _. k

unfoldable pub pure : {A : Type 0} → A → M A
pure a s = some (a, s)

-- `in.ReadString('\n')`, trimmed, with the lines that are left. At the end of the input it is empty.
unfoldable pub next_line : List String → String × List String
next_line [] = ("", [])
next_line (line ∷ rest) = (trim_space line, rest)

unfoldable pub read_line : M String
unfolding next_line
read_line s = let (line, rest) = next_line s.input in some (line, record s { input = rest })

unfoldable pub the_config : M Config
the_config s = some (s.config, s)

abbrev pub is_ok : {E A : Type 0} → Result E A → Bool
is_ok (ok a) = true
is_ok (err e) = false

-- What `Validate` leaves of the configuration, whether it accepts it or not.
unfoldable pub defaulted : Config → Config
defaulted c = record c { global = if c.version == pos 1 then fill_defaults c.global else c.global }

module _ (machine : Machine) where
  unfoldable pub act : Action → M Bool
  act a s = some (machine.succeeds (length s.actions) a, record s { actions = a ∷ s.actions })

  -- `c.Validate()`
  unfoldable pub validate_config : M Bool
  unfolding defaulted
  validate_config s =
      some (is_ok (validate machine.std s.config), record s { config = defaulted s.config })

  -- The `save` of main.go, which is `config.Save`: it begins with `Validate`.
  unfoldable pub save_config : M Bool
  unfolding defaulted
  save_config s =
      let c = defaulted s.config in
      let saved =
        is_ok (validate machine.std s.config) && machine.succeeds (length s.actions) (save c) in
      some (
        saved,
        record s { config = c; file = if saved then c else s.file; actions = save c ∷ s.actions },
      )

-- `c.f = value`
unfoldable pub change_config : (Config → Config) → M (Unit {0})
change_config f s = some (tt, record s { config = f s.config })

module _ (machine : Machine) where
  -- `c.Validate()`, and `save` when it accepts
  unfoldable pub checked_save : M Bool
  checked_save = do
    valid ← validate_config machine
    if valid then save_config machine else pure false

-- A change that is kept when it can be saved and undone otherwise, with what follows in each case.
unfoldable pub saving :
    {A : Type 0} → M Bool → (Config → Config) → (Config → Config) → M A → M A → M A
saving attempt change undo saved_then failed_then = do
  change_config change
  saved ← attempt
  if saved then saved_then else (do change_config undo; failed_then)

-- The rounds of a menu that reads a choice, returns at `0` and at an empty line, and does something for
-- the others.
unfoldable pub rounds : ℕ → (String → M (Unit {0})) → M (Unit {0})
unfolding ◌>>=◌ ◌>>◌ next_line
rounds zero body s = none
rounds (suc fuel) body s =
    let (choice, lines) = next_line s.input in
    let s' = record s { input = lines } in
    let rest = (body choice >> rounds fuel body) s' in
    if choice == "0" || choice == "" then some (tt, s') else rest

-- A menu runs at most one round more than there are lines to read.
unfoldable pub menu : (String → M (Unit {0})) → M (Unit {0})
menu body s = rounds (suc (length s.input)) body s
