-- ===== src/Menu/Main.antt =====
-- internal/tui/menu.go: `advancedMenu` and `Run`, the main menu. The counts in its title are in `Menu.History`.
-- The uninstaller, after which the process ends, is left out: its entry does nothing here.
pub mod Ends
use sbackup.Base.{
  ℕ, String, Bool, true, false, ◌||◌, List, Option, none, some, if◌then◌else◌, ◌==◌, string_eq,
}
use sbackup.Store.{Run}
use sbackup.Menu.{
  Machine, M, ◌>>=◌, ◌>>◌, pure, read_line, act, validate_config, save_config, menu, run_doctor,
}
use sbackup.Menu.Setup.{quick_setup}
use sbackup.Menu.Watch.{monitor}
use sbackup.Menu.Jobs.{run_backup, task_menu}
use sbackup.Menu.Restoring.{Listing, Before, restore_wizard, storage_menu}
use sbackup.Menu.History.{history_menu}

pub record Surroundings : Type 0 where
  pub listing : Listing
  pub before : String → String → Bool
  pub has_password : ℕ → Bool
  pub rows : ℕ → List Run

-- `pause`
unfoldable pub pause : M (Unit {0})
pause = do _ ← read_line; pure tt

module _ (machine : Machine) (around : Surroundings) where
  -- `runDoctor`
  unfoldable pub doctor : M (Unit {0})
  doctor = do
    _ ← elim machine.executable [
      | none ↦ pure false
      | some bin ↦ act machine (run_doctor bin machine.config_path)
    ]
    pause

  unfoldable pub advanced_round : String → M (Unit {0})
  advanced_round choice =
      if choice == "1" || choice == "4"
      then pause
      else if choice == "2"
      then (do _ ← validate_config machine; pause)
      else if choice == "3"
      then doctor
      else pure tt

  -- `advancedMenu`; it returns `false` in every case
  unfoldable pub advanced_menu : M (Unit {0})
  advanced_menu = menu advanced_round

  unfoldable pub main_round : String → M (Unit {0})
  main_round choice =
      if choice == "1"
      then run_backup machine
      else if choice == "2"
      then history_menu machine around.rows
      else if choice == "3"
      then restore_wizard machine around.listing around.before
      else if choice == "4"
      then task_menu machine
      else if choice == "5"
      then storage_menu machine around.has_password
      else if choice == "6"
      then quick_setup machine
      else if choice == "7"
      then (do
        changed ← monitor machine
        _ ← if changed then save_config machine else pure false
        pure tt)
      else if choice == "8"
      then advanced_menu
      else pure tt

  -- `Run`
  unfoldable pub run : M (Unit {0})
  run = menu main_round
