-- ===== src/Menu/Kept.antt =====
-- internal/tui: what the menus leave in memory and in the file.
use sbackup.Base.{ℕ, String, some, ◌≡◌}
use sbackup.Config.{Config}
use sbackup.Menu.{Session, Machine, M}
use sbackup.Menu.Runs.{Runs}
use sbackup.Menu.Agreement.{Agrees, Agreeing}
use sbackup.Menu.Edit.{edit_job_menu}
use sbackup.Menu.Edit.Agrees.{edit_job_menu-Agrees}
use sbackup.Menu.Databases.{database_menu}
use sbackup.Menu.Databases.Agrees.{database_menu-Agrees}
use sbackup.Menu.Jobs.{task_entry}
use sbackup.Menu.Jobs.Agrees.{task_entry-Agrees}

kept :
    (machine : Machine) {A : Type 0} {m : M A}
    → Runs (Agreeing machine) m
    → (s : Session) → Agrees s
    → (a : A) × (t : Session) × (m s ≡ some (a, t)) × Agrees t
kept machine runs s agrees =
    let (a, t, e, shorter, keeps) = runs.outcome s in (a, t, e, keeps.0 agrees)

module _ (machine : Machine) where
  -- The menu that edits the job at an index returns on every input, and leaves in memory what was saved
  -- last, if that was there before: a change that is refused or cannot be saved is undone.
  pub edit_job_menu_lem :
      (i : ℕ) (s : Session)
      → Agrees s
      → (a : Unit {0}) × (t : Session) × (edit_job_menu machine i s ≡ some (a, t)) × Agrees t
  edit_job_menu_lem i = kept machine (edit_job_menu-Agrees machine i)

  -- Every entry of the menu of the jobs but the switch returns on every input, and leaves in memory what
  -- was saved last, if that was there before.
  pub task_entry_lem :
      (choice : String) (s : Session)
      → Agrees s
      → (a : Unit {0}) × (t : Session) × (task_entry machine choice s ≡ some (a, t)) × Agrees t
  task_entry_lem choice = kept machine (task_entry-Agrees machine choice)

  -- The menu of the databases returns on every input, and leaves in memory what was saved last, if that
  -- was there before.
  pub database_menu_lem :
      (s : Session)
      → Agrees s
      → (a : Unit {0}) × (t : Session) × (database_menu machine s ≡ some (a, t)) × Agrees t
  database_menu_lem = kept machine (database_menu-Agrees machine)
