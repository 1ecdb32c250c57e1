-- ===== src/Menu/Plan/Ends.antt =====
-- internal/tui/menu.go, `askSchedule`: lemmas on the dialogue as a program.
use sbackup.Base.{String}
use sbackup.Config.{Schedule}
use sbackup.Menu.{Session, Machine}
use sbackup.Menu.Runs.{Runs, IsOrder, Runs-pure, Runs->>=, Runs-if}
use sbackup.Menu.Ask.Ends.{ask-Runs}
use sbackup.Menu.Plan.{asked_schedule, ask_schedule, ask_backup_mode}

module _ {R : Session → Session → Type 0} (order : IsOrder R) where
  asked_schedule-Runs :
      (machine : Machine) (current : Schedule) (choice : String)
      → Runs R (asked_schedule machine current choice)
  unfolding asked_schedule
  asked_schedule-Runs machine current choice =
      search (Runs-if order, Runs->>= order, Runs-pure order, ask-Runs order)

  pub ask_schedule-Runs :
      (machine : Machine) (current : Schedule) → Runs R (ask_schedule machine current)
  unfolding ask_schedule
  ask_schedule-Runs machine current =
      Runs->>= order (ask-Runs order _) (λ x. asked_schedule-Runs machine current x)

  pub ask_backup_mode-Runs : (current : String) → Runs R (ask_backup_mode current)
  unfolding ask_backup_mode
  ask_backup_mode-Runs current = search (Runs->>= order, Runs-pure order, ask-Runs order)
