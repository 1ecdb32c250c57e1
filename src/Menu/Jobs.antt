-- ===== src/Menu/Jobs.antt =====
-- internal/tui/menu.go: `taskMenu`, with running, switching and deleting a job.
pub mod Agrees
use sbackup.Base.{
  ℕ, String, Bool, true, false, not, ◌&&◌, ◌||◌, List, [], ◌∷◌, Option, none, some, length,
  get_elem?, set, if◌then◌else◌, ◌==◌, string_eq, remove_first,
}
use sbackup.Base.Int.{ℤ}
use sbackup.Base.Text.{atoi_value}
use sbackup.Config.{Config, Job, Storage}
use sbackup.Menu.{
  Machine, M, ◌>>=◌, ◌>>◌, pure, read_line, the_config, change_config, act, save_config, saving,
  menu, open_store, delete_runs,
}
use sbackup.Menu.Ask.{entry, select}
use sbackup.Menu.Timer.{install_job_schedule, disable_job_schedule}
use sbackup.Menu.Edit.{edit_job_menu, put_job}
use sbackup.Menu.Setup.{finish_job_setup, run_one_mode}
use sbackup.Menu.Databases.{database_menu}

abbrev pub at_index : {A : Type 0} → List A → Option ℕ → Option A
at_index xs none = none
at_index xs (some i) = get_elem? xs i

-- `selectJob`, with the job at the index
unfoldable pub selected_job : M (Option Job)
selected_job = do c ← the_config; i ← select c.jobs; pure (at_index c.jobs i)

-- The mode of a run, `none` for an answer that is not offered.
unfoldable pub run_mode : String → Option String
run_mode choice =
    if choice == "" || choice == "1"
    then some ""
    else if choice == "2"
    then some "incremental"
    else if choice == "3"
    then some "full"
    else none

module _ (machine : Machine) where
  unfoldable pub run_selected : Job → M (Unit {0})
  run_selected j = do
    choice ← read_line
    elim (run_mode choice) [ none ↦ pure tt | some mode ↦ run_one_mode machine j.id mode ]

  -- `runBackup`
  unfoldable pub run_backup : M (Unit {0})
  run_backup = do j ← selected_job; elim j [ none ↦ pure tt | some chosen ↦ run_selected chosen ]

  unfoldable pub timer_of : Job → M (Unit {0})
  timer_of j = do
    _ ←
        if j.enabled && j.schedule.enabled
        then install_job_schedule machine j
        else disable_job_schedule machine j.id
    pure tt

  -- The switch of `jobs` and what `taskMenu` does behind it. A save that fails is not undone.
  unfoldable pub switch_job : ℕ → Job → M (Unit {0})
  switch_job i j = do
    change_config (put_job i (record j { enabled = not j.enabled }))
    saved ← save_config machine
    if saved then timer_of (record j { enabled = not j.enabled }) else pure tt

  unfoldable pub toggled : Config → ℕ → M (Unit {0})
  toggled c i = elim (get_elem? c.jobs i) [ none ↦ pure tt | some j ↦ switch_job i j ]

  unfoldable pub toggle_job : M (Unit {0})
  toggle_job = do
    line ← read_line
    c ← the_config
    elim (entry (length c.jobs) (some (atoi_value line))) [ none ↦ pure tt | some i ↦ toggled c i ]

  unfoldable pub delete_history : Config → String → M (Unit {0})
  delete_history c id = do
    opened ← act machine (open_store c.global.state_db)
    _ ← if opened then act machine (delete_runs id) else pure false
    pure tt

  -- What follows a deletion that was saved.
  unfoldable pub clean_up : String → Bool → M (Unit {0})
  clean_up id remove_history = do
    _ ← disable_job_schedule machine id
    c ← the_config
    if remove_history then delete_history c id else pure tt

  -- The configuration without the job is saved; the jobs are put back when that fails.
  unfoldable pub drop_job : String → Bool → M Bool
  drop_job id remove_history = do
    c ← the_config
    saving (save_config machine)
        (λ c'. record c' { jobs = remove_first (λ (j : Job). j.id == id) c.jobs })
        (λ c'. record c' { jobs = c.jobs }) (do clean_up id remove_history; pure true) (pure false)

  unfoldable pub confirm_delete : Job → M Bool
  confirm_delete j = do
    choice ← read_line
    confirm ← read_line
    if confirm == j.id then drop_job j.id (choice == "2") else pure false

  -- `deleteJobWizard`
  unfoldable pub delete_job_wizard : M Bool
  delete_job_wizard = do
    j ← selected_job
    elim j [ none ↦ pure false | some chosen ↦ confirm_delete chosen ]

  unfoldable pub edit_selected : M (Unit {0})
  edit_selected = do
    c ← the_config
    i ← select c.jobs
    elim i [ none ↦ pure tt | some n ↦ edit_job_menu machine n ]

  unfoldable pub add_to_storage : M (Unit {0})
  add_to_storage = do
    c ← the_config
    i ← select c.storages
    elim (at_index c.storages i) [ none ↦ pure tt | some s ↦ finish_job_setup machine s.id ]

  unfoldable pub reinstalled : Job → M (Unit {0})
  reinstalled j = do
    _ ← if j.schedule.enabled then install_job_schedule machine j else pure true
    pure tt

  unfoldable pub reinstall_timer : M (Unit {0})
  reinstall_timer = do
    j ← selected_job
    elim j [ none ↦ pure tt | some chosen ↦ reinstalled chosen ]

  -- `showJobDetail`, which ends with a `pause`
  unfoldable pub shown_job : Job → M (Unit {0})
  shown_job j = do _ ← read_line; pure tt

  -- The entries of `taskMenu` but the switch.
  unfoldable pub task_entry : String → M (Unit {0})
  task_entry choice =
      if choice == "1"
      then (do j ← selected_job; elim j [ none ↦ pure tt | some shown ↦ shown_job shown ])
      else if choice == "2"
      then edit_selected
      else if choice == "4"
      then database_menu machine
      else if choice == "5"
      then add_to_storage
      else if choice == "6"
      then reinstall_timer
      else if choice == "7"
      then (do _ ← delete_job_wizard; pure tt)
      else pure tt

  unfoldable pub task_round : String → M (Unit {0})
  task_round choice = if choice == "3" then toggle_job else task_entry choice

  -- `taskMenu`; it returns `false` in every case
  unfoldable pub task_menu : M (Unit {0})
  task_menu = menu task_round
