-- ===== src/Menu/Jobs/Agrees.antt =====
-- internal/tui/menu.go, `taskMenu`: what its entries do to the configuration in memory and in the file.
use sbackup.Base.{
  ℕ, String, Bool, true, false, ◌&&◌, List, some, ◌≡◌, ◌==◌, string_eq, remove_first, length,
  get_elem?,
}
use sbackup.Base.Text.{atoi_value}
use sbackup.Config.{Config, Job}
use sbackup.Menu.{Session, Machine, defaulted}
use sbackup.Menu.Runs.{
  Runs, IsOrder, Runs->>=, Runs->>, Runs-pure, Runs-if, Runs-elim, Runs-with_config, read_line-Runs,
  act-Runs, the_config-Runs, menu-Runs,
}
use sbackup.Menu.Agreement.{
  Agreeing, Agreeing-IsOrder, Filed, Filed-IsOrder, Runs-Filed, change_config-Filed,
  save_config-Filed, save_config-IsAttempt, saving-Agrees,
}
use sbackup.Menu.Ask.{entry}
use sbackup.Menu.Ask.Ends.{select-Runs}
use sbackup.Menu.Timer.Ends.{install_job_schedule-Runs, disable_job_schedule-Runs}
use sbackup.Menu.Edit.Agrees.{edit_job_menu-Agrees}
use sbackup.Menu.Setup.Ends.{run_one_mode-Runs}
use sbackup.Menu.Setup.Agrees.{finish_job_setup-Agrees}
use sbackup.Menu.Databases.Agrees.{database_menu-Agrees}
use sbackup.Menu.Jobs.{
  selected_job, run_mode, run_backup, run_selected, timer_of, switch_job, toggle_job, toggled,
  delete_history, clean_up, drop_job, delete_job_wizard, confirm_delete, edit_selected,
  add_to_storage, reinstall_timer, reinstalled, shown_job, task_entry, task_round, task_menu,
  at_index,
}

jobs_put_back :
    (c : Config) (jobs : List Job)
    → defaulted c ≡ c
    → record (defaulted (record c { jobs = jobs })) { jobs = c.jobs } ≡ c
unfolding defaulted
jobs_put_back c jobs full = full

module _ {R : Session → Session → Type 0} (order : IsOrder R) (machine : Machine) where
  pub selected_job-Runs : Runs R selected_job
  unfolding selected_job
  selected_job-Runs =
      Runs->>= order (the_config-Runs order)
        λ c. Runs->>= order (select-Runs order c.jobs) λ i. Runs-pure order _

  run_selected-Runs : (j : Job) → Runs R (run_selected machine j)
  unfolding run_selected
  run_selected-Runs j = Runs->>= order (read_line-Runs order) λ choice.
      Runs-elim (run_mode choice) (Runs-pure order _) (run_one_mode-Runs order machine j.id)

  pub run_backup-Runs : Runs R (run_backup machine)
  unfolding run_backup
  run_backup-Runs =
      Runs->>= order selected_job-Runs λ j. Runs-elim j (Runs-pure order _) run_selected-Runs

  timer_of-Runs : (j : Job) → Runs R (timer_of machine j)
  unfolding timer_of
  timer_of-Runs j =
      Runs->>= order
        (Runs-if order (j.enabled && j.schedule.enabled) (install_job_schedule-Runs order machine j)
          (disable_job_schedule-Runs order machine j.id))
        λ done. Runs-pure order _

  delete_history-Runs : (c : Config) (id : String) → Runs R (delete_history machine c id)
  unfolding delete_history
  delete_history-Runs c id = Runs->>= order (act-Runs order machine _) λ opened.
      Runs->>= order (Runs-if order opened (act-Runs order machine _) (Runs-pure order _))
        λ deleted. Runs-pure order _

  clean_up-Runs : (id : String) (history : Bool) → Runs R (clean_up machine id history)
  unfolding clean_up
  clean_up-Runs id history = Runs->>= order (disable_job_schedule-Runs order machine id) λ disabled.
      Runs->>= order (the_config-Runs order)
        λ c. Runs-if order history (delete_history-Runs c id) (Runs-pure order _)

  reinstalled-Runs : (j : Job) → Runs R (reinstalled machine j)
  unfolding reinstalled
  reinstalled-Runs j =
      Runs->>= order
        (Runs-if order j.schedule.enabled (install_job_schedule-Runs order machine j)
          (Runs-pure order _))
        λ done. Runs-pure order _

  reinstall_timer-Runs : Runs R (reinstall_timer machine)
  unfolding reinstall_timer
  reinstall_timer-Runs =
      Runs->>= order selected_job-Runs λ j. Runs-elim j (Runs-pure order _) reinstalled-Runs

  shown_job-Runs : (j : Job) → Runs R (shown_job machine j)
  unfolding shown_job
  shown_job-Runs j = Runs->>= order (read_line-Runs order) λ line. Runs-pure order _

module _ (machine : Machine) where
  order : IsOrder (Agreeing machine)
  order = Agreeing-IsOrder machine

  drop_job-Agrees :
      (id : String) (history : Bool) → Runs (Agreeing machine) (drop_job machine id history)
  unfolding drop_job
  drop_job-Agrees id history = Runs-with_config order _ λ s.
      let left = remove_first (λ (j : Job). j.id == id) s.config.jobs in
      let (a, t, e, l, r) =
        saving-Agrees (save_config-IsAttempt machine) (λ c. record c { jobs = left })
          (λ c. record c { jobs = s.config.jobs })
          (Runs->> order (clean_up-Runs order machine id history) (Runs-pure order true))
          (Runs-pure order false) s in
      (a, t, e, l, (r.0 (jobs_put_back s.config left), r.1))

  confirm_delete-Agrees : (j : Job) → Runs (Agreeing machine) (confirm_delete machine j)
  unfolding confirm_delete
  confirm_delete-Agrees j = Runs->>= order (read_line-Runs order) λ choice.
      Runs->>= order (read_line-Runs order) λ confirm.
        Runs-if order (confirm == j.id) (drop_job-Agrees j.id (choice == "2")) (Runs-pure order _)

  -- Deleting a job comes to an end, and what is in memory stays what was saved last.
  pub delete_job_wizard-Agrees : Runs (Agreeing machine) (delete_job_wizard machine)
  unfolding delete_job_wizard
  delete_job_wizard-Agrees =
      Runs->>= order (selected_job-Runs order machine)
        λ j. Runs-elim j (Runs-pure order _) confirm_delete-Agrees

  edit_selected-Agrees : Runs (Agreeing machine) (edit_selected machine)
  unfolding edit_selected
  edit_selected-Agrees = Runs->>= order (the_config-Runs order) λ c.
      Runs->>= order (select-Runs order c.jobs)
        λ i. Runs-elim i (Runs-pure order _) (edit_job_menu-Agrees machine)

  add_to_storage-Agrees : Runs (Agreeing machine) (add_to_storage machine)
  unfolding add_to_storage
  add_to_storage-Agrees = Runs->>= order (the_config-Runs order) λ c.
      Runs->>= order (select-Runs order c.storages) λ i.
        Runs-elim (at_index c.storages i) (Runs-pure order _)
          (λ s. finish_job_setup-Agrees machine s.id)

  -- The one entry that may leave memory and file apart.
  switch_job-Filed : (i : ℕ) (j : Job) → Runs (Filed machine) (switch_job machine i j)
  unfolding switch_job
  switch_job-Filed i j = Runs->> (Filed-IsOrder machine) (change_config-Filed machine _) (
      Runs->>= (Filed-IsOrder machine) (save_config-Filed machine) λ saved.
        Runs-if (Filed-IsOrder machine) saved (timer_of-Runs (Filed-IsOrder machine) machine _)
          (Runs-pure (Filed-IsOrder machine) tt))

  toggled-Filed : (c : Config) (i : ℕ) → Runs (Filed machine) (toggled machine c i)
  unfolding toggled
  toggled-Filed c i =
      Runs-elim (get_elem? c.jobs i) (Runs-pure (Filed-IsOrder machine) tt) (switch_job-Filed i)

  toggle_job-Filed : Runs (Filed machine) (toggle_job machine)
  unfolding toggle_job
  toggle_job-Filed =
      Runs->>= (Filed-IsOrder machine) (read_line-Runs (Filed-IsOrder machine)) λ line.
        Runs->>= (Filed-IsOrder machine) (the_config-Runs (Filed-IsOrder machine)) λ c.
          Runs-elim (entry (length c.jobs) (some (atoi_value line)))
            (Runs-pure (Filed-IsOrder machine) tt) (toggled-Filed c)

  -- Every entry but the switch comes to an end, and what is in memory stays what was saved last.
  pub task_entry-Agrees : (choice : String) → Runs (Agreeing machine) (task_entry machine choice)
  unfolding task_entry
  task_entry-Agrees choice =
      Runs-if order (choice == "1")
        (Runs->>= order (selected_job-Runs order machine)
          λ j. Runs-elim j (Runs-pure order _) (shown_job-Runs order machine))
        (Runs-if order (choice == "2") edit_selected-Agrees (
          Runs-if order (choice == "4") (database_menu-Agrees machine) (
            Runs-if order (choice == "5") add_to_storage-Agrees (
              Runs-if order (choice == "6") (reinstall_timer-Runs order machine) (
                Runs-if order (choice == "7")
                  (Runs->>= order delete_job_wizard-Agrees λ deleted. Runs-pure order _)
                  (Runs-pure order _))))))

  task_round-Filed : (choice : String) → Runs (Filed machine) (task_round machine choice)
  unfolding task_round
  task_round-Filed choice =
      Runs-if (Filed-IsOrder machine) (choice == "3") toggle_job-Filed
        (Runs-Filed machine (task_entry-Agrees choice))

  pub task_menu-Filed : Runs (Filed machine) (task_menu machine)
  unfolding task_menu
  task_menu-Filed = menu-Runs (Filed-IsOrder machine) task_round-Filed
