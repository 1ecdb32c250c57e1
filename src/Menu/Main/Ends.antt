-- ===== src/Menu/Main/Ends.antt =====
-- internal/tui/menu.go, `Run`: what the main menu does on any input, and to the file.
use sbackup.Base.{String, Bool, not, ◌||◌, some, ◌==◌, string_eq, ◌≡◌}
use sbackup.Config.{Config, Storage, storage}
use sbackup.Menu.{Session, Machine, M, saving}
use sbackup.Menu.Runs.{
  Runs, IsOrder, Runs->>=, Runs->>, Runs-pure, Runs-if, Runs-elim, read_line-Runs, act-Runs,
  the_config-Runs, menu-Runs,
}
use sbackup.Menu.Setup.{is_some, validate_new_storage, append_storage, set_up, quick_setup}
use sbackup.Menu.Agreement.{
  IsValid, Filed, Filed-IsOrder, Runs-Filed, change_config-Filed, validate_config-Filed,
  save_config-Filed,
}
use sbackup.Menu.Setup.Ends.{
  new_local_storage-Runs, new_webdav_storage-Runs, create_repository_password-Runs,
}
use sbackup.Menu.Setup.Agrees.{finish_job_setup-Agrees}
use sbackup.Menu.Watch.Ends.{monitor-Filed}
use sbackup.Menu.Jobs.Agrees.{run_backup-Runs, task_menu-Filed}
use sbackup.Menu.Restoring.Ends.{restore_wizard-Runs, storage_menu-Runs}
use sbackup.Menu.History.Ends.{history_menu-Runs}
use sbackup.Menu.Main.{Surroundings, pause, doctor, advanced_round, advanced_menu, main_round, run}

pause-Runs : {R : Session → Session → Type 0} → IsOrder R → Runs R pause
unfolding pause
pause-Runs order = Runs->>= order (read_line-Runs order) λ line. Runs-pure order _

module _ (machine : Machine) where
  order : IsOrder (Filed machine)
  order = Filed-IsOrder machine

  saving-Filed :
      {A : Type 0} {attempt : M Bool} (change undo : Config → Config) {yes no : M A}
      → Runs (Filed machine) attempt
      → Runs (Filed machine) yes
      → Runs (Filed machine) no
      → Runs (Filed machine) (saving attempt change undo yes no)
  unfolding saving
  saving-Filed change undo attempts yes_ends no_ends =
      Runs->> order (change_config-Filed machine _) (
        Runs->>= order attempts λ saved.
          Runs-if order saved yes_ends (Runs->> order (change_config-Filed machine _) no_ends))

  append_storage-Filed : (s : Storage) → Runs (Filed machine) (append_storage machine s)
  unfolding append_storage
  append_storage-Filed s =
      saving-Filed _ _ (save_config-Filed machine)
        (Runs->>= order (create_repository_password-Runs order machine s) λ created.
          Runs-if order created (Runs-pure order _) (
            Runs->> order (change_config-Filed machine _)
              (Runs->>= order (save_config-Filed machine) λ saved. Runs-pure order _)))
        (Runs-pure order _)

  set_up-Filed : (s : Storage) → Runs (Filed machine) (set_up machine s)
  unfolding set_up
  set_up-Filed s = Runs->>= order (the_config-Runs order) λ c.
      Runs-if order (is_some (storage c s.id) || not (validate_new_storage machine c s))
        (Runs-pure order _)
        (Runs->>= order (append_storage-Filed s) λ appended.
          Runs->>= order (Runs-if order appended (act-Runs order machine _) (Runs-pure order _))
            λ initialised.
              Runs-if order initialised (Runs-Filed machine (finish_job_setup-Agrees machine s.id))
                (Runs-pure order _))

  quick_setup-Filed : Runs (Filed machine) (quick_setup machine)
  unfolding quick_setup
  quick_setup-Filed = Runs->>= order (read_line-Runs order) λ choice.
      Runs->>= order (the_config-Runs order) λ c.
        Runs->>= order
          (Runs-if order (choice == "1") (new_local_storage-Runs order machine c) (
            Runs-if order (choice == "2") (new_webdav_storage-Runs order machine c)
              (Runs-pure order _)))
          λ s. Runs-elim s (Runs-pure order _) set_up-Filed

module _ (machine : Machine) (around : Surroundings) where
  around_order : IsOrder (Filed machine)
  around_order = Filed-IsOrder machine

  doctor-Filed : Runs (Filed machine) (doctor machine around)
  unfolding doctor
  doctor-Filed =
      Runs->>= around_order
        (Runs-elim machine.executable (Runs-pure around_order _)
          (λ bin. act-Runs around_order machine _))
        λ done. (pause-Runs around_order)

  advanced_round-Filed :
      (choice : String) → Runs (Filed machine) (advanced_round machine around choice)
  unfolding advanced_round
  advanced_round-Filed choice =
      Runs-if around_order (choice == "1" || choice == "4") (pause-Runs around_order) (
        Runs-if around_order (choice == "2")
          (Runs->>= around_order (validate_config-Filed machine) λ valid. (pause-Runs around_order))
          (Runs-if around_order (choice == "3") doctor-Filed (Runs-pure around_order _)))

  main_round-Filed : (choice : String) → Runs (Filed machine) (main_round machine around choice)
  unfolding main_round advanced_menu
  main_round-Filed choice =
      Runs-if around_order (choice == "1") (run_backup-Runs around_order machine) (
        Runs-if around_order (choice == "2") (history_menu-Runs around_order machine around.rows) (
          Runs-if around_order (choice == "3")
            (restore_wizard-Runs around_order machine around.listing around.before)
            (Runs-if around_order (choice == "4") (task_menu-Filed machine) (
              Runs-if around_order (choice == "5")
                (storage_menu-Runs around_order machine around.has_password)
                (Runs-if around_order (choice == "6") (quick_setup-Filed machine) (
                  Runs-if around_order (choice == "7")
                    (Runs->>= around_order (monitor-Filed machine) λ changed.
                      Runs->>= around_order
                        (Runs-if around_order changed (save_config-Filed machine)
                          (Runs-pure around_order _))
                        λ saved. Runs-pure around_order _)
                    (Runs-if around_order (choice == "8")
                      (menu-Runs around_order advanced_round-Filed)
                      (Runs-pure around_order _))))))))

  run-Filed : Runs (Filed machine) (run machine around)
  unfolding run
  run-Filed = menu-Runs around_order main_round-Filed

  -- The main menu, with every menu and dialogue below it but the uninstaller, returns on every input,
  -- whatever the system answers.
  pub run_terminates : (s : Session) → (t : Session) × (run machine around s ≡ some (tt, t))
  run_terminates s = let (u, t, e, l, r) = run-Filed.outcome s in (t, e)

  -- The main menu, with every menu and dialogue below it but the uninstaller, returns on every input, and
  -- leaves in the file a configuration that `Validate` accepts, if the file held one, whatever the system
  -- answers.
  pub run-IsValid :
      (s : Session)
      → IsValid machine s.file
      → (t : Session) × (run machine around s ≡ some (tt, t)) × IsValid machine t.file
  run-IsValid s valid = let (u, t, e, l, r) = run-Filed.outcome s in (t, e, r valid)
