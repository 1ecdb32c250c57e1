-- ===== src/Menu/Edit/Ends.antt =====
-- internal/tui/menu.go, `editJobMenu`: lemmas on its questions as programs.
use sbackup.Base.{String, List, ◌==◌, string_eq}
use sbackup.Config.{Job, Storage, Retention}
use sbackup.Menu.{Session, Machine}
use sbackup.Menu.Runs.{Runs, IsOrder, Runs-pure, Runs->>=, Runs-if, Runs-elim}
use sbackup.Menu.Ask.Ends.{ask-Runs, ask_yes_no-Runs, ask_non_negative_int-Runs, select-Runs}
use sbackup.Menu.Plan.Ends.{ask_schedule-Runs, ask_backup_mode-Runs}
use sbackup.Menu.Timer.Ends.{install_job_schedule-Runs, disable_job_schedule-Runs}
use sbackup.Menu.Edit.{ask_retention, edit_scan_options, edit_schedule, edited, follow_timer}

module _ {R : Session → Session → Type 0} (order : IsOrder R) (machine : Machine) where
  ask_retention-Runs : (r : Retention) → Runs R (ask_retention machine r)
  unfolding ask_retention
  ask_retention-Runs r =
      search
        (
          Runs->>= order,
          Runs-pure order,
          ask_non_negative_int-Runs order,
          ask_yes_no-Runs order machine,
        )
        depth 30

  edit_scan_options-Runs : (j : Job) → Runs R (edit_scan_options machine j)
  unfolding edit_scan_options
  edit_scan_options-Runs j =
      search (Runs->>= order, Runs-pure order, ask-Runs order, ask_yes_no-Runs order machine) depth
        30

  edit_schedule-Runs : (j : Job) → Runs R (edit_schedule machine j)
  unfolding edit_schedule
  edit_schedule-Runs j = Runs->>= order (ask_schedule-Runs order machine _) (λ asked.
      Runs-elim asked (Runs-pure order _)
        (λ s. Runs->>= order (ask_backup_mode-Runs order _) (λ mode. Runs-pure order _)))

  pub edited-Runs :
      (storages : List Storage) (j : Job) (choice : String)
      → Runs R (edited machine storages j choice)
  unfolding edited
  edited-Runs storages j choice =
      Runs-if order (choice == "1") (Runs->>= order (ask-Runs order _) (λ x. Runs-pure order _)) (
        Runs-if order (choice == "2") (Runs->>= order (ask-Runs order _) (λ x. Runs-pure order _)) (
          Runs-if order (choice == "3") (Runs->>= order (ask-Runs order _) (λ x. Runs-pure order _))
            (Runs-if order (choice == "4")
              (Runs->>= order (ask-Runs order _) (λ x. Runs-pure order _))
              (Runs-if order (choice == "5")
                (Runs->>= order (select-Runs order storages) (λ x. Runs-pure order _))
                (Runs-if order (choice == "6") (edit_schedule-Runs j) (
                  Runs-if order (choice == "7")
                    (Runs->>= order (ask_retention-Runs _) (λ x. Runs-pure order _))
                    (Runs-if order (choice == "8")
                      (Runs->>= order (edit_scan_options-Runs j) (λ x. Runs-pure order _))
                      (Runs-pure order _))))))))

  pub follow_timer-Runs : (j : Job) → Runs R (follow_timer machine j)
  unfolding follow_timer
  follow_timer-Runs j =
      Runs->>= order
        (Runs-if order _ (install_job_schedule-Runs order machine j)
          (disable_job_schedule-Runs order machine j.id))
        (λ done. Runs-pure order _)
