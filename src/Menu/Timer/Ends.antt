-- ===== src/Menu/Timer/Ends.antt =====
-- internal/tui/menu.go: lemmas on `installJobSchedule` and `disableJobSchedule` as programs.
use sbackup.Base.{String, false, refl, arith, Result, ok, err, List}
use sbackup.Config.{Job}
use sbackup.Menu.{Session, Machine, pure, act}
use sbackup.Menu.Runs.{Runs, IsOrder, Runs-pure, Runs->>=, Runs-if, Runs-elim, act-Runs}
use sbackup.Menu.Timer.{
  look_systemctl, enable_timer, install_files, install_job_schedule, stop_timer, remove_units,
  disable_job_schedule,
}
use sbackup.Schedule.{units}

module _ {R : Session → Session → Type 0} (order : IsOrder R) (machine : Machine) where
  look_systemctl-Runs : Runs R (look_systemctl machine)
  unfolding look_systemctl
  look_systemctl-Runs = record {
    outcome = λ s. (_, _, refl, omega arith, order.quiet s s refl refl);
  }

  enable_timer-Runs : (id : String) → Runs R (enable_timer machine id)
  unfolding enable_timer
  enable_timer-Runs id =
      search (Runs->>= order, Runs-if order, Runs-pure order, act-Runs order machine)

  install_files-Runs :
      (job : Job) (files : List (String × String)) → Runs R (install_files machine job files)
  unfolding install_files
  install_files-Runs job files = search (
    Runs->>= order,
    Runs-if order,
    Runs-pure order,
    act-Runs order machine,
    look_systemctl-Runs,
    enable_timer-Runs,
  )

  stop_timer-Runs : (id : String) → Runs R (stop_timer machine id)
  unfolding stop_timer act
  stop_timer-Runs id = record {
    outcome = λ s. (_, _, refl, omega arith, order.quiet s _ refl refl);
  }

  pub install_job_schedule-Runs : (job : Job) → Runs R (install_job_schedule machine job)
  unfolding install_job_schedule
  install_job_schedule-Runs job = Runs-if order _ (Runs-pure order _) (
      Runs-elim machine.executable (Runs-pure order _) (λ bin.
        built (units machine.quote machine.join job bin machine.config_path "/etc/systemd/system")))
    where
      built :
          (r : Result String (List (String × String)))
          → Runs R (elim r [ err e ↦ pure false | ok files ↦ install_files machine job files ])
      built (err e) = Runs-pure order _
      built (ok files) = install_files-Runs job files

  remove_units-Runs : (id : String) → Runs R (remove_units machine id)
  unfolding remove_units
  remove_units-Runs id =
      search (Runs->>= order, Runs-if order, Runs-pure order, act-Runs order machine)

  pub disable_job_schedule-Runs : (id : String) → Runs R (disable_job_schedule machine id)
  unfolding disable_job_schedule
  disable_job_schedule-Runs id =
      search
        (
          Runs->>= order,
          Runs-if order,
          Runs-pure order,
          act-Runs order machine,
          look_systemctl-Runs,
          stop_timer-Runs,
          remove_units-Runs,
        )
        depth 16
