-- ===== src/Menu/Setup/Ends.antt =====
-- internal/tui/menu.go: lemmas on the questions about a storage and a job as programs.
use sbackup.Base.{String, not, ◌||◌, List, ◌==◌, string_eq, nat_beq, length}
use sbackup.Config.{Config, Job, Storage}
use sbackup.Menu.{Session, Machine}
use sbackup.Menu.Runs.{
  Runs, IsOrder, Runs->>=, Runs-pure, Runs-if, Runs-elim, read_line-Runs, act-Runs,
}
use sbackup.Menu.Ask.{split_values}
use sbackup.Menu.Ask.Ends.{ask-Runs, read_password-Runs}
use sbackup.Menu.Plan.Ends.{ask_schedule-Runs, ask_backup_mode-Runs}
use sbackup.Menu.Timer.Ends.{install_job_schedule-Runs}
use sbackup.Menu.Setup.{
  read_one, new_local_storage, validate_new_storage, connect_webdav, describe_webdav,
  new_webdav_storage, second_password, typed_twice, create_repository_password, plan_job, new_job,
  run_one_mode, start_job,
}

module _ {R : Session → Session → Type 0} (order : IsOrder R) (machine : Machine) where
  pub new_local_storage-Runs : (c : Config) → Runs R (new_local_storage c)
  unfolding new_local_storage
  new_local_storage-Runs c = Runs->>= order (ask-Runs order _) λ id.
      Runs->>= order (ask-Runs order _)
        λ name. Runs->>= order (ask-Runs order _) λ repo. Runs-pure order _

  connect_webdav-Runs :
      (c : Config) (s : Storage) (password : String) → Runs R (connect_webdav machine c s password)
  unfolding connect_webdav
  connect_webdav-Runs c s password =
      Runs-if order (not (validate_new_storage machine c s)) (Runs-pure order _)
        (Runs->>= order (act-Runs order machine _) λ configured. Runs-pure order _)

  describe_webdav-Runs : (c : Config) → Runs R (describe_webdav machine c)
  unfolding describe_webdav
  describe_webdav-Runs c = Runs->>= order (ask-Runs order _) λ id.
      Runs->>= order (ask-Runs order _) λ name. Runs->>= order (ask-Runs order _) λ endpoint.
        Runs-if order (endpoint == "") (Runs-pure order _) (
          Runs->>= order (ask-Runs order _) λ username.
            Runs->>= order (read_password-Runs order machine) λ password.
              Runs-if order (read_one password == "") (Runs-pure order _) (
                Runs->>= order (ask-Runs order _)
                  λ vendor. Runs->>= order (ask-Runs order _) λ root. connect_webdav-Runs c _ _))

  pub new_webdav_storage-Runs : (c : Config) → Runs R (new_webdav_storage machine c)
  unfolding new_webdav_storage
  new_webdav_storage-Runs c =
      Runs->>= order (act-Runs order machine _)
        λ ready. Runs-if order ready (describe_webdav-Runs c) (Runs-pure order _)

  second_password-Runs : (p : String) → Runs R (second_password machine p)
  unfolding second_password
  second_password-Runs p =
      Runs->>= order (read_password-Runs order machine) λ second. Runs-pure order _

  typed_twice-Runs : Runs R (typed_twice machine)
  unfolding typed_twice
  typed_twice-Runs =
      Runs->>= order (read_password-Runs order machine)
        λ first. Runs-elim first (Runs-pure order _) second_password-Runs

  pub create_repository_password-Runs :
      (s : Storage) → Runs R (create_repository_password machine s)
  unfolding create_repository_password
  create_repository_password-Runs s = Runs->>= order (read_line-Runs order) λ choice.
      Runs->>= order (Runs-if order (choice == "2") typed_twice-Runs (Runs-pure order _))
        λ password. Runs-elim password (Runs-pure order _) (λ p. act-Runs order machine _)

  plan_job-Runs :
      (storage id name : String) (paths : List String)
      → Runs R (plan_job machine storage id name paths)
  unfolding plan_job
  plan_job-Runs storage id name paths = Runs->>= order (ask_schedule-Runs order machine _) λ asked.
      Runs-elim asked (Runs-pure order _)
        (λ s. Runs->>= order (ask_backup_mode-Runs order _) λ mode. Runs-pure order _)

  pub new_job-Runs : (storage : String) → Runs R (new_job machine storage)
  unfolding new_job
  new_job-Runs storage = Runs->>= order (ask-Runs order _) λ id.
      Runs->>= order (ask-Runs order _) λ name. Runs->>= order (ask-Runs order _) λ raw.
        Runs-if order (id == "" || nat_beq (length (split_values raw)) 0) (Runs-pure order _)
          (plan_job-Runs storage id name _)

  pub run_one_mode-Runs : (id mode : String) → Runs R (run_one_mode machine id mode)
  unfolding run_one_mode
  run_one_mode-Runs id mode = Runs->>= order (act-Runs order machine _) λ ran. Runs-pure order _

  pub start_job-Runs : (j : Job) → Runs R (start_job machine j)
  unfolding start_job
  start_job-Runs j =
      Runs->>= order
        (Runs-if order j.schedule.enabled (install_job_schedule-Runs order machine j)
          (Runs-pure order _))
        λ installed. Runs->>= order (read_line-Runs order) λ answer.
          Runs-if order (machine.std.to_lower answer == "n") (Runs-pure order _)
            (run_one_mode-Runs j.id "")
