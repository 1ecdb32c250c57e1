-- ===== src/Menu/Timer.antt =====
-- internal/tui/menu.go: `installJobSchedule` and `disableJobSchedule`. They return whether there was no error.
pub mod Ends
use sbackup.Base.{
  ℕ, String, Bool, true, false, not, ◌||◌, List, [], ◌∷◌, Option, none, some, length, if◌then◌else◌,
  Result, ok, err,
}
use sbackup.Base.Text.{concat, contains}
use sbackup.Config.{Job}
use sbackup.Menu.{Machine, Session, M, ◌>>=◌, pure, act, write_units, run_command, remove_file}
use sbackup.Schedule.{units}

abbrev timer_unit : String → String
timer_unit id = concat ("sbackup-job-" ∷ id ∷ ".timer" ∷ [])

module _ (machine : Machine) where
  -- `exec.LookPath("systemctl")`
  unfoldable pub look_systemctl : M Bool
  look_systemctl s = some (machine.has_systemctl (length s.actions), s)

  unfoldable pub enable_timer : String → M Bool
  enable_timer id = do
    reloaded ← act machine (run_command ("systemctl" ∷ "daemon-reload" ∷ []))
    if reloaded
        then act machine (run_command ("systemctl" ∷ "enable" ∷ "--now" ∷ timer_unit id ∷ []))
        else pure false

  unfoldable pub install_files : Job → List (String × String) → M Bool
  install_files job files = do
    written ← act machine (write_units files)
    found ← if written then look_systemctl else pure false
    if found then enable_timer job.id else pure false

  -- `installJobSchedule`
  unfoldable pub install_job_schedule : Job → M Bool
  install_job_schedule job = if not machine.is_root then pure false else elim machine.executable [
    | none ↦ pure false
    | some bin ↦
        elim (units machine.quote machine.join job bin machine.config_path "/etc/systemd/system") [
          | err e ↦ pure false
          | ok files ↦ install_files job files
        ]
  ]

  -- A unit that is not there need not be stopped.
  unfoldable pub stop_timer : String → M Bool
  stop_timer id s =
      elim (act machine (run_command ("systemctl" ∷ "disable" ∷ "--now" ∷ timer_unit id ∷ [])) s) [
        | none ↦ none
        | some (stopped, s') ↦
            let output = machine.output (length s.actions) in
            some (stopped || (contains output "does not exist" || contains output "not loaded"), s')
      ]

  -- the loop over the two files; a file that is missing already is no error, so such an action succeeds
  unfoldable pub remove_units : String → M Bool
  remove_units id = do
    timer ← act machine (remove_file (machine.join "/etc/systemd/system" (timer_unit id)))
    if timer
        then act machine (
            remove_file
              (machine.join "/etc/systemd/system" (concat ("sbackup-job-" ∷ id ∷ ".service" ∷ []))))
        else pure false

  -- `disableJobSchedule`
  unfoldable pub disable_job_schedule : String → M Bool
  disable_job_schedule id = if not machine.is_root then pure false else (do
    found ← look_systemctl
    stopped ← if found then stop_timer id else pure true
    removed ← if stopped then remove_units id else pure false
    again ← look_systemctl
    if not removed
        then pure false
        else if again
        then act machine (run_command ("systemctl" ∷ "daemon-reload" ∷ []))
        else pure true)
