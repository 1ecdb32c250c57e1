-- ===== src/Backup/Tests.antt =====
-- Runs, dumps and retention rules at concrete inputs.
use sbackup.Base.{false, [], ◌≡◌, refl, arith, find}
use sbackup.Base.Int.{negsuc, itoa, wrap64, ◌+ℤ◌}
use sbackup.Config.{Job, job, storage}
use sbackup.Lock.{acquire, lock_file, is_held, acquire_slot, try_slots, slot_name}
use sbackup.Store.Runs.{save_run}
use sbackup.Repository.{build}
use sbackup.World.{execute}
use sbackup.Executor.Output.{run_result}
use sbackup.Config.Validate.Fields.{retention_empty}
use sbackup.Samples.{small, nightly, keep_seven, calm, fresh}
use sbackup.Backup.Options.{backup_mode, verify_args}
use sbackup.Backup.Retention.{IsPlain}
use sbackup.Backup.Run.{no_run, proceed, run_with_mode}
use sbackup.Backup.Run.Report.{IsReport, proceed-IsReport}
use sbackup.Backup.Run.Locks.{IsFree, run_with_mode_lem}

run_with_mode_lem_example :
    IsFree calm small []
      (fresh no_run)
      (run_with_mode calm small "nightly" false "" [] (fresh no_run))
run_with_mode_lem_example = run_with_mode_lem calm small "nightly" false "" [] (fresh no_run)

proceed-IsReport_example : IsReport calm (proceed calm small nightly "full" (fresh no_run))
proceed-IsReport_example = proceed-IsReport calm small nightly "full" (fresh no_run)

run_succeeds :
    (run_with_mode calm small "nightly" false "" [] (fresh no_run)).0.run.status ≡ "success"
unfolding run_with_mode job find backup_mode acquire lock_file is_held acquire_slot try_slots
    slot_name itoa save_run storage build execute run_result verify_args
run_succeeds = refl

keep_seven-IsPlain : IsPlain keep_seven
keep_seven-IsPlain = record {
  last = (omega arith, omega arith);
  hourly = (omega arith, omega arith);
  daily = (omega arith, omega arith);
  weekly = (omega arith, omega arith);
  monthly = (omega arith, omega arith);
  yearly = (omega arith, omega arith);
}

keeps_snapshots : retention_empty keep_seven ≡ false
unfolding retention_empty wrap64 ◌+ℤ◌
keeps_snapshots = refl

abbrev keeps_none : Job
keeps_none = record nightly { retention = record keep_seven { keep_last = negsuc 0 } }
