-- ===== src/Backup/Run.antt =====
-- `RunWithMode`: one run of a job, from the locks to the state that it leaves in the store.
pub mod Steps
pub mod Report
pub mod Locks
use sbackup.Base.{
  ℕ, suc, String, Bool, true, false, not, List, [], ◌∷◌, Option, none, some, Result, ok, err,
  if◌then◌else◌, ◌==◌, string_eq,
}
use sbackup.Base.Int.{ℤ, pos, itoa}
use sbackup.Base.Text.{concat}
use sbackup.Config.{Config, Job, job}
use sbackup.Executor.{redact}
use sbackup.Lock.{
  LockFile, Refusal, no_lock_file, already_running, no_limit, limit_reached, acquire, acquire_slot,
  release,
}
use sbackup.Repository.{Runtime}
use sbackup.Store.{Run}
use sbackup.World.{
  Outside, Exec, Work, give, raise, check, relabel, add_file, clock, set_run, the_run, remove_all,
  ◌>>=◌, ◌>>◌,
}
use sbackup.Backup.Options.{backup_mode}
use Steps.{Failure, save_row, stamp_end, prepare, staged}

-- `store.Run{}`
abbrev pub no_run : Run
no_run = record {
  id = "";
  job_id = "";
  status = "";
  phase = "";
  scheduled_at = 0;
  started_at = 0;
  finished_at = 0;
  snapshot_id = "";
  files_new = pos 0;
  files_changed = pos 0;
  files_unmodified = pos 0;
  bytes_added = pos 0;
  bytes_processed = pos 0;
  duration_ms = pos 0;
  warning = "";
  error_code = "";
  error_summary = "";
  log_path = "";
}

-- What `RunWithMode` returns.
pub record Outcome : Type 0 where
  pub run : Run
  pub error : Option String

abbrev pub refused : String → Work → Outcome × Work
refused e w = (record { run = no_run; error = some e }, w)

-- `err.Error()` of the errors of `Acquire` and `AcquireSlot`
abbrev refusal_text : Outside → ℤ → Refusal → String
refusal_text o limit no_lock_file = o.lock_error
refusal_text o limit already_running = "任务已在运行"
refusal_text o limit no_limit = "并发上限必须大于 0"
refusal_text o limit limit_reached = concat ("已达到并发任务上限 " ∷ itoa limit ∷ [])

module _ (o : Outside) (c : Config) where
  -- the end of `fail`, after its `SaveRun`
  abbrev pub told : Failure → Result String (Unit {0}) × Work → Outcome × Work
  told f (ok u, w) =
      (record { run = w.run; error = some f.cause }, record w { finished = w.run ∷ w.finished })
  told f (err e, w) =
      (record { run = w.run; error = some (concat (f.cause ∷ "；且无法保存失败状态: " ∷ e ∷ [])) }, w)

  -- `fail`
  unfoldable pub fail : Failure → Work → Outcome × Work
  unfolding stamp_end save_row
  fail f w =
      let marked = record w {
        run = record w.run {
          status = "failed";
          phase = "completed";
          error_code = f.code;
          error_summary = redact f.cause;
        };
      } in
      let (_, ended) = stamp_end o {E = String} marked in told f (save_row o ended)

  unfoldable pub settle : Result Failure (Unit {0}) × Work → Outcome × Work
  unfolding fail
  settle (ok u, w) =
      (record { run = w.run; error = none }, record w { finished = w.run ∷ w.finished })
  settle (err f, w) = fail f w

  abbrev pub drop_stage : String → Outcome × Work → Outcome × Work
  drop_stage stage (out, w) = (out, (remove_all {E = String} stage w).1)

  abbrev pub on_stage : Job → String → Result Failure (Runtime × String) × Work → Outcome × Work
  on_stage j mode (err f, v) = settle (err f, v)
  on_stage j mode (ok (rt, stage), v) = drop_stage stage (settle (staged o c j mode rt stage v))

  -- the body of the run, once it is saved as running
  unfoldable pub proceed : Job → String → Work → Outcome × Work
  unfolding settle prepare staged
  proceed j mode w = on_stage j mode (prepare o c j w)

  abbrev pub first_row : Job → Bool → ℕ → String → Run
  first_row j scheduled now log_path = record no_run {
    id = o.new_id;
    job_id = j.id;
    status = "running";
    phase = "preflight";
    started_at = now;
    scheduled_at = if scheduled then now else 0;
    log_path = log_path;
  }

  abbrev pub begin_saved : Job → String → Result String (Unit {0}) × Work → Outcome × Work
  begin_saved j mode (err e, w) = refused (concat ("保存运行状态: " ∷ e ∷ [])) w
  begin_saved j mode (ok u, w) = proceed j mode (record w { started = w.run ∷ w.started })

  -- what `RunWithMode` does while it holds both locks
  unfoldable pub locked : Job → Bool → String → Work → Outcome × Work
  unfolding proceed save_row
  locked j scheduled mode w =
      let path = o.join c.global.log_dir (concat (o.new_id ∷ ".jsonl" ∷ [])) in
      let starting = record w {
        ticks = suc w.ticks;
        run = first_row j scheduled (o.now w.ticks) path;
      } in
      elim (o.open_log path) [
        | some e ↦ refused e w
        | none ↦ begin_saved j mode (save_row o starting)
      ]

  abbrev pub unlocked :
      (List LockFile → List LockFile)
      → List LockFile
      → Outcome × Work
      → Outcome × (List LockFile × Work)
  unlocked undo held (out, w) = (out, (undo held, w))

  -- the part of `RunWithMode` from `AcquireSlot` on
  unfoldable pub with_slot :
      Job → Bool → String → Work → LockFile → List LockFile → Outcome × (List LockFile × Work)
  unfolding locked
  with_slot j scheduled mode w f mine =
      elim (acquire_slot o.openable "global" c.global.max_parallel_jobs mine) [
        | err r ↦
            unlocked (release f) mine (refused (refusal_text o c.global.max_parallel_jobs r) w)
        | ok (g, both) ↦ unlocked (λ h. release f (release g h)) both (locked j scheduled mode w)
      ]

  -- the part of `RunWithMode` from `Acquire` on
  unfoldable pub with_locks :
      Job → Bool → String → List LockFile → Work → Outcome × (List LockFile × Work)
  unfolding with_slot
  with_locks j scheduled mode held w =
      elim (acquire o.openable (concat ("job-" ∷ j.id ∷ [])) held) [
        | err r ↦ unlocked (λ h. h) held (refused (refusal_text o c.global.max_parallel_jobs r) w)
        | ok (f, mine) ↦ with_slot j scheduled mode w f mine
      ]

  abbrev pub with_mode :
      Job → Bool → String → List LockFile → Work → Option String → Outcome × (List LockFile × Work)
  with_mode j scheduled override held w none =
      unlocked (λ h. h) held
        (refused
          (concat (
            "无效备份模式 "
            ∷ o.quote (if override == "" then j.restic.backup_mode else override)
            ∷ "（可选 incremental 或 full）"
            ∷ []))
          w)
  with_mode j scheduled override held w (some mode) = with_locks j scheduled mode held w

  -- the part of `RunWithMode` after the lookup of the job
  unfoldable pub enabled_job :
      Job → Bool → String → List LockFile → Work → Outcome × (List LockFile × Work)
  unfolding with_locks
  enabled_job j scheduled override held w =
      if not j.enabled
      then unlocked (λ h. h) held (refused "任务已禁用" w)
      else with_mode j scheduled override held w (backup_mode j override)

  -- `RunWithMode`, with the lock files that some process holds
  unfoldable pub run_with_mode :
      String → Bool → String → List LockFile → Work → Outcome × (List LockFile × Work)
  unfolding enabled_job
  run_with_mode job_id scheduled override held w = elim (job c job_id) [
    | none ↦ unlocked (λ h. h) held (refused (concat ("任务不存在: " ∷ job_id ∷ [])) w)
    | some j ↦ enabled_job j scheduled override held w
  ]
