-- ===== src/Command/Callbacks.antt =====
-- cmd/sbackup/main.go: `serviceFor`, which tells channels and monitor about the runs of a job.
pub mod Recipients
use sbackup.Base.{
  ℕ, String, Bool, true, false, ◌&&◌, ◌||◌, List, [], ◌∷◌, ◌++◌, Option, none, some, Result, ok,
  err, if◌then◌else◌, ◌==◌, string_eq,
}
use sbackup.Base.Int.{ℤ}
use sbackup.Base.Text.{concat}
use sbackup.Config.{Config, Job}
use sbackup.Store.{Run, Outbox, StoreError}
use sbackup.Store.Runs.{last_completed_before}
use sbackup.Monitor.Report.{Codec}
use sbackup.Client.{Caller, event_for_run, send_or_queue}
use sbackup.Notify as Notify
use sbackup.Notify.{Net, send_ids}

-- Whether the run before, if the database gives one, did not succeed.
abbrev troubled : Result StoreError Run → Bool
troubled (ok previous) = previous.status == "failed" || previous.status == "warning"
troubled (err e) = false

-- The channels that are told about the end of a run, and the title.
unfoldable pub recipients : Job → Run → Result StoreError Run → List String × String
recipients j r previous =
    let recovered = troubled previous && r.status == "success" in
    let title = if recovered then "SBackup recovered" else concat ("SBackup " ∷ r.status ∷ []) in
    let n = j.notifications in
    (
      if r.status == "warning"
          then n.on_warning
          else if r.status == "failed"
          then n.on_failure
          else if recovered
          then n.on_recovery
          else n.on_success,
      title,
    )

module _ (codec : Codec) (caller : Caller) (net : Net) (c : Config) where
  abbrev messages : Option String → List String
  messages none = []
  messages (some e) = e ∷ []

  abbrev reported : Option String × List Outbox → List String × List Outbox
  reported (failure, rows) = (messages failure, rows)

  abbrev to_monitor : Job → Run → String → List Outbox → List String × List Outbox
  to_monitor j r kind rows =
      if c.monitoring.enabled && j.monitoring.report
      then reported (send_or_queue caller codec c.monitoring (event_for_run caller c j r kind) rows)
      else ([], rows)

  -- `OnRunStarted`: the messages for the standard error, and the outbox
  unfoldable pub run_started : Job → Run → List Outbox → List String × List Outbox
  unfolding send_or_queue event_for_run
  run_started j r rows = to_monitor j r "run.started" rows

  abbrev and_then :
      List String × List Outbox
      → (List Outbox → List String × List Outbox)
      → List String × List Outbox
  and_then (errors, rows) rest = let (more, rows') = rest rows in (errors ++ more, rows')

  -- What the channels are told; `duration` is the text of the duration of the run.
  unfoldable pub finish_event : String → Job → Run → String → Notify.Event
  finish_event duration j r title = record {
    title = title;
    body = concat (
        "主机: " ∷ c.global.display_name ∷ "\n任务: " ∷ j.name ∷ "\n状态: " ∷ r.status ∷ "\n快照: "
        ∷ r.snapshot_id ∷ "\n耗时: " ∷ duration ∷ "\n错误: " ∷ r.error_summary ∷ []);
    status = r.status;
    node = c.global.display_name;
    job_id = j.id;
    job_name = j.name;
    run_id = r.id;
    time = r.finished_at;
  }

  abbrev told : String → Job → Run → List String × String → List Outbox → List String × List Outbox
  told duration j r (ids, title) rows = send_ids net c 0 ids (finish_event duration j r title) rows

  -- `OnRunFinished`
  unfoldable pub run_finished :
      (ℤ → String) → Job → Run → List Run → List Outbox → List String × List Outbox
  unfolding recipients send_ids last_completed_before finish_event send_or_queue event_for_run
  run_finished duration j r runs rows =
      and_then
        (told (duration r.duration_ms) j r (recipients j r (last_completed_before j.id r.id runs))
          rows)
        (to_monitor j r "run.completed")
