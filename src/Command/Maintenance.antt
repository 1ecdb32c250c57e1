-- ===== src/Command/Maintenance.antt =====
-- cmd/sbackup/main.go: `maintenanceCmd`, which sends what waits in the outbox, sends a heartbeat and
-- prunes the database. `Prune` of internal/store/store.go is put together here.
pub mod Settled
use sbackup.Base.{
  ℕ, String, Bool, true, false, ◌&&◌, List, [], ◌∷◌, ◌++◌, Option, none, some, Result, ok, err,
  ◌>>=◌, if◌then◌else◌, ◌==◌, string_eq,
}
use sbackup.Base.Int.{ℤ, pos, wrap64, ltb_ℤ, ◌+ℤ◌}
use sbackup.Base.Text.{concat}
use sbackup.Config.{Config}
use sbackup.Config.Std.{Std}
use sbackup.Config.Validate.Fields.{parse_duration}
use sbackup.Store.{Outbox, Run}
use sbackup.Store.Runs.{prune_runs}
use sbackup.Store.Queue.{due_outbox, complete_outbox, fail_outbox, expire_outbox, cap_outbox}
use sbackup.Protocol as Protocol
use sbackup.Monitor.Report.{Codec}
use sbackup.Client as Client
use sbackup.Client.{Caller, heartbeat, send_or_queue}
use sbackup.Notify as Notify
use sbackup.Notify.{Net}

-- The surroundings of the attempt at one event, and of what comes before and after the loop. A database
-- call that fails has its error; `quote` is the format `%q`.
pub record Around : Type 0 where
  pub caller : Outbox → Caller
  pub net : Outbox → Net
  pub failed_at : Outbox → ℕ
  pub write_error : Outbox → Option String
  pub decode_error : String → String
  pub decode_notification : String → Result String Notify.Event
  pub quote : String → String
  pub due_at : ℕ
  pub due_error : Option String
  pub beating : Caller
  pub pruned_at : ℕ
  pub prune_runs_error : Option String
  pub expire_error : Option String
  pub cap_error : Option String
  pub bad_duration : String → String

-- The exit status and the message of `fatal`.
pub record Fatal : Type 0 where
  pub status : ℕ
  pub message : String

module _ (codec : Codec) (around : Around) (c : Config) where
  abbrev pub report_attempt : Outbox → Option Protocol.Event → Option String
  report_attempt o none = some (concat ("无效的监控 outbox: " ∷ around.decode_error o.payload ∷ []))
  report_attempt o (some e) = Client.send (around.caller o) codec c.monitoring e

  abbrev pub notification_attempt : Outbox → Result String Notify.Event → Option String
  notification_attempt o (err q) = some (concat ("无效的通知 outbox: " ∷ q ∷ []))
  notification_attempt o (ok e) = Notify.send (around.net o) c o.destination_id e

  -- One attempt at an event; `none` is success.
  unfoldable pub attempt : Outbox → Option String
  attempt o =
      let reported = report_attempt o (codec.decode_event o.payload) in
      let notified = notification_attempt o (around.decode_notification o.payload) in
      if o.kind == "report"
      then reported
      else if o.kind == "notification"
      then notified
      else some (concat ("未知 outbox 类型 " ∷ around.quote o.kind ∷ []))

  -- `CompleteOutbox` or `FailOutbox`, by the result of the attempt
  unfoldable pub settle : Outbox → Option String → List Outbox → List Outbox
  unfolding complete_outbox fail_outbox
  settle o none rows = complete_outbox o.id rows
  settle o (some failure) rows =
      fail_outbox o.id failure (wrap64 (o.attempts +ℤ pos 1)) (around.failed_at o) rows

  -- The loop over the events that are due.
  unfoldable pub flush : List Outbox → List Outbox → Result Fatal (List Outbox)
  unfolding attempt settle
  flush [] rows = ok rows
  flush (o ∷ items) rows =
      let rest = flush items (settle o (attempt o) rows) in
      elim (around.write_error o) [
        | none ↦ rest
        | some e ↦ err (record { status = 1; message = e })
      ]

  abbrev beaten : Option String × List Outbox → Result Fatal (List Outbox)
  beaten (none, rows) = ok rows
  beaten (some e, rows) = err (record { status = 1; message = e })

  unfoldable pub beat : List Outbox → Result Fatal (List Outbox)
  unfolding heartbeat send_or_queue
  beat rows =
      if c.monitoring.enabled && c.monitoring.heartbeat_enabled
      then beaten (
          send_or_queue around.beating codec c.monitoring (heartbeat around.beating c (some rows))
            rows)
      else ok rows

  abbrev unless : {A : Type 0} → Option String → A → A → A
  unless none changed same = changed
  unless (some e) changed same = same

  abbrev messages : Option String → List String
  messages none = []
  messages (some e) = e ∷ []

  -- `Store.Prune`: a deletion that fails leaves the others; with no limit there is no deletion
  unfoldable pub prune : ℤ → ℤ → ℤ → List Run → List Outbox → List String × List Run × List Outbox
  unfolding prune_runs expire_outbox cap_outbox
  prune max_runs max_pending retention runs rows =
      let run_error = if ltb_ℤ (pos 0) max_runs then around.prune_runs_error else none in
      let expire_error = if ltb_ℤ (pos 0) retention then around.expire_error else none in
      let cap_error = if ltb_ℤ (pos 0) max_pending then around.cap_error else none in
      let kept = unless expire_error (expire_outbox retention around.pruned_at rows) rows in
      (
        messages run_error ++ (messages expire_error ++ messages cap_error),
        unless run_error (prune_runs max_runs runs) runs,
        unless cap_error (cap_outbox max_pending kept) kept,
      )

  abbrev retention_of : Std → Result Fatal ℤ
  retention_of std =
      if c.monitoring.event_retention == ""
      then ok (pos 0)
      else elim (parse_duration std c.monitoring.event_retention) [
        | none ↦
            err (record { status = 2; message = around.bad_duration c.monitoring.event_retention })
        | some d ↦ ok d
      ]

  abbrev swept : List String × List Run × List Outbox → Result Fatal (List Run × List Outbox)
  swept ([], runs, rows) = ok (runs, rows)
  swept (e ∷ errors, runs, rows) = err (record { status = 1; message = e })

  abbrev due : List Outbox → Result Fatal (List Outbox)
  due rows = elim around.due_error [
    | none ↦ ok (due_outbox around.due_at (pos 100) rows)
    | some e ↦ err (record { status = 1; message = e })
  ]

  -- `maintenanceCmd`, once the configuration is loaded and the database open
  unfoldable pub maintenance : Std → List Run → List Outbox → Result Fatal (List Run × List Outbox)
  unfolding due_outbox flush beat parse_duration prune
  maintenance std runs rows = do
    items ← due rows
    flushed ← flush items rows
    beaten_rows ← beat flushed
    retention ← retention_of std
    swept (prune (pos 10000) c.monitoring.max_pending_events retention runs beaten_rows)
