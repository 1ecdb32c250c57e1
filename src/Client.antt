-- ===== src/Client.antt =====
-- internal/report/client.go: the events that a node makes, how it signs them and what happens to those
-- that it cannot send. The system around it is the parameter `Caller`; the store of nodes and the
-- handler that reads the requests are those of the monitor.
pub mod Accepted
pub mod Queued
mod Tests
use sbackup.Base.{
  ℕ, zero, suc, ◌/◌, String, Bool, true, false, not, ◌||◌, List, [], ◌∷◌, Option, none, some,
  Result, ok, err, ◌>>=◌, if◌then◌else◌, ltb, length, filter, ◌==◌, nat_beq,
}
use Prim.Native.String
use sbackup.Base.Int.{ℤ, pos, negsuc, sub_ℕ, itoa}
use sbackup.Base.Text.{byte_length, concat, codes, trim_space, trim_suffix}
use sbackup.Base.Time.{second}
use sbackup.Config.{Config, Monitoring, Job}
use sbackup.Store.{Run, Outbox, StoreError}
use sbackup.Store.Queue.{enqueue, pending_outbox}
use sbackup.Protocol as Protocol
use sbackup.Protocol.{Event}
use sbackup.Monitor.Report.{Request, Codec, canonical}

-- What the client asks of the system: the key file, the path of the URL of a request, the identifiers
-- and the readings of the clock in the order of the code, and the monitor's answer within the time.
pub record Caller : Type 0 where
  pub version : String
  pub goos : String
  pub goarch : String
  pub read_file : String → Result String String
  pub new_request : String → Result String String
  -- `time.ParseDuration`, and the whole seconds of a duration, which Go takes from a float
  pub parse_duration : String → Option ℤ
  pub seconds : ℤ → ℤ
  pub event_id : String
  pub occurred_at : ℕ
  pub signing_at : ℕ
  pub nonce : String
  pub queue_id : String
  pub queued_at : ℕ
  pub queue_error : StoreError → String
  -- the status of the answer to a request with a time-out in nanoseconds
  pub deliver : ℤ → Request → Result String ℕ

-- `short`, of a text in ASCII
unfoldable pub first : ℕ → String → String
first zero s = ""
first (suc n) String.[] = ""
first (suc n) (String.◌∷◌ c s) = String.◌∷◌ c (first n s)

unfoldable pub short : String → String
unfolding first
short s = first 8 s

-- A time that is not zero.
abbrev given : ℕ → Option ℕ
given t = if nat_beq t 0 then none else some t

-- `Unix()`
abbrev pub unix_seconds : ℕ → ℤ
unix_seconds t = sub_ℕ (t / second) 62135596800

module _ (caller : Caller) where
  abbrev pub or_zero : Option ℤ → ℤ
  or_zero none = pos 0
  or_zero (some d) = d

  unfoldable pub duration_seconds : String → ℤ
  duration_seconds text = caller.seconds (or_zero (caller.parse_duration text))

  -- The node of an event.
  unfoldable pub this_node : Config → Protocol.Node
  this_node c = record {
    id = c.monitoring.node_id;
    name = c.global.hostname;
    display_name = c.global.display_name;
    client_version = caller.version;
    os = if c.monitoring.report_system_info then caller.goos else "";
    arch = if c.monitoring.report_system_info then caller.goarch else "";
  }

  -- `EventForRun`
  unfoldable pub event_for_run : Config → Job → Run → String → Event
  unfolding this_node duration_seconds short
  event_for_run c j r kind = record {
    protocol_version = pos 1;
    event_id = caller.event_id;
    event_type = kind;
    occurred_at = caller.occurred_at;
    node = this_node c;
    job = some (record {
      id = j.id;
      name = j.name;
      enabled = j.enabled;
      timezone = c.global.timezone;
      next_expected_at = none;
      grace_seconds = duration_seconds j.schedule.grace_period;
    });
    run = some (record {
      id = r.id;
      status = r.status;
      phase = r.phase;
      scheduled_at = given r.scheduled_at;
      started_at = r.started_at;
      finished_at = given r.finished_at;
      duration_ms = r.duration_ms;
      snapshot_id = short r.snapshot_id;
      files_new = r.files_new;
      files_changed = r.files_changed;
      bytes_processed = r.bytes_processed;
      bytes_added = r.bytes_added;
      error_code = r.error_code;
      error_summary = r.error_summary;
    });
    heartbeat = none;
    verification = none;
  }

  abbrev pending : Option (List Outbox) → ℕ
  pending none = 0
  pending (some rows) = pending_outbox rows

  -- `Heartbeat`, with the rows of the outbox when they can be counted
  unfoldable pub heartbeat : Config → Option (List Outbox) → Event
  unfolding this_node pending_outbox
  heartbeat c rows = record {
    protocol_version = pos 1;
    event_id = caller.event_id;
    event_type = "node.heartbeat";
    occurred_at = caller.occurred_at;
    node = this_node c;
    job = none;
    run = none;
    heartbeat = some (record {
      uptime_seconds = pos 0;
      pending_reports = pos (pending rows);
      jobs_enabled = pos (length (filter (λ (j : Job). j.enabled) c.jobs));
      jobs_running = pos 0;
    });
    verification = none;
  }

  module _ (codec : Codec) where
    abbrev pub unsigned : Monitoring → String → String → Request
    unsigned m path b = record {
      method = "POST";
      content_length = pos (byte_length (codes b));
      body = some b;
      path = path;
      node = m.node_id;
      timestamp = itoa (unix_seconds caller.signing_at);
      nonce = caller.nonce;
      signature = "";
      key_version = itoa m.key_version;
    }

    abbrev pub signature : String → Request → String → String
    signature key r b =
        concat (
          "v1=" ∷ codec.hex (codec.hmac (codec.sha256 (trim_space key)) (canonical codec r b)) ∷ [])

    -- The request that `Send` makes: the key, the encoding, the URL, the signature.
    unfoldable pub signed_request : Monitoring → Event → Result String Request
    signed_request m e = do
      key ← caller.read_file m.key_file
      b ← codec.encode_event e
      path ← caller.new_request (trim_suffix m.endpoint "/")
      ok (record (unsigned m path b) { signature = signature key (unsigned m path b) b })

    abbrev answered : Result String ℕ → Option String
    answered (err e) = some e
    answered (ok status) =
        if ltb status 200 || not (ltb status 300)
        then some (concat ("监控端返回 HTTP " ∷ itoa (pos status) ∷ []))
        else none

    -- The time-out of the HTTP client that `Send` makes when it was given none.
    abbrev pub timeout : Option ℤ → ℤ
    timeout none = pos 10000000000
    timeout (some d) = d

    abbrev sent : Monitoring → Result String Request → Option String
    sent m (err e) = some e
    sent m (ok r) = answered (caller.deliver (timeout (caller.parse_duration m.request_timeout)) r)

    -- `Send`: `none` is success, also when monitoring is off
    unfoldable pub send : Monitoring → Event → Option String
    unfolding signed_request
    send m e = if m.enabled then sent m (signed_request m e) else none

    -- `Test`, which puts the setting back
    unfoldable pub test : Config → Option (List Outbox) → Option String
    unfolding send heartbeat
    test c rows =
        let m = c.monitoring in
        send (record m { enabled = true })
          (heartbeat (record c { monitoring = record m { enabled = true } }) rows)

    abbrev not_queued : String → String → String
    not_queued e q = concat ("发送监控事件失败: " ∷ e ∷ "；加入重试队列失败: " ∷ q ∷ [])

    abbrev inserted :
        String → List Outbox → Result StoreError (List Outbox) → Option String × List Outbox
    inserted e rows (ok rows') = (none, rows')
    inserted e rows (err q) = (some (not_queued e (caller.queue_error q)), rows)

    -- `Store.Enqueue`, which encodes the event again
    abbrev queued :
        Monitoring → String → List Outbox → Result String String → Option String × List Outbox
    queued m e rows (err q) = (some (not_queued e q), rows)
    queued m e rows (ok b) =
        inserted e rows (enqueue caller.queue_id caller.queued_at "report" m.endpoint b rows)

    abbrev sent_or_queued :
        Monitoring → Event → List Outbox → Option String → Option String × List Outbox
    sent_or_queued m e rows none = (none, rows)
    sent_or_queued m e rows (some failure) = queued m failure rows (codec.encode_event e)

    -- `SendOrQueue`
    unfoldable pub send_or_queue : Monitoring → Event → List Outbox → Option String × List Outbox
    unfolding send enqueue
    send_or_queue m e rows = sent_or_queued m e rows (send m e)
