-- ===== src/Protocol.antt =====
-- pkg/reportprotocol/protocol.go: the events that a node sends to the monitor. A pointer that may be nil
-- is an option.
use sbackup.Base.{ℕ, String, Bool, Option}
use sbackup.Base.Int.{ℤ}

pub record Node : Type 0 where
  pub id : String
  pub name : String
  pub display_name : String
  pub client_version : String
  pub os : String
  pub arch : String

pub record Job : Type 0 where
  pub id : String
  pub name : String
  pub enabled : Bool
  pub timezone : String
  pub next_expected_at : Option ℕ
  pub grace_seconds : ℤ

pub record Run : Type 0 where
  pub id : String
  pub status : String
  pub phase : String
  pub scheduled_at : Option ℕ
  pub started_at : ℕ
  pub finished_at : Option ℕ
  pub duration_ms : ℤ
  pub snapshot_id : String
  pub files_new : ℤ
  pub files_changed : ℤ
  pub bytes_processed : ℤ
  pub bytes_added : ℤ
  pub error_code : String
  pub error_summary : String

pub record Heartbeat : Type 0 where
  pub uptime_seconds : ℤ
  pub pending_reports : ℤ
  pub jobs_enabled : ℤ
  pub jobs_running : ℤ

pub record Verification : Type 0 where
  pub id : String
  pub level : String
  pub status : String
  pub started_at : ℕ
  pub finished_at : Option ℕ
  pub duration_ms : ℤ
  pub error_code : String
  pub error_summary : String

pub record Event : Type 0 where
  pub protocol_version : ℤ
  pub event_id : String
  pub event_type : String
  pub occurred_at : ℕ
  pub node : Node
  pub job : Option Job
  pub run : Option Run
  pub heartbeat : Option Heartbeat
  pub verification : Option Verification
