-- ===== src/Monitor/View.antt =====
-- internal/monitor/server.go: `viewLocked`, what the page shows. The order of the entries of a map and
-- what `sort.Slice` does with equal names are those of the list and of the parameters.
pub mod Healthy
mod Tests
use sbackup.Base.{
  ℕ, ◌+◌, ◌-◌, ◌*◌, String, Bool, true, false, not, ◌&&◌, ◌||◌, List, [], ◌∷◌, map, drop, length,
  ltb, nat_beq, if◌then◌else◌, ◌==◌, string_eq,
}
use mathlib.Core.List.{reverse}
use sbackup.Base.Int.{ℤ, pos, pos_part, neg_part, sub_ℕ, wrap64, saturate64, ltb_ℤ}
use sbackup.Base.Time.{minute, second, add, is_zero}
use sbackup.Protocol.{Event}
use sbackup.Monitor.{Server, Node, JobState}

pub record JobView : Type 0 where
  pub id : String
  pub name : String
  pub status : String
  pub last_attempt : ℕ
  pub last_success : ℕ
  pub next_expected : ℕ
  pub consecutive_failures : ℤ

pub record NodeView : Type 0 where
  pub id : String
  pub name : String
  pub status : String
  pub last_heartbeat : ℕ
  pub jobs : List JobView

pub record PageData : Type 0 where
  pub nodes : List NodeView
  pub reports : List Event

-- `time.Duration(j.GraceSeconds)*time.Second`
unfoldable pub grace : ℤ → ℤ
grace g = wrap64 (sub_ℕ (pos_part g * second) (neg_part g * second))

-- The status of a job on the page.
unfoldable pub job_status : ℕ → JobState → String
unfolding grace
job_status now j =
    let late =
      not (is_zero j.next_expected) && ltb (add j.next_expected (grace j.grace_seconds)) now in
    let status = if late then "missed" else j.status in
    if status == "failed" then "critical" else status

-- The status of a node before its jobs are looked at.
unfoldable pub heartbeat_status : ℕ → ℕ → String
heartbeat_status now last =
    if is_zero last
    then "unknown"
    else if ltb_ℤ (pos (15 * minute)) (saturate64 (sub_ℕ now last))
    then "offline"
    else "healthy"

abbrev job_view : ℕ → String × JobState → JobView
job_view now (id, j) = record {
  id = id;
  name = j.name;
  status = job_status now j;
  last_attempt = j.last_attempt;
  last_success = j.last_success;
  next_expected = j.next_expected;
  consecutive_failures = j.consecutive_failures;
}

-- The status of the node behind the loop over its jobs.
unfoldable pub node_status : ℕ → String → List (String × JobState) → String
unfolding job_status
node_status now status [] = status
node_status now status ((id, j) ∷ jobs) =
    node_status now
      (if job_status now j == "critical" || job_status now j == "missed"
        then job_status now j
        else status)
      jobs

module _ (sort_jobs : List JobView → List JobView)
    (sort_nodes : List NodeView → List NodeView) where
  unfoldable pub node_view : ℕ → Node → NodeView
  unfolding heartbeat_status node_status
  node_view now n = record {
    id = n.id;
    name = n.name;
    status = node_status now (heartbeat_status now n.last_heartbeat) n.jobs;
    last_heartbeat = n.last_heartbeat;
    jobs = sort_jobs (map (job_view now) n.jobs);
  }

  -- `viewLocked`; the newest hundred reports, the last one first
  unfoldable pub view : ℕ → Server → PageData
  unfolding node_view
  view now s = record {
    nodes = sort_nodes (map (λ (entry : String × Node). node_view now entry.1) s.nodes);
    reports = reverse (drop (length s.reports - 100) s.reports);
  }
