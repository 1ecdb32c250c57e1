-- ===== src/Monitor/View/Tests.antt =====
-- A node on the page.
use sbackup.Base.{◌+◌, ◌*◌, ◌≤◌, ◌≡◌, ◌≢◌, refl, All}
use sbackup.Base.Int.{saturate64}
use sbackup.Base.Time.{minute}
use sbackup.Monitor.{Node}
use sbackup.Monitor.View.{node_view, node_status, heartbeat_status, job_status}
use sbackup.Monitor.View.Healthy.{node_view-healthy}
use sbackup.Samples.{known}

abbrev heard : Node
heard = record known { last_heartbeat = 7 }

shown_healthy : (node_view (λ jobs. jobs) (λ nodes. nodes) 1007 heard).status ≡ "healthy"
unfolding node_view heartbeat_status node_status saturate64
shown_healthy = refl

node_view-healthy_example :
    (heard.last_heartbeat ≢ 0)
    × (1007 ≤ heard.last_heartbeat + 15 * minute)
    × All
        (λ entry. (job_status 1007 entry.1 ≢ "critical") × (job_status 1007 entry.1 ≢ "missed"))
        heard.jobs
node_view-healthy_example =
    node_view-healthy (λ jobs. jobs) (λ nodes. nodes) 1007 heard shown_healthy
