-- ===== src/Notify/Tests.antt =====
-- A channel that does not exist.
use sbackup.Base.{[], ◌∷◌, find, ◌≡◌, refl, length}
use sbackup.Config.{notification}
use sbackup.Store.Queue.{enqueue}
use sbackup.Notify.{Event, send, send_ids}
use sbackup.Notify.Queueing.{Accounts, failures, send_ids-Accounts}
use sbackup.Samples.{small, reachable}

abbrev finished_event : Event
finished_event = record {
  title = "SBackup failed";
  body = "";
  status = "failed";
  node = "node";
  job_id = "nightly";
  job_name = "Nightly";
  run_id = "r1";
  time = 5;
}

waits : length (send_ids reachable small 0 ("nobody" ∷ []) finished_event []).1 ≡ 1
unfolding send_ids send notification find enqueue
waits = refl

send_ids-Accounts_example :
    Accounts reachable small finished_event []
      (failures reachable small finished_event ("nobody" ∷ []))
      (send_ids reachable small 0 ("nobody" ∷ []) finished_event [])
send_ids-Accounts_example = send_ids-Accounts reachable small finished_event 0 ("nobody" ∷ []) []
