-- ===== src/Monitor/Tests.antt =====
-- Requests to the monitor.
use sbackup.Base.{◌≡◌, ◌≤◌, refl, [], ◌∷◌, true, false, length, arith, filter}
use sbackup.Base.Int.{saturate64, wrap64, ◌+ℤ◌}
use sbackup.Base.Text.{atoi}
use sbackup.Monitor.{Server}
use sbackup.Monitor.Report.{rejected, accepted, commit, report, is_replay}
use sbackup.Monitor.Replay.{commit_replay, commit_duplicate, commit_bounded}
use sbackup.Monitor.Rejections.{report_rejected}
use sbackup.Samples.{heartbeat, signed, known, quiet, epoch, plain}

abbrev noisy : Server
noisy = record {
  nodes = ("node", record known { last_heartbeat = 5 }) ∷ [];
  reports = heartbeat "e1" ∷ [];
  nonces = ("node:n1", 62135597400000000003) ∷ [];
}

first_accepted :
    commit epoch (signed "n1") (known, heartbeat "e1") false quiet ≡ (accepted false, noisy)
unfolding commit filter
first_accepted = refl

commit_replay_example :
    commit epoch (signed "n1") (known, heartbeat "e2") false noisy
    ≡ (rejected 401 "replayed request", noisy)
commit_replay_example =
    commit_replay epoch (signed "n1") known (heartbeat "e1") false quiet first_accepted
      (omega arith) epoch (signed "n1") (known, heartbeat "e2") false refl refl (omega arith)

other_nonce : is_replay "node:n2" 62135596800000000002 noisy.nonces ≡ false
unfolding is_replay
other_nonce = refl

commit_duplicate_example :
    commit epoch (signed "n2") (known, heartbeat "e1") false noisy ≡ (accepted true, noisy)
commit_duplicate_example =
    commit_duplicate epoch (signed "n1") known (heartbeat "e1") false quiet first_accepted epoch
      (signed "n2") (known, heartbeat "e1") false refl other_nonce

commit_bounded_example :
    length (commit epoch (signed "n1") (known, heartbeat "e1") false quiet).1.reports ≤ 10000
commit_bounded_example =
    commit_bounded epoch (signed "n1") (known, heartbeat "e1") false quiet (omega arith)

save_failed :
    (report plain epoch (signed "n1") true quiet).0 ≡ rejected 500 "state persistence failed"
unfolding report atoi saturate64 wrap64 ◌+ℤ◌
save_failed = refl

report_rejected_example :
    ((report plain epoch (signed "n1") true quiet).1.nodes ≡ quiet.nodes)
    × ((report plain epoch (signed "n1") true quiet).1.reports ≡ quiet.reports)
report_rejected_example = report_rejected plain epoch (signed "n1") true quiet save_failed
