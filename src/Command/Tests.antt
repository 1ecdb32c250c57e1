-- ===== src/Command/Tests.antt =====
-- The commands on a small configuration.
use sbackup.Base.{true, false, [], ◌∷◌, none, some, ok, err, ◌≡◌, refl, All, string_eq, find}
use sbackup.Config.{Config, Notification, notification, job}
use sbackup.Config.Tests.{small_accepted}
use sbackup.Store.{Outbox, no_rows}
use sbackup.Command.Secrets.{redact_config}
use sbackup.Command.Secrets.Redacted.{IsRedacted, redact_config_lem}
use sbackup.Command.Maintenance.{Around}
use sbackup.Command.Callbacks.{recipients}
use sbackup.Command.Callbacks.Recipients.{recipients-known}
use sbackup.Command.Options.{run_options}
use sbackup.Samples.{small, nightly, simple_std, a_run, an_event, at_rest, reachable}

-- Go reads `--mode` and the flag in any order.
scheduled_full : run_options ("--mode" ∷ "full" ∷ "--scheduled" ∷ []) false "" ≡ ok (true, "full")
unfolding run_options
scheduled_full = refl

redact_config_lem_example : IsRedacted small (redact_config small)
redact_config_lem_example = redact_config_lem small

abbrev lone : Around
lone = record {
  caller = λ o. at_rest;
  net = λ o. reachable;
  failed_at = λ o. 5;
  write_error = λ o. none;
  decode_error = λ text. "bad";
  decode_notification = λ text. err "bad";
  quote = λ text. text;
  due_at = 5;
  due_error = none;
  beating = at_rest;
  pruned_at = 5;
  prune_runs_error = none;
  expire_error = none;
  cap_error = none;
  bad_duration = λ text. "bad";
}

-- Monitoring is on, and the node reaches nobody: the report waits.
abbrev watched : Config
watched = record small { monitoring = record small.monitoring { enabled = true } }

abbrev a_report : Outbox
a_report = record (an_event "e1") { kind = "report" }

nightly_found : job small "nightly" ≡ some nightly
unfolding job find
nightly_found = refl

recipients-known_example :
    All
      (λ n. (x : Notification) × (notification small n ≡ some x))
      (recipients nightly (a_run "r1" "nightly" 5) (err no_rows)).0
recipients-known_example =
    recipients-known simple_std small "nightly" nightly (a_run "r1" "nightly" 5) (err no_rows)
      small_accepted nightly_found
