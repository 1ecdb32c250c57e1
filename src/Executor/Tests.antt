-- ===== src/Executor/Tests.antt =====
-- Redaction at concrete texts.
use sbackup.Base.{◌≡◌, refl, true, [], ◌∷◌}
use sbackup.Executor.{redact}
use sbackup.Executor.Output.{classify, lower, lowered, safe_command}
use sbackup.Executor.Redaction.{is_flag, same, secret, no_more, safe_command-Alike}

redact_simple :
    redact "mysqldump Password: s3cret, token=abc"
    ≡ "mysqldump Password: <redacted>, token=<redacted>"
unfolding redact
redact_simple = refl

redact_backtracks : redact "token==, secret" ≡ "token=<redacted>, secret"
unfolding redact
redact_backtracks = refl

password_flag : true ≡ is_flag (classify (lowered "--password-command"))
unfolding classify lower
password_flag = refl

safe_command-Alike_example :
    safe_command "restic" ("--password-command" ∷ "echo a" ∷ [])
    ≡ safe_command "restic" ("--password-command" ∷ "echo b" ∷ [])
safe_command-Alike_example =
    safe_command-Alike "restic"
      (same "--password-command" password_flag (secret "echo a" "echo b" no_more))
