-- ===== src/Executor/Redaction.antt =====
-- Secrets in the arguments of a command do not reach the log line that names the command.
use sbackup.Base.{◌≡◌, refl, ap, String, Bool, true, false, List, [], ◌∷◌}
use sbackup.Executor.{redact}
use sbackup.Executor.Output.{
  Shown, hidden_path, redacts_next, shown_redacted, shown, classify, lowered, safe_args,
  safe_command,
}

abbrev pub is_flag : Shown → Bool
is_flag redacts_next = true
is_flag _ = false

-- Two argument lists that differ only in what stands behind a flag that names a secret, and in the
-- value of `--defaults-extra-file=`. The index says whether the last argument was such a flag.
pub data Alike : Bool → List String → List String → Type 0 where
  no_more : {next : Bool} → Alike next [] []
  secret : (a b : String) {xs ys : List String} → Alike false xs ys → Alike true (a ∷ xs) (b ∷ ys)
  path :
      (a b : String) {xs ys : List String}
      → classify (lowered a) ≡ hidden_path
      → classify (lowered b) ≡ hidden_path
      → Alike false xs ys
      → Alike false (a ∷ xs) (b ∷ ys)
  same :
      (a : String) {next : Bool} {xs ys : List String}
      → next ≡ is_flag (classify (lowered a))
      → Alike next xs ys
      → Alike false (a ∷ xs) (a ∷ ys)

-- What one argument shows, and what it says of the next.
shows : Shown → String → String
shows hidden_path a = "--defaults-extra-file=<redacted>"
shows redacts_next a = a
shows shown_redacted a = redact a
shows shown a = a

safe_args-cons :
    (a : String) (xs : List String) {k : Shown}
    → classify (lowered a) ≡ k
    → safe_args false (a ∷ xs) ≡ shows k a ∷ safe_args (is_flag k) xs
unfolding safe_args shows
safe_args-cons a xs {k = hidden_path} h = rw (h, safe_args)
safe_args-cons a xs {k = redacts_next} h = rw (h, safe_args)
safe_args-cons a xs {k = shown_redacted} h = rw (h, safe_args)
safe_args-cons a xs {k = shown} h = rw (h, safe_args)

safe_args-Alike :
    {next : Bool} {xs ys : List String} → Alike next xs ys → safe_args next xs ≡ safe_args next ys
unfolding safe_args shows
safe_args-Alike (no_more {next = true}) = refl
safe_args-Alike (no_more {next = false}) = refl
safe_args-Alike (secret a b h) = ap (λ r. "<redacted>" ∷ r) (safe_args-Alike h)
safe_args-Alike (path a b {xs = xs} {ys = ys} ha hb h) =
    rw (safe_args-cons a xs ha, safe_args-cons b ys hb)
      (ap (λ r. "--defaults-extra-file=<redacted>" ∷ r) (safe_args-Alike h))
safe_args-Alike (same a {next = next} {xs = xs} {ys = ys} e h) =
    rw (safe_args-cons a xs refl, safe_args-cons a ys refl, ← e)
      (ap (λ r. shows (classify (lowered a)) a ∷ r) (safe_args-Alike h))

-- The logged command does not depend on those secrets.
pub safe_command-Alike :
    (name : String) {xs ys : List String}
    → Alike false xs ys
    → safe_command name xs ≡ safe_command name ys
unfolding safe_command
safe_command-Alike name h = rw (safe_args-Alike h)
