-- ===== src/Executor/Output.antt =====
-- `safeCommand`, and what `run` makes of a command's output.
use Prim.Native.Char.{code}
use sbackup.Base.{
  ℕ, ◌+◌, String, Bool, true, false, ◌&&◌, ◌||◌, List, [], ◌∷◌, Option, none, some, take, map,
  if◌then◌else◌, string_eq, nat_beq, leb,
}
use sbackup.Base.Int.{ℤ, pos, negsuc}
use sbackup.Base.Text.{codes, concat, join}
use sbackup.Executor.{redact}

-- `strings.ToLower`, as far as it gives ASCII: the Kelvin sign and the dotted capital I do too.
unfoldable pub lower : ℕ → ℕ
lower c =
    if leb b'A' c && leb c b'Z'
    then c + 32
    else if nat_beq c 0x212a
    then b'k'
    else if nat_beq c 0x130
    then b'i'
    else c

unfoldable pub begins : List ℕ → List ℕ → Bool
begins [] s = true
begins (p ∷ ps) [] = false
begins (p ∷ ps) (c ∷ s) = nat_beq p c && begins ps s

unfoldable pub occurs : List ℕ → List ℕ → Bool
unfolding begins
occurs p [] = begins p []
occurs p (c ∷ s) = begins p (c ∷ s) || occurs p s

unfoldable pub equals : List ℕ → List ℕ → Bool
unfolding begins
equals p s = begins p s && begins s p

-- What `safeCommand` does with an argument by its own text.
pub data Shown : Type 0 where
  hidden_path redacts_next shown_redacted shown : Shown

unfoldable pub classify : List ℕ → Shown
unfolding occurs equals
classify a =
    if begins (codes "--defaults-extra-file=") a
    then hidden_path
    else if equals (codes "--password-file") a
        || equals (codes "--password-command") a
        || equals (codes "--key-file") a
    then redacts_next
    else if occurs (codes "password=") a
        || occurs (codes "token=") a
        || occurs (codes "secret=") a
        || occurs (codes "authorization=") a
    then shown_redacted
    else shown

abbrev pub lowered : String → List ℕ
lowered a = map lower (codes a)

-- the loop of `safeCommand`, with its variable `redactNext`
unfoldable pub safe_args : Bool → List String → List String
safe_args next [] = []
safe_args true (a ∷ rest) = "<redacted>" ∷ safe_args false rest
safe_args false (a ∷ rest) = elim (classify (lowered a)) [
  | hidden_path ↦ "--defaults-extra-file=<redacted>" ∷ safe_args false rest
  | redacts_next ↦ a ∷ safe_args true rest
  | shown_redacted ↦ redact a ∷ safe_args false rest
  | shown ↦ a ∷ safe_args false rest
]

-- `safeCommand`
unfoldable pub safe_command : String → List String → String
safe_command name args = concat (name ∷ " " ∷ join " " (safe_args false args) ∷ [])

-- How a command ended: well, with an exit status, or with another error.
pub data Ended : Type 0 where
  finished : Ended
  exited : ℤ → String → Ended
  broke : String → Ended

pub record RunResult : Type 0 where
  pub exit_code : ℤ
  pub output : String
  pub error : Option String

unfoldable pub exit_code_of : Ended → ℤ
exit_code_of finished = pos 0
exit_code_of (exited code e) = code
exit_code_of (broke e) = negsuc 0

unfoldable pub error_of : Ended → Option String
error_of finished = none
error_of (exited code e) = some e
error_of (broke e) = some e

-- `run`, once the command has started: the lines in the order in which the readers took them, the first
-- 2000 of which are kept; each line is redacted before anything sees it.
unfoldable pub run_result : List String → Ended → RunResult
unfolding exit_code_of error_of
run_result lines ended = record {
  exit_code = exit_code_of ended;
  output = join "\n" (take 2000 (map redact lines));
  error = error_of ended;
}
