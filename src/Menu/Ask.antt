-- ===== src/Menu/Ask.antt =====
-- internal/tui/menu.go: the questions, and the choice of an entry of a list.
pub mod Ends
use sbackup.Base.{
  ℕ, zero, suc, String, Bool, true, false, not, ◌&&◌, ◌||◌, List, [], ◌∷◌, Option, none, some,
  filter, map, length, ltb, if◌then◌else◌, ◌==◌, string_eq,
}
use sbackup.Base.Int.{ℤ, pos, negsuc, itoa}
use sbackup.Base.Text.{atoi, atoi_value, split, trim_space, trim_suffix}
use sbackup.Config.{Config, Job, Storage, Database}
use sbackup.Menu.{
  Machine, Action, M, ◌>>=◌, ◌>>◌, pure, read_line, the_config, act, turn_echo_off, Session,
}

-- `ask`; the label is only printed
unfoldable pub ask : String → M String
ask fallback = do x ← read_line; pure (if x == "" then fallback else x)

-- `splitValues`
unfoldable pub split_values : String → List String
split_values raw = filter (λ v. not (v == "")) (map trim_space (split b',' raw))

-- `askYesNo`
unfoldable pub ask_yes_no : Machine → Bool → M Bool
ask_yes_no machine current = do
  x ← read_line
  let value = machine.std.to_lower x
  pure (if value == "" then current else value == "y" || value == "yes")

unfoldable pub non_negative : ℤ → Option ℤ → ℤ
non_negative current (some (pos n)) = pos n
non_negative current _ = current

-- `askNonNegativeInt`
unfoldable pub ask_non_negative_int : ℤ → M ℤ
ask_non_negative_int current = do
  value ← ask (itoa current)
  pure (non_negative current (atoi value))

-- The index of the entry with this number, counted from 1.
unfoldable pub entry : ℕ → Option ℤ → Option ℕ
entry count (some (pos (suc n))) = if ltb n count then some n else none
entry count _ = none

-- `selectJob`, `selectStorage`, `selectDatabase`: nothing is read where there is nothing to choose.
unfoldable pub select : {A : Type 0} → List A → M (Option ℕ)
select [] = pure none
select (x ∷ xs) = do line ← read_line; pure (entry (length (x ∷ xs)) (atoi line))

-- The next line with its blanks; at the end of the input there is an error.
unfoldable pub next_raw : List String → Option String × List String
next_raw [] = (none, [])
next_raw (line ∷ rest) = (some (trim_suffix line "\r"), rest)

unfoldable pub raw_line : M (Option String)
raw_line s = let (line, rest) = next_raw s.input in some (line, record s { input = rest })

-- `terminal.ReadPassword`, which fails where the echo of the terminal cannot be switched off
unfoldable pub read_password : Machine → M (Option String)
read_password machine = do off ← act machine turn_echo_off; if off then raw_line else pure none
