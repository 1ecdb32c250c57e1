-- ===== src/Menu/Plan.antt =====
-- internal/tui/menu.go: the times of day of a schedule and the dialogue about a schedule.
pub mod Ends
pub mod Clocks
pub mod Planned
pub mod Accepted
pub mod Again
use Prim.Native.Char.{Char, code}
use Prim.Native.String
use sbackup.Base.{
  ℕ, zero, suc, String, Bool, true, false, not, ◌&&◌, ◌||◌, List, [], ◌∷◌, Option, none, some,
  filter, map, any, length, ltb, nat_beq, if◌then◌else◌, ◌==◌, string_eq, Result, ok, err,
}
use sbackup.Base.Int.{ℤ, pos, negsuc}
use sbackup.Base.Time.{minute}
use sbackup.Base.Text.{
  codes, concat, contains, is_space, join, signed, split, split_where, trim_space, trim_suffix,
}
use sbackup.Config.{Schedule}
use sbackup.Config.Validate.Fields.{at_least}
use sbackup.Menu.{Machine, M, ◌>>=◌, pure, read_line}
use sbackup.Menu.Ask.{ask, split_values}

-- A number from 0 to below the limit.
unfoldable pub below : ℕ → Option ℤ → Bool
below limit (some (pos n)) = ltb n limit
below limit _ = false

-- `validClock`. A text of five bytes with numbers around the colon has five code points.
unfoldable pub clock_codes : List ℕ → Bool
unfolding below
clock_codes (a ∷ b ∷ c ∷ d ∷ e ∷ []) =
    nat_beq c b':' && (below 24 (signed (a ∷ b ∷ [])) && below 60 (signed (d ∷ e ∷ [])))
clock_codes _ = false

unfoldable pub valid_clock : String → Bool
unfolding clock_codes
valid_clock value = clock_codes (codes value)

abbrev pub clock_expression : String → String
clock_expression clock = concat ("*-*-* " ∷ clock ∷ ":00" ∷ [])

abbrev with_expression : Bool → String → Result String (List String) → Result String (List String)
with_expression old v (err e) = err e
with_expression old v (ok es) = ok (if old then es else clock_expression v ∷ es)

abbrev pub was_seen : List String → String → Bool
was_seen seen v = any (λ s. s == v) seen

-- The loop of `clocksToExpressions`, with the map of the clocks seen before.
unfoldable pub expressions : List String → List String → Result String (List String)
unfolding valid_clock
expressions seen [] = ok []
expressions seen (v ∷ vs) =
    let rest = expressions (if was_seen seen v then seen else v ∷ seen) vs in
    if valid_clock v then with_expression (was_seen seen v) v rest else err "时间无效，请使用 HH:MM。"

abbrev pub of_values : List String → Result String (List String)
of_values [] = err "至少需要一个备份时间。"
of_values (v ∷ vs) = expressions [] (v ∷ vs)

-- `clocksToExpressions`
unfoldable pub clocks_to_expressions : String → Result String (List String)
unfolding expressions
clocks_to_expressions raw = of_values (split_values raw)

-- `strings.Fields`: the words between blanks
unfoldable pub fields : String → List String
fields s = filter (λ w. not (w == "")) (split_where is_space s)

abbrev pub last_of : List String → Option String
last_of [] = none
last_of (w ∷ []) = some w
last_of (w ∷ ws) = last_of ws

abbrev pub if_valid : String → Option String
if_valid clock = if valid_clock clock then some clock else none

abbrev pub clock_in : Option String → Option String
clock_in none = none
clock_in (some w) = if_valid (trim_suffix w ":00")

-- The time of day of one calendar expression: its last word without the seconds.
unfoldable pub clock_of : String → Option String
unfolding fields valid_clock
clock_of expression = clock_in (last_of (fields expression))

abbrev or_else : Option String → String → String
or_else none fallback = fallback
or_else (some v) fallback = v

abbrev first_part : List String → String
first_part [] = ""
first_part (p ∷ ps) = p

-- `firstScheduleClock`
unfoldable pub first_schedule_clock : Schedule → String → String
first_schedule_clock s fallback =
    if s.type == "calendar" || s.type == ""
    then or_else (clock_of (first_part (split b';' s.expression))) fallback
    else fallback

-- `intervalDefault`
unfoldable pub interval_default : Schedule → String → String
interval_default s fallback =
    if s.type == "interval" && not (s.expression == "") then s.expression else fallback

abbrev pub with_clock : Option String → List String → List String
with_clock none clocks = clocks
with_clock (some clock) clocks = clock ∷ clocks

unfoldable pub clocks_of : List String → List String
clocks_of [] = []
clocks_of (e ∷ es) = with_clock (clock_of e) (clocks_of es)

-- `scheduleClocksDefault`
unfoldable pub schedule_clocks_default : Schedule → String → String
schedule_clocks_default s fallback =
    let clocks = clocks_of (split b';' s.expression) in
    if not (s.type == "calendar") && not (s.type == "")
    then fallback
    else if nat_beq (length clocks) 0
    then fallback
    else join "," clocks

abbrev default_choice : Schedule → String
default_choice current =
    if not current.enabled
    then "4"
    else if current.type == "interval"
    then "3"
    else if contains current.expression ";"
    then "2"
    else "1"

abbrev or_default : String → String → String
or_default value fallback = if value == "" then fallback else value

-- The schedule with the assignments that come before the questions.
unfoldable pub prepared : Schedule → Schedule
prepared s = record s {
  persistent = true;
  randomized_delay = or_default s.randomized_delay "10m";
  grace_period = or_default s.grace_period "45m";
  timeout = or_default s.timeout "6h";
  enabled = true;
}

-- The four cases of `askSchedule`; `none` where the answer is refused.
unfoldable pub at_one_clock : Schedule → String → Option Schedule
at_one_clock s value =
    if valid_clock value
    then some (record s { type = "calendar"; expression = clock_expression value })
    else none

abbrev pub with_clocks : Schedule → Result String (List String) → Option Schedule
with_clocks s (err e) = none
with_clocks s (ok es) = some (record s { type = "calendar"; expression = join ";" es })

unfoldable pub at_clocks : Schedule → String → Option Schedule
at_clocks s value = with_clocks s (clocks_to_expressions value)

unfoldable pub at_interval : Machine → Schedule → String → Option Schedule
at_interval machine s value =
    if at_least (pos minute) (machine.std.parse_duration value)
    then some (record s { type = "interval"; expression = value })
    else none

unfoldable pub switched_off : Schedule → Schedule
switched_off s =
    if s.expression == ""
    then record s { enabled = false; type = "calendar"; expression = "*-*-* 02:30:00" }
    else record s { enabled = false }

-- The question of the choice, and what its answer makes of the schedule.
unfoldable pub asked_schedule : Machine → Schedule → String → M (Option Schedule)
asked_schedule machine current choice =
    let s = prepared current in
    if choice == "1"
    then (do value ← ask (first_schedule_clock current "02:30"); pure (at_one_clock s value))
    else if choice == "2"
    then (do
      value ← ask (schedule_clocks_default current "02:30,12:30,22:30")
      pure (at_clocks s value))
    else if choice == "3"
    then (do value ← ask (interval_default current "6h"); pure (at_interval machine s value))
    else pure (if choice == "4" then some (switched_off s) else none)

-- `askSchedule`
unfoldable pub ask_schedule : Machine → Schedule → M (Option Schedule)
ask_schedule machine current = do
  choice ← ask (default_choice current)
  asked_schedule machine current choice

-- `askBackupMode`
unfoldable pub ask_backup_mode : String → M String
ask_backup_mode current = do
  choice ← ask (if current == "full" then "2" else "1")
  pure (if choice == "2" then "full" else "incremental")
