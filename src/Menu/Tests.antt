-- ===== src/Menu/Tests.antt =====
-- Menus with the small configuration: a job is renamed, a schedule is chosen, a save fails.

use sbackup.Base.{
  String, All, filter, true, false, none, some, ◌≡◌, refl, ap, sym, ◌∙◌, List, [], ◌∷◌, ◌==◌,
  string_eq, if◌then◌else◌,
}
use sbackup.Base.Int.{pos}
use sbackup.Base.Text.{
  concat, contains_newline, signed, magnitude, digits_value, in_int64, trim_space, trim_left,
  trim_right, is_space, split, split_where, join,
}
use sbackup.Base.TextLaws.{eq-false}
use sbackup.Config.{Config, Schedule}
use sbackup.Config.Validate.Fields.{matches_id}
use sbackup.Config.Std.{Std}
use sbackup.Config.Tests.{small_accepted}
use sbackup.Samples.{small, simple_std, nightly}
use sbackup.Menu.{Session, Machine, is_ok, defaulted, next_line, read_line, ◌>>=◌, pure}
use sbackup.Menu.Ask.{ask, split_values}
use sbackup.Menu.Agreement.{IsValid, Agrees, defaulted-defaulted}
use sbackup.Menu.Plan.{
  valid_clock, prepared, at_one_clock, asked_schedule, at_clocks, clocks_to_expressions,
  expressions, ask_schedule, clock_codes, below,
}
use sbackup.Menu.Plan.Again.{ask_schedule-ask_schedule}
use sbackup.Menu.Plan.Accepted.{Timed, OneLine, InOrder, Works, ask_schedule-Works}
use sbackup.Menu.Edit.{edit_job_menu}
use sbackup.Menu.Databases.{database_menu}
use sbackup.Menu.Jobs.{task_entry}
use sbackup.Menu.Kept.{edit_job_menu_lem, task_entry_lem, database_menu_lem}
use sbackup.Menu.Restoring.{restore_wizard}
use sbackup.Menu.Restoring.Targets.{IsSafe, restore_wizard_lem}
use sbackup.Menu.Main.{Surroundings, run}
use sbackup.Menu.Main.Ends.{run_terminates, run-IsValid}

true-false : true ≡ false → ⊥
true-false h = cc

abbrev six_hours_std : Std
six_hours_std = record simple_std {
  parse_duration = λ text.
      if text == "6h"
      then some (pos 21600000000000)
      else if text == "10m"
      then some (pos 600000000000)
      else if text == "45m"
      then some (pos 2700000000000)
      else none;
}

abbrev host : Machine
host = record {
  std = six_hours_std;
  succeeds = λ n a. true;
  is_root = true;
  executable = some "/usr/local/bin/sbackup";
  config_path = "/etc/sbackup/config.yaml";
  has_systemctl = λ n. true;
  output = λ n. "";
  is_missing = λ n. false;
  quote = λ s. s;
  join = λ a b. concat (a ∷ "/" ∷ b ∷ []);
  directory = λ path. "/etc/sbackup";
  to_upper = λ s. s;
}

abbrev full_disk : Machine
full_disk = record host { succeeds = λ n a. false }

abbrev small_full : Config
small_full = defaulted small

abbrev typed : List String → Session
typed lines = record { config = small_full; file = small_full; input = lines; actions = [] }

typed-Agrees : (lines : List String) → Agrees (typed lines)
typed-Agrees lines = record { same = refl; full = defaulted-defaulted small }

abbrev around : Surroundings
around = record {
  listing = record { snapshots = λ n. []; stamp = λ n. "" };
  before = λ a b. false;
  has_password = λ n. false;
  rows = λ n. [];
}

run_terminates_example :
    (t : Session) × (run host around (typed ("4\n" ∷ "2\n" ∷ "1\n" ∷ [])) ≡ some (tt, t))
run_terminates_example = run_terminates host around (typed ("4\n" ∷ "2\n" ∷ "1\n" ∷ []))

edit_job_menu_lem_example :
    (a : Unit {0}) × (t : Session) × (edit_job_menu full_disk 0 (typed ("1\n" ∷ "Etc\n" ∷ []))
      ≡ some (a, t))
    × Agrees t
edit_job_menu_lem_example =
    edit_job_menu_lem full_disk 0 (typed ("1\n" ∷ "Etc\n" ∷ []))
      (typed-Agrees ("1\n" ∷ "Etc\n" ∷ []))

task_entry_lem_example :
    (a : Unit {0}) × (t : Session) × (task_entry full_disk "7"
        (typed ("1\n" ∷ "1\n" ∷ "nightly\n" ∷ []))
      ≡ some (a, t))
    × Agrees t
task_entry_lem_example =
    task_entry_lem full_disk "7" (typed ("1\n" ∷ "1\n" ∷ "nightly\n" ∷ []))
      (typed-Agrees ("1\n" ∷ "1\n" ∷ "nightly\n" ∷ []))

database_menu_lem_example :
    (a : Unit {0}) × (t : Session) × (database_menu full_disk
        (typed ("3\n" ∷ "1\n" ∷ "shop\n" ∷ []))
      ≡ some (a, t))
    × Agrees t
database_menu_lem_example =
    database_menu_lem full_disk (typed ("3\n" ∷ "1\n" ∷ "shop\n" ∷ []))
      (typed-Agrees ("3\n" ∷ "1\n" ∷ "shop\n" ∷ []))

-- The first choice, with a time of day.
abbrev answers : Session
answers = typed ("1\n" ∷ "04:15\n" ∷ [])

abbrev at_quarter_past_four : Schedule
at_quarter_past_four = record (prepared nightly.schedule) {
  type = "calendar";
  expression = "*-*-* 04:15:00";
}

chosen :
    ask_schedule host nightly.schedule answers
    ≡ some (some at_quarter_past_four, record answers { input = [] })
unfolding ask_schedule asked_schedule ask read_line next_line ◌>>=◌ pure at_one_clock valid_clock
    clock_codes below signed magnitude digits_value in_int64 trim_space trim_left trim_right
    is_space
chosen = refl

timed : Timed host nightly.schedule
unfolding prepared
timed = (refl, refl, refl)

six_hours_one_line : contains_newline "6h" ≡ false
unfolding contains_newline
six_hours_one_line = refl

ten_minutes_one_line : contains_newline "10m" ≡ false
unfolding contains_newline
ten_minutes_one_line = refl

three_quarters_one_line : contains_newline "45m" ≡ false
unfolding contains_newline
three_quarters_one_line = refl

other_word :
    (text word : String)
    → contains_newline text ≡ true
    → contains_newline word ≡ false
    → (text == word) ≡ false
other_word text word h one =
    eq-false text word (λ e. true-false (sym h ∙ (ap contains_newline e ∙ one)))

one_line : OneLine host nightly.schedule
one_line = (
  refl,
  λ text h.
      rw
        (
          other_word text "6h" h six_hours_one_line,
          other_word text "10m" h ten_minutes_one_line,
          other_word text "45m" h three_quarters_one_line,
        )
        refl,
)

in_order : InOrder host nightly.schedule nightly "/bin/sbackup" "/etc/c"
unfolding matches_id contains_newline
in_order = (refl, refl, refl, refl)

ask_schedule-Works_example :
    Works host nightly.schedule nightly "/bin/sbackup" "/etc/c" "/u" at_quarter_past_four
ask_schedule-Works_example =
    ask_schedule-Works host nightly.schedule nightly "/bin/sbackup" "/etc/c" "/u" answers timed
      one_line in_order chosen

-- The second choice, with two times of day.
abbrev two_answers : Session
two_answers = typed ("2\n" ∷ "02:30, 14:00\n" ∷ [])

abbrev twice_a_day : Schedule
twice_a_day = record (prepared nightly.schedule) {
  type = "calendar";
  expression = "*-*-* 02:30:00;*-*-* 14:00:00";
}

chosen_twice :
    ask_schedule host nightly.schedule two_answers
    ≡ some (some twice_a_day, record two_answers { input = [] })
unfolding ask_schedule asked_schedule ask read_line next_line ◌>>=◌ pure at_clocks
    clocks_to_expressions expressions valid_clock clock_codes below signed magnitude digits_value
    in_int64 trim_space trim_left trim_right is_space split_values split split_where filter join
chosen_twice = refl

ask_schedule-ask_schedule_example :
    (v : Session) × (ask_schedule host twice_a_day (typed ("\n" ∷ "\n" ∷ []))
      ≡ some (some twice_a_day, v))
ask_schedule-ask_schedule_example =
    ask_schedule-ask_schedule host nightly.schedule (typed []) [] two_answers refl chosen_twice

abbrev one_snapshot : Surroundings
one_snapshot = record around {
  listing = record {
    snapshots = λ n.
        record {
          id = "abc123";
          short_id = "abc";
          time = "2024-05-01T02:30:00Z";
          hostname = "host";
          tags = [];
          paths = "/etc" ∷ [];
        }
        ∷ [];
    stamp = λ n. "20240501-120000";
  };
}

abbrev restore_lines : List String
restore_lines = "1\n" ∷ "1\n" ∷ "1\n" ∷ "/tmp/back\n" ∷ "YES\n" ∷ []

restore_wizard_lem_example :
    (a : Unit {0}) × (t : Session) × (restore_wizard host one_snapshot.listing one_snapshot.before
        (typed restore_lines)
      ≡ some (a, t))
    × All IsSafe t.actions
restore_wizard_lem_example =
    restore_wizard_lem host one_snapshot.listing one_snapshot.before (typed restore_lines) tt

abbrev small_at_rest : Session
small_at_rest = record (typed restore_lines) { config = small; file = small }

run-IsValid_example :
    (t : Session) × (run (record host { std = simple_std }) around small_at_rest ≡ some (tt, t))
    × IsValid (record host { std = simple_std }) t.file
run-IsValid_example =
    run-IsValid (record host { std = simple_std }) around small_at_rest (ap is_ok small_accepted)
