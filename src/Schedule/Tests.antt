-- ===== src/Schedule/Tests.antt =====
-- The units of a small job.
use sbackup.Base.{String, List, ◌+◌, ◌≡◌, refl, false, ok, [], ◌∷◌}
use sbackup.Base.Text.{contains_newline, split, trim_space}
use sbackup.Config.Validate.Fields.{matches_id}
use sbackup.Samples.{nightly, calm}
use sbackup.Schedule.{units, calendar_lines, service_text, timer_text}
use sbackup.Schedule.Injection.{breaks, trigger_lines, units_lem}

abbrev nightly_files : List (String × String)
nightly_files =
    (
      "/u/sbackup-job-nightly.service",
      service_text calm.quote calm.join "nightly" "/bin/sbackup" "/etc/c",
    )
    ∷ (
      "/u/sbackup-job-nightly.timer",
      timer_text calm.quote calm.join nightly "OnCalendar=*-*-* 02:00:00\n",
    )
    ∷ []

both_written : units calm.quote calm.join nightly "/bin/sbackup" "/etc/c" "/u" ≡ ok nightly_files
unfolding units matches_id contains_newline calendar_lines split trim_space
both_written = refl

-- A stand-in for `strconv.Quote` that gives one line whatever the text is.
abbrev one_word : String → String
one_word text = "'q'"

abbrev quoted_files : List (String × String)
quoted_files =
    (
      "/u/sbackup-job-nightly.service",
      service_text one_word calm.join "nightly" "/bin/sbackup" "/etc/c",
    )
    ∷ (
      "/u/sbackup-job-nightly.timer",
      timer_text one_word calm.join nightly "OnCalendar=*-*-* 02:00:00\n",
    )
    ∷ []

both_quoted : units one_word calm.join nightly "/bin/sbackup" "/etc/c" "/u" ≡ ok quoted_files
unfolding units matches_id contains_newline calendar_lines split trim_space
both_quoted = refl

one_word_line : (text : String) → contains_newline (one_word text) ≡ false
unfolding contains_newline
one_word_line text = refl

units_lem_example :
    (service : String) × (timer : String) × (quoted_files
      ≡ ("/u/sbackup-job-nightly.service", service) ∷ ("/u/sbackup-job-nightly.timer", timer) ∷ [])
    × (breaks service ≡ 13)
    × (breaks timer ≡ 9 + trigger_lines nightly.schedule)
units_lem_example =
    units_lem one_word calm.join one_word_line nightly "/bin/sbackup" "/etc/c" "/u" both_quoted
