-- ===== src/Menu/Plan/Accepted.antt =====
-- internal/tui/menu.go, `askSchedule`, against config.go, `Validate`, and systemd.go, `Install`: the
-- schedules of the dialogue pass the checks of a job's schedule.

use text.Mathlib.TextLemmas.{cons-append, cons-ne-nil, append-ne-nil_of_right_ne-nil}
use sbackup.Base.{
  nat_beq, String, Bool, true, false, ◌&&◌, ◌||◌, List, [], ◌∷◌, none, some, ◌≡◌, ◌≢◌, ◌⊎◌, refl,
  sym, ap, subst, ◌∙◌, arith, All, any, map, Result, ok, ◌==◌, string_eq, inl, inr, Bool-cases,
  reject_if, ◌>>◌, ◌>>=◌,
}
use sbackup.Base.Int.{ℤ, pos}
use sbackup.Base.Time.{minute}
use sbackup.Base.Text.{concat, join, split, trim_space, contains_newline}
use sbackup.Base.TextLaws.{Free, split-join, eq-false, contains_newline-append}
use sbackup.Config.{Job, Schedule}
use sbackup.Config.Validate.Fields.{ConfigError, at_least, positive, matches_id, valid_read_subset}
use sbackup.Config.Validate.Jobs.{check_schedule, check_delays}
use sbackup.Schedule.{timer_trigger, calendar_lines, check_units, units}
use sbackup.Menu.{Machine, Session}
use sbackup.Menu.Plan.{clock_expression, prepared, switched_off, ask_schedule}
use sbackup.Menu.Plan.Clocks.{
  expression_without_semicolon, trim_space-expression, expression-ne-nil, expression_one_line,
}
use sbackup.Menu.Plan.Planned.{
  Valid, Planned, at_clock_times, every, off, calendar_text, ask_schedule-Planned,
}

expressions-Free :
    (vs : List String) → Valid vs → All (Free (λ c. nat_beq c b';')) (map clock_expression vs)
expressions-Free [] h = tt
expressions-Free (v ∷ vs) h = (expression_without_semicolon v h.0, expressions-Free vs h.1)

-- The expressions are what `Validate` and the timer split the text into.
pub split-calendar_text :
    (v : String) (vs : List String)
    → Valid (v ∷ vs)
    → split b';' (calendar_text (v ∷ vs)) ≡ map clock_expression (v ∷ vs)
split-calendar_text v vs h =
    split-join ";" (clock_expression v) (map clock_expression vs) (expressions-Free (v ∷ vs) h)

none_blank :
    (vs : List String) → Valid vs → any (λ e. trim_space e == "") (map clock_expression vs) ≡ false
none_blank [] h = refl
none_blank (v ∷ vs) h =
    rw (trim_space-expression v h.0, eq-false (clock_expression v) "" (expression-ne-nil v h.0))
      (none_blank vs h.1)

calendar_lines-Valid :
    (vs : List String)
    → Valid vs
    → (text : String) × (calendar_lines (map clock_expression vs) ≡ ok text)
unfolding calendar_lines
calendar_lines-Valid [] h = ("", refl)
calendar_lines-Valid (v ∷ vs) h =
    let (text, e) = calendar_lines-Valid vs h.1 in
    (
      concat ("OnCalendar=" ∷ clock_expression v ∷ "\n" ∷ text ∷ []),
      rw
          (
            trim_space-expression v h.0,
            eq-false (clock_expression v) "" (expression-ne-nil v h.0),
            expression_one_line v h.0,
            e,
          )
          refl,
    )

join-ne-nil : (v : String) (vs : List String) → Valid (v ∷ vs) → calendar_text (v ∷ vs) ≢ ""
unfolding join
join-ne-nil v [] h p = expression-ne-nil v h.0 p
join-ne-nil v (w ∷ vs) h p =
    let more = calendar_text (w ∷ vs) in
    append-ne-nil_of_right_ne-nil (clock_expression v)
      (λ q. cons-ne-nil ";" _ (sym (cons-append ";" "" more) ∙ q)) p

empty_one_line : contains_newline "" ≡ false
unfolding contains_newline
empty_one_line = refl

semicolon_one_line : contains_newline ";" ≡ false
unfolding contains_newline
semicolon_one_line = refl

one_line-calendar_text : (vs : List String) → Valid vs → contains_newline (calendar_text vs) ≡ false
unfolding join
one_line-calendar_text [] h = empty_one_line
one_line-calendar_text (v ∷ []) h = expression_one_line v h.0
one_line-calendar_text (v ∷ w ∷ vs) h =
    contains_newline-append (clock_expression v) _ (expression_one_line v h.0) (
      contains_newline-append ";" (calendar_text (w ∷ vs)) semicolon_one_line
        (one_line-calendar_text (w ∷ vs) h.1))

-- A chain gives a value if its head does, and the rest does from that one.
chain-eq-ok :
    {E A B : Type 0} (first : Result E A) (rest : A → Result E B) {x : A}
    → first ≡ ok x
    → (b : B) × (rest x ≡ ok b)
    → (b : B) × ((first >>= rest) ≡ ok b)
chain-eq-ok first rest e (b, p) = (b, ap (λ m. m >>= rest) e ∙ p)

check_units-ok :
    (quote : String → String) (path_join : String → String → String) (j : Job) (bin config : String)
    → matches_id j.id ≡ true
    → contains_newline bin ≡ false
    → contains_newline config ≡ false
    → contains_newline j.schedule.expression ≡ false
    → contains_newline j.schedule.randomized_delay ≡ false
    → check_units quote path_join j bin config ≡ ok tt
unfolding check_units
check_units-ok quote path_join j bin config id one_bin one_config expression delay =
    rw (id, one_bin, one_config, expression, delay) refl

units-ok :
    (quote : String → String) (path_join : String → String → String) (j : Job)
    (bin config dir : String) (text : String)
    → matches_id j.id ≡ true
    → contains_newline bin ≡ false
    → contains_newline config ≡ false
    → contains_newline j.schedule.expression ≡ false
    → contains_newline j.schedule.randomized_delay ≡ false
    → timer_trigger quote j.schedule ≡ ok text
    → (files : List (String × String)) × (units quote path_join j bin config dir ≡ ok files)
unfolding units
units-ok quote path_join j bin config dir text id one_bin one_config expression delay e =
    chain-eq-ok (check_units quote path_join j bin config) _
      (check_units-ok quote path_join j bin config id one_bin one_config expression delay)
      (chain-eq-ok (timer_trigger quote j.schedule) _ e (_, refl))

passed :
    (e : ConfigError) (b : Bool)
    → ◌≡◌ {A = Result ConfigError (Unit {0})} (reject_if (b && false) e >> ok tt) (ok tt)
passed e true = refl
passed e false = refl

module _ (machine : Machine) (current : Schedule) where
  -- The durations that the schedule has, or is given.
  abbrev pub Timed : Type 0
  Timed =
      (positive (machine.std.parse_duration (prepared current).timeout) ≡ true)
      × (at_least (pos 0) (machine.std.parse_duration (prepared current).randomized_delay) ≡ true)
      × (at_least (pos 0) (machine.std.parse_duration (prepared current).grace_period) ≡ true)

  -- `time.ParseDuration` accepts neither the empty text nor a text with a line break.
  abbrev pub OneLine : Type 0
  OneLine =
      (machine.std.parse_duration "" ≡ none)
      × ((text : String) → contains_newline text ≡ true → machine.std.parse_duration text ≡ none)

  -- The rest of the job and the paths are in order: a valid id, no line breaks, and a part of the
  -- data to read that `Validate` accepts, if there is one.
  abbrev pub InOrder : Job → String → String → Type 0
  InOrder j bin config =
      (matches_id j.id ≡ true)
      × (contains_newline bin ≡ false)
      × (contains_newline config ≡ false)
      × ((j.verification.full_read_data_subset == ""
            || valid_read_subset j.verification.full_read_data_subset)
          ≡ true)

  -- `Validate` accepts the schedule and the durations of the job, and the schedule is off or
  -- `Install` writes the job's units.
  abbrev pub Works : Job → String → String → String → Schedule → Type 0
  Works j bin config dir s =
      let planned = record j { schedule = s } in
      (check_schedule machine.std planned ≡ ok tt)
      × (check_delays machine.std planned ≡ ok tt)
      × ((s.enabled ≡ false)
          ⊎ ((files : List (String × String)) × (units machine.quote machine.join planned bin config
                  dir
                ≡ ok files)))

  check_delays-ok :
      (j : Job)
      → at_least (pos 0) (machine.std.parse_duration j.schedule.randomized_delay) ≡ true
      → at_least (pos 0) (machine.std.parse_duration j.schedule.grace_period) ≡ true
      → (j.verification.full_read_data_subset == ""
          || valid_read_subset j.verification.full_read_data_subset)
        ≡ true
      → check_delays machine.std j ≡ ok tt
  unfolding check_delays
  check_delays-ok j delay grace subset = ground arith

  pub not_accepted :
      (least : ℤ) (value : String)
      → at_least least (machine.std.parse_duration value) ≡ true
      → machine.std.parse_duration value ≡ none
      → ⊥
  not_accepted least value h e = absurd (ground arith)

  in_line :
      (least : ℤ) (value : String)
      → at_least least (machine.std.parse_duration value) ≡ true
      → OneLine
      → contains_newline value ≡ false
  in_line least value h one = elim (Bool-cases (contains_newline value)) [
    | inl e ↦ absurd (not_accepted least value h (one.1 value e))
    | inr e ↦ e
  ]

  module _ (j : Job) (bin config dir : String) where
    calendar-Works :
        (v : String) (vs : List String)
        → Valid (v ∷ vs)
        → Timed
        → OneLine
        → InOrder j bin config
        → Works j bin config dir
            (record (prepared current) { type = "calendar"; expression = calendar_text (v ∷ vs) })
    unfolding check_schedule timer_trigger prepared
    calendar-Works v vs h (timed, delay, grace) one (id, one_bin, one_config, subset) =
        let written = eq-false (calendar_text (v ∷ vs)) "" (join-ne-nil v vs h) in
        let (text, e) = calendar_lines-Valid (v ∷ vs) h in
        (
          rw (timed, written, split-calendar_text v vs h, none_blank (v ∷ vs) h) (passed _ _),
          check_delays-ok _ delay grace subset,
          inr (
              units-ok machine.quote machine.join _ bin config dir text id one_bin one_config
                (one_line-calendar_text (v ∷ vs) h) (in_line (pos 0) _ delay one)
                (rw (written, split-calendar_text v vs h) e)),
        )

    interval-Works :
        (value : String)
        → at_least (pos minute) (machine.std.parse_duration value) ≡ true
        → Timed
        → OneLine
        → InOrder j bin config
        → Works j bin config dir
            (record (prepared current) { type = "interval"; expression = value })
    unfolding check_schedule timer_trigger prepared
    interval-Works value h (timed, delay, grace) one (id, one_bin, one_config, subset) =
        let written =
          eq-false value ""
            (λ p. not_accepted (pos minute) value h (ap machine.std.parse_duration p ∙ one.0)) in
        let line = in_line (pos minute) value h one in
        (
          rw (timed, written, h) (passed _ _),
          check_delays-ok _ delay grace subset,
          inr (
              units-ok machine.quote machine.join _ bin config dir
                (concat ("OnBootSec=" ∷ value ∷ "\nOnUnitActiveSec=" ∷ value ∷ "\n" ∷ [])) id
                one_bin one_config line (in_line (pos 0) _ delay one) (rw line refl)),
        )

    off-Works :
        Timed → InOrder j bin config → Works j bin config dir (switched_off (prepared current))
    unfolding check_schedule switched_off prepared
    off-Works (timed, delay, grace) (id, one_bin, one_config, subset) =
        elim (Bool-cases (current.expression == "")) [
          | inl e ↦ (
            rw (e, timed) (passed _ _),
            check_delays-ok _ (rw e delay) (rw e grace) subset,
            inl (rw e refl),
          )
          | inr e ↦ (
            rw (e, timed) (passed _ _),
            check_delays-ok _ (rw e delay) (rw e grace) subset,
            inl (rw e refl),
          )
        ]

    -- The schedule that the dialogue gives, whatever the current one was: `Validate` accepts the
    -- schedule and the durations of the job that has it, and it is off or `Install` writes the
    -- job's units. The conditions: the timeout of the schedule, or the preset one, is a positive
    -- duration, and its delay and its grace period, or the preset ones, are durations that are not
    -- negative; the empty text and texts with a line break are no durations; the id of the job
    -- matches the pattern, the two paths have no line break, and the part of the data that the job
    -- reads to verify is none or a valid one.
    pub ask_schedule-Works :
        (s : Session) {r : Schedule} {t : Session}
        → Timed
        → OneLine
        → InOrder j bin config
        → ask_schedule machine current s ≡ some (some r, t)
        → Works j bin config dir r
    ask_schedule-Works s {r = r} timed one order h =
        of_planned (ask_schedule-Planned machine current s h)
      where
        of_planned : Planned machine current r → Works j bin config dir r
        of_planned (at_clock_times v vs valid again e) =
            subst (Works j bin config dir) (sym e) (calendar-Works v vs valid timed one order)
        of_planned (every value enough e) =
            subst (Works j bin config dir) (sym e) (interval-Works value enough timed one order)
        of_planned (off e) = subst (Works j bin config dir) (sym e) (off-Works timed order)
