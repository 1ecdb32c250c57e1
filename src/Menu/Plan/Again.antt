-- ===== src/Menu/Plan/Again.antt =====
-- internal/tui/menu.go, `askSchedule`: the dialogue about a schedule that it gave itself.
use Prim.Native.String
use text.Mathlib.TextLemmas.{cons-append, nil-append}
use sbackup.Base.{
  nat_beq, String, Bool, true, false, not, List, [], ◌∷◌, none, some, ◌≡◌, ◌≢◌, refl, sym, ap, ◌∙◌,
  All, map, filter, ok, ◌==◌, string_eq, inl, inr, Bool-cases, if◌then◌else◌, subst, arith,
}
use sbackup.Base.Int.{pos}
use sbackup.Base.Time.{minute}
use sbackup.Base.Text.{contains, join, trim_space}
use sbackup.Base.TextLaws.{Free, split-join, eq-false, trim_space-Free, contains-between}
use sbackup.Config.{Schedule}
use sbackup.Config.Validate.Fields.{at_least}
use sbackup.Menu.{Machine, Session, ◌>>=◌, pure, read_line, next_line}
use sbackup.Menu.Ask.{ask, split_values}
use sbackup.Menu.Plan.{
  valid_clock, clock_expression, clocks_of, expressions, clocks_to_expressions, prepared,
  first_schedule_clock, schedule_clocks_default, interval_default, default_choice, at_one_clock,
  at_clocks, at_interval, switched_off, asked_schedule, ask_schedule,
}
use sbackup.Menu.Plan.Clocks.{
  clock_of-expression, clock_without_blanks, clock_without_comma, clock-ne-nil,
}
use sbackup.Menu.Plan.Planned.{
  Valid, Planned, at_clock_times, every, off, calendar_text, ask_schedule-Planned,
}
use sbackup.Menu.Plan.Accepted.{split-calendar_text, not_accepted}

clocks_of-expressions : (vs : List String) → Valid vs → clocks_of (map clock_expression vs) ≡ vs
unfolding clocks_of
clocks_of-expressions [] h = refl
clocks_of-expressions (v ∷ vs) h = rw (clock_of-expression v h.0, clocks_of-expressions vs h.1) refl

without_commas : (vs : List String) → Valid vs → All (Free (λ c. nat_beq c b',')) vs
without_commas [] h = tt
without_commas (v ∷ vs) h = (clock_without_comma v h.0, without_commas vs h.1)

kept_values : (vs : List String) → Valid vs → filter (λ v. not (v == "")) (map trim_space vs) ≡ vs
unfolding filter
kept_values [] h = refl
kept_values (v ∷ vs) h =
    rw
      (
        trim_space-Free v (clock_without_blanks v h.0),
        eq-false v "" (clock-ne-nil v h.0),
        kept_values vs h.1,
      )
      refl

split_values-join :
    (v : String) (vs : List String) → Valid (v ∷ vs) → split_values (join "," (v ∷ vs)) ≡ v ∷ vs
unfolding split_values
split_values-join v vs h =
    ap (λ ps. filter (λ v. not (v == "")) (map trim_space ps))
      (split-join "," v vs (without_commas (v ∷ vs) h))
    ∙ kept_values (v ∷ vs) h

contains_semicolon :
    (v w : String) (vs : List String) → contains (calendar_text (v ∷ w ∷ vs)) ";" ≡ true
unfolding join
contains_semicolon v w vs =
    let more = calendar_text (w ∷ vs) in
    subst (λ x. contains (String.◌++◌ (clock_expression v) x) ";" ≡ true)
      (sym (cons-append ";" "" more ∙ ap (λ x. String.◌∷◌ ";" x) (nil-append more)))
      (contains-between (clock_expression v) ";" more)

schedule_clocks_default-calendar_text :
    (s : Schedule) (v : String) (vs : List String) (fallback : String)
    → Valid (v ∷ vs)
    → s.type ≡ "calendar"
    → s.expression ≡ calendar_text (v ∷ vs)
    → schedule_clocks_default s fallback ≡ join "," (v ∷ vs)
unfolding schedule_clocks_default
schedule_clocks_default-calendar_text s v vs fallback h type e =
    rw (type, e, split-calendar_text v vs h, clocks_of-expressions (v ∷ vs) h) (ground arith)

first_schedule_clock-expression :
    (s : Schedule) (v fallback : String)
    → valid_clock v ≡ true
    → s.type ≡ "calendar"
    → s.expression ≡ clock_expression v
    → first_schedule_clock s fallback ≡ v
unfolding first_schedule_clock join
first_schedule_clock-expression s v fallback h type e =
    rw (type, e, split-calendar_text v [] (h, tt), clock_of-expression v h) refl

-- The session behind two empty answers, of which the second may be unread.
abbrev empty_lines : Session → List String → Session
empty_lines s rest = record s { input = "\n" ∷ "\n" ∷ rest }

module _ (machine : Machine) (r : Schedule) (s : Session) (rest : List String) where
  -- The choice that is offered is taken, and its question asked.
  again :
      (choice : String)
      → default_choice r ≡ choice
      → ask_schedule machine r (empty_lines s rest)
        ≡ asked_schedule machine r choice (record s { input = "\n" ∷ rest })
  unfolding ask_schedule ask read_line next_line ◌>>=◌ pure trim_space
  again choice e = rw e refl

  one_clock_again :
      (v : String)
      → first_schedule_clock r "02:30" ≡ v
      → at_one_clock (prepared r) v ≡ some r
      → asked_schedule machine r "1" (record s { input = "\n" ∷ rest })
        ≡ some (some r, record s { input = rest })
  unfolding asked_schedule ask read_line next_line ◌>>=◌ pure trim_space
  one_clock_again v e h = rw (e, h) refl

  clocks_again :
      (v : String)
      → schedule_clocks_default r "02:30,12:30,22:30" ≡ v
      → at_clocks (prepared r) v ≡ some r
      → asked_schedule machine r "2" (record s { input = "\n" ∷ rest })
        ≡ some (some r, record s { input = rest })
  unfolding asked_schedule ask read_line next_line ◌>>=◌ pure trim_space
  clocks_again v e h = rw (e, h) refl

  interval_again :
      (v : String)
      → interval_default r "6h" ≡ v
      → at_interval machine (prepared r) v ≡ some r
      → asked_schedule machine r "3" (record s { input = "\n" ∷ rest })
        ≡ some (some r, record s { input = rest })
  unfolding asked_schedule ask read_line next_line ◌>>=◌ pure trim_space
  interval_again v e h = rw (e, h) refl

  off_again :
      switched_off (prepared r) ≡ r
      → asked_schedule machine r "4" (record s { input = "\n" ∷ rest })
        ≡ some (some r, record s { input = "\n" ∷ rest })
  unfolding asked_schedule pure
  off_again h = rw h refl

module _ (machine : Machine) (current : Schedule) (s : Session) (rest : List String) where
  -- The dialogue gives back a schedule that it is asked about with empty lines.
  abbrev Returns : Schedule → Type 0
  Returns r = (t : Session) × (ask_schedule machine r (empty_lines s rest) ≡ some (some r, t))

  abbrev at_clocks_of : List String → Schedule
  at_clocks_of vs = record (prepared current) { type = "calendar"; expression = calendar_text vs }

  prepared-planned :
      (type expression : String)
      → prepared (record (prepared current) { type = type; expression = expression })
        ≡ record (prepared current) { type = type; expression = expression }
  unfolding prepared
  prepared-planned type expression = ground arith

  at_clocks-join :
      (v : String) (vs : List String)
      → Valid (v ∷ vs)
      → expressions [] (v ∷ vs) ≡ ok (map clock_expression (v ∷ vs))
      → at_clocks (prepared (at_clocks_of (v ∷ vs))) (join "," (v ∷ vs))
        ≡ some (at_clocks_of (v ∷ vs))
  unfolding at_clocks clocks_to_expressions
  at_clocks-join v vs h same =
      rw (prepared-planned "calendar" (calendar_text (v ∷ vs)), split_values-join v vs h, same) refl

  at_one_clock-same :
      (v : String)
      → valid_clock v ≡ true
      → at_one_clock (prepared (at_clocks_of (v ∷ []))) v ≡ some (at_clocks_of (v ∷ []))
  unfolding at_one_clock join
  at_one_clock-same v h = rw (prepared-planned "calendar" (clock_expression v), h) refl

  default_choice-calendar :
      (vs : List String) (b : Bool)
      → contains (calendar_text vs) ";" ≡ b
      → default_choice (at_clocks_of vs) ≡ (if b then "2" else "1")
  unfolding prepared
  default_choice-calendar vs b e = rw e refl

  many_clocks :
      (v : String) (vs : List String)
      → Valid (v ∷ vs)
      → expressions [] (v ∷ vs) ≡ ok (map clock_expression (v ∷ vs))
      → contains (calendar_text (v ∷ vs)) ";" ≡ true
      → Returns (at_clocks_of (v ∷ vs))
  many_clocks v vs h same e = (
    _,
    again machine (at_clocks_of (v ∷ vs)) s rest "2" (default_choice-calendar (v ∷ vs) true e)
        ∙ clocks_again machine (at_clocks_of (v ∷ vs)) s rest (join "," (v ∷ vs))
            (schedule_clocks_default-calendar_text (at_clocks_of (v ∷ vs)) v vs _ h refl refl)
            (at_clocks-join v vs h same),
  )

  calendar-Returns :
      (v : String) (vs : List String)
      → Valid (v ∷ vs)
      → expressions [] (v ∷ vs) ≡ ok (map clock_expression (v ∷ vs))
      → Returns (at_clocks_of (v ∷ vs))
  unfolding join
  calendar-Returns v (w ∷ ws) h same = many_clocks v (w ∷ ws) h same (contains_semicolon v w ws)
  calendar-Returns v [] h same = elim (Bool-cases (contains (calendar_text (v ∷ [])) ";")) [
    | inl e ↦ many_clocks v [] h same e
    | inr e ↦ (
      _,
      again machine (at_clocks_of (v ∷ [])) s rest "1" (default_choice-calendar (v ∷ []) false e)
          ∙ one_clock_again machine (at_clocks_of (v ∷ [])) s rest v
              (first_schedule_clock-expression (at_clocks_of (v ∷ [])) v _ h.0 refl refl)
              (at_one_clock-same v h.0),
    )
  ]

  abbrev at_intervals_of : String → Schedule
  at_intervals_of value = record (prepared current) { type = "interval"; expression = value }

  default_choice-interval : (value : String) → default_choice (at_intervals_of value) ≡ "3"
  unfolding prepared
  default_choice-interval value = refl

  interval_default-same :
      (value : String) → value ≢ "" → interval_default (at_intervals_of value) "6h" ≡ value
  unfolding interval_default
  interval_default-same value h = rw (eq-false value "" h) refl

  at_interval-same :
      (value : String)
      → at_least (pos minute) (machine.std.parse_duration value) ≡ true
      → at_interval machine (prepared (at_intervals_of value)) value ≡ some (at_intervals_of value)
  unfolding at_interval
  at_interval-same value h = rw (prepared-planned "interval" value, h) refl

  interval-Returns :
      (value : String)
      → at_least (pos minute) (machine.std.parse_duration value) ≡ true
      → machine.std.parse_duration "" ≡ none
      → Returns (at_intervals_of value)
  interval-Returns value h empty = (
    _,
    again machine (at_intervals_of value) s rest "3" (default_choice-interval value)
        ∙ interval_again machine (at_intervals_of value) s rest value
            (interval_default-same value (λ p.
              not_accepted machine current (pos minute) value h
                (ap machine.std.parse_duration p ∙ empty)))
            (at_interval-same value h),
  )

  abbrev off_with : String → String → Schedule
  off_with type expression = record (prepared current) {
    enabled = false;
    type = type;
    expression = expression;
  }

  switched_off-same :
      (type expression : String)
      → (expression == "") ≡ false
      → switched_off (prepared (off_with type expression)) ≡ off_with type expression
  unfolding switched_off prepared
  switched_off-same type expression h = rw h (ground arith)

  off_returned :
      (type expression : String) → (expression == "") ≡ false → Returns (off_with type expression)
  off_returned type expression h = (
    _,
    again machine (off_with type expression) s rest "4" refl
        ∙ off_again machine (off_with type expression) s rest (switched_off-same type expression h),
  )

  off-Returns : Returns (switched_off (prepared current))
  unfolding switched_off
  off-Returns = elim (Bool-cases ((prepared current).expression == "")) [
    | inl e ↦ rw e (off_returned "calendar" "*-*-* 02:30:00" refl)
    | inr e ↦ rw e (off_returned (prepared current).type (prepared current).expression e)
  ]

  -- A schedule that the dialogue gave is what it gives again when it is asked about that schedule and both
  -- its questions are answered with an empty line, if the empty text is no duration.
  pub ask_schedule-ask_schedule :
      (u : Session) {r : Schedule} {t : Session}
      → machine.std.parse_duration "" ≡ none
      → ask_schedule machine current u ≡ some (some r, t)
      → (v : Session) × (ask_schedule machine r (record s { input = "\n" ∷ "\n" ∷ rest })
          ≡ some (some r, v))
  ask_schedule-ask_schedule u {r = r} empty h =
      of_planned (ask_schedule-Planned machine current u h)
    where
      of_planned : Planned machine current r → Returns r
      of_planned (at_clock_times v vs valid same e) =
          subst Returns (sym e) (calendar-Returns v vs valid same)
      of_planned (every value enough e) =
          subst Returns (sym e) (interval-Returns value enough empty)
      of_planned (off e) = subst Returns (sym e) off-Returns
