-- ===== src/Schedule/Injection.antt =====
-- internal/schedule/systemd.go, `Install`: the lines of the two units that it writes.
use Prim.Native.Char.{code}
use Prim.Native.String
use text.Mathlib.TextLemmas.{cons-append, nil-append}
use sbackup.Base.{
  ℕ, ◌+◌, String, Bool, true, false, ◌||◌, List, [], ◌∷◌, Result, ok, err, ◌≡◌, refl, sym, ap, ◌∙◌,
  arith, length, inl, inr, Bool-cases, Result-cases, if◌then◌else◌, nat_beq, ◌==◌, string_eq, any,
  eq_iff, >>-eq-ok, >>=-eq-ok,
}
use sbackup.Base.Text.{codes, concat, contains_newline, split, trim_space}
use sbackup.Config.{Job, Schedule}
use sbackup.Config.Validate.Fields.{matches_id, id_codes, all_rest}
use sbackup.Schedule.{
  check_units, units, calendar_lines, timer_trigger, service_parts, timer_parts, service_text,
  timer_text,
}

-- The line breaks of a text.
unfoldable pub breaks : String → ℕ
breaks String.[] = 0
breaks (String.◌∷◌ c s) = (if nat_beq (code c) 10 || nat_beq (code c) 13 then 1 else 0) + breaks s

breaks-append : (s t : String) → breaks (String.◌++◌ s t) ≡ breaks s + breaks t
unfolding breaks
breaks-append String.[] t = rw (nil-append t) (omega arith)
breaks-append (String.◌∷◌ c s) t = rw (cons-append c s t) (omega (arith, breaks-append s t))

breaks-contains_newline : (s : String) → contains_newline s ≡ false → breaks s ≡ 0
unfolding breaks contains_newline
breaks-contains_newline String.[] h = refl
breaks-contains_newline (String.◌∷◌ c s) h = ground (arith, breaks-contains_newline s)

total : List String → ℕ
total [] = 0
total (s ∷ ss) = breaks s + total ss

breaks-concat : (ss : List String) → breaks (concat ss) ≡ total ss
unfolding total breaks
breaks-concat [] = refl
breaks-concat (s ∷ []) = omega arith
breaks-concat (s ∷ t ∷ ss) =
    breaks-append s (concat (t ∷ ss)) ∙ omega (arith, breaks-concat (t ∷ ss))

rest_one_line :
    (cs : List ℕ) → all_rest cs ≡ true → any (λ c. nat_beq c 10 || nat_beq c 13) cs ≡ false
unfolding all_rest
rest_one_line [] h = refl
rest_one_line (c ∷ cs) h = ground (arith, rest_one_line cs)

id_one_line :
    (cs : List ℕ) → id_codes cs ≡ true → any (λ c. nat_beq c 10 || nat_beq c 13) cs ≡ false
unfolding id_codes
id_one_line [] h = refl
id_one_line (c ∷ cs) h = ground (arith, rest_one_line cs)

matches_id_one_line : (id : String) → matches_id id ≡ true → breaks id ≡ 0
unfolding matches_id contains_newline
matches_id_one_line id h = breaks-contains_newline id (id_one_line (codes id) h)

ok_eq : {a b : String} → ◌≡◌ {A = Result String String} (ok a) (ok b) → a ≡ b
ok_eq h = cc

files_eq :
    {a b : List (String × String)}
    → ◌≡◌ {A = Result String (List (String × String))} (ok a) (ok b)
    → b ≡ a
files_eq h = cc

err_ok : {a b : String} → ◌≡◌ {A = Result String String} (err a) (ok b) → ⊥
err_ok h = cc

-- One line for each calendar expression.
breaks-calendar_lines :
    (vs : List String) {text : String} → calendar_lines vs ≡ ok text → breaks text ≡ length vs
unfolding calendar_lines breaks total
breaks-calendar_lines [] h = ap breaks (sym (ok_eq h))
breaks-calendar_lines (v ∷ vs) {text} h =
    elim (Bool-cases (trim_space v == "" || contains_newline (trim_space v))) [
      | inl bad ↦ absurd (err_ok (rw bad at h))
      | inr good ↦ elim (Result-cases (calendar_lines vs)) [
        | inr (e, p) ↦ absurd (err_ok (rw (good, p) at h))
        | inl (lines, p) ↦
            let same = ok_eq (rw (good, p) at h) in
            let count = breaks-calendar_lines vs p in
            let value = breaks-contains_newline (trim_space v) (ground arith) in
            ap breaks (sym same)
            ∙ (breaks-concat ("OnCalendar=" ∷ trim_space v ∷ "\n" ∷ lines ∷ [])
                ∙ omega (arith, count, value))
      ]
    ]

interval_text :
    (e : String)
    → contains_newline e ≡ false
    → breaks (concat ("OnBootSec=" ∷ e ∷ "\nOnUnitActiveSec=" ∷ e ∷ "\n" ∷ [])) ≡ 2
unfolding breaks total
interval_text e one =
    breaks-concat ("OnBootSec=" ∷ e ∷ "\nOnUnitActiveSec=" ∷ e ∷ "\n" ∷ [])
    ∙ omega (arith, breaks-contains_newline e one)

switch_text : (b : Bool) → breaks (if b then "true" else "false") ≡ 0
unfolding breaks
switch_text true = refl
switch_text false = refl

delay_text : (d : String) → contains_newline d ≡ false → breaks (if d == "" then "0" else d) ≡ 0
unfolding breaks
delay_text d one = elim (Bool-cases (d == "")) [
  | inl e ↦ rw e refl
  | inr e ↦ rw e (breaks-contains_newline d one)
]

-- The lines that start a job: one for each calendar expression, or the two of an interval.
abbrev pub trigger_lines : Schedule → ℕ
trigger_lines s =
    if s.type == "interval"
    then 2
    else length (split b';' (if s.expression == "" then "*-*-* 02:00:00" else s.expression))

module _ (quote : String → String) (join : String → String → String) where
  breaks-timer_trigger :
      (s : Schedule) {text : String}
      → contains_newline s.expression ≡ false
      → timer_trigger quote s ≡ ok text
      → breaks text ≡ trigger_lines s
  unfolding timer_trigger
  breaks-timer_trigger s one h = elim (Bool-cases (s.type == "interval")) [
    | inl e ↦ rw e (
        ap breaks (sym (ok_eq (rw ((eq_iff s.type "interval").0 e, one) at h)))
        ∙ interval_text s.expression one)
    | inr e ↦ elim (Bool-cases (s.type == "" || s.type == "calendar")) [
      | inl c ↦ rw e (breaks-calendar_lines _ (rw c at h))
      | inr c ↦ absurd (err_ok (rw (c, e) at h))
    ]
  ]

  breaks-service_text :
      ((text : String) → contains_newline (quote text) ≡ false)
      → (id bin config : String) → matches_id id ≡ true
      → breaks (service_text quote join id bin config) ≡ 13
  unfolding service_text breaks total
  breaks-service_text quoted id bin config h =
      breaks-concat (service_parts quote join id bin config)
      ∙ omega (
        arith,
        matches_id_one_line id h,
        breaks-contains_newline (quote bin) (quoted bin),
        breaks-contains_newline (quote config) (quoted config),
        breaks-contains_newline (quote id) (quoted id),
      )

  breaks-timer_text :
      (j : Job) (trigger : String)
      → matches_id j.id ≡ true
      → contains_newline j.schedule.randomized_delay ≡ false
      → breaks (timer_text quote join j trigger) ≡ 9 + breaks trigger
  unfolding timer_text breaks total
  breaks-timer_text j trigger h one =
      breaks-concat (timer_parts quote join j trigger)
      ∙ omega (
        arith,
        matches_id_one_line j.id h,
        switch_text j.schedule.persistent,
        delay_text j.schedule.randomized_delay one,
      )

  -- What `check_units` has found when it passes.
  checked :
      (j : Job) (bin config : String)
      → check_units quote join j bin config ≡ ok tt
      → (matches_id j.id ≡ true)
        × (contains_newline j.schedule.expression ≡ false)
        × (contains_newline j.schedule.randomized_delay ≡ false)
  unfolding check_units
  checked j bin config h = ground arith

  abbrev place : String → String
  place dir = if dir == "" then "/etc/systemd/system" else dir

  -- If `strconv.Quote` gives no line breaks, `Install` writes exactly two files, the service and the
  -- timer of the job. The service has the 13 lines of the template, and the timer has 9 lines and
  -- those of its trigger: one for each calendar expression, or two for an interval. So no id,
  -- path, expression or delay adds a line, and with it a setting, to a unit.
  pub units_lem :
      ((text : String) → contains_newline (quote text) ≡ false)
      → (j : Job) (bin config dir : String) {files : List (String × String)}
      → units quote join j bin config dir ≡ ok files
      → (service : String) × (timer : String) × (files
          ≡ (join (place dir) (concat ("sbackup-job-" ∷ j.id ∷ ".service" ∷ [])), service)
            ∷ (join (place dir) (concat ("sbackup-job-" ∷ j.id ∷ ".timer" ∷ [])), timer)
            ∷ [])
        × (breaks service ≡ 13)
        × (breaks timer ≡ 9 + trigger_lines j.schedule)
  unfolding units
  units_lem quoted j bin config dir {files} h =
      let (passes, h1) = >>-eq-ok (check_units quote join j bin config) _ h in
      let (id, expression, delay) = checked j bin config passes in
      let (trigger, written, h2) = >>=-eq-ok (timer_trigger quote j.schedule) _ h1 in
      (
        service_text quote join j.id bin config,
        timer_text quote join j trigger,
        files_eq h2,
        breaks-service_text quoted j.id bin config id,
        breaks-timer_text j trigger id delay
            ∙ ap (λ n. 9 + n) (breaks-timer_trigger j.schedule expression written),
      )
