-- ===== src/Schedule.antt =====
-- internal/schedule/systemd.go: the units of a job's timer.
pub mod Injection
mod Tests
use sbackup.Base.{
  String, Bool, true, false, not, ◌&&◌, ◌||◌, List, [], ◌∷◌, ◌++◌, Option, none, some, Result, ok,
  err, reject_if, ◌>>=◌, ◌>>◌, if◌then◌else◌, ◌==◌, string_eq,
}
use sbackup.Base.Text.{concat, split, trim_space, contains_newline}
use sbackup.Config.{Job, Schedule}
use sbackup.Config.Validate.Fields.{matches_id}

-- the loop of `timerTrigger` over the calendar expressions
unfoldable pub calendar_lines : List String → Result String String
calendar_lines [] = ok ""
calendar_lines (v ∷ vs) =
    let value = trim_space v in
    let rest = calendar_lines vs in
    if value == "" || contains_newline value
    then err "无效日历表达式"
    else rest >>= λ lines. ok (concat ("OnCalendar=" ∷ value ∷ "\n" ∷ lines ∷ []))

-- `timerTrigger`, with `strconv.Quote`
unfoldable pub timer_trigger : (String → String) → Schedule → Result String String
timer_trigger quote s =
    if s.type == "" || s.type == "calendar"
    then calendar_lines (split b';' (if s.expression == "" then "*-*-* 02:00:00" else s.expression))
    else if s.type == "interval"
    then (if contains_newline s.expression
        then err "无效间隔表达式"
        else ok (
            concat ("OnBootSec=" ∷ s.expression ∷ "\nOnUnitActiveSec=" ∷ s.expression ∷ "\n" ∷ [])))
    else err (concat ("不支持的调度类型 " ∷ quote s.type ∷ []))

module _ (quote : String → String) (join : String → String → String) where
  abbrev pub service_parts : String → String → String → List String
  service_parts id bin config =
      "[Unit]\nDescription=SBackup job "
      ∷ id
      ∷ "\nAfter=network-online.target\nWants=network-online.target\n\n[Service]\nType=oneshot\nExecStart="
      ∷ quote bin
      ∷ " --config "
      ∷ quote config
      ∷ " job run "
      ∷ quote id
      ∷ " --scheduled\nNice=10\nIOSchedulingClass=best-effort\nIOSchedulingPriority=7\nNoNewPrivileges=true\nPrivateTmp=true\n"
      ∷ []

  unfoldable pub service_text : String → String → String → String
  service_text id bin config = concat (service_parts id bin config)

  abbrev pub timer_parts : Job → String → List String
  timer_parts j trigger =
      "[Unit]\nDescription=Schedule SBackup job "
      ∷ j.id
      ∷ "\n\n[Timer]\n"
      ∷ trigger
      ∷ "Persistent="
      ∷ (if j.schedule.persistent then "true" else "false")
      ∷ "\nRandomizedDelaySec="
      ∷ (if j.schedule.randomized_delay == "" then "0" else j.schedule.randomized_delay)
      ∷ "\n\n[Install]\nWantedBy=timers.target\n"
      ∷ []

  unfoldable pub timer_text : Job → String → String
  timer_text j trigger = concat (timer_parts j trigger)

  -- The checks of `Install`. Which of several bad values the error names is left open by the code.
  unfoldable pub check_units : Job → String → String → Result String (Unit {0})
  check_units j bin config = do
    reject_if (not (matches_id j.id)) "无效任务 ID"
    reject_if
        (contains_newline bin
          || (contains_newline config
              || (contains_newline j.schedule.expression
                  || contains_newline j.schedule.randomized_delay)))
        "不能包含换行"

  -- The files that `Install` writes, with their contents: the service, then the timer.
  unfoldable pub units : Job → String → String → String → Result String (List (String × String))
  unfolding check_units timer_trigger service_text timer_text
  units j bin config dir = do
    check_units j bin config
    trigger ← timer_trigger quote j.schedule
    let place = if dir == "" then "/etc/systemd/system" else dir
    ok (
        (
          join place (concat ("sbackup-job-" ∷ j.id ∷ ".service" ∷ [])),
          service_text j.id bin config,
        )
        ∷ (join place (concat ("sbackup-job-" ∷ j.id ∷ ".timer" ∷ [])), timer_text j trigger)
        ∷ [])
