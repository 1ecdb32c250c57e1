-- ===== src/Menu/Edit.antt =====
-- internal/tui/menu.go: `editJobMenu` with the questions about a job. A pointer to a job of the
-- configuration is its index.
pub mod Ends
pub mod Agrees
use sbackup.Base.{
  ℕ, String, Bool, true, false, not, ◌&&◌, ◌||◌, List, [], ◌∷◌, Option, none, some, length,
  get_elem?, set, if◌then◌else◌, ◌==◌, string_eq, nat_beq,
}
use sbackup.Base.Int.{ℤ}
use sbackup.Base.Text.{join}
use sbackup.Config.{Config, Job, Retention, Storage}
use sbackup.Menu.{Machine, M, ◌>>=◌, ◌>>◌, pure, read_line, the_config, checked_save, saving, menu}
use sbackup.Menu.Ask.{ask, ask_yes_no, ask_non_negative_int, select, split_values}
use sbackup.Menu.Plan.{ask_schedule, ask_backup_mode}
use sbackup.Menu.Timer.{install_job_schedule, disable_job_schedule}

-- What a round makes of a job, and whether its timer has to follow.
pub record Change : Type 0 where
  pub job : Job
  pub timer : Bool

abbrev change : Job → Option Change
change j = some (record { job = j; timer = false })

abbrev is_single_dash : List String → Bool
is_single_dash (v ∷ []) = v == "-"
is_single_dash _ = false

-- A list that was answered with one dash is cleared.
unfoldable pub cleared : List String → List String
cleared values = if is_single_dash values then [] else values

-- `valueEditDefault`
unfoldable pub value_edit_default : List String → String
value_edit_default [] = "-"
value_edit_default (v ∷ vs) = join "," (v ∷ vs)

abbrev with_paths : Job → List String → Option Change
with_paths j [] = none
with_paths j (v ∷ vs) = change (record j { sources = record j.sources { paths = v ∷ vs } })

unfoldable pub with_storage : Job → List Storage → Option ℕ → Option Change
with_storage j storages none = none
with_storage j storages (some i) = elim (get_elem? storages i) [
  | none ↦ none
  | some storage ↦ change (record j { storage_id = storage.id })
]

-- `askRetention`
unfoldable pub ask_retention : Machine → Retention → M Retention
ask_retention machine r = do
  last ← ask_non_negative_int r.keep_last
  hourly ← ask_non_negative_int r.keep_hourly
  daily ← ask_non_negative_int r.keep_daily
  weekly ← ask_non_negative_int r.keep_weekly
  monthly ← ask_non_negative_int r.keep_monthly
  yearly ← ask_non_negative_int r.keep_yearly
  forget ← ask_yes_no machine r.forget_after_backup
  pure (record r {
    keep_last = last;
    keep_hourly = hourly;
    keep_daily = daily;
    keep_weekly = weekly;
    keep_monthly = monthly;
    keep_yearly = yearly;
    forget_after_backup = forget;
  })

-- `editScanOptions`
unfoldable pub edit_scan_options : Machine → Job → M Job
edit_scan_options machine j = do
  strict ← ask_yes_no machine j.sources.strict_paths
  one ← ask_yes_no machine j.sources.one_file_system
  metadata ← ask_yes_no machine j.verification.metadata_after_backup
  compression ← ask (if j.restic.compression == "" then "auto" else j.restic.compression)
  pure (record j {
    sources = record j.sources { strict_paths = strict; one_file_system = one };
    verification = record j.verification { metadata_after_backup = metadata };
    restic = record j.restic { compression = compression };
  })

unfoldable pub edit_schedule : Machine → Job → M (Option Change)
edit_schedule machine j = do
  asked ← ask_schedule machine j.schedule
  elim asked [
    | none ↦ pure none
    | some schedule ↦ do
      mode ← ask_backup_mode j.restic.backup_mode
      pure (
          some (record {
            job = record j { schedule = schedule; restic = record j.restic { backup_mode = mode } };
            timer = true;
          }))
  ]

-- The `switch` of `editJobMenu`; `none` is a `continue`.
unfoldable pub edited : Machine → List Storage → Job → String → M (Option Change)
edited machine storages j choice =
    if choice == "1"
    then (do name ← ask j.name; pure (change (record j { name = name })))
    else if choice == "2"
    then (do answer ← ask (join "," j.sources.paths); pure (with_paths j (split_values answer)))
    else if choice == "3"
    then (do
      answer ← ask (value_edit_default j.sources.databases)
      pure (
          change (record j {
            sources = record j.sources { databases = cleared (split_values answer) };
          })))
    else if choice == "4"
    then (do
      answer ← ask (value_edit_default j.excludes)
      pure (change (record j { excludes = cleared (split_values answer) })))
    else if choice == "5"
    then (do i ← select storages; pure (with_storage j storages i))
    else if choice == "6"
    then edit_schedule machine j
    else if choice == "7"
    then (do r ← ask_retention machine j.retention; pure (change (record j { retention = r })))
    else if choice == "8"
    then (do j' ← edit_scan_options machine j; pure (change j'))
    else pure none

-- `*job = value`
abbrev pub put_job : ℕ → Job → Config → Config
put_job i j c = record c { jobs = set c.jobs i j }

module _ (machine : Machine) where
  -- The check and the save of a changed job, which is put back when either fails. It returns whether the
  -- change was saved.
  unfoldable pub commit : ℕ → Job → Job → M Bool
  commit i old new =
      saving (checked_save machine) (put_job i new) (put_job i old) (pure true) (pure false)

  unfoldable pub follow_timer : Job → M (Unit {0})
  follow_timer j = do
    _ ←
        if j.schedule.enabled && j.enabled
        then install_job_schedule machine j
        else disable_job_schedule machine j.id
    pure tt

  unfoldable pub apply_change : ℕ → Job → Option Change → M (Unit {0})
  apply_change i old none = pure tt
  apply_change i old (some new) = do
    saved ← commit i old new.job
    if saved && new.timer then follow_timer new.job else pure tt

  -- One round of the loop, on the job at the index.
  unfoldable pub edit_job : ℕ → String → List Storage → Option Job → M (Unit {0})
  edit_job i choice storages none = pure tt
  edit_job i choice storages (some old) = do
    new ← edited machine storages old choice
    apply_change i old new

  unfoldable pub edit_round : ℕ → String → M (Unit {0})
  edit_round i choice = do c ← the_config; edit_job i choice c.storages (get_elem? c.jobs i)

  -- `editJobMenu`
  unfoldable pub edit_job_menu : ℕ → M (Unit {0})
  edit_job_menu i = menu (edit_round i)
