-- ===== src/Backup/Run/Steps.antt =====
-- The steps of a run, each of which can end it with an error code.
use sbackup.Base.{
  suc, ◌*◌, ◌/◌, String, Bool, true, false, List, [], ◌∷◌, ◌++◌, Option, none, some, Result, ok,
  err, map, if◌then◌else◌, ◌==◌, string_eq,
}
use sbackup.Base.Int.{ℤ, pos, negsuc, sub_ℕ}
use sbackup.Base.Text.{concat, join}
use sbackup.Base.Time.{sub, hour}
use sbackup.Config.{Config, Job, storage, database}
use sbackup.Database.{dump}
use sbackup.Executor.{redact}
use sbackup.Repository.{Runtime}
use sbackup.Store.{Run}
use sbackup.Store.Runs.{save_run}
use sbackup.Tools.{ensure}
use sbackup.World.{
  Outside, find_or, Exec, Work, Summary, Decoded, no_object, other_object, summary_object, give,
  raise, lift, check, relabel, attempt, add_file, execute, set_run, when, ◌>>=◌, ◌>>◌,
}
use sbackup.Backup.Commands.{build_storage, forget, verify}
use sbackup.Backup.Options.{backup_args}

-- The arguments of `fail`.
pub record Failure : Type 0 where
  pub code : String
  pub cause : String

abbrev pub with_code : String → String → Failure
with_code code cause = record { code = code; cause = cause }

-- `Milliseconds`, which drops the fraction
abbrev milliseconds : ℤ → ℤ
milliseconds (pos n) = pos (n / 1000000)
milliseconds (negsuc n) = sub_ℕ 0 (suc n / 1000000)

-- What a line of the output does to `summary`.
unfoldable pub summarize : (String → Decoded) → Summary → List String → Summary
summarize decode s [] = s
summarize decode s (line ∷ lines) = elim (decode line) [
  | summary_object f ↦ summarize decode (f s) lines
  | other_object ↦ summarize decode s lines
  | no_object ↦ summarize decode s lines
]

abbrev pub no_summary : Summary
no_summary = record {
  snapshot_id = "";
  files_new = pos 0;
  files_changed = pos 0;
  files_unmodified = pos 0;
  data_added = pos 0;
  total_bytes_processed = pos 0;
}

module _ (o : Outside) where
  -- `SaveRun(r)`
  unfoldable pub save_row : Work → Result String (Unit {0}) × Work
  save_row w = elim (o.save_error w.saves) [
    | some e ↦ (err e, record w { saves = suc w.saves })
    | none ↦ elim (save_run w.run w.rows) [
      | err e ↦ (err (o.store_error e), record w { saves = suc w.saves })
      | ok rows ↦ (ok tt, record w { saves = suc w.saves; rows = rows })
    ]
  ]

  abbrev pub save : Exec Failure (Unit {0})
  save = relabel (with_code "STATE_SAVE_FAILED") save_row

  -- an assignment to `r.Phase`, and `SaveRun`
  abbrev pub enter : String → Exec Failure (Unit {0})
  enter phase = do set_run (λ r. record r { phase = phase }); save

  -- `r.FinishedAt`, `r.DurationMS`
  unfoldable pub stamp_end : {E : Type 0} → Exec E (Unit {0})
  stamp_end w =
      let now = o.now w.ticks in
      (
        ok tt,
        record w {
          ticks = suc w.ticks;
          run = record w.run {
            finished_at = now;
            duration_ms = milliseconds (sub now w.run.started_at);
          };
        },
      )

  module _ (c : Config) (j : Job) where
    -- `timeout`
    unfoldable pub timeout : ℤ
    timeout =
        if j.schedule.timeout == ""
        then pos (6 * hour)
        else elim (o.parse_duration j.schedule.timeout) [ some d ↦ d | none ↦ pos (6 * hour) ]

    -- the loop over `j.Sources.Paths`
    unfoldable pub check_paths : List String → Exec Failure (Unit {0})
    check_paths [] = give tt
    check_paths (p ∷ ps) = do
      when j.sources.strict_paths (
          check (λ e. with_code "SOURCE_NOT_READABLE" (concat ("来源 " ∷ p ∷ ": " ∷ e ∷ [])))
            (o.stat p))
      check_paths ps

    -- from the lookup of the storage to the staging directory
    unfoldable pub prepare : Exec Failure (Runtime × String)
    unfolding check_paths
    prepare = do
      st ← find_or (with_code "CONFIG_ERROR" "存储不存在") (storage c j.storage_id)
      when (st.type == "webdav")
          (relabel (with_code "MISSING_RUNTIME") (lift (ensure o c.tools.rclone_path)))
      rt ← build_storage o c (with_code "CONFIG_ERROR") st
      check_paths j.sources.paths
      check (with_code "TEMP_DIR_FAILED") (o.make_dir c.global.temp_dir)
      stage ←
          relabel (with_code "TEMP_DIR_FAILED")
            (lift (o.make_temp c.global.temp_dir (concat ("run-" ∷ o.new_id ∷ "-" ∷ []))))
      add_file stage
      give (rt, stage)

    -- the loop over `j.Sources.Databases`
    unfoldable pub dump_all : String → List String → Exec Failure (List String)
    dump_all dir [] = give []
    dump_all dir (id ∷ ids) = do
      d ← find_or (with_code "CONFIG_ERROR" (concat ("数据库不存在: " ∷ id ∷ []))) (database c id)
      p ← relabel (with_code "DATABASE_DUMP_FAILED") (dump o c d dir)
      rest ← dump_all dir ids
      give (p ∷ rest)

    abbrev has_databases : List String → Bool
    has_databases [] = false
    has_databases (x ∷ xs) = true

    -- the phase `preparing_sources`
    unfoldable pub prepare_sources : String → Exec Failure (List String)
    unfolding dump_all
    prepare_sources stage =
        if has_databases j.sources.databases
        then (do
          enter "preparing_sources"
          dumps ← dump_all (o.join stage "databases") j.sources.databases
          give (j.sources.paths ++ dumps))
        else give j.sources.paths

    abbrev pub backup_failure : Option String → Option Failure
    backup_failure none = none
    backup_failure (some e) = elim (o.context_error timeout) [
      | some t ↦ some (with_code "TASK_TIMEOUT" t)
      | none ↦ some (with_code "RESTIC_BACKUP_FAILED" e)
    ]

    abbrev pub stop_on : Option Failure → Exec Failure (Unit {0})
    stop_on none = give tt
    stop_on (some f) = raise f

    abbrev pub take_summary : Summary → Exec Failure (Unit {0})
    take_summary s =
        if s.snapshot_id == ""
        then raise (with_code "RESTIC_INVALID_OUTPUT" "Restic 未返回快照摘要")
        else set_run (λ r. record r {
          snapshot_id = s.snapshot_id;
          files_new = s.files_new;
          files_changed = s.files_changed;
          files_unmodified = s.files_unmodified;
          bytes_added = s.data_added;
          bytes_processed = s.total_bytes_processed;
        })

    -- the phase `backing_up`
    unfoldable pub back_up : String → Runtime → List String → Exec Failure (Unit {0})
    unfolding timeout summarize
    back_up mode rt paths = do
      enter "backing_up"
      (lines, res) ← execute o (record {
        phase = "backup";
        program = c.tools.restic_path;
        args = backup_args c j rt mode paths;
        env = rt.env;
      })
      stop_on (backup_failure res.error)
      take_summary (summarize o.decode_line no_summary (map redact lines))

    abbrev pub warning : String → Result String (Unit {0}) → List String
    warning what (ok u) = []
    warning what (err e) = concat (what ∷ e ∷ []) ∷ []

    -- a phase whose failure is only a warning
    abbrev pub optional :
        Bool → String → String → Exec String (Unit {0}) → Exec Failure (List String)
    optional asked phase what action =
        if asked
        then (do enter phase; result ← attempt action; give (warning what result))
        else give []

    abbrev pub status_of : List String → Run → Run
    status_of [] r = record r { phase = "completed"; status = "success" }
    status_of (x ∷ xs) r = record r {
      phase = "completed";
      status = "warning";
      warning = redact (join "; " (x ∷ xs));
    }

    -- the end of a run that made a snapshot
    unfoldable pub complete : List String → Exec Failure (Unit {0})
    unfolding stamp_end save_row
    complete warnings = do stamp_end; set_run (status_of warnings); save

    -- from the staging directory on
    unfoldable pub staged : String → Runtime → String → Exec Failure (Unit {0})
    unfolding prepare_sources back_up complete forget verify
    staged mode rt stage = do
      paths ← prepare_sources stage
      back_up mode rt paths
      kept ← optional j.retention.forget_after_backup "retention" "保留策略失败: " (forget o c j.id false)
      checked ←
          optional j.verification.metadata_after_backup "verifying_metadata" "元数据验证失败: "
            (verify o c j.id "metadata")
      complete (kept ++ checked)
