-- ===== src/Backup/Options.antt =====
-- The mode of a run and the arguments of the Restic commands.
use sbackup.Base.{
  String, Bool, ◌||◌, List, [], ◌∷◌, ◌++◌, Option, none, some, if◌then◌else◌, ◌==◌, string_eq,
}
use sbackup.Base.Int.{ℤ, pos, ltb_ℤ, itoa}
use sbackup.Base.Text.{concat}
use sbackup.Config.{Job, Config}
use sbackup.Repository.{Runtime, restic_base}

-- `backupMode`: the override, else the job's mode, else `incremental`; `none` is the error.
unfoldable pub backup_mode : Job → String → Option String
backup_mode j override =
    let asked = if override == "" then j.restic.backup_mode else override in
    let mode = if asked == "" then "incremental" else asked in
    if mode == "incremental" || mode == "full" then some mode else none

-- `if value > 0 { append(args, flag, strconv.Itoa(value)) }`
abbrev pub flag_int : String → ℤ → List String
flag_int flag value = if ltb_ℤ (pos 0) value then flag ∷ itoa value ∷ [] else []

abbrev pub each : String → List String → List String
each flag [] = []
each flag (x ∷ xs) = flag ∷ x ∷ each flag xs

-- The arguments of `restic backup` in `RunWithMode`.
unfoldable pub backup_args : Config → Job → Runtime → String → List String → List String
backup_args c j rt mode paths =
    restic_base rt
    ++ (("backup"
          ∷ "--json"
          ∷ "--host"
          ∷ c.global.hostname
          ∷ "--tag"
          ∷ concat ("sbackup-job=" ∷ j.id ∷ [])
          ∷ "--tag"
          ∷ concat ("sbackup-mode=" ∷ mode ∷ [])
          ∷ [])
        ++ ((if mode == "full" then "--force" ∷ [] else [])
            ++ ((if j.restic.compression == ""
                  then []
                  else "--compression" ∷ j.restic.compression ∷ [])
                ++ (flag_int "--read-concurrency" j.restic.read_concurrency
                    ++ (flag_int "--pack-size" j.restic.pack_size_mb
                        ++ ((if j.sources.one_file_system then "--one-file-system" ∷ [] else [])
                            ++ (each "--exclude" j.excludes
                                ++ (each "--tag" j.restic.extra_tags ++ paths))))))))

-- The `--keep` options of `Forget`: the loop over `pairs`, and `KeepWithin`.
unfoldable pub keep_options : Job → List String
keep_options j =
    flag_int "--keep-last" j.retention.keep_last
    ++ (flag_int "--keep-hourly" j.retention.keep_hourly
        ++ (flag_int "--keep-daily" j.retention.keep_daily
            ++ (flag_int "--keep-weekly" j.retention.keep_weekly
                ++ (flag_int "--keep-monthly" j.retention.keep_monthly
                    ++ (flag_int "--keep-yearly" j.retention.keep_yearly
                        ++ (if j.retention.keep_within == ""
                            then []
                            else "--keep-within" ∷ j.retention.keep_within ∷ []))))))

-- The arguments of `restic forget` in `Forget`.
unfoldable pub forget_args : Job → Runtime → Bool → List String
unfolding keep_options
forget_args j rt prune =
    restic_base rt
    ++ (("forget" ∷ "--tag" ∷ concat ("sbackup-job=" ∷ j.id ∷ []) ∷ "--group-by" ∷ "host,tags" ∷ [])
        ++ (keep_options j ++ (if prune then "--prune" ∷ [] else [])))

-- The arguments of `restic check` in `Verify`; `none` is an unknown level.
unfoldable pub verify_args : Job → Runtime → String → Option (List String)
verify_args j rt level =
    let subset = j.verification.full_read_data_subset in
    if level == "metadata"
    then some (restic_base rt ++ "check" ∷ [])
    else if level == "standard"
    then some (
        restic_base rt
        ++ ("check"
            ∷ concat ("--read-data-subset=" ∷ (if subset == "" then "5%" else subset) ∷ [])
            ∷ []))
    else if level == "full"
    then some (restic_base rt ++ "check" ∷ "--read-data" ∷ [])
    else none

-- The arguments of `restic restore` in `Restore`.
unfoldable pub restore_args : Runtime → String → String → List String → List String
restore_args rt snapshot target includes =
    restic_base rt ++ ("restore" ∷ snapshot ∷ "--target" ∷ target ∷ each "--include" includes)
