-- ===== src/Command/Options.antt =====
-- cmd/sbackup/main.go: the options of the commands, and what `job` does to the configuration.
use sbackup.Base.{
  String, Bool, true, List, [], ◌∷◌, ◌++◌, Result, ok, err, any, if◌then◌else◌, ◌==◌, string_eq,
}
use sbackup.Base.Text.{concat, trim_space}
use sbackup.Base.FilePath.{base}
use sbackup.Config.{Config, Job, Storage, Database}
use sbackup.Command.Maintenance.{Fatal}
use sbackup.Command.Secrets.{unique}

-- The options of `job run` behind the id: whether the run is scheduled, and its mode.
unfoldable pub run_options : List String → Bool → String → Result Fatal (Bool × String)
run_options [] scheduled mode = ok (scheduled, mode)
run_options (arg ∷ []) scheduled mode =
    if arg == "--scheduled"
    then ok (true, mode)
    else if arg == "--mode"
    then err (record { status = 2; message = "--mode 缺少值（incremental 或 full）" })
    else err (record { status = 2; message = concat ("未知参数 " ∷ arg ∷ []) })
run_options (arg ∷ value ∷ opts) scheduled mode =
    let flagged = run_options (value ∷ opts) true mode in
    let valued = run_options opts scheduled value in
    if arg == "--scheduled"
    then flagged
    else if arg == "--mode"
    then valued
    else err (record { status = 2; message = concat ("未知参数 " ∷ arg ∷ []) })

-- `hasArg`
unfoldable pub has_arg : List String → String → Bool
has_arg args wanted = any (λ arg. arg == wanted) args

-- `stringListFlag.Set`
unfoldable pub set_flag : List String → String → Result String (List String)
set_flag f value = if trim_space value == "" then err "include 不能为空" else ok (f ++ value ∷ [])

-- `job enable` and `job disable`: the first job with the id
abbrev enabled_first : String → Bool → List Job → List Job
enabled_first id enabled [] = []
enabled_first id enabled (j ∷ jobs) =
    let rest = enabled_first id enabled jobs in
    if j.id == id then record j { enabled = enabled } ∷ jobs else j ∷ rest

-- `job remove`: the first job with the id is taken out
abbrev removed_first : String → List Job → List Job
removed_first id [] = []
removed_first id (j ∷ jobs) =
    let rest = removed_first id jobs in if j.id == id then jobs else j ∷ rest

abbrev missing_job : Fatal
missing_job = record { status = 2; message = "任务不存在" }

-- The configuration that `job enable` or `job disable` saves.
unfoldable pub set_enabled : Config → String → Bool → Result Fatal Config
set_enabled c id enabled =
    if any (λ (j : Job). j.id == id) c.jobs
    then ok (record c { jobs = enabled_first id enabled c.jobs })
    else err missing_job

-- The configuration that `job remove` saves.
unfoldable pub remove_job : Config → String → List String → Result Fatal Config
unfolding has_arg
remove_job c id args =
    if has_arg args "--force"
    then (if any (λ (j : Job). j.id == id) c.jobs
        then ok (record c { jobs = removed_first id c.jobs })
        else err missing_job)
    else err (record { status = 8; message = "删除任务不会删除仓库快照；如确认请使用 --force" })

-- The arguments of `externalVersion`.
unfoldable pub version_args : String → List String
version_args path =
    if base path == "restic"
    then "version" ∷ []
    else if base path == "rclone"
    then "version" ∷ []
    else "--version" ∷ []

abbrev webdav_tools : Config → List Storage → List String
webdav_tools c [] = []
webdav_tools c (s ∷ storages) =
    let rest = webdav_tools c storages in
    if s.type == "webdav" then c.tools.rclone_path ∷ rest else rest

abbrev dump_tools : Config → List Database → List String
dump_tools c [] = []
dump_tools c (d ∷ databases) =
    let rest = dump_tools c databases in
    if d.type == "sqlite"
    then c.tools.sqlite_path ∷ rest
    else if d.type == "postgres"
    then c.tools.pg_dump_path ∷ rest
    else if d.type == "mysql"
    then c.tools.mysql_dump_path ∷ rest
    else rest

-- The commands that `doctor` looks for.
unfoldable pub required_tools : Config → List String
unfolding unique
required_tools c =
    unique (c.tools.restic_path ∷ (webdav_tools c c.storages ++ dump_tools c c.databases))
