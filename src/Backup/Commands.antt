-- ===== src/Backup/Commands.antt =====
-- `runtime`, `Forget`, `Verify`, `Restore` and `SnapshotFiles` of a job's repository.
use sbackup.Base.{
  String, Bool, true, false, not, ◌&&◌, ◌||◌, List, [], ◌∷◌, Option, none, some, Result, ok, err,
  if◌then◌else◌, ◌==◌, string_eq,
}
use sbackup.Base.Text.{concat}
use sbackup.Base.FilePath.{is_abs, clean, CleanPath}
use sbackup.Config.{Config, Job, Storage, job, storage}
use sbackup.Repository.{
  Runtime, BuildError, build, no_webdav, no_sftp, no_key_file, no_s3, bad_credentials,
  bad_storage_type,
}
use sbackup.World.{
  Outside, find_or, Lstat, symlink, unreadable, Exec, give, lift, check, execute, ◌>>=◌, ◌>>◌, when,
}
use sbackup.Tools.{ensure}
use sbackup.Backup.Options.{forget_args, verify_args, restore_args}

-- `err.Error()` of the errors of `Build`
unfoldable pub build_error_text : BuildError → String
build_error_text no_webdav = "WebDAV 配置为空"
build_error_text no_sftp = "SFTP 配置为空"
build_error_text no_key_file = "SFTP 缺少 key_file"
build_error_text no_s3 = "S3 配置为空"
build_error_text (bad_credentials e) = e
build_error_text (bad_storage_type t) = concat ("不支持的存储类型 " ∷ t ∷ [])

abbrev is_nil : List String → Bool
is_nil [] = true
is_nil (x ∷ xs) = false

unfoldable all_but_last : List String → List String
all_but_last [] = []
all_but_last (x ∷ []) = []
all_but_last (x ∷ y ∷ xs) = x ∷ all_but_last (y ∷ xs)

infixr 4 ◌⨟◌
abbrev ◌⨟◌ : Result String (Unit {0}) → Result String (Unit {0}) → Result String (Unit {0})
ok u ⨟ k = k
err e ⨟ k = err e

module _ (o : Outside) (c : Config) where
  unfoldable pub read_credentials : String → Result String (List (String × String))
  read_credentials path = elim (o.read_file path) [ err e ↦ err e | ok text ↦ o.decode_map text ]

  unfoldable pub build_storage : {E : Type 0} → (String → E) → Storage → Exec E Runtime
  unfolding read_credentials build_error_text
  build_storage f st w = elim (build read_credentials st) [
    | err e ↦ (err (f (build_error_text e)), w)
    | ok rt ↦ (ok rt, w)
  ]

  -- `runtime`
  unfoldable pub runtime : String → Exec String (Job × Runtime)
  unfolding build_storage
  runtime job_id = do
    j ← find_or "任务不存在" (job c job_id)
    st ← find_or "存储不存在" (storage c j.storage_id)
    when (st.type == "webdav") (lift (ensure o c.tools.rclone_path))
    rt ← build_storage (λ e. e) st
    give (j, rt)

  abbrev pub restic : String → String → Runtime → List String → Exec String (Unit {0})
  restic what phase rt args = do
    (lines, res) ←
        execute o
          (record { phase = phase; program = c.tools.restic_path; args = args; env = rt.env })
    check (λ e. concat (what ∷ e ∷ [])) res.error

  -- `Forget`
  unfoldable pub forget : String → Bool → Exec String (Unit {0})
  unfolding runtime
  forget job_id prune = do
    (j, rt) ← runtime job_id
    restic "应用保留策略失败: " "retention" rt (forget_args j rt prune)

  -- `Verify`
  unfoldable pub verify : String → String → Exec String (Unit {0})
  unfolding runtime
  verify job_id level = do
    (j, rt) ← runtime job_id
    args ← find_or (concat ("未知验证级别 " ∷ o.quote level ∷ [])) (verify_args j rt level)
    restic "验证失败: " "verify" rt args

  -- `len(parts) > 0`, and the path of `filepath.Dir`
  abbrev is_root_path : CleanPath → Bool
  is_root_path p = p.rooted && is_nil p.parts

  abbrev parent : CleanPath → CleanPath
  parent p = record { rooted = p.rooted; parts = all_but_last p.parts }

  abbrev refuse_link : String → Lstat → Result String (Unit {0})
  refuse_link target symlink = err (concat ("拒绝恢复到符号链接目标 " ∷ o.quote target ∷ []))
  refuse_link target (unreadable e) = err e
  refuse_link target _ = ok tt

  abbrev resolves_to_root : Option String → Bool
  resolves_to_root none = false
  resolves_to_root (some p) = is_root_path (clean p)

  -- `validateRestoreTarget`
  unfoldable pub validate_restore_target : String → Result String (Unit {0})
  unfolding all_but_last
  validate_restore_target target =
      if target == "" || (not (is_abs target) || is_root_path (clean target))
      then err (concat ("拒绝恢复到危险目标 " ∷ o.quote target ∷ "；目标必须是绝对路径且不能是根目录" ∷ []))
      else refuse_link target (o.lstat (clean target))
        ⨟ (if resolves_to_root (o.eval_symlinks (parent (clean target)))
              && not (is_root_path (parent (clean target)))
            then err (concat ("拒绝通过指向根目录的符号链接恢复: " ∷ o.quote target ∷ []))
            else ok tt)

  -- `Restore`
  unfoldable pub restore : String → String → String → List String → Exec String (Unit {0})
  unfolding validate_restore_target runtime
  restore job_id snapshot target includes = do
    lift (validate_restore_target target)
    (j, rt) ← runtime job_id
    check (λ e. e) (o.make_dir target)
    restic "恢复失败: " "restore" rt (restore_args rt snapshot target includes)
