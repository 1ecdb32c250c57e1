-- ===== src/Repository/Connection.antt =====
-- internal/repository/repository.go: `Test` and `Init`.
use sbackup.Base.{String, Bool, [], ◌∷◌, ◌++◌, Option, some, ◌==◌, string_eq}
use sbackup.Base.Text.{concat}
use sbackup.Config.{Config, Storage}
use sbackup.Repository.{restic_base}
use sbackup.World.{Outside, Exec, lift, check, ◌>>=◌, ◌>>◌, when}
use sbackup.Tools.{ensure}
use sbackup.Backup.Commands.{build_storage, restic}

module _ (o : Outside) (c : Config) where
  -- `Test`
  unfoldable pub test : Storage → Exec String (Unit {0})
  unfolding build_storage ensure
  test s = do
    when (s.type == "webdav") (lift (ensure o c.tools.rclone_path))
    rt ← build_storage o c (λ e. e) s
    restic o c "仓库连接失败: " "storage-test" rt (restic_base rt ++ "snapshots" ∷ "--json" ∷ [])

  -- `Init`, with the error of `os.MkdirAll` and whether there is no password file
  unfoldable pub init :
      (String → Option String) → (String → Bool) → Storage → Exec String (Unit {0})
  unfolding build_storage ensure
  init mkdir missing s = do
    when (s.type == "webdav") (lift (ensure o c.tools.rclone_path))
    rt ← build_storage o c (λ e. e) s
    check (λ e. e) (mkdir rt.password_file)
    when (missing rt.password_file)
        (check (λ e. concat ("仓库密码文件不存在: " ∷ e ∷ [])) (some rt.password_file))
    restic o c "初始化仓库失败: " "repository-init" rt (restic_base rt ++ "init" ∷ [])
