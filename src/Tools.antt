-- ===== src/Tools.antt =====
-- internal/runtime/tools.go: `Ensure`, which installs rclone when a WebDAV storage needs it.
mod Tests
use sbackup.Base.{
  String, Bool, true, false, not, List, [], ◌∷◌, ◌++◌, Option, none, some, Result, ok, err,
  reject_if, ◌||◌, ◌≡◌, ◌⊎◌, inl, inr, arith, eq_iff, Bool-cases, Result-cases, if◌then◌else◌,
  ◌>>=◌, ◌>>◌, find, ◌==◌, string_eq,
}
use sbackup.Base.Text.{concat}
use sbackup.World.{Outside}

module _ (o : Outside) where
  -- `candidates`
  unfoldable pub installers : List String
  installers =
      ("/usr/local/share/sbackup/scripts/install-runtime-tools.sh"
        ∷ "scripts/install-runtime-tools.sh" ∷ [])
      ++ beside o.executable_dir
    where
      beside : Option String → List String
      beside none = []
      beside (some dir) = o.join dir "../share/sbackup/scripts/install-runtime-tools.sh" ∷ []

  -- `installerScript`
  unfoldable pub installer_script : Result String String
  unfolding installers
  installer_script = elim (find o.is_script installers) [
    | some script ↦ ok script
    | none ↦ err "找不到组件安装脚本，请重新运行 SBackup 一键安装脚本"
  ]

  abbrev run_installer : String → Result String (Unit {0})
  run_installer script = elim (o.install script) [
    | some e ↦ err (concat ("安装 rclone: " ∷ e ∷ []))
    | none ↦ ok tt
  ]

  abbrev install_rclone : String → Result String (Unit {0})
  install_rclone tool = do
    reject_if (not (o.base_name tool == "rclone")) (concat ("缺少运行时组件 " ∷ tool ∷ []))
    reject_if (not o.is_root) "配置 WebDAV 需要安装 rclone，请使用 sudo sbackup 重新进入菜单"
    script ← installer_script
    run_installer script
    reject_if (not (o.look_path true tool)) "rclone 安装完成但当前 PATH 中仍不可用"

  -- `Ensure`
  unfoldable pub ensure : String → Result String (Unit {0})
  unfolding installer_script
  ensure tool = if o.look_path false tool then ok tt else install_rclone tool

  -- When `Ensure` returns no error the tool is on the path; a tool that was not there was installed by
  -- root, and is rclone.
  pub ensure-eq-ok :
      (tool : String)
      → ensure tool ≡ ok tt
      → (o.look_path false tool ≡ true)
        ⊎ ((o.look_path true tool ≡ true) × (o.is_root ≡ true) × (o.base_name tool ≡ "rclone"))
  unfolding ensure
  ensure-eq-ok tool h = ground (arith, eq_iff (o.base_name tool) "rclone")
