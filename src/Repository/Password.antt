-- ===== src/Repository/Password.antt =====
-- internal/repository/repository.go: `CreatePasswordFile`, over the files of `FileStore`.
pub mod Exclusive
mod Tests
use sbackup.Base.{
  ℕ, suc, String, Bool, true, false, List, [], ◌∷◌, Option, none, some, Result, ok, err, ◌>>=◌,
  ◌>>◌, reject_if, ltb, if◌then◌else◌, ◌==◌, string_eq,
}
use sbackup.Base.Text.{byte_length, codes, concat, trim_suffix, contains_newline}
use sbackup.Base.Maps.{lookup, put, remove}
use sbackup.FileStore.{
  Disk, Faults, Stop, ended, failed, Op, write, sync, close, call, outcome, run, go_on, keep_result,
}

pub data PasswordError : Type 0 where
  empty_path too_short has_newline : PasswordError
  no_random : String → PasswordError
  stopped : Stop → PasswordError

-- The password and whether it was made here, of 32 random bytes in base64.
abbrev pub chosen : String → Result String String → Result PasswordError (String × Bool)
chosen password (err e) = if password == "" then err (no_random e) else ok (password, false)
chosen password (ok made) = if password == "" then ok (made, true) else ok (password, false)

-- The checks before the file is touched, which give the password that is written.
abbrev pub trimmed : String → String
trimmed password = trim_suffix (trim_suffix password "\n") "\r"

abbrev pub measured : String × Bool → Result PasswordError (String × Bool)
measured (password, generated) = do
  reject_if (ltb (byte_length (codes (trimmed password))) 16) too_short
  reject_if (contains_newline (trimmed password)) has_newline
  ok (trimmed password, generated)

unfoldable pub accepted_password :
    String → String → Result String String → Result PasswordError (String × Bool)
accepted_password path password random = do
  reject_if (path == "") empty_path
  given ← chosen password random
  measured given

module _ (faults : Faults) (path : String) where
  -- `os.OpenFile` with `O_CREATE|O_EXCL`, by what the path has
  unfoldable pub open_exclusive : Option String → Disk → Result Stop (Unit {0}) × Disk
  open_exclusive none d = call faults (put path "" d.files) d.files d
  open_exclusive (some old) d =
      outcome faults (faults.ends d.calls) (some (concat ("密码文件已存在，拒绝覆盖: " ∷ path ∷ []))) d.files
        d.files d.calls

  -- The deferred `os.Remove`, when a call on the file failed.
  abbrev pub dropped : Result Stop (Unit {0}) × Disk → Result Stop (Unit {0}) × Disk
  dropped (ok u, d) = (ok u, d)
  dropped (err ended, d) = (err ended, d)
  dropped (err (failed e), d) =
      keep_result faults (err (failed e)) (call faults (remove path d.files) d.files d)

  -- The directory, the new file, its contents.
  unfoldable pub write_new : String → Disk → Result Stop (Unit {0}) × Disk
  unfolding open_exclusive run
  write_new password d =
      go_on faults
        (λ v.
          go_on faults
            (λ w.
              dropped (
                run faults path path (write (concat (password ∷ "\n" ∷ [])) ∷ sync ∷ close ∷ []) w))
            (open_exclusive (lookup path v.files) v))
        (call faults d.files d.files d)

  abbrev pub answered :
      String × Bool → Result Stop (Unit {0}) × Disk → Result PasswordError (String × Bool) × Disk
  answered given (ok u, d) = (ok given, d)
  answered given (err s, d) = (err (stopped s), d)

  abbrev pub attempted :
      Disk → Result PasswordError (String × Bool) → Result PasswordError (String × Bool) × Disk
  attempted d (err e) = (err e, d)
  attempted d (ok given) = answered given (write_new given.0 d)

  -- `CreatePasswordFile`
  unfoldable pub create_password_file :
      Result String String → String → Disk → Result PasswordError (String × Bool) × Disk
  unfolding accepted_password write_new
  create_password_file random password d = attempted d (accepted_password path password random)
