-- ===== src/Repository.antt =====
-- internal/repository/repository.go: how a storage becomes a Restic repository and its environment.
pub mod Quoting
pub mod Password
pub mod Connection
pub mod Webdav
mod Tests
use sbackup.Base.{
  ℕ, String, Bool, true, false, not, ◌&&◌, List, [], ◌∷◌, ◌++◌, Option, none, some, if◌then◌else◌,
  ◌==◌, string_eq, Result, ok, err, ◌>>=◌, find,
}
use sbackup.Base.Int.{ℤ, pos, ltb_ℤ, itoa, int_eq}
use sbackup.Base.Text.{concat, trim_suffix, trim_char, replace_char}
use sbackup.Config.{WebdavStorage, SftpStorage, S3Storage, Storage}
use Prim.Native.Char.{Char}

pub record Runtime : Type 0 where
  pub repository : String
  pub password_file : String
  pub env : List String

pub data BuildError : Type 0 where
  no_webdav no_sftp no_key_file no_s3 : BuildError
  bad_credentials : String → BuildError
  bad_storage_type : String → BuildError

-- `shellQuote`
unfoldable pub shell_quote : String → String
shell_quote s = concat ("'" ∷ replace_char b'\'' ("'" ∷ "\\" ∷ "'" ∷ "'" ∷ []) s ∷ "'" ∷ [])

-- `if value > 0 { append(env, name=value) }`
abbrev env_int : String → ℤ → List String
env_int name value = if ltb_ℤ (pos 0) value then concat (name ∷ itoa value ∷ []) ∷ [] else []

abbrev env_text : String → String → List String
env_text name value = if not (value == "") then concat (name ∷ value ∷ []) ∷ [] else []

webdav_repository : WebdavStorage → String → String
webdav_repository w path =
    let root = trim_suffix w.remote_root "/" in
    let repo = trim_char b'/' path in
    if not (repo == "")
    then concat ("rclone:" ∷ w.remote_name ∷ ":" ∷ root ∷ "/" ∷ repo ∷ [])
    else concat ("rclone:" ∷ w.remote_name ∷ ":" ∷ root ∷ [])

webdav_env : WebdavStorage → List String
webdav_env w =
    concat (
      "RCLONE_CONFIG="
      ∷ (if w.rclone_config == "" then "/etc/sbackup/rclone.conf" else w.rclone_config)
      ∷ [])
    ∷ (env_int "RCLONE_TRANSFERS=" w.transfers
        ++ (env_int "RCLONE_CHECKERS=" w.checkers
            ++ (env_text "RCLONE_TIMEOUT=" w.timeout
                ++ (env_int "RCLONE_LOW_LEVEL_RETRIES=" w.retries
                    ++ env_text "RCLONE_RETRIES_SLEEP=" w.retries_sleep))))

abbrev sftp_port : SftpStorage → ℤ
sftp_port t = if t.port == pos 0 then pos 22 else t.port

-- A missing key of a Go map is the empty text.
abbrev value_of : String → List (String × String) → String
value_of key [] = ""
value_of key ((k, v) ∷ rest) = if k == key then v else value_of key rest

-- `os.ReadFile` with `json.Unmarshal` into a map, of a credential file
module _ (read_credentials : String → Result String (List (String × String))) where
  build_webdav : Storage → Option WebdavStorage → Result BuildError Runtime
  unfolding webdav_repository webdav_env
  build_webdav s none = err no_webdav
  build_webdav s (some w) = ok (record {
    repository = webdav_repository w s.repository_path;
    password_file = s.password_file;
    env = webdav_env w;
  })

  build_sftp : Storage → Option SftpStorage → Result BuildError Runtime
  unfolding shell_quote
  build_sftp s none = err no_sftp
  build_sftp s (some t) =
      if t.key_file == ""
      then err no_key_file
      else ok (record {
        repository = concat ("sftp:" ∷ t.username ∷ "@" ∷ t.host ∷ ":" ∷ t.path ∷ []);
        password_file = s.password_file;
        env =
            concat (
              "RESTIC_SFTP_COMMAND=ssh -p "
              ∷ itoa (sftp_port t)
              ∷ " -i "
              ∷ shell_quote t.key_file
              ∷ [])
            ∷ [];
      })

  s3_env : S3Storage → Result BuildError (List String)
  s3_env t = if t.credential_file == "" then ok [] else elim (read_credentials t.credential_file) [
    | err e ↦ err (bad_credentials e)
    | ok creds ↦ ok (
        concat ("AWS_ACCESS_KEY_ID=" ∷ value_of "access_key_id" creds ∷ [])
        ∷ concat ("AWS_SECRET_ACCESS_KEY=" ∷ value_of "secret_access_key" creds ∷ [])
        ∷ [])
  ]

  build_s3 : Storage → Option S3Storage → Result BuildError Runtime
  unfolding s3_env
  build_s3 s none = err no_s3
  build_s3 s (some t) = do
    keys ← s3_env t
    ok (record {
      repository = concat (
          "s3:" ∷ trim_suffix t.endpoint "/" ∷ "/" ∷ t.bucket ∷ "/" ∷ trim_char b'/' t.prefix ∷ []);
      password_file = s.password_file;
      env = keys ++ env_text "AWS_DEFAULT_REGION=" t.region;
    })

  -- `Build`
  unfoldable pub build : Storage → Result BuildError Runtime
  unfolding build_webdav build_sftp build_s3
  build s =
      if s.type == "local"
      then ok (record { repository = s.repository_path; password_file = s.password_file; env = [] })
      else if s.type == "webdav"
      then build_webdav s s.webdav
      else if s.type == "sftp"
      then build_sftp s s.sftp
      else if s.type == "s3"
      then build_s3 s s.s3
      else err (bad_storage_type s.type)

-- `ResticBase`
unfoldable pub restic_base : Runtime → List String
restic_base rt = "-r" ∷ rt.repository ∷ "--password-file" ∷ rt.password_file ∷ []
