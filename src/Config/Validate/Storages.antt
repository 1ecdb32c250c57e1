-- ===== src/Config/Validate/Storages.antt =====
-- The loops of `Validate` over storages, databases and notifications.
use sbackup.Base.{
  String, Bool, true, false, not, ◌&&◌, ◌||◌, List, [], ◌∷◌, Option, none, some, if◌then◌else◌,
  ◌==◌, string_eq, Result, ok, err, reject_if, ◌>>=◌, ◌>>◌,
}
use sbackup.Base.Text.{has_prefix}
use sbackup.Base.FilePath.{is_abs}
use sbackup.Config.{WebdavStorage, SftpStorage, S3Storage, Storage, Database, Notification}
use sbackup.Config.Std.{Std}
use sbackup.Config.Validate.Fields.{
  Kind, ConfigError, no_password_file, incomplete_storage, plain_http, bad_url, bad_storage_type,
  bad_database_type, relative_sqlite_path, no_credential_file, Seen, validate_id,
}

abbrev is_none {ℓ} : {A : Type ℓ} → Option A → Bool
is_none none = true
is_none (some a) = false

module _ (std : Std) where
  check_webdav : String → Option WebdavStorage → Result ConfigError (Unit {0})
  check_webdav id none = err (incomplete_storage id)
  check_webdav id (some w) = do
    reject_if (w.remote_name == "" || w.url == "") (incomplete_storage id)
    reject_if (has_prefix (std.to_lower w.url) "http://" && not w.allow_http) (plain_http id)
    reject_if (is_none (std.parse_request_uri w.url)) (bad_url id)

  check_sftp : String → Option SftpStorage → Result ConfigError (Unit {0})
  check_sftp id none = err (incomplete_storage id)
  check_sftp id (some t) =
      reject_if (t.host == "" || t.username == "" || t.path == "" || t.key_file == "")
        (incomplete_storage id)

  check_s3 : String → Option S3Storage → Result ConfigError (Unit {0})
  check_s3 id none = err (incomplete_storage id)
  check_s3 id (some t) = reject_if (t.endpoint == "" || t.bucket == "") (incomplete_storage id)

  -- the `switch` on the type
  check_type : Storage → Result ConfigError (Unit {0})
  unfolding check_webdav check_sftp check_s3
  check_type s =
      if s.type == "local"
      then reject_if (s.repository_path == "") (incomplete_storage s.id)
      else if s.type == "webdav"
      then check_webdav s.id s.webdav
      else if s.type == "sftp"
      then check_sftp s.id s.sftp
      else if s.type == "s3"
      then check_s3 s.id s.s3
      else err (bad_storage_type s.id)

  -- the body of the loop over `c.Storages`, behind `validateID`
  unfoldable pub check_storage : Storage → Result ConfigError (Unit {0})
  unfolding check_type
  check_storage s = do reject_if (s.password_file == "") (no_password_file s.id); check_type s

  unfoldable pub check_storages : List Storage → Seen → Result ConfigError Seen
  check_storages [] seen = ok seen
  check_storages (s ∷ rest) seen = do
    seen' ← validate_id Kind.storage s.id seen
    check_storage s
    check_storages rest seen'

-- the body of the loop over `c.Databases`, behind `validateID`
unfoldable pub check_database : Database → Result ConfigError (Unit {0})
check_database d = do
  reject_if (not (d.type == "postgres") && (not (d.type == "mysql") && not (d.type == "sqlite")))
      (bad_database_type d.id)
  reject_if (d.type == "sqlite" && (d.path == "" || not (is_abs d.path)))
      (relative_sqlite_path d.id)
  reject_if (not (d.type == "sqlite") && d.credential_file == "") (no_credential_file d.id)

unfoldable pub check_databases : List Database → Seen → Result ConfigError Seen
check_databases [] seen = ok seen
check_databases (d ∷ rest) seen = do
  seen' ← validate_id Kind.database d.id seen
  check_database d
  check_databases rest seen'

unfoldable pub check_notifications : List Notification → Seen → Result ConfigError Seen
check_notifications [] seen = ok seen
check_notifications (n ∷ rest) seen = do
  seen' ← validate_id Kind.notification n.id seen
  check_notifications rest seen'
