-- ===== src/Repository/Webdav.antt =====
-- internal/repository/webdav.go: `ConfigureWebDAV`, which adds a remote to the configuration of rclone,
-- over the files of `FileStore`.
pub mod Refused
mod Tests
use sbackup.Base.{
  ℕ, String, Bool, true, false, not, ◌&&◌, ◌||◌, List, [], ◌∷◌, ◌++◌, Option, none, some, Result,
  ok, err, any, length, leb, nat_beq, reject_if, ◌>>=◌, ◌>>◌, if◌then◌else◌, ◌==◌, string_eq,
}
use Prim.Native.String
use Prim.Native.Char.{code}
use sbackup.Base.Text.{codes, concat, contains_newline, split, trim_space}
use sbackup.Base.Maps.{lookup, put}
use sbackup.FileStore.{Disk, Faults, Stop, ended, failed, call, go_on, write_file_atomic}
use sbackup.Config.Std.{Std, Url}

-- One call: the remote, the address, the kind of the service and the user.
pub record Remote : Type 0 where
  pub config_path : String
  pub name : String
  pub endpoint : String
  pub vendor : String
  pub username : String

pub data WebdavError : Type 0 where
  bad_name empty_path has_newline bad_url already_there : WebdavError
  not_obscured : String → WebdavError
  stopped : Stop → WebdavError

-- `[A-Za-z0-9_-]`
abbrev name_code : ℕ → Bool
name_code c =
    (leb 65 c && leb c 90)
    || ((leb 97 c && leb c 122) || ((leb 48 c && leb c 57) || (nat_beq c 95 || nat_beq c 45)))

-- `remoteNamePattern.MatchString`
unfoldable pub remote_name : String → Bool
remote_name name =
    leb 1 (length (codes name))
    && (leb (length (codes name)) 64 && not (any (λ c. not (name_code c)) (codes name)))

-- The loop over the lines of the file.
unfoldable pub has_section : String → String → Bool
has_section name existing =
    any (λ line. trim_space line == concat ("[" ∷ name ∷ "]" ∷ [])) (split b'\n' existing)

-- `strings.TrimRight(s, "\n")`
unfoldable pub trim_newlines : String → String
trim_newlines String.[] = ""
trim_newlines (String.◌∷◌ c s) =
    let rest = trim_newlines s in
    if rest == "" && nat_beq (code c) 10 then "" else String.◌∷◌ c rest

-- The new contents of the file.
unfoldable pub with_remote : Remote → String → String → String
unfolding trim_newlines
with_remote r existing obscured =
    let head = trim_newlines existing in
    concat (
      (if head == "" then head else concat (head ∷ "\n\n" ∷ []))
      ∷ "["
      ∷ r.name
      ∷ "]\ntype = webdav\nurl = "
      ∷ r.endpoint
      ∷ "\nvendor = "
      ∷ r.vendor
      ∷ "\nuser = "
      ∷ r.username
      ∷ "\npass = "
      ∷ trim_space obscured
      ∷ "\n"
      ∷ [])

module _ (std : Std) where
  abbrev https : Option Url → Result WebdavError (Unit {0})
  https none = err bad_url
  https (some u) = reject_if (not (std.to_lower u.scheme == "https") || u.host == "") bad_url

  -- The checks before a file is touched.
  unfoldable pub check_remote : Remote → Result WebdavError (Unit {0})
  unfolding remote_name
  check_remote r = do
    reject_if (not (remote_name r.name)) bad_name
    reject_if (r.config_path == "") empty_path
    reject_if
        (contains_newline r.endpoint || (contains_newline r.vendor || contains_newline r.username))
        has_newline
    https (std.parse_request_uri r.endpoint)

  module _ (faults : Faults) (obscure : Result String String) where
    -- `fmt.Errorf("…: %w", err)`
    abbrev pub named : String → Result Stop (Unit {0}) × Disk → Result WebdavError (Unit {0}) × Disk
    named what (ok u, d) = (ok u, d)
    named what (err ended, d) = (err (stopped ended), d)
    named what (err (failed e), d) = (err (stopped (failed (concat (what ∷ e ∷ [])))), d)

    abbrev pub continue :
        (Disk → Result WebdavError (Unit {0}) × Disk)
        → Result WebdavError (Unit {0}) × Disk
        → Result WebdavError (Unit {0}) × Disk
    continue rest (ok u, d) = rest d
    continue rest (err e, d) = (err e, d)

    -- The old contents are kept when there are any, then the new ones are written.
    unfoldable pub store_remote :
        Remote → String → String → Disk → Result WebdavError (Unit {0}) × Disk
    unfolding write_file_atomic
    store_remote r existing content d =
        let write =
          λ (v : Disk). named "保存 rclone 配置: " (write_file_atomic faults r.config_path content v) in
        if existing == ""
        then write d
        else continue write (
            named "备份 rclone 配置: "
              (write_file_atomic faults (concat (r.config_path ∷ ".bak" ∷ [])) existing d))

    abbrev pub vendored : Remote → Remote
    vendored r = record r { vendor = if r.vendor == "" then "other" else r.vendor }

    abbrev pub obscured :
        Remote → String → Disk → Result String String → Result WebdavError (Unit {0}) × Disk
    obscured r existing d (err e) = (err (not_obscured e), d)
    obscured r existing d (ok secret) =
        store_remote r existing (with_remote (vendored r) existing secret) d

    abbrev pub text_of : Option String → String
    text_of none = ""
    text_of (some text) = text

    -- Behind the lock: the file is read, and a remote that is there is refused.
    unfoldable pub add_remote : Remote → Option String → Disk → Result WebdavError (Unit {0}) × Disk
    unfolding has_section with_remote store_remote
    add_remote r file d =
        let added = obscured r (text_of file) d obscure in
        if has_section r.name (text_of file) then (err already_there, d) else added

    abbrev pub opened : Remote → Option String → Disk → List (String × String)
    opened r none d = put (concat (r.config_path ∷ ".lock" ∷ [])) "" d.files
    opened r (some text) d = d.files

    -- A call whose error is returned with a text of its own, or as it is.
    abbrev pub called :
        String → List (String × String) → Disk → Result WebdavError (Unit {0}) × Disk
    called what good d = named what (call faults good d.files d)

    unfoldable pub locked_add : Remote → Disk → Result WebdavError (Unit {0}) × Disk
    unfolding add_remote
    locked_add r d =
        continue
          (λ d1.
            continue
              (λ d2.
                continue
                  (λ d3.
                    continue (add_remote r (lookup r.config_path d3.files)) (called "" d3.files d3))
                  (called "锁定 rclone 配置: " d2.files d2))
              (called "打开 rclone 配置锁: "
                (opened r (lookup (concat (r.config_path ∷ ".lock" ∷ [])) d1.files) d1) d1))
          (called "" d.files d)

    abbrev pub checked :
        Remote → Disk → Result WebdavError (Unit {0}) → Result WebdavError (Unit {0}) × Disk
    checked r d (err e) = (err e, d)
    checked r d (ok u) = locked_add r d

    -- `ConfigureWebDAV`, with the answer of `rclone obscure`
    unfoldable pub configure_webdav : Remote → Disk → Result WebdavError (Unit {0}) × Disk
    unfolding check_remote locked_add
    configure_webdav r d = checked r d (check_remote r)
