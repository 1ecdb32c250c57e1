-- ===== src/Database.antt =====
-- internal/database/dump.go: the dump of one database before a backup.
pub mod Secrets
mod Tests
use Prim.Native.Char.{code}
use Prim.Native.String
use sbackup.Base.{
  ℕ, zero, suc, String, Bool, true, false, not, List, [], ◌∷◌, ◌++◌, Option, none, some, Result, ok,
  err, if◌then◌else◌, ◌==◌, string_eq, nat_beq,
}
use sbackup.Base.Int.{ℤ, pos, int_eq, itoa}
use sbackup.Base.Text.{codes, concat, trim_space, split, join, replace_char}
use sbackup.Config.{Config, Database}
use sbackup.Executor.Output.{RunResult}
use sbackup.World.{
  Outside, Command, Exec, Work, give, raise, lift, check, add_file, write_file_at, remove_file,
  execute, ◌>>=◌, ◌>>◌, attempt,
}

-- `pgpassEscape`
unfoldable pub pgpass_escape : String → String
pgpass_escape value = replace_char 13 ("\\" ∷ "r" ∷ []) (
    replace_char 10 ("\\" ∷ "n" ∷ [])
      (replace_char b':' ("\\" ∷ ":" ∷ []) (replace_char b'\\' ("\\" ∷ "\\" ∷ []) value)))

-- `mySQLConfigValue`
unfoldable pub mysql_config_value : String → String
mysql_config_value value =
    replace_char 13 ("\\" ∷ "r" ∷ [])
      (replace_char 10 ("\\" ∷ "n" ∷ []) (replace_char b'\\' ("\\" ∷ "\\" ∷ []) value))

-- `strings.SplitN(line, "=", 2)`, when it gives two parts
unfoldable pub cut : String → Option (String × String)
cut String.[] = none
cut (String.◌∷◌ c s) =
    let rest = cut s in
    if nat_beq (code c) b'='
    then some ("", s)
    else elim rest [ none ↦ none | some kv ↦ some (String.◌∷◌ c (kv.0), kv.1) ]

-- The last assignment to a key stands.
unfoldable pub lines_map : List (String × String) → List String → List (String × String)
unfolding cut
lines_map m [] = m
lines_map m (line ∷ lines) = elim (cut (trim_space line)) [
  | none ↦ lines_map m lines
  | some kv ↦ lines_map (kv ∷ m) lines
]

unfoldable pub password : List (String × String) → String
password [] = ""
password ((k, v) ∷ m) = if k == "password" then v else password m

module _ (o : Outside) where
  -- `credentials`
  unfoldable pub credentials : String → Result String (List (String × String))
  unfolding lines_map
  credentials path = elim (o.read_file path) [
    | err e ↦ err e
    | ok text ↦ elim (o.decode_map text) [ ok m ↦ ok m | err _ ↦ ok (lines_map [] (split 10 text)) ]
  ]

  module _ (c : Config) (d : Database) (dir : String) where
    abbrev pub pgpass_file : String
    pgpass_file = o.join dir (concat ("." ∷ d.id ∷ ".pgpass" ∷ []))

    abbrev pub defaults_file : String
    defaults_file = o.join dir (concat ("." ∷ d.id ∷ ".cnf" ∷ []))

    abbrev port_or : ℤ → ℤ
    port_or default = if d.port == pos 0 then default else d.port

    abbrev pg_host : String
    pg_host = if d.host == "" then "localhost" else d.host

    abbrev pg_command : String → Command
    pg_command out = record {
      phase = "database-dump";
      program = c.tools.pg_dump_path;
      args =
          "-h"
          ∷ pg_host
          ∷ "-p"
          ∷ itoa (port_or (pos 5432))
          ∷ "-U"
          ∷ d.username
          ∷ "-F"
          ∷ "c"
          ∷ "-f"
          ∷ out
          ∷ d.database
          ∷ [];
      env =
          concat ("PGPASSFILE=" ∷ pgpass_file ∷ []) ∷ concat ("PGSSLMODE=" ∷ d.ssl_mode ∷ []) ∷ [];
    }

    -- The line of the password file. Only what `write_file` answers matters to a run.
    unfoldable pub pgpass_line : List (String × String) → String
    unfolding pgpass_escape password
    pgpass_line creds = concat (
        join ":" (
          pgpass_escape pg_host
          ∷ itoa (port_or (pos 5432))
          ∷ pgpass_escape d.database
          ∷ pgpass_escape d.username
          ∷ pgpass_escape (password creds)
          ∷ [])
        ∷ "\n"
        ∷ [])

    abbrev failed : String → Option String → Exec String (Unit {0})
    failed what error = check (λ e. concat (what ∷ e ∷ [])) error

    -- the end of `dumpPostgres`
    abbrev pg_run : String → Exec String String
    pg_run out = do
      (lines, res) ← execute o (pg_command out)
      failed "PostgreSQL 导出失败: " res.error
      give out

    -- `dumpPostgres`; the file of the password is removed when the function returns.
    unfoldable pub dump_postgres : Exec String String
    dump_postgres = do
      creds ← lift (credentials d.credential_file)
      write_file_at o pgpass_file (pgpass_line creds)
      result ← attempt (pg_run (o.join dir (concat (d.id ∷ ".dump" ∷ []))))
      remove_file o pgpass_file
      lift result

    unfoldable pub mysql_content : List (String × String) → String
    unfolding mysql_config_value password
    mysql_content creds = concat (
        "[client]\nhost="
        ∷ mysql_config_value d.host
        ∷ "\nport="
        ∷ itoa (port_or (pos 3306))
        ∷ "\nuser="
        ∷ mysql_config_value d.username
        ∷ "\npassword="
        ∷ mysql_config_value (password creds)
        ∷ "\n"
        ∷ [])

    abbrev mysql_command : Command
    mysql_command = record {
      phase = "database-dump";
      program = c.tools.mysql_dump_path;
      args =
          concat ("--defaults-extra-file=" ∷ defaults_file ∷ [])
          ∷ "--quick"
          ∷ ((if d.single_transaction then "--single-transaction" ∷ [] else []) ++ d.database ∷ []);
      env = [];
    }

    abbrev mysql_failure : RunResult → Option String → Option String
    mysql_failure res closed = elim res.error [
      | some e ↦ some (
          if res.output == ""
          then concat ("MySQL 导出失败: " ∷ e ∷ [])
          else concat ("MySQL 导出失败: " ∷ res.output ∷ ": " ∷ e ∷ []))
      | none ↦ elim closed [ some e ↦ some (concat ("关闭 MySQL 导出文件: " ∷ e ∷ [])) | none ↦ none ]
    ]

    abbrev mysql_finish : String → Option String → Exec String String
    mysql_finish out none = give out
    mysql_finish out (some e) = do remove_file o out; raise e

    -- `dumpMySQL` from the opening of the output on
    abbrev mysql_run : String → Exec String String
    mysql_run out = do
      check (λ e. e) (o.open_file out)
      add_file out
      (lines, res) ← execute o mysql_command
      mysql_finish out (mysql_failure res (o.close_file out))

    -- `dumpMySQL`; the file of the password is removed when the function returns.
    unfoldable pub dump_mysql : Exec String String
    dump_mysql = do
      creds ← lift (credentials d.credential_file)
      write_file_at o defaults_file (mysql_content creds)
      result ← attempt (mysql_run (o.join dir (concat (d.id ∷ ".sql" ∷ []))))
      remove_file o defaults_file
      lift result

    -- `dumpSQLite`
    unfoldable pub dump_sqlite : Exec String String
    dump_sqlite = do
      let out = o.join dir (concat (d.id ∷ ".db" ∷ []))
      (lines, res) ← execute o (record {
        phase = "database-dump";
        program = c.tools.sqlite_path;
        args = d.path ∷ ".timeout 5000" ∷ concat (".backup " ∷ out ∷ []) ∷ [];
        env = [];
      })
      failed "SQLite 在线备份失败: " res.error
      check (λ e. e) (o.chmod out)
      give out

    abbrev by_type : Exec String String
    by_type =
        if d.type == "postgres"
        then dump_postgres
        else if d.type == "mysql"
        then dump_mysql
        else if d.type == "sqlite"
        then dump_sqlite
        else raise (concat ("不支持的数据库类型 " ∷ d.type ∷ []))

    -- `Dump`
    unfoldable pub dump : Exec String String
    unfolding dump_postgres dump_mysql dump_sqlite
    dump = do check (λ e. e) (o.make_dir dir); by_type
