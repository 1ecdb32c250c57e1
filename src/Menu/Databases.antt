-- ===== src/Menu/Databases.antt =====
-- internal/tui/database.go: the menu of the database sources.
pub mod Agrees
use sbackup.Base.{
  ℕ, String, Bool, true, false, not, ◌&&◌, ◌||◌, List, [], ◌∷◌, ◌++◌, Option, none, some, length,
  get_elem?, if◌then◌else◌, ◌==◌, string_eq, any, remove_first, Result,
}
use sbackup.Base.Int.{ℤ, pos}
use sbackup.Base.Text.{concat}
use sbackup.Base.FilePath.{is_abs}
use sbackup.Config.{Config, Job, Storage, Database, Notification, storage, job}
use sbackup.Menu.{
  Machine, M, ◌>>=◌, ◌>>◌, pure, read_line, the_config, act, checked_save, save_config, saving,
  menu, remove_file, write_json_secret,
}
use sbackup.Menu.Ask.{ask, ask_non_negative_int, select, read_password}
use sbackup.Menu.Setup.{is_some, read_one}

-- `databaseExists`: an id of any kind
unfoldable pub database_exists : Config → String → Bool
database_exists c id =
    is_some (storage c id)
    || (is_some (job c id)
        || (any (λ (n : Notification). n.id == id) c.notifications
            || any (λ (d : Database). d.id == id) c.databases))

-- The kinds of database by the number of their entry.
unfoldable pub type_name : String → String
type_name choice =
    if choice == "1"
    then "postgres"
    else if choice == "2"
    then "mysql"
    else if choice == "3"
    then "sqlite"
    else ""

abbrev blank_database : String → String → String → Database
blank_database id name type = record {
  id = id;
  name = name;
  type = type;
  host = "";
  port = pos 0;
  database = "";
  username = "";
  credential_file = "";
  path = "";
  format = "";
  connect_timeout = "15s";
  ssl_mode = "";
  single_transaction = false;
}

-- Whether a job backs up the database.
unfoldable pub in_use : Config → String → Bool
in_use c id = any (λ (j : Job). any (λ d. d == id) j.sources.databases) c.jobs

abbrev pub put_databases : List Database → Config → Config
put_databases ds c = record c { databases = ds }

module _ (machine : Machine) where
  unfoldable pub credential_path : String → String
  credential_path id =
      machine.join (machine.directory machine.config_path)
        (machine.join "secrets" (machine.join "databases" (concat (id ∷ ".json" ∷ []))))

  unfoldable pub sqlite_database : Database → M (Option Database)
  sqlite_database d = do
    path ← ask "/srv/app/data/app.db"
    pure (if is_abs path then some (record d { path = path }) else none)

  -- the questions that only one of the two servers has
  unfoldable pub of_server : Database → M Database
  of_server d =
      if d.type == "postgres"
      then (do mode ← ask "prefer"; pure (record d { format = "custom"; ssl_mode = mode }))
      else pure (record d { single_transaction = true })

  unfoldable pub server_database : Database → M (Option Database)
  server_database d = do
    host ← ask "127.0.0.1"
    port ← ask_non_negative_int (if d.type == "mysql" then pos 3306 else pos 5432)
    name ← ask "app"
    user ← ask "backup"
    password ← read_password machine
    if read_one password == "" then pure none else (do
      described ← of_server (record d {
        host = host;
        port = port;
        database = name;
        username = user;
        credential_file = credential_path d.id;
      })
      written ← act machine (write_json_secret (credential_path d.id) (read_one password))
      pure (if written then some described else none))

  -- The file with the password of a database, if it has one.
  unfoldable pub remove_credentials : Database → M (Unit {0})
  remove_credentials d =
      if d.credential_file == ""
      then pure tt
      else (do _ ← act machine (remove_file d.credential_file); pure tt)

  -- The check and the save of a new database; without them it is taken back, with its file.
  unfoldable pub append_database : Database → M (Unit {0})
  append_database d = do
    c ← the_config
    saving (checked_save machine) (put_databases (c.databases ++ d ∷ []))
        (put_databases c.databases) (pure tt) (remove_credentials d)

  unfoldable pub describe_database : String → M (Option Database)
  describe_database type = do
    id ← ask type
    name ← ask (concat (machine.to_upper type ∷ " 备份" ∷ []))
    c ← the_config
    if id == "" || database_exists c id
        then pure none
        else if type == "sqlite"
        then sqlite_database (blank_database id name type)
        else server_database (blank_database id name type)

  -- `addDatabase`
  unfoldable pub add_database : M (Unit {0})
  add_database = do
    choice ← read_line
    if type_name choice == "" then pure tt else (do
      d ← describe_database (type_name choice)
      elim d [ none ↦ pure tt | some described ↦ append_database described ])

  -- Behind the confirmation.
  unfoldable pub drop_database : Database → M (Unit {0})
  drop_database d = do
    c ← the_config
    saving (save_config machine)
        (put_databases (remove_first (λ (x : Database). x.id == d.id) c.databases))
        (put_databases c.databases) (remove_credentials d) (pure tt)

  unfoldable pub confirm_drop : Database → M (Unit {0})
  confirm_drop d = do
    c ← the_config
    if in_use c d.id
        then pure tt
        else (do line ← read_line; if line == d.id then drop_database d else pure tt)

  unfoldable pub chosen_database : M (Option Database)
  chosen_database = do
    c ← the_config
    i ← select c.databases
    pure (elim i [ none ↦ none | some n ↦ get_elem? c.databases n ])

  -- `deleteDatabase`
  unfoldable pub delete_database : M (Unit {0})
  delete_database = do
    d ← chosen_database
    elim d [ none ↦ pure tt | some chosen ↦ confirm_drop chosen ]

  unfoldable pub database_round : String → M (Unit {0})
  database_round choice =
      if choice == "1"
      then add_database
      else if choice == "2"
      then (do
        d ← chosen_database
        -- `showDatabase` ends with a `pause`
        elim d [ none ↦ pure tt | some shown ↦ (do _ ← read_line; pure tt) ])
      else if choice == "3"
      then delete_database
      else pure tt

  -- `databaseMenu`
  unfoldable pub database_menu : M (Unit {0})
  database_menu = menu database_round
