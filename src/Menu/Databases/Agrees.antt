-- ===== src/Menu/Databases/Agrees.antt =====
-- internal/tui/database.go: what the menu of the databases does to the configuration in memory and in the file.
use sbackup.Base.{
  String, List, [], ◌∷◌, ◌++◌, Option, none, some, ◌≡◌, ◌==◌, string_eq, remove_first, ◌||◌,
}
use sbackup.Config.{Config, Database}
use sbackup.Menu.{Machine, ◌>>=◌, pure, read_line, defaulted}
use sbackup.Menu.Runs.{
  Runs, IsOrder, Runs->>=, Runs-pure, Runs-if, Runs-elim, Runs-with_config, read_line-Runs,
  act-Runs, the_config-Runs, menu-Runs,
}
use sbackup.Menu.Agreement.{
  Agreeing, Agreeing-IsOrder, checked_save-IsAttempt, save_config-IsAttempt, saving-Agrees,
}
use sbackup.Menu.Ask.Ends.{ask-Runs, ask_non_negative_int-Runs, select-Runs, read_password-Runs}
use sbackup.Menu.Setup.{read_one}
use sbackup.Menu.Databases.{
  type_name, sqlite_database, of_server, server_database, remove_credentials, append_database,
  describe_database, add_database, drop_database, confirm_drop, chosen_database, delete_database,
  put_databases, database_exists, in_use, database_round, database_menu,
}

databases_put_back :
    (c : Config) (ds : List Database)
    → defaulted c ≡ c
    → put_databases c.databases (defaulted (put_databases ds c)) ≡ c
unfolding defaulted
databases_put_back c ds full = full

module _ (machine : Machine) where
  order : IsOrder (Agreeing machine)
  order = Agreeing-IsOrder machine

  sqlite_database-Agrees : (d : Database) → Runs (Agreeing machine) (sqlite_database machine d)
  unfolding sqlite_database
  sqlite_database-Agrees d = Runs->>= order (ask-Runs order _) (λ path. Runs-pure order _)

  of_server-Agrees : (d : Database) → Runs (Agreeing machine) (of_server machine d)
  unfolding of_server
  of_server-Agrees d =
      Runs-if order (d.type == "postgres")
        (Runs->>= order (ask-Runs order _) (λ mode. Runs-pure order _)) (Runs-pure order _)

  server_database-Agrees : (d : Database) → Runs (Agreeing machine) (server_database machine d)
  unfolding server_database
  server_database-Agrees d = Runs->>= order (ask-Runs order _) λ host.
      Runs->>= order (ask_non_negative_int-Runs order _) λ port.
        Runs->>= order (ask-Runs order _) λ name. Runs->>= order (ask-Runs order _) λ user.
          Runs->>= order (read_password-Runs order machine) λ password.
            Runs-if order (read_one password == "") (Runs-pure order _) (
              Runs->>= order (of_server-Agrees _)
                λ described. Runs->>= order (act-Runs order machine _) λ written. Runs-pure order _)

  remove_credentials-Agrees :
      (d : Database) → Runs (Agreeing machine) (remove_credentials machine d)
  unfolding remove_credentials
  remove_credentials-Agrees d =
      Runs-if order (d.credential_file == "") (Runs-pure order _)
        (Runs->>= order (act-Runs order machine _) (λ removed. Runs-pure order _))

  append_database-Agrees : (d : Database) → Runs (Agreeing machine) (append_database machine d)
  unfolding append_database
  append_database-Agrees d = Runs-with_config order _ λ s.
      let (a, t, e, l, r) =
        saving-Agrees (checked_save-IsAttempt machine)
          (put_databases (s.config.databases ++ d ∷ [])) (put_databases s.config.databases)
          (Runs-pure order tt) (remove_credentials-Agrees d) s in
      (a, t, e, l, (r.0 (databases_put_back s.config (s.config.databases ++ d ∷ [])), r.1))

  drop_database-Agrees : (d : Database) → Runs (Agreeing machine) (drop_database machine d)
  unfolding drop_database
  drop_database-Agrees d = Runs-with_config order _ λ s.
      let left = remove_first (λ (x : Database). x.id == d.id) s.config.databases in
      let (a, t, e, l, r) =
        saving-Agrees (save_config-IsAttempt machine) (put_databases left)
          (put_databases s.config.databases) (remove_credentials-Agrees d) (Runs-pure order tt) s in
      (a, t, e, l, (r.0 (databases_put_back s.config left), r.1))

  describe_database-Agrees :
      (type : String) → Runs (Agreeing machine) (describe_database machine type)
  unfolding describe_database
  describe_database-Agrees type = Runs->>= order (ask-Runs order _) λ id.
      Runs->>= order (ask-Runs order _) λ name. Runs->>= order (the_config-Runs order) λ c.
        Runs-if order (id == "" || database_exists c id) (Runs-pure order _)
          (Runs-if order (type == "sqlite") (sqlite_database-Agrees _) (server_database-Agrees _))

  add_database-Agrees : Runs (Agreeing machine) (add_database machine)
  unfolding add_database
  add_database-Agrees = Runs->>= order (read_line-Runs order) λ choice.
      Runs-if order (type_name choice == "") (Runs-pure order _) (
        Runs->>= order (describe_database-Agrees _)
          λ d. Runs-elim d (Runs-pure order _) append_database-Agrees)

  confirm_drop-Agrees : (d : Database) → Runs (Agreeing machine) (confirm_drop machine d)
  unfolding confirm_drop
  confirm_drop-Agrees d = Runs->>= order (the_config-Runs order) λ c.
      Runs-if order (in_use c d.id) (Runs-pure order _) (
        Runs->>= order (read_line-Runs order)
          λ line. Runs-if order (line == d.id) (drop_database-Agrees d) (Runs-pure order _))

  chosen_database-Agrees : Runs (Agreeing machine) (chosen_database machine)
  unfolding chosen_database
  chosen_database-Agrees =
      Runs->>= order (the_config-Runs order)
        λ c. Runs->>= order (select-Runs order _) λ i. Runs-pure order _

  delete_database-Agrees : Runs (Agreeing machine) (delete_database machine)
  unfolding delete_database
  delete_database-Agrees =
      Runs->>= order chosen_database-Agrees λ d. Runs-elim d (Runs-pure order _) confirm_drop-Agrees

  show_chosen-Agrees :
      (d : Option Database)
      → Runs
          (Agreeing machine)
          (elim d [ none ↦ pure tt | some shown ↦ (do _ ← read_line; pure tt) ])
  show_chosen-Agrees d =
      Runs-elim d (Runs-pure order _)
        (λ shown. Runs->>= order (read_line-Runs order) λ line. Runs-pure order _)

  database_round-Agrees :
      (choice : String) → Runs (Agreeing machine) (database_round machine choice)
  unfolding database_round
  database_round-Agrees choice = Runs-if order (choice == "1") add_database-Agrees (
      Runs-if order (choice == "2") (Runs->>= order chosen_database-Agrees show_chosen-Agrees)
        (Runs-if order (choice == "3") delete_database-Agrees (Runs-pure order _)))

  -- The menu comes to an end, and what is in memory stays what was saved last.
  pub database_menu-Agrees : Runs (Agreeing machine) (database_menu machine)
  unfolding database_menu
  database_menu-Agrees = menu-Runs order database_round-Agrees
