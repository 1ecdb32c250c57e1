-- ===== src/Menu/Watch/Ends.antt =====
-- internal/tui/menu.go: the dialogue about the monitor as a program that does not save.
use sbackup.Base.{String, ◌==◌, string_eq, refl, arith, ltb}
use sbackup.Base.Text.{byte_length, codes}
use sbackup.Config.{Monitoring}
use sbackup.Menu.{Machine, act}
use sbackup.Menu.Runs.{
  Runs, IsOrder, Runs->>=, Runs->>, Runs-pure, Runs-if, read_line-Runs, act-Runs, the_config-Runs,
}
use sbackup.Menu.Agreement.{Filed, Filed-IsOrder, change_config-Filed, validate_config-Filed}
use sbackup.Menu.Ask.Ends.{ask-Runs, read_password-Runs}
use sbackup.Menu.Setup.{read_one}
use sbackup.Menu.Watch.{
  Kept, contents, missing, unreadable, read_old_secret, put_back, test_connection, try_monitor,
  store_monitor, configure_monitor, connected_menu, monitor,
}

module _ (machine : Machine) where
  order : IsOrder (Filed machine)
  order = Filed-IsOrder machine

  read_old_secret-Filed : Runs (Filed machine) (read_old_secret machine)
  unfolding read_old_secret act
  read_old_secret-Filed = record { outcome = λ s. (_, _, refl, omega arith, λ h. h) }

  put_back-Filed : (kept : Kept) → Runs (Filed machine) (put_back machine kept)
  unfolding put_back
  put_back-Filed contents = Runs->>= order (act-Runs order machine _) λ done. Runs-pure order _
  put_back-Filed missing = Runs->>= order (act-Runs order machine _) λ done. Runs-pure order _
  put_back-Filed unreadable = Runs-pure order _

  test_connection-Filed : Runs (Filed machine) (test_connection machine)
  unfolding test_connection
  test_connection-Filed = Runs->>= order (the_config-Runs order) λ c.
      Runs->>= order (act-Runs order machine _)
        λ opened. Runs-if order opened (act-Runs order machine _) (Runs-pure order _)

  try_monitor-Filed :
      (m : Monitoring) (kept : Kept) → Runs (Filed machine) (try_monitor machine m kept)
  unfolding try_monitor
  try_monitor-Filed m kept = Runs->>= order (the_config-Runs order) λ c.
      Runs->> order (change_config-Filed machine _) (
        Runs->>= order (validate_config-Filed machine) λ valid.
          Runs->>= order (Runs-if order valid test_connection-Filed (Runs-pure order _)) λ connects.
            Runs-if order connects (Runs-pure order _) (
              Runs->> order (change_config-Filed machine _)
                (Runs->> order (put_back-Filed kept) (Runs-pure order _))))

  store_monitor-Filed :
      (endpoint node secret : String)
      → Runs (Filed machine) (store_monitor machine endpoint node secret)
  unfolding store_monitor
  store_monitor-Filed endpoint node secret = Runs->>= order read_old_secret-Filed λ kept.
      Runs->>= order (act-Runs order machine _)
        λ written. Runs-if order written (try_monitor-Filed _ kept) (Runs-pure order _)

  configure_monitor-Filed : Runs (Filed machine) (configure_monitor machine)
  unfolding configure_monitor
  configure_monitor-Filed = Runs->>= order (the_config-Runs order) λ c.
      Runs->>= order (ask-Runs order _) λ endpoint. Runs->>= order (ask-Runs order _) λ node.
        Runs->>= order (read_password-Runs order machine) λ secret.
          Runs-if order (ltb (byte_length (codes (read_one secret))) 32) (Runs-pure order _)
            (store_monitor-Filed _ node _)

  connected_menu-Filed : Runs (Filed machine) (connected_menu machine)
  unfolding connected_menu
  connected_menu-Filed = Runs->>= order (read_line-Runs order) λ choice.
      Runs->>= order (the_config-Runs order) λ c.
        Runs-if order (choice == "1")
          (Runs->>= order test_connection-Filed λ connects. Runs-pure order _)
          (Runs-if order (choice == "2") configure_monitor-Filed (
            Runs-if order (choice == "3")
              (Runs->> order (change_config-Filed machine _) (Runs-pure order _))
              (Runs-pure order _)))

  pub monitor-Filed : Runs (Filed machine) (monitor machine)
  unfolding monitor
  monitor-Filed =
      Runs->>= order (the_config-Runs order)
        λ c. Runs-if order c.monitoring.enabled connected_menu-Filed configure_monitor-Filed
