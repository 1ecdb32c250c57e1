-- ===== src/Menu/History/Ends.antt =====
-- internal/tui/history.go: lemmas on the menu as a program.
use sbackup.Base.{ℕ, String, Bool, true, false, List, [], ◌∷◌, ◌==◌, string_eq, refl, arith}
use sbackup.Store.{Run}
use sbackup.Menu.{Session, Machine, act}
use sbackup.Menu.Runs.{
  Runs, IsOrder, Runs->>=, Runs-pure, Runs-if, Runs-elim, read_line-Runs, act-Runs, the_config-Runs,
  menu-Runs,
}
use sbackup.Menu.Ask.Ends.{select-Runs}
use sbackup.Menu.Jobs.{at_index}
use sbackup.Menu.Jobs.Agrees.{selected_job-Runs}
use sbackup.Menu.History.{
  browsed, read_table, show_run_log, show_run_detail, choose_run, browse_runs, history_round,
  history_menu,
}

module _ {R : Session → Session → Type 0} (order : IsOrder R) (machine : Machine)
    (rows : ℕ → List Run) where
  read_table-Runs : (path : String) → Runs R (read_table machine rows path)
  unfolding read_table act
  read_table-Runs path = record {
    outcome = λ s. (_, _, refl, omega arith, order.quiet s _ refl refl);
  }

  show_run_log-Runs : (r : Run) → Runs R (show_run_log machine rows r)
  unfolding show_run_log
  show_run_log-Runs r =
      Runs->>= order
        (Runs-if order (r.log_path == "") (Runs-pure order _) (act-Runs order machine _))
        λ read. Runs->>= order (read_line-Runs order) λ line. Runs-pure order _

  show_run_detail-Runs : (r : Run) → Runs R (show_run_detail machine rows r)
  unfolding show_run_detail
  show_run_detail-Runs r =
      Runs->>= order (read_line-Runs order)
        λ choice. Runs-if order (choice == "1") (show_run_log-Runs r) (Runs-pure order _)

  choose_run-Runs : (runs : List Run) → Runs R (choose_run machine rows runs)
  unfolding choose_run
  choose_run-Runs [] = Runs->>= order (read_line-Runs order) λ line. Runs-pure order _
  choose_run-Runs (r ∷ rs) =
      Runs->>= order (select-Runs order (r ∷ rs))
        λ i. Runs-elim (at_index (r ∷ rs) i) (Runs-pure order _) show_run_detail-Runs

  browse_runs-Runs : (id : String) (problems : Bool) → Runs R (browse_runs machine rows id problems)
  unfolding browse_runs
  browse_runs-Runs id problems = Runs->>= order (the_config-Runs order) λ c.
      Runs->>= order (read_table-Runs _) λ table.
        Runs-elim table (Runs-pure order _) (λ found. choose_run-Runs (browsed id problems found))

  history_round-Runs : (choice : String) → Runs R (history_round machine rows choice)
  unfolding history_round
  history_round-Runs choice = Runs-if order (choice == "1") (browse_runs-Runs "" false) (
      Runs-if order (choice == "2")
        (Runs->>= order (selected_job-Runs order machine)
          λ j. Runs-elim j (Runs-pure order _) (λ chosen. browse_runs-Runs chosen.id false))
        (Runs-if order (choice == "3") (browse_runs-Runs "" true) (Runs-pure order _)))

  pub history_menu-Runs : Runs R (history_menu machine rows)
  unfolding history_menu
  history_menu-Runs = menu-Runs order history_round-Runs
