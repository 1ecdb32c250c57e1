-- ===== src/Menu/Restoring/Ends.antt =====
-- internal/tui/menu.go: lemmas on `restoreWizard` and `storageMenu` as programs.
use sbackup.Base.{ℕ, String, Bool, not, List, [], ◌∷◌, ◌==◌, string_eq, length, refl, arith}
use sbackup.Base.FilePath.{CleanPath}
use sbackup.Config.{Storage}
use sbackup.Backup.Snapshots.{Snapshot}
use sbackup.Menu.{Session, Machine, act}
use sbackup.Menu.Runs.{
  Runs, IsOrder, Runs->>=, Runs-pure, Runs-if, Runs-elim, read_line-Runs, act-Runs, the_config-Runs,
  menu-Runs,
}
use sbackup.Menu.Ask.Ends.{ask-Runs, select-Runs}
use sbackup.Menu.Setup.Ends.{create_repository_password-Runs}
use sbackup.Menu.Jobs.{at_index}
use sbackup.Menu.Jobs.Agrees.{selected_job-Runs}
use sbackup.Menu.Restoring.{
  Listing, Before, newest_first, snapshot_number, is_restore_target, listed, ask_scope, ask_target,
  confirm_restore, restore_paths, restore_snapshot, choose_snapshot, restore_from, restore_wizard,
  password_exists, init_storage, selected_storage, initialize_repository, tested, storage_round,
  storage_menu,
}

module _ {R : Session → Session → Type 0} (order : IsOrder R) (machine : Machine)
    (listing : Listing) (before : Before) where
  listed-Runs : (id : String) → Runs R (listed machine listing before id)
  unfolding listed act
  listed-Runs id = record { outcome = λ s. (_, _, refl, omega arith, order.quiet s _ refl refl) }

  ask_scope-Runs : (id snapshot : String) → Runs R (ask_scope machine listing before id snapshot)
  unfolding ask_scope
  ask_scope-Runs id snapshot = Runs->>= order (read_line-Runs order) λ mode.
      Runs-if order (mode == "2")
        (Runs->>= order (read_line-Runs order) λ filter.
          Runs->>= order (act-Runs order machine _) λ found.
            Runs-if order found (Runs->>= order (read_line-Runs order) λ raw. Runs-pure order _)
              (Runs-pure order _))
        (Runs-pure order _)

  ask_target-Runs : (id : String) → Runs R (ask_target machine listing before id)
  unfolding ask_target
  ask_target-Runs id = record { outcome = λ s. (ask-Runs order _).outcome s }

  confirm_restore-Runs :
      (id snapshot : String) (includes : List String) (target : CleanPath)
      → Runs R (confirm_restore machine listing before id snapshot includes target)
  unfolding confirm_restore
  confirm_restore-Runs id snapshot includes target =
      Runs-if order (not (is_restore_target target)) (Runs-pure order _) (
        Runs->>= order (read_line-Runs order) λ confirm.
          Runs->>= order
            (Runs-if order (confirm == "YES") (act-Runs order machine _) (Runs-pure order _))
            λ restored. Runs-pure order _)

  restore_paths-Runs :
      (id snapshot : String) (includes : List String)
      → Runs R (restore_paths machine listing before id snapshot includes)
  unfolding restore_paths
  restore_paths-Runs id snapshot includes =
      Runs->>= order (ask_target-Runs id) λ target. confirm_restore-Runs id snapshot includes _

  restore_snapshot-Runs :
      (id : String) (s : Snapshot) → Runs R (restore_snapshot machine listing before id s)
  unfolding restore_snapshot
  restore_snapshot-Runs id s =
      Runs->>= order (ask_scope-Runs id s.id)
        λ scope. Runs-elim scope (Runs-pure order _) (restore_paths-Runs id s.id)

  choose_snapshot-Runs :
      (id : String) (snapshots : List Snapshot)
      → Runs R (choose_snapshot machine listing before id snapshots)
  unfolding choose_snapshot
  choose_snapshot-Runs id [] = Runs-pure order _
  choose_snapshot-Runs id (x ∷ xs) = Runs->>= order (read_line-Runs order) λ line.
      Runs-elim (at_index (newest_first before (x ∷ xs)) (snapshot_number (length (x ∷ xs)) line))
        (Runs-pure order _) (restore_snapshot-Runs id)

  restore_from-Runs : (id : String) → Runs R (restore_from machine listing before id)
  unfolding restore_from
  restore_from-Runs id =
      Runs->>= order (listed-Runs id)
        λ found. Runs-elim found (Runs-pure order _) (choose_snapshot-Runs id)

  pub restore_wizard-Runs : Runs R (restore_wizard machine listing before)
  unfolding restore_wizard
  restore_wizard-Runs =
      Runs->>= order (selected_job-Runs order machine)
        λ j. Runs-elim j (Runs-pure order _) (λ job. restore_from-Runs job.id)

module _ {R : Session → Session → Type 0} (order : IsOrder R) (machine : Machine)
    (has_password : ℕ → Bool) where
  password_exists-Runs : Runs R (password_exists machine has_password)
  unfolding password_exists
  password_exists-Runs = record {
    outcome = λ s. (_, _, refl, omega arith, order.quiet s s refl refl);
  }

  init_storage-Runs : (s : Storage) → Runs R (init_storage machine has_password s)
  unfolding init_storage
  init_storage-Runs s = Runs->>= order password_exists-Runs λ there.
      Runs->>= order
        (Runs-if order there (Runs-pure order _) (create_repository_password-Runs order machine s))
        λ ready.
          Runs-if order ready
            (Runs->>= order (read_line-Runs order) λ confirm.
              Runs->>= order
                (Runs-if order (confirm == "INIT") (act-Runs order machine _) (Runs-pure order _))
                λ done. Runs-pure order _)
            (Runs-pure order _)

  selected_storage-Runs : Runs R (selected_storage machine has_password)
  unfolding selected_storage
  selected_storage-Runs =
      Runs->>= order (the_config-Runs order)
        λ c. Runs->>= order (select-Runs order c.storages) λ i. Runs-pure order _

  tested-Runs : (s : Storage) → Runs R (tested machine has_password s)
  unfolding tested
  tested-Runs s = Runs->>= order (act-Runs order machine _) λ done. Runs-pure order _

  initialize_repository-Runs : Runs R (initialize_repository machine has_password)
  unfolding initialize_repository
  initialize_repository-Runs =
      Runs->>= order selected_storage-Runs λ s. Runs-elim s (Runs-pure order _) init_storage-Runs

  storage_round-Runs : (choice : String) → Runs R (storage_round machine has_password choice)
  unfolding storage_round
  storage_round-Runs choice =
      Runs-if order (choice == "1")
        (Runs->>= order selected_storage-Runs λ s. Runs-elim s (Runs-pure order _) tested-Runs)
        (Runs-if order (choice == "2") initialize_repository-Runs (Runs-pure order _))

  pub storage_menu-Runs : Runs R (storage_menu machine has_password)
  unfolding storage_menu
  storage_menu-Runs = menu-Runs order storage_round-Runs
