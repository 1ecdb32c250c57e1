-- ===== src/Menu/Restoring/Targets.antt =====
-- internal/tui/menu.go, `restoreWizard`: where the dialogue about a restore restores to.
use sbackup.Base.{
  String, true, not, List, [], ◌∷◌, some, ◌≡◌, ◌==◌, string_eq, length, All, subst, arith,
}
use sbackup.Base.FilePath.{CleanPath}
use sbackup.Backup.Snapshots.{Snapshot}
use sbackup.Menu.{Session, Machine, Action, act, restore}
use sbackup.Menu.Runs.{Any-IsOrder}
use sbackup.Menu.Asks.{
  Asks, Ended, Asks->>=, Asks-pure, Asks-if, Asks-guard, Asks-elim, read_line-Asks, act-Asks,
  the_config-Asks,
}
use sbackup.Menu.Ask.{ask, select}
use sbackup.Menu.Jobs.{at_index, selected_job}
use sbackup.Menu.Restoring.{
  Listing, Before, newest_first, snapshot_number, is_restore_target, listed, ask_scope, ask_target,
  confirm_restore, restore_paths, restore_snapshot, choose_snapshot, restore_from, restore_wizard,
}
use sbackup.Menu.Restoring.Ends.{restore_wizard-Runs}

-- A restore goes to an absolute directory that is not the root. Everything else may be asked.
abbrev pub IsSafe : Action → Type 0
IsSafe (restore job snapshot target includes) = is_restore_target target ≡ true
IsSafe action = Unit {0}

ask-Asks : (fallback : String) → Asks IsSafe (ask fallback)
unfolding ask
ask-Asks fallback = Asks->>= read_line-Asks λ line. Asks-pure _

select-Asks : {A : Type 0} (xs : List A) → Asks IsSafe (select xs)
unfolding select
select-Asks [] = Asks-pure _
select-Asks (x ∷ xs) = Asks->>= read_line-Asks λ line. Asks-pure _

selected_job-Asks : Asks IsSafe selected_job
unfolding selected_job
selected_job-Asks = Asks->>= the_config-Asks λ c. Asks->>= (select-Asks c.jobs) λ i. Asks-pure _

module _ (machine : Machine) (listing : Listing) (before : Before) where
  listed-Asks : (id : String) → Asks IsSafe (listed machine listing before id)
  unfolding listed act
  listed-Asks id = record { asked = λ s all. (tt, all) }

  ask_scope-Asks :
      (id snapshot : String) → Asks IsSafe (ask_scope machine listing before id snapshot)
  unfolding ask_scope
  ask_scope-Asks id snapshot = Asks->>= read_line-Asks λ mode.
      Asks-if (mode == "2")
        (Asks->>= read_line-Asks λ filter.
          Asks->>= (act-Asks machine _ tt)
            λ found. Asks-if found (Asks->>= read_line-Asks λ raw. Asks-pure _) (Asks-pure _))
        (Asks-pure _)

  ask_target-Asks : (id : String) → Asks IsSafe (ask_target machine listing before id)
  unfolding ask_target
  ask_target-Asks id = record { asked = λ s all. (ask-Asks _).asked s all }

  confirm_restore-Asks :
      (id snapshot : String) (includes : List String) (target : CleanPath)
      → Asks IsSafe (confirm_restore machine listing before id snapshot includes target)
  unfolding confirm_restore
  confirm_restore-Asks id snapshot includes target =
      Asks-guard (not (is_restore_target target)) (Asks-pure _) λ e.
        Asks->>= read_line-Asks λ confirm.
          Asks->>= (Asks-if (confirm == "YES") (act-Asks machine _ (ground arith)) (Asks-pure _))
            λ restored. Asks-pure _

  restore_paths-Asks :
      (id snapshot : String) (includes : List String)
      → Asks IsSafe (restore_paths machine listing before id snapshot includes)
  unfolding restore_paths
  restore_paths-Asks id snapshot includes =
      Asks->>= (ask_target-Asks id) λ target. confirm_restore-Asks id snapshot includes _

  restore_snapshot-Asks :
      (id : String) (s : Snapshot) → Asks IsSafe (restore_snapshot machine listing before id s)
  unfolding restore_snapshot
  restore_snapshot-Asks id s =
      Asks->>= (ask_scope-Asks id s.id)
        λ scope. Asks-elim scope (Asks-pure _) (restore_paths-Asks id s.id)

  choose_snapshot-Asks :
      (id : String) (snapshots : List Snapshot)
      → Asks IsSafe (choose_snapshot machine listing before id snapshots)
  unfolding choose_snapshot
  choose_snapshot-Asks id [] = Asks-pure _
  choose_snapshot-Asks id (x ∷ xs) = Asks->>= read_line-Asks λ line.
      Asks-elim (at_index (newest_first before (x ∷ xs)) (snapshot_number (length (x ∷ xs)) line))
        (Asks-pure _) (restore_snapshot-Asks id)

  restore_from-Asks : (id : String) → Asks IsSafe (restore_from machine listing before id)
  unfolding restore_from
  restore_from-Asks id =
      Asks->>= (listed-Asks id) λ found. Asks-elim found (Asks-pure _) (choose_snapshot-Asks id)

  restore_wizard-Asks : Asks IsSafe (restore_wizard machine listing before)
  unfolding restore_wizard
  restore_wizard-Asks =
      Asks->>= selected_job-Asks λ j. Asks-elim j (Asks-pure _) (λ job. restore_from-Asks job.id)

  -- The dialogue about a restore returns on every input, and every restore that it asks for goes to an
  -- absolute directory that is not the root, if that was so of those before.
  pub restore_wizard_lem :
      (s : Session)
      → All IsSafe s.actions
      → (a : Unit {0}) × (t : Session) × (restore_wizard machine listing before s ≡ some (a, t))
        × All IsSafe t.actions
  restore_wizard_lem s safe =
      let (a, t, e, shorter, any) =
        (restore_wizard-Runs Any-IsOrder machine listing before).outcome s in
      (a, t, e, subst (Ended IsSafe) e (restore_wizard-Asks.asked s safe))
