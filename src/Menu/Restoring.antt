-- ===== src/Menu/Restoring.antt =====
-- internal/tui/menu.go: `restoreWizard`, `storageMenu` and `initializeRepository`.
pub mod Ends
pub mod Targets
use sbackup.Base.{
  ℕ, String, Bool, true, false, not, ◌&&◌, ◌||◌, List, [], ◌∷◌, Option, none, some, length,
  get_elem?, if◌then◌else◌, ◌==◌, string_eq, nat_beq,
}
use sbackup.Base.Int.{ℤ}
use sbackup.Base.Text.{atoi, concat}
use sbackup.Base.FilePath.{clean, CleanPath}
use sbackup.Config.{Config, Job, Storage}
use sbackup.Backup.Snapshots.{Snapshot}
use sbackup.Menu.{
  Machine, Session, M, ◌>>=◌, ◌>>◌, pure, read_line, the_config, act, validate_config, menu,
  list_snapshots, list_files, restore, test_storage, init_repository, create_password, run_command,
}
use sbackup.Menu.Ask.{ask, entry, select, split_values}
use sbackup.Menu.Setup.{create_repository_password, typed_twice}
use sbackup.Menu.Jobs.{at_index, selected_job}

-- What the repository of a job answers, by the number of the action.
pub record Listing : Type 0 where
  pub snapshots : ℕ → List Snapshot
  -- `time.Now().Format("20060102-150405")`
  pub stamp : ℕ → String

-- Whether RFC3339 texts are in this order.
abbrev pub Before : Type 0
Before = String → String → Bool

-- Behind the snapshots that are newer. Go leaves the order of equal times open.
unfoldable pub placed : Before → Snapshot → List Snapshot → List Snapshot
placed before s [] = s ∷ []
placed before s (x ∷ xs) =
    let rest = placed before s xs in if before x.time s.time then s ∷ x ∷ xs else x ∷ rest

-- `sort.Slice` by falling time
unfoldable pub newest_first : Before → List Snapshot → List Snapshot
newest_first before [] = []
newest_first before (x ∷ xs) = placed before x (newest_first before xs)

-- The number of a snapshot, the first where nothing is typed.
unfoldable pub snapshot_number : ℕ → String → Option ℕ
snapshot_number count line = if line == "" then entry count (atoi "1") else entry count (atoi line)

-- An absolute path that is not the root, both asked of the cleaned path.
unfoldable pub is_restore_target : CleanPath → Bool
is_restore_target target = target.rooted && not (nat_beq (length target.parts) 0)

abbrev chosen_paths : List String → Option (List String)
chosen_paths [] = none
chosen_paths (p ∷ ps) = some (p ∷ ps)

module _ (machine : Machine) (listing : Listing) (before : Before) where
  unfoldable pub listed : String → M (Option (List Snapshot))
  listed id s = elim (act machine (list_snapshots id) s) [
    | none ↦ none
    | some (found, s') ↦
        some (if found then some (listing.snapshots (length s.actions)) else none, s')
  ]

  -- The paths to restore: `none` cancels, and the empty list is the whole snapshot.
  unfoldable pub ask_scope : String → String → M (Option (List String))
  ask_scope id snapshot = do
    mode ← read_line
    if mode == "2"
        then (do
          filter ← read_line
          found ← act machine (list_files id snapshot filter)
          if found then (do raw ← read_line; pure (chosen_paths (split_values raw))) else pure none)
        else pure (if mode == "" || mode == "1" then some [] else none)

  unfoldable pub ask_target : String → M String
  ask_target id s =
      ask (concat ("/var/lib/sbackup/restores/" ∷ id ∷ "-" ∷ listing.stamp (length s.actions) ∷ []))
        s

  -- From the target on: the plan is confirmed by `YES`.
  unfoldable pub confirm_restore : String → String → List String → CleanPath → M (Unit {0})
  confirm_restore id snapshot includes target =
      if not (is_restore_target target) then pure tt else (do
        confirm ← read_line
        _ ←
            if confirm == "YES"
            then act machine (restore id snapshot target includes)
            else pure false
        pure tt)

  unfoldable pub restore_paths : String → String → List String → M (Unit {0})
  restore_paths id snapshot includes = do
    target ← ask_target id
    confirm_restore id snapshot includes (clean target)

  unfoldable pub restore_snapshot : String → Snapshot → M (Unit {0})
  restore_snapshot id snapshot = do
    scope ← ask_scope id snapshot.id
    elim scope [ none ↦ pure tt | some includes ↦ restore_paths id snapshot.id includes ]

  unfoldable pub choose_snapshot : String → List Snapshot → M (Unit {0})
  choose_snapshot id [] = pure tt
  choose_snapshot id (x ∷ xs) = do
    line ← read_line
    elim (at_index (newest_first before (x ∷ xs)) (snapshot_number (length (x ∷ xs)) line)) [
      | none ↦ pure tt
      | some snapshot ↦ restore_snapshot id snapshot
    ]

  unfoldable pub restore_from : String → M (Unit {0})
  restore_from id = do
    found ← listed id
    elim found [ none ↦ pure tt | some snapshots ↦ choose_snapshot id snapshots ]

  -- `restoreWizard`
  unfoldable pub restore_wizard : M (Unit {0})
  restore_wizard = do j ← selected_job; elim j [ none ↦ pure tt | some job ↦ restore_from job.id ]

module _ (machine : Machine) (has_password : ℕ → Bool) where
  -- Whether the password file is there, `os.Stat`.
  unfoldable pub password_exists : M Bool
  password_exists s = some (has_password (length s.actions), s)

  unfoldable pub init_storage : Storage → M (Unit {0})
  init_storage s = do
    there ← password_exists
    ready ← if there then pure true else create_repository_password machine s
    if ready
        then (do
          confirm ← read_line
          _ ← if confirm == "INIT" then act machine (init_repository s) else pure false
          pure tt)
        else pure tt

  unfoldable pub selected_storage : M (Option Storage)
  selected_storage = do c ← the_config; i ← select c.storages; pure (at_index c.storages i)

  -- `initializeRepository`
  unfoldable pub initialize_repository : M (Unit {0})
  initialize_repository = do
    s ← selected_storage
    elim s [ none ↦ pure tt | some storage ↦ init_storage storage ]

  unfoldable pub tested : Storage → M (Unit {0})
  tested s = do _ ← act machine (test_storage s); pure tt

  unfoldable pub storage_round : String → M (Unit {0})
  storage_round choice =
      if choice == "1"
      then (do s ← selected_storage; elim s [ none ↦ pure tt | some storage ↦ tested storage ])
      else if choice == "2"
      then initialize_repository
      else pure tt

  -- `storageMenu`
  unfoldable pub storage_menu : M (Unit {0})
  storage_menu = menu storage_round
