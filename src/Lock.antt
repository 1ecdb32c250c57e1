-- ===== src/Lock.antt =====
-- internal/lock/lock.go: advisory lock files, and a bounded number of slots made of them.
-- The state is the list of lock files on which some live process holds the exclusive `flock`.
pub mod Slots
mod Tests
use sbackup.Base.{
  ℕ, zero, suc, ◌+◌, String, Bool, true, false, List, [], ◌∷◌, Option, none, some, any, filter, not,
  if◌then◌else◌, ◌==◌, string_eq, ◌&&◌, Result, ok, err, reject_if, ◌>>=◌, ◌>>◌,
}
use sbackup.Base.Int.{ℤ, pos, pos_part, ltb_ℤ, itoa}
use sbackup.Base.Text.{concat}

-- The directories that `Acquire` tries, in order: /run/lock/sbackup, then one under `os.TempDir`.
pub data LockDir : Type 0 where
  run_lock temp_locks : LockDir

pub record LockFile : Type 0 where
  pub dir : LockDir
  pub name : String

pub data Refusal : Type 0 where
  no_lock_file already_running no_limit limit_reached : Refusal

abbrev pub same_dir : LockDir → LockDir → Bool
same_dir run_lock run_lock = true
same_dir temp_locks temp_locks = true
same_dir _ _ = false

unfoldable pub same_file : LockFile → LockFile → Bool
same_file a b = same_dir a.dir b.dir && a.name == b.name

unfoldable pub is_held : LockFile → List LockFile → Bool
unfolding same_file
is_held f held = any (same_file f) held

-- `fmt.Sprintf("%s-%d", prefix, i)`
unfoldable pub slot_name : String → ℕ → String
slot_name prefix i = concat (prefix ∷ "-" ∷ itoa (pos i) ∷ [])

-- Which lock files the calling process can create and open: what `os.MkdirAll` and `os.OpenFile`
-- answer it.
module _ (openable : LockDir → String → Bool) where
  -- the loop over `dirs`
  unfoldable pub lock_file : String → Option LockFile
  lock_file id =
      if openable run_lock id
      then some (record { dir = run_lock; name = id })
      else if openable temp_locks id
      then some (record { dir = temp_locks; name = id })
      else none

  -- `Acquire`: a refused `flock` closes the file, so a refusal changes nothing.
  unfoldable pub acquire : String → List LockFile → Result Refusal (LockFile × List LockFile)
  acquire id held = elim (lock_file id) [
    | none ↦ err no_lock_file
    | some f ↦ if is_held f held then err already_running else ok (f, f ∷ held)
  ]

  -- the loop of `AcquireSlot`, with the rounds that are left
  unfoldable pub try_slots :
      String → ℕ → ℕ → List LockFile → Result Refusal (LockFile × List LockFile)
  try_slots prefix i zero held = err limit_reached
  try_slots prefix i (suc rounds) held = elim (acquire (slot_name prefix i) held) [
    | ok taken ↦ ok taken
    | err _ ↦ try_slots prefix (i + 1) rounds held
  ]

  -- `AcquireSlot`
  unfoldable pub acquire_slot :
      String → ℤ → List LockFile → Result Refusal (LockFile × List LockFile)
  acquire_slot prefix limit held = do
    reject_if (ltb_ℤ limit (pos 1)) no_limit
    try_slots prefix 0 (pos_part limit) held

-- `Release`
unfoldable pub release : LockFile → List LockFile → List LockFile
release f held = filter (λ g. not (same_file f g)) held
