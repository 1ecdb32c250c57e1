-- ===== src/Lock/Tests.antt =====
-- The locks at concrete inputs.
use sbackup.Base.{◌≤◌, ◌≡◌, refl, String, Bool, true, false, [], ◌∷◌, ok, err}
use sbackup.Base.Int.{pos, itoa}
use sbackup.Lock.{
  LockDir, run_lock, temp_locks, LockFile, limit_reached, is_held, lock_file, acquire, slot_name,
  try_slots, acquire_slot,
}
use sbackup.Lock.Slots.{Reach, start, next, take, held_in, slots_bounded}

abbrev any_file : LockDir → String → Bool
any_file d name = true

abbrev only_temp : LockDir → String → Bool
only_temp run_lock name = false
only_temp temp_locks name = true

abbrev first_slot : LockFile
first_slot = record { dir = run_lock; name = "global-0" }

abbrev second_slot : LockFile
second_slot = record { dir = run_lock; name = "global-1" }

second_taken :
    acquire_slot any_file "global" (pos 2) (first_slot ∷ [])
    ≡ ok (second_slot, second_slot ∷ first_slot ∷ [])
unfolding acquire_slot try_slots acquire lock_file is_held slot_name itoa
second_taken = refl

all_taken : acquire_slot any_file "global" (pos 1) (first_slot ∷ []) ≡ err limit_reached
unfolding acquire_slot try_slots acquire lock_file is_held slot_name itoa
all_taken = refl

one_holder : Reach "global" (pos 2) (first_slot ∷ [])
unfolding acquire_slot try_slots acquire lock_file is_held slot_name itoa
one_holder = next start (take any_file first_slot refl)

slots_bounded_example : held_in run_lock (first_slot ∷ []) ≤ 2
slots_bounded_example = slots_bounded "global" (pos 2) run_lock one_holder

abbrev user_slot : LockFile
user_slot = record { dir = temp_locks; name = "global-0" }
