-- ===== src/Lock/Slots.antt =====
-- What the slots promise, over every sequence of acquisitions and releases by any processes.
use sbackup.Base.{
  ℕ, zero, suc, ◌+◌, ◌≤◌, ◌<◌, ◌≡◌, refl, String, Bool, true, false, List, [], ◌∷◌, some, filter,
  length, ap, length-filter_or, filter_never, arith, ◌||◌, eq_iff, eq_refl, Bool-cases, inl, inr,
  ok, err, All, All-filter, ◌∙◌, Result-cases, >>=-eq-ok, reject_if,
}
use native.Mathlib.Nat.{zero-add}
use native.Mathlib.Decide.{ℕ_discrete}
use sbackup.Base.Int.{ℤ, pos, pos_part, ltb_ℤ}
use sbackup.Lock.{
  LockDir, run_lock, temp_locks, same_dir, LockFile, Refusal, no_limit, limit_reached, same_file,
  is_held, lock_file, acquire, slot_name, try_slots, acquire_slot, release,
}

same_file_refl : (f : LockFile) → same_file f f ≡ true
unfolding same_file
same_file_refl f = ground (arith, eq_refl f.name)

-- Two files that are the same as a third are the same.
same_file_join :
    (g a b : LockFile) → same_file g a ≡ true → same_file g b ≡ true → same_file a b ≡ true
unfolding same_file
same_file_join g a b h k =
    ground (arith, eq_iff g.name a.name, eq_iff g.name b.name, eq_iff a.name b.name)

-- No file is held twice: the kernel grants an exclusive `flock` to one holder.
pub IsExclusive : List LockFile → Type 0
IsExclusive [] = Unit
IsExclusive (f ∷ held) = (is_held f held ≡ false) × IsExclusive held

module _ (openable : LockDir → String → Bool) where
  -- A lock is granted on a file that nobody holds, and nothing else changes.
  pub acquire-eq-ok :
      (id : String) (held : List LockFile) {f : LockFile} {held' : List LockFile}
      → acquire openable id held ≡ ok (f, held')
      → (lock_file openable id ≡ some f) × (is_held f held ≡ false) × (held' ≡ f ∷ held)
  unfolding acquire
  acquire-eq-ok id held h = ground arith

  pub lock_file-name : (id : String) {f : LockFile} → lock_file openable id ≡ some f → f.name ≡ id
  unfolding lock_file
  lock_file-name id h = ground arith

  -- The slot that is granted is one of the rounds that were left.
  try_slots-eq-ok :
      (prefix : String) (i n : ℕ) (held : List LockFile) {f : LockFile} {held' : List LockFile}
      → try_slots openable prefix i n held ≡ ok (f, held')
      → (k : ℕ) × (k < i + n) × (acquire openable (slot_name prefix k) held ≡ ok (f, held'))
  unfolding try_slots
  try_slots-eq-ok prefix i zero held h = cc
  try_slots-eq-ok prefix i (suc n) held h =
      elim (Result-cases (acquire openable (slot_name prefix i) held)) [
        | inl (taken, e) ↦ (i, omega arith, e ∙ rw (e, try_slots) at h)
        | inr (r, e) ↦
            let (k, lt, got) = try_slots-eq-ok prefix (i + 1) n held (rw (e, try_slots) at h) in
            (k, omega arith, got)
      ]

  -- A refusal by every round means that each of their slots was refused.
  try_slots-eq-err :
      (prefix : String) (i n : ℕ) (held : List LockFile) {e : Refusal}
      → try_slots openable prefix i n held ≡ err e
      → (k : ℕ) → i ≤ k
      → k < i + n
      → (r : Refusal) × (acquire openable (slot_name prefix k) held ≡ err r)
  unfolding try_slots
  try_slots-eq-err prefix i zero held h k le lt = absurd (omega arith)
  try_slots-eq-err prefix i (suc n) held h k le lt =
      elim (Result-cases (acquire openable (slot_name prefix i) held)) [
        | inl (taken, e) ↦ cc (rw (e, try_slots) at h)
        | inr (r, e) ↦ elim (ℕ_discrete i k) [
          | yes same ↦ rw (← same) (r, e)
          | no other ↦
              try_slots-eq-err prefix (i + 1) n held (rw (e, try_slots) at h) k (omega arith)
                (omega arith)
        ]
      ]

  -- A granted slot is one of the first `limit`, and its lock file was free.
  acquire_slot-eq-ok :
      (prefix : String) (limit : ℤ) (held : List LockFile) {f : LockFile} {held' : List LockFile}
      → acquire_slot openable prefix limit held ≡ ok (f, held')
      → (k : ℕ) × (k < pos_part limit)
        × (acquire openable (slot_name prefix k) held ≡ ok (f, held'))
  unfolding acquire_slot
  acquire_slot-eq-ok prefix limit held h = rw (← zero-add (pos_part limit)) (
      try_slots-eq-ok prefix 0 (pos_part limit) held
        (>>=-eq-ok (reject_if (ltb_ℤ limit (pos 1)) no_limit)
          (λ _. try_slots openable prefix 0 (pos_part limit) held) h).2)

  -- `AcquireSlot` reports the limit only when each of the `limit` slots was refused.
  pub acquire_slot-limit :
      (prefix : String) (limit : ℤ) (held : List LockFile)
      → acquire_slot openable prefix limit held ≡ err limit_reached
      → (k : ℕ) → k < pos_part limit
      → (r : Refusal) × (acquire openable (slot_name prefix k) held ≡ err r)
  unfolding acquire_slot
  acquire_slot-limit prefix limit held h k lt =
      try_slots-eq-err prefix 0 (pos_part limit) held {e = limit_reached} (ground arith) k
        (omega arith) (omega arith)

-- The slot files of one prefix: any process, whatever files it can open, may take a slot, and a
-- holder may release its own.
pub data Step (prefix : String) (limit : ℤ) : List LockFile → List LockFile → Type 0 where
  take :
      {held held' : List LockFile} (openable : LockDir → String → Bool) (f : LockFile)
      → acquire_slot openable prefix limit held ≡ ok (f, held')
      → Step prefix limit held held'
  drop : {held : List LockFile} (f : LockFile) → Step prefix limit held (release f held)

pub data Reach (prefix : String) (limit : ℤ) : List LockFile → Type 0 where
  start : Reach prefix limit []
  next :
      {held held' : List LockFile}
      → Reach prefix limit held
      → Step prefix limit held held'
      → Reach prefix limit held'

-- How many of the held files lie in one directory.
abbrev pub held_in : LockDir → List LockFile → ℕ
held_in d held = length (filter (λ f. same_dir f.dir d) held)

is_held-filter :
    (p : LockFile → Bool) (f : LockFile) (held : List LockFile)
    → is_held f held ≡ false
    → is_held f (filter p held) ≡ false
unfolding is_held filter
is_held-filter p f [] h = refl
is_held-filter p f (g ∷ held) h = ground (arith, is_held-filter p f held)

IsExclusive-filter :
    (p : LockFile → Bool) (held : List LockFile) → IsExclusive held → IsExclusive (filter p held)
unfolding IsExclusive filter
IsExclusive-filter p [] h = tt
IsExclusive-filter p (f ∷ held) h = elim (Bool-cases (p f)) [
  | inl e ↦ rw e (is_held-filter p f held h.0, IsExclusive-filter p held h.1)
  | inr e ↦ rw e (IsExclusive-filter p held h.1)
]

-- One file is held at most once.
abbrev count_file : LockFile → List LockFile → ℕ
count_file g held = length (filter (same_file g) held)

count_file-none :
    (g f : LockFile) (held : List LockFile)
    → same_file g f ≡ true
    → is_held f held ≡ false
    → count_file g held ≡ 0
unfolding filter is_held
count_file-none g f [] e h = refl
count_file-none g f (x ∷ held) e h =
    ground (arith, count_file-none g f held e, same_file_join g f x)

count_file-le-one : (g : LockFile) (held : List LockFile) → IsExclusive held → count_file g held ≤ 1
unfolding filter IsExclusive
count_file-le-one g [] h = omega arith
count_file-le-one g (f ∷ held) h =
    ground (arith, count_file-none g f held, count_file-le-one g held)

in_slots : LockDir → String → ℕ → LockFile → Bool
in_slots d prefix zero f = false
in_slots d prefix (suc n) f =
    same_file (record { dir = d; name = slot_name prefix n }) f || in_slots d prefix n f

-- Pigeonhole: `n` slots of one directory have at most `n` holders.
count_slots-le :
    (d : LockDir) (prefix : String) (n : ℕ) (held : List LockFile)
    → IsExclusive held
    → length (filter (in_slots d prefix n) held) ≤ n
unfolding in_slots
count_slots-le d prefix zero held h = omega (arith, ap length (filter_never held))
count_slots-le d prefix (suc n) held h = omega (
  arith,
  length-filter_or (same_file (record { dir = d; name = slot_name prefix n })) (in_slots d prefix n)
      held,
  count_slots-le d prefix n held h,
  count_file-le-one (record { dir = d; name = slot_name prefix n }) held h,
)

abbrev IsSlot : String → ℤ → LockFile → Type 0
IsSlot prefix limit f = (k : ℕ) × (k < pos_part limit) × (f.name ≡ slot_name prefix k)

in_slots-IsSlot :
    (prefix : String) (n k : ℕ) (f : LockFile)
    → k < n
    → f.name ≡ slot_name prefix k
    → in_slots f.dir prefix n f ≡ true
unfolding in_slots
in_slots-IsSlot prefix zero k f lt e = absurd (omega arith)
in_slots-IsSlot prefix (suc n) k f lt e = elim (ℕ_discrete n k) [
  | yes same ↦ rw (same, ← e, same_file_refl f) refl
  | no other ↦ ground (arith, in_slots-IsSlot prefix n k f (omega arith) e)
]

same_dir_sound : (a b : LockDir) → same_dir a b ≡ true → a ≡ b
same_dir_sound a b h = ground arith

held_in-le :
    (d : LockDir) (prefix : String) (limit : ℤ) (held : List LockFile)
    → All (IsSlot prefix limit) held
    → held_in d held ≤ length (filter (in_slots d prefix (pos_part limit)) held)
unfolding filter
held_in-le d prefix limit [] h = omega arith
held_in-le d prefix limit (f ∷ held) h = ground (
  arith,
  held_in-le d prefix limit held,
  in_slots-IsSlot prefix (pos_part limit) h.0.0 f h.0.1 h.0.2,
  same_dir_sound f.dir d,
)

release-IsSlot :
    (prefix : String) (limit : ℤ) (f : LockFile) (held : List LockFile)
    → All (IsSlot prefix limit) held
    → All (IsSlot prefix limit) (release f held)
unfolding release
release-IsSlot prefix limit f held = All-filter (IsSlot prefix limit) _ held

Reach-IsSlot :
    (prefix : String) (limit : ℤ) {held : List LockFile}
    → Reach prefix limit held
    → IsExclusive held × All (IsSlot prefix limit) held
unfolding IsExclusive release
Reach-IsSlot prefix limit start = (tt, tt)
Reach-IsSlot prefix limit (next {held = h0} {held' = h1} r (take openable f e)) =
    let (exclusive, slots) = Reach-IsSlot prefix limit r in
    let (k, lt, got) = acquire_slot-eq-ok openable prefix limit h0 e in
    let (file, free, more) = acquire-eq-ok openable (slot_name prefix k) h0 got in
    rw more ((free, exclusive), ((k, lt, lock_file-name openable (slot_name prefix k) file), slots))
Reach-IsSlot prefix limit (next {held = h0} r (drop f)) =
    let (exclusive, slots) = Reach-IsSlot prefix limit r in
    (IsExclusive-filter _ h0 exclusive, All-filter (IsSlot prefix limit) _ h0 slots)

-- In every reachable state at most `limit` slots are held in each lock directory.
pub slots_bounded :
    (prefix : String) (limit : ℤ) (d : LockDir) {held : List LockFile}
    → Reach prefix limit held
    → held_in d held ≤ pos_part limit
slots_bounded prefix limit d {held} r =
    let (exclusive, slots) = Reach-IsSlot prefix limit r in
    omega (
      arith,
      held_in-le d prefix limit held slots,
      count_slots-le d prefix (pos_part limit) held exclusive,
    )

-- A process that cannot open the first directory takes a lock that another process holds there.
pub acquire_twice :
    (id : String) (root user : LockDir → String → Bool) (held : List LockFile)
    → root run_lock id ≡ true
    → user run_lock id ≡ false
    → user temp_locks id ≡ true
    → is_held (record { dir = run_lock; name = id }) held ≡ false
    → is_held (record { dir = temp_locks; name = id }) held ≡ false
    → (acquire root id held
        ≡ ok (record { dir = run_lock; name = id }, record { dir = run_lock; name = id } ∷ held))
      × (acquire user id (record { dir = run_lock; name = id } ∷ held)
          ≡ ok (
            record { dir = temp_locks; name = id },
            record { dir = temp_locks; name = id } ∷ record { dir = run_lock; name = id } ∷ held,
          ))
unfolding acquire lock_file is_held same_file
acquire_twice id root user held a b c p q = ground arith
