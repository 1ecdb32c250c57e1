-- ===== src/Backup/Run/Locks.antt =====
-- What `RunWithMode` does as a whole: its locks are free again, and it returns a report or a refusal.
use sbackup.Base.{
  ℕ, suc, ◌+◌, String, Bool, true, false, not, List, [], ◌∷◌, ◌&&◌, ◌||◌, Option, none, some,
  Result, ok, err, if◌then◌else◌, string_eq, ◌≡◌, refl, ap, ◌∙◌, ◌⊎◌, inl, inr, Result-cases,
  Option-cases, arith, eq_refl, filter, zero,
}
use sbackup.Base.Int.{ℤ, pos_part}
use sbackup.Base.Text.{concat}
use sbackup.Store.Runs.{save_run}
use sbackup.Config.{Config, Job, job}
use sbackup.Lock.{
  LockFile, LockDir, run_lock, temp_locks, same_dir, same_file, is_held, acquire, acquire_slot,
  try_slots, release, slot_name,
}
use sbackup.Lock.Slots.{acquire-eq-ok}
use sbackup.World.{Outside, Work}
use sbackup.Backup.Options.{backup_mode}
use sbackup.Backup.Run.{
  Outcome, locked, run_with_mode, unlocked, enabled_job, with_locks, with_mode, with_slot, refused,
  no_run, begin_saved,
}
use sbackup.Backup.Run.Steps.{save_row}
use sbackup.Backup.Run.Report.{IsReport, proceed-IsReport}

same_file_refl : (f : LockFile) → same_file f f ≡ true
unfolding same_file
same_file_refl f = rw (eq_refl f.name) (both f.dir)
  where
    both : (d : LockDir) → (same_dir d d && true) ≡ true
    both run_lock = refl
    both temp_locks = refl

any_false : (a b : Bool) → (a || b) ≡ false → (a ≡ false) × (b ≡ false)
any_false a b h = ground arith

release-not_held :
    (f : LockFile) (held : List LockFile) → is_held f held ≡ false → release f held ≡ held
unfolding release is_held filter
release-not_held f [] h = refl
release-not_held f (g ∷ held) h =
    let (x, y) = any_false (same_file f g) (is_held f held) h in
    rw x (ap (λ r. g ∷ r) (release-not_held f held y))

-- Giving back a lock that was just taken gives the old list.
release-taken :
    (f : LockFile) (held : List LockFile) → is_held f held ≡ false → release f (f ∷ held) ≡ held
unfolding release filter
release-taken f held h = rw (same_file_refl f) (release-not_held f held h)

module _ (openable : LockDir → String → Bool) where
  release-acquire :
      (id : String) (held : List LockFile) {f : LockFile} {held' : List LockFile}
      → acquire openable id held ≡ ok (f, held')
      → release f held' ≡ held
  release-acquire id held h =
      let (_, free, e) = acquire-eq-ok openable id held h in rw e (release-taken _ held free)

  release-try_slots :
      (prefix : String) (i n : ℕ) (held : List LockFile) {f : LockFile} {held' : List LockFile}
      → try_slots openable prefix i n held ≡ ok (f, held')
      → release f held' ≡ held
  unfolding try_slots
  release-try_slots prefix i zero held h = cc
  release-try_slots prefix i (suc n) held h =
      elim (Result-cases (acquire openable (slot_name prefix i) held)) [
        | inl (r, e) ↦ release-acquire (slot_name prefix i) held (ground arith)
        | inr (r, e) ↦ release-try_slots prefix (i + 1) n held (ground arith)
      ]

  release-acquire_slot :
      (prefix : String) (limit : ℤ) (held : List LockFile) {f : LockFile} {held' : List LockFile}
      → acquire_slot openable prefix limit held ≡ ok (f, held')
      → release f held' ≡ held
  unfolding acquire_slot
  release-acquire_slot prefix limit held h =
      release-try_slots prefix 0 (pos_part limit) held (ground arith)

module _ (o : Outside) (c : Config) where
  -- No run, an error, and nothing told or stored.
  unfoldable pub IsRefusal : Work → Outcome × Work → Type 0
  IsRefusal w (out, w') =
      (out.run ≡ no_run)
      × ((e : String) × (out.error ≡ some e))
      × (w'.rows ≡ w.rows)
      × (w'.finished ≡ w.finished)
      × (w'.started ≡ w.started)

  save_row-eq-err :
      (v : Work) (e : String)
      → (save_row o v).0 ≡ err e
      → ((save_row o v).1.rows ≡ v.rows)
        × ((save_row o v).1.finished ≡ v.finished)
        × ((save_row o v).1.started ≡ v.started)
  unfolding save_row save_run
  save_row-eq-err v e h = ground arith

  begin_saved-cases :
      (j : Job) (mode : String) (w : Work) (x : Result String (Unit {0}) × Work)
      → ((e : String)
          → x.0 ≡ err e
          → (x.1.rows ≡ w.rows) × (x.1.finished ≡ w.finished) × (x.1.started ≡ w.started))
      → IsRefusal w (begin_saved o c j mode x) ⊎ IsReport o (begin_saved o c j mode x)
  unfolding IsRefusal
  begin_saved-cases j mode w (err e, v) h =
      inl (let (a, b, d) = h e refl in (refl, (_, refl), a, b, d))
  begin_saved-cases j mode w (ok u, v) h = inr (proceed-IsReport o c j mode _)

  refused-IsRefusal : (e : String) (w : Work) → IsRefusal w (refused e w)
  unfolding IsRefusal
  refused-IsRefusal e w = (refl, (e, refl), refl, refl, refl)

  locked-cases :
      (j : Job) (scheduled : Bool) (mode : String) (w : Work)
      → IsRefusal w (locked o c j scheduled mode w) ⊎ IsReport o (locked o c j scheduled mode w)
  unfolding locked
  locked-cases j scheduled mode w =
      elim (Option-cases
        (o.open_log (o.join c.global.log_dir (concat (o.new_id ∷ ".jsonl" ∷ []))))) [
          | inr (e, p) ↦ rw (p, locked) (inl (refused-IsRefusal e w))
          | inl p ↦ rw (p, locked) (begin_saved-cases j mode w _ (save_row-eq-err _))
        ]

  abbrev pub IsFree : List LockFile → Work → Outcome × (List LockFile × Work) → Type 0
  IsFree held w (out, (held', w')) = (held' ≡ held) × (IsRefusal w (out, w') ⊎ IsReport o (out, w'))

  unlocked-IsFree :
      (undo : List LockFile → List LockFile) (taken held : List LockFile) (w : Work)
      (x : Outcome × Work)
      → undo taken ≡ held
      → IsRefusal w x ⊎ IsReport o x
      → IsFree held w (unlocked o c undo taken x)
  unlocked-IsFree undo taken held w (out, w') e h = (e, h)

  with_slot-IsFree :
      (j : Job) (scheduled : Bool) (mode : String) (w : Work) (f : LockFile)
      (held mine : List LockFile)
      → release f mine ≡ held
      → IsFree held w (with_slot o c j scheduled mode w f mine)
  unfolding with_slot
  with_slot-IsFree j scheduled mode w f held mine free =
      elim (Result-cases (acquire_slot o.openable "global" c.global.max_parallel_jobs mine)) [
        | inr (r, p) ↦
            rw (p, with_slot)
              (unlocked-IsFree (release f) mine held w _ free (inl (refused-IsRefusal _ w)))
        | inl ((g, taken), p) ↦
            rw (p, with_slot)
              (unlocked-IsFree (λ h. release f (release g h)) taken held w _
                (ap (release f) (release-acquire_slot o.openable "global" _ mine p) ∙ free)
                (locked-cases j scheduled mode w))
      ]

  with_locks-IsFree :
      (j : Job) (scheduled : Bool) (mode : String) (held : List LockFile) (w : Work)
      → IsFree held w (with_locks o c j scheduled mode held w)
  unfolding with_locks
  with_locks-IsFree j scheduled mode held w =
      elim (Result-cases (acquire o.openable (concat ("job-" ∷ j.id ∷ [])) held)) [
        | inr (r, p) ↦
            rw (p, with_locks)
              (unlocked-IsFree (λ h. h) held held w _ refl (inl (refused-IsRefusal _ w)))
        | inl ((f, mine), p) ↦
            rw (p, with_locks)
              (with_slot-IsFree j scheduled mode w f held mine
                (release-acquire o.openable _ held p))
      ]

  if-IsFree :
      (b : Bool) (held : List LockFile) (w : Work) (x y : Outcome × (List LockFile × Work))
      → IsFree held w x
      → IsFree held w y
      → IsFree held w (if b then x else y)
  if-IsFree true held w x y h k = h
  if-IsFree false held w x y h k = k

  with_mode-IsFree :
      (j : Job) (scheduled : Bool) (override : String) (held : List LockFile) (w : Work)
      (m : Option String)
      → IsFree held w (with_mode o c j scheduled override held w m)
  with_mode-IsFree j scheduled override held w none =
      unlocked-IsFree (λ h. h) held held w _ refl (inl (refused-IsRefusal _ w))
  with_mode-IsFree j scheduled override held w (some mode) =
      with_locks-IsFree j scheduled mode held w

  enabled_job-IsFree :
      (j : Job) (scheduled : Bool) (override : String) (held : List LockFile) (w : Work)
      → IsFree held w (enabled_job o c j scheduled override held w)
  unfolding enabled_job
  enabled_job-IsFree j scheduled override held w =
      if-IsFree (not j.enabled) held w _ _
        (unlocked-IsFree (λ h. h) held held w _ refl (inl (refused-IsRefusal _ w)))
        (with_mode-IsFree j scheduled override held w (backup_mode j override))

  -- A call of `RunWithMode` leaves the locks as they were, and returns a refusal or a report.
  pub run_with_mode_lem :
      (id : String) (scheduled : Bool) (override : String) (held : List LockFile) (w : Work)
      → IsFree held w (run_with_mode o c id scheduled override held w)
  unfolding run_with_mode
  run_with_mode_lem id scheduled override held w = elim (Option-cases (job c id)) [
    | inl p ↦
        rw (p, run_with_mode)
          (unlocked-IsFree (λ h. h) held held w _ refl (inl (refused-IsRefusal _ w)))
    | inr (j, p) ↦ rw (p, run_with_mode) (enabled_job-IsFree j scheduled override held w)
  ]
