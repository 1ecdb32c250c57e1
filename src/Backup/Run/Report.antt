-- ===== src/Backup/Run/Report.antt =====
-- What a run of a job reports, against what it stored.
use sbackup.Base.{
  String, Bool, true, false, List, [], ◌∷◌, ◌++◌, none, some, Result, ok, err, ◌==◌, string_eq, ◌≡◌,
  ◌≢◌, refl, sym, ap, ◌∙◌, ◌⊎◌, inl, inr, Bool-cases, arith, eq_iff, eq_refl, find,
}
use sbackup.Config.{Config, Job}
use sbackup.Repository.{Runtime}
use sbackup.Store.{Run}
use sbackup.Store.Runs.{save_run, upsert, update_row}
use sbackup.World.{Outside, Exec, Work, attempt, execute, after, renamed, give, ◌>>=◌}
use sbackup.World.Steps.{after-eq-ok}
use sbackup.Backup.Commands.{runtime, forget, verify, build_storage}
use sbackup.Backup.Run.{Outcome, settle, fail, proceed, told, drop_stage, on_stage}
use sbackup.Backup.Run.Steps.{
  Failure, with_code, warning, save, save_row, stamp_end, back_up, complete, staged,
  prepare_sources, optional,
}

-- The columns that tell how a run ended.
pub record SameEnd (x r : Run) : Type 0 where
  pub status : x.status ≡ r.status
  pub phase : x.phase ≡ r.phase
  pub snapshot_id : x.snapshot_id ≡ r.snapshot_id
  pub error_code : x.error_code ≡ r.error_code
  pub error_summary : x.error_summary ≡ r.error_summary
  pub warning : x.warning ≡ r.warning
  pub finished_at : x.finished_at ≡ r.finished_at

-- The row of the run's id says how the run ended.
unfoldable pub IsStored : Run → List Run → Type 0
IsStored r rows = (x : Run) × (find (λ y. y.id == r.id) rows ≡ some x) × SameEnd x r

same_end : (r : Run) → SameEnd r r
same_end r = record {
  status = refl;
  phase = refl;
  snapshot_id = refl;
  error_code = refl;
  error_summary = refl;
  warning = refl;
  finished_at = refl;
}

updated_end : (x r : Run) → SameEnd (update_row x r) r
unfolding update_row
updated_end x r = record {
  status = refl;
  phase = refl;
  snapshot_id = refl;
  error_code = refl;
  error_summary = refl;
  warning = refl;
  finished_at = refl;
}

upsert-IsStored : (r : Run) (rows : List Run) → IsStored r (upsert r rows)
unfolding IsStored upsert update_row find
upsert-IsStored r [] = (r, rw (eq_refl r.id) refl, same_end r)
upsert-IsStored r (x ∷ rows) = elim (Bool-cases (x.id == r.id)) [
  | inl e ↦ rw (e, eq_refl r.id) (update_row x r, refl, updated_end x r)
  | inr e ↦ rw (e, e) (upsert-IsStored r rows)
]

module _ (o : Outside) where
  save_row-cases :
      (w : Work)
      → (((save_row o w).0 ≡ ok tt) × IsStored w.run (save_row o w).1.rows)
        ⊎ ((e : String) × ((save_row o w).0 ≡ err e))
  unfolding save_row save_run
  save_row-cases w = ground (arith, upsert-IsStored w.run w.rows)

  save_row-run : (w : Work) → (save_row o w).1.run ≡ w.run
  unfolding save_row save_run
  save_row-run w = ground arith

  module _ (c : Config) where
    forget-run : (id : String) (prune : Bool) (w : Work) → (forget o c id prune w).1.run ≡ w.run
    unfolding forget runtime build_storage execute
    forget-run id prune w = ground arith

    verify-run : (id level : String) (w : Work) → (verify o c id level w).1.run ≡ w.run
    unfolding verify runtime build_storage execute
    verify-run id level w = ground arith

  save-eq-ok :
      (v : Work) {w' : Work} → save o v ≡ (ok tt, w') → (w'.run ≡ v.run) × IsStored v.run w'.rows
  unfolding save_row save_run
  save-eq-ok v h = ground (arith, upsert-IsStored v.run v.rows)

  module _ (c : Config) (j : Job) where
    complete-eq-ok :
        (warnings : List String) (w : Work) {w' : Work}
        → complete o c j warnings w ≡ (ok tt, w')
        → ((w'.run.status ≡ "success") ⊎ (w'.run.status ≡ "warning"))
          × (w'.run.phase ≡ "completed")
          × (w'.run.snapshot_id ≡ w.run.snapshot_id)
          × IsStored w'.run w'.rows
    unfolding complete stamp_end save_row save_run
    complete-eq-ok [] w h =
        let (e, stored) = save-eq-ok _ h in (rw e (inl refl), rw e refl, rw e refl, rw e stored)
    complete-eq-ok (x ∷ xs) w h =
        let (e, stored) = save-eq-ok _ h in (rw e (inr refl), rw e refl, rw e refl, rw e stored)

    optional_rest :
        (what : String) (action : Exec String (Unit {0})) (x : Result String (Unit {0}) × Work)
        {s : String}
        → ((v : Work) → (action v).1.run ≡ v.run)
        → x.1.run.snapshot_id ≡ s
        → (after
            (λ _. attempt action >>= λ result. give (warning o c j what result))
            (renamed (with_code "STATE_SAVE_FAILED") x)).1.run.snapshot_id
          ≡ s
    optional_rest what action (ok u, v) h e = rw (h v) e
    optional_rest what action (err f, v) h e = e

    optional-snapshot :
        (asked : Bool) (phase what : String) (action : Exec String (Unit {0})) (w : Work)
        → ((v : Work) → (action v).1.run ≡ v.run)
        → (optional o c j asked phase what action w).1.run.snapshot_id ≡ w.run.snapshot_id
    optional-snapshot true phase what action w h =
        let v = record w { run = record w.run { phase = phase } } in
        optional_rest what action (save_row o v) h (ap (λ r. r.snapshot_id) (save_row-run v))
    optional-snapshot false phase what action w h = refl

    back_up-eq-ok :
        (mode : String) (rt : Runtime) (paths : List String) (w : Work) {w' : Work}
        → back_up o c j mode rt paths w ≡ (ok tt, w')
        → w'.run.snapshot_id ≢ ""
    unfolding back_up save_row save_run execute
    back_up-eq-ok mode rt paths w {w' = w'} h e = ground (arith, eq_iff w'.run.snapshot_id "")

    -- A run past its staging directory that ends well has a status, a phase and a snapshot.
    pub staged-eq-ok :
        (mode : String) (rt : Runtime) (stage : String) (w : Work) {w' : Work}
        → staged o c j mode rt stage w ≡ (ok tt, w')
        → ((w'.run.status ≡ "success") ⊎ (w'.run.status ≡ "warning"))
          × (w'.run.phase ≡ "completed")
          × (w'.run.snapshot_id ≢ "")
          × IsStored w'.run w'.rows
    unfolding staged
    staged-eq-ok mode rt stage w h =
        let (paths, v1, p1, h1) = after-eq-ok _ (prepare_sources o c j stage w) h in
        let (u2, v2, p2, h2) = after-eq-ok _ (back_up o c j mode rt paths v1) h1 in
        let (kept, v3, p3, h3) =
          after-eq-ok _ (optional o c j j.retention.forget_after_backup _ _ _ v2) h2 in
        let (checked, v4, p4, h4) =
          after-eq-ok _ (optional o c j j.verification.metadata_after_backup _ _ _ v3) h3 in
        let (status, phase, snapshot, stored) = complete-eq-ok (kept ++ checked) v4 h4 in
        let e3 =
          ap (λ x. x.1.run.snapshot_id) (sym p3)
          ∙ optional-snapshot j.retention.forget_after_backup _ _ _ v2 (forget-run c j.id false) in
        let e4 =
          ap (λ x. x.1.run.snapshot_id) (sym p4)
          ∙ optional-snapshot j.verification.metadata_after_backup _ _ _ v3
              (verify-run c j.id "metadata") in
        (
          status,
          phase,
          (λ e. back_up-eq-ok mode rt paths v1 p2 (sym (snapshot ∙ e4 ∙ e3) ∙ e)),
          stored,
        )

  -- The report of a run that was saved as running: no error, and the run ended well, has a snapshot, is
  -- stored; or an error, and the run failed.
  unfoldable pub IsReport : Outcome × Work → Type 0
  IsReport (out, w) =
      ((out.error ≡ none)
        × ((out.run.status ≡ "success") ⊎ (out.run.status ≡ "warning"))
        × (out.run.phase ≡ "completed")
        × (out.run.snapshot_id ≢ "")
        × IsStored out.run w.rows)
      ⊎ ((e : String) × (out.error ≡ some e)
          × (out.run.status ≡ "failed")
          × (out.run.phase ≡ "completed"))

  told-IsReport :
      (c : Config) (f : Failure) (x : Result String (Unit {0}) × Work)
      → x.1.run.status ≡ "failed"
      → x.1.run.phase ≡ "completed"
      → IsReport (told o c f x)
  unfolding IsReport
  told-IsReport c f (ok u, w) s p = inr (_, refl, s, p)
  told-IsReport c f (err e, w) s p = inr (_, refl, s, p)

  fail-IsReport : (c : Config) (f : Failure) (w : Work) → IsReport (fail o c f w)
  unfolding fail stamp_end
  fail-IsReport c f w =
      told-IsReport c f (save_row o _) (ap (λ r. r.status) (save_row-run _))
        (ap (λ r. r.phase) (save_row-run _))

  settle-IsReport :
      (c : Config) (x : Result Failure (Unit {0}) × Work)
      → ((w : Work)
          → x ≡ (ok tt, w)
          → ((w.run.status ≡ "success") ⊎ (w.run.status ≡ "warning"))
            × (w.run.phase ≡ "completed")
            × (w.run.snapshot_id ≢ "")
            × IsStored w.run w.rows)
      → IsReport (settle o c x)
  unfolding settle IsReport
  settle-IsReport c (ok u, w) h = let (a, b, d, e) = h w refl in inl (refl, a, b, d, e)
  settle-IsReport c (err f, w) h = fail-IsReport c f w

  drop_stage-IsReport :
      (c : Config) (stage : String) (x : Outcome × Work)
      → IsReport x
      → IsReport (drop_stage o c stage x)
  unfolding IsReport
  drop_stage-IsReport c stage (out, w) h = h

  on_stage-IsReport :
      (c : Config) (j : Job) (mode : String) (x : Result Failure (Runtime × String) × Work)
      → IsReport (on_stage o c j mode x)
  on_stage-IsReport c j mode (err f, v) = settle-IsReport c (err f, v) (λ w h. cc)
  on_stage-IsReport c j mode (ok (rt, stage), v) =
      drop_stage-IsReport c stage _
        (settle-IsReport c _ (λ w h. staged-eq-ok c j mode rt stage v h))

  -- A run that was saved as running ends, on every path, either without error, with the status success or
  -- warning, the phase completed, a snapshot and a stored row that says the same, or with an error, the
  -- status failed and the phase completed.
  pub proceed-IsReport :
      (c : Config) (j : Job) (mode : String) (w : Work) → IsReport (proceed o c j mode w)
  unfolding proceed
  proceed-IsReport c j mode w = on_stage-IsReport c j mode _
