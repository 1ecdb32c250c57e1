-- ===== src/Menu/Edit/Agrees.antt =====
-- internal/tui/menu.go, `editJobMenu`: what it does to the configuration in memory and in the file.
use sbackup.Base.{
  ℕ, ◌≤◌, String, Bool, true, false, List, Option, none, some, get_elem?, set-set, length, ◌≡◌,
  refl, sym, ap, ◌∙◌, arith, ◌&&◌,
}
use sbackup.Config.{Config, Job, Storage}
use sbackup.Menu.{Session, Machine, pure, defaulted, the_config}
use sbackup.Menu.Runs.{Runs, >>=-some, Runs-pure, Runs-if, menu-Runs}
use sbackup.Menu.Agreement.{
  Agrees, Filed, Agreeing, Agreeing-IsOrder, Quiet-IsOrder, checked_save-IsAttempt, saving-Agrees,
}
use sbackup.Menu.Edit.{
  Change, commit, put_job, apply_change, edited, edit_job, edit_round, edit_job_menu,
}
use sbackup.Menu.Edit.Ends.{edited-Runs, follow_timer-Runs}

-- Putting a job back undoes putting another one in its place.
put_job-put_job :
    (i : ℕ) (old new : Job) (c : Config)
    → get_elem? c.jobs i ≡ some old
    → defaulted c ≡ c
    → put_job i old (defaulted (put_job i new c)) ≡ c
unfolding defaulted
put_job-put_job i old new c at full =
    ap (λ jobs. record (defaulted c) { jobs = jobs }) (set-set c.jobs i old new at) ∙ full

module _ (machine : Machine) where
  commit-Agrees :
      (i : ℕ) (old new : Job) (s : Session)
      → (saved : Bool) × (t : Session) × (commit machine i old new s ≡ some (saved, t))
        × (length t.input ≤ length s.input)
        × (get_elem? s.config.jobs i ≡ some old → Agrees s → Agrees t)
        × Filed machine s t
  unfolding commit
  commit-Agrees i old new s =
      let (saved, t, e, l, r) =
        saving-Agrees (checked_save-IsAttempt machine) (put_job i new) (put_job i old)
          (Runs-pure (Agreeing-IsOrder machine) true) (Runs-pure (Agreeing-IsOrder machine) false)
          s in
      (saved, t, e, l, λ at. r.0 (λ full. put_job-put_job i old new s.config at full), r.1)

  -- What follows a change of the job that stands at the index.
  apply_change-Agrees :
      (i : ℕ) (old : Job) (change : Option Change) (s : Session)
      → (t : Session) × (apply_change machine i old change s ≡ some (tt, t))
        × (length t.input ≤ length s.input)
        × (get_elem? s.config.jobs i ≡ some old → Agrees s → Agrees t)
        × Filed machine s t
  unfolding apply_change pure
  apply_change-Agrees i old none s = (s, refl, omega arith, λ at a. a, λ h. h)
  apply_change-Agrees i old (some new) s =
      let (saved, t, e, l, agrees, filed) = commit-Agrees i old new.job s in
      let (_, u, e', l', r) =
        (Runs-if (Agreeing-IsOrder machine) (saved && new.timer)
            (follow_timer-Runs (Agreeing-IsOrder machine) machine new.job)
            (Runs-pure (Agreeing-IsOrder machine) tt)).outcome
          t in
      (
        u,
        >>=-some (commit machine i old new.job) _ e ∙ e',
        omega arith,
        λ at a. r.0 (agrees at a),
        λ h. r.1 (filed h),
      )

  edit_job-Agrees :
      (i : ℕ) (choice : String) (storages : List Storage) (found : Option Job) (s : Session)
      → get_elem? s.config.jobs i ≡ found
      → (t : Session) × (edit_job machine i choice storages found s ≡ some (tt, t))
        × (length t.input ≤ length s.input)
        × Agreeing machine s t
  unfolding edit_job pure
  edit_job-Agrees i choice storages none s at = (s, refl, omega arith, (λ a. a, λ h. h))
  edit_job-Agrees i choice storages (some old) s at =
      let (new, t, e, l, q) = (edited-Runs Quiet-IsOrder machine storages old choice).outcome s in
      let (u, e', l', agrees, filed) = apply_change-Agrees i old new t in
      (
        u,
        >>=-some (edited machine storages old choice) _ e ∙ e',
        omega arith,
        (
          λ a.
              agrees (ap (λ c. get_elem? c.jobs i) (sym q.0) ∙ at)
                (((Agreeing-IsOrder machine).quiet s t q.0 q.1).0 a),
          λ h. filed (((Agreeing-IsOrder machine).quiet s t q.0 q.1).1 h),
        ),
      )

  edit_round-Agrees :
      (i : ℕ) (choice : String) → Runs (Agreeing machine) (edit_round machine i choice)
  unfolding edit_round the_config
  edit_round-Agrees i choice = record {
    outcome = λ s.
        let (t, e, l, agrees) =
          edit_job-Agrees i choice s.config.storages (get_elem? s.config.jobs i) s refl in
        (
          tt,
          t,
          >>=-some the_config (λ c. edit_job machine i choice c.storages (get_elem? c.jobs i)) refl
              ∙ e,
          l,
          agrees,
        );
  }

  -- Editing a job comes to an end, and what is in memory stays what was saved last.
  pub edit_job_menu-Agrees : (i : ℕ) → Runs (Agreeing machine) (edit_job_menu machine i)
  unfolding edit_job_menu
  edit_job_menu-Agrees i = menu-Runs (Agreeing-IsOrder machine) (edit_round-Agrees i)
