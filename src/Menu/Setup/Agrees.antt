-- ===== src/Menu/Setup/Agrees.antt =====
-- internal/tui/menu.go, `finishJobSetup`: what it does to the configuration in memory and in the file.
use sbackup.Base.{
  ◌-◌, String, true, false, not, ◌||◌, List, [], ◌∷◌, ◌++◌, ◌≡◌, refl, ap, ◌∙◌, arith, length, take,
  length-append,
}
use sbackup.Config.{Config, Job, job}
use sbackup.Menu.{Machine, defaulted}
use sbackup.Menu.Runs.{Runs, Runs->>=, Runs-pure, Runs-if, Runs-elim, the_config-Runs}
use sbackup.Menu.Agreement.{Agreeing, Agreeing-IsOrder, save_config-IsAttempt, saving-Runs}
use sbackup.Menu.Setup.{but_last, is_some, validate_new_job, append_job, add_job, finish_job_setup}
use sbackup.Menu.Setup.Ends.{new_job-Runs, start_job-Runs}

take-append_one : {A : Type 0} (xs : List A) (x : A) → take (length xs) (xs ++ x ∷ []) ≡ xs
take-append_one [] x = refl
take-append_one (y ∷ xs) x = ap (λ ys. y ∷ ys) (take-append_one xs x)

but_last-append : {A : Type 0} (xs : List A) (x : A) → but_last (xs ++ x ∷ []) ≡ xs
but_last-append xs x =
    let shorter : length (xs ++ x ∷ []) - 1 ≡ length xs =
      omega (arith, length-append xs (x ∷ [])) in
    rw shorter (take-append_one xs x)

job_taken_away :
    (j : Job) (c : Config)
    → defaulted c ≡ c
    → record (defaulted (record c { jobs = c.jobs ++ j ∷ [] })) {
      jobs = but_last (c.jobs ++ j ∷ []);
    }
      ≡ c
unfolding defaulted
job_taken_away j c full =
    ap (λ jobs. record (defaulted c) { jobs = jobs }) (but_last-append c.jobs j) ∙ full

module _ (machine : Machine) where
  append_job-Agrees : (j : Job) → Runs (Agreeing machine) (append_job machine j)
  unfolding append_job defaulted
  append_job-Agrees j =
      saving-Runs (save_config-IsAttempt machine) _ _ (Runs-pure (Agreeing-IsOrder machine) true)
        (Runs-pure (Agreeing-IsOrder machine) false) (job_taken_away j)

  add_job-Agrees : (j : Job) → Runs (Agreeing machine) (add_job machine j)
  unfolding add_job
  add_job-Agrees j =
      Runs->>= (Agreeing-IsOrder machine) (the_config-Runs (Agreeing-IsOrder machine)) λ c.
        Runs-if (Agreeing-IsOrder machine)
          (is_some (job c j.id) || not (validate_new_job machine c j))
          (Runs-pure (Agreeing-IsOrder machine) tt)
          (Runs->>= (Agreeing-IsOrder machine) (append_job-Agrees j) λ saved.
            Runs-if (Agreeing-IsOrder machine) saved
              (start_job-Runs (Agreeing-IsOrder machine) machine j)
              (Runs-pure (Agreeing-IsOrder machine) tt))

  -- Setting up a job comes to an end, and what is in memory stays what was saved last.
  pub finish_job_setup-Agrees :
      (storage : String) → Runs (Agreeing machine) (finish_job_setup machine storage)
  unfolding finish_job_setup
  finish_job_setup-Agrees storage =
      Runs->>= (Agreeing-IsOrder machine) (new_job-Runs (Agreeing-IsOrder machine) machine storage)
        λ j. Runs-elim j (Runs-pure (Agreeing-IsOrder machine) tt) add_job-Agrees
