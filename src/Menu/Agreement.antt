-- ===== src/Menu/Agreement.antt =====
-- internal/tui: the configuration in memory against the file, where a change is saved or undone.
use sbackup.Base.{
  Bool, true, false, List, ◌∷◌, some, ◌⊎◌, ◌&&◌, Bool-cases, length, ◌≡◌, refl, subst, sym, ap, ◌∙◌,
  arith, inl, inr, ◌==◌, string_eq,
}
use sbackup.Base.Int.{int_eq, pos}
use sbackup.Config.{Config, Global}
use sbackup.Config.File.Loaded.{validate-filled}
use sbackup.Config.Validate.Whole.{fill_defaults, validate}
use sbackup.Menu.{
  Session, Machine, Action, M, ◌>>=◌, ◌>>◌, pure, defaulted, change_config, checked_save, saving,
  save, is_ok, validate_config, save_config,
}
use sbackup.Menu.Runs.{Runs, IsOrder, Outcome, >>=-some}

-- What is in memory is what was saved last, its defaults filled in.
pub record Agrees (s : Session) : Type 0 where
  pub same : s.config ≡ s.file
  pub full : defaulted s.config ≡ s.config

-- `Validate` accepts the configuration.
abbrev pub IsValid : Machine → Config → Type 0
IsValid machine c = is_ok (validate machine.std c) ≡ true

-- The file keeps a configuration that is accepted.
abbrev pub Filed : Machine → Session → Session → Type 0
Filed machine s t = IsValid machine s.file → IsValid machine t.file

pub Filed-IsOrder : (machine : Machine) → IsOrder (Filed machine)
Filed-IsOrder machine = record {
  quiet = λ s t c f h. subst (IsValid machine) f h;
  both = λ s t u r q h. q (r h);
}

abbrev pub Agreeing : Machine → Session → Session → Type 0
Agreeing machine s t = (Agrees s → Agrees t) × Filed machine s t

pub Agreeing-IsOrder : (machine : Machine) → IsOrder (Agreeing machine)
Agreeing-IsOrder machine = record {
  quiet = λ s t c f. (
    λ a. record { same = sym c ∙ (a.same ∙ f); full = ap defaulted (sym c) ∙ (a.full ∙ c) },
    (Filed-IsOrder machine).quiet s t c f,
  );
  both = λ s t u r q. (λ a. q.0 (r.0 a), λ h. q.1 (r.1 h));
}

pub Runs-Filed :
    (machine : Machine) {A : Type 0} {m : M A} → Runs (Agreeing machine) m → Runs (Filed machine) m
Runs-Filed machine h = record {
  outcome = λ s. let (a, t, e, l, r) = h.outcome s in (a, t, e, l, r.1);
}

-- Only what was read and done may differ.
abbrev pub Quiet : Session → Session → Type 0
Quiet s t = (s.config ≡ t.config) × (s.file ≡ t.file)

pub Quiet-IsOrder : IsOrder Quiet
Quiet-IsOrder = record { quiet = λ s t c f. (c, f); both = λ s t u r q. (r.0 ∙ q.0, r.1 ∙ q.1) }

fill_defaults-fill_defaults : (g : Global) → fill_defaults (fill_defaults g) ≡ fill_defaults g
unfolding fill_defaults
fill_defaults-fill_defaults g = ground arith

pub defaulted-defaulted : (c : Config) → defaulted (defaulted c) ≡ defaulted c
unfolding defaulted
defaulted-defaulted c = elim (Bool-cases (c.version == pos 1)) [
  | inl e ↦ rw e (ap (λ g. record c { global = g }) (fill_defaults-fill_defaults c.global))
  | inr e ↦ rw e refl
]

-- A session after a check, a save or both that failed, its configuration put back.
pub Agrees-put_back :
    (s : Session) (c : Config) (actions : List Action)
    → c ≡ s.config
    → Agrees s
    → Agrees (record s { config = c; actions = actions })
Agrees-put_back s c actions e a = record {
  same = e ∙ a.same;
  full = ap defaulted e ∙ (a.full ∙ sym e);
}

-- A session after a save.
pub Agrees-saved :
    (s : Session) (c : Config) (actions : List Action)
    → Agrees (record s { config = defaulted c; file = defaulted c; actions = actions })
Agrees-saved s c actions = record { same = refl; full = defaulted-defaulted c }

IsValid-defaulted :
    (machine : Machine) (c : Config) → IsValid machine c → IsValid machine (defaulted c)
unfolding defaulted
IsValid-defaulted machine c h = elim (Bool-cases (c.version == pos 1)) [
  | inl e ↦ rw e (ap is_ok (validate-filled machine.std c) ∙ h)
  | inr e ↦ rw e h
]

-- What an attempt to save the changed configuration `c` leaves behind.
abbrev Saves : Machine → M Bool → Session → Config → List Action → Type 0
Saves machine attempt s c actions =
    ((attempt (record s { config = c })
        ≡ some (true, record s { config = defaulted c; file = defaulted c; actions = actions }))
      × IsValid machine c)
    ⊎ (attempt (record s { config = c })
        ≡ some (false, record s { config = defaulted c; actions = actions }))

pub record IsAttempt (machine : Machine) (attempt : M Bool) : Type 0 where
  pub saves :
      (s : Session) (c : Config) → (actions : List Action) × Saves machine attempt s c actions

module _ (machine : Machine) where
  save_config-cases :
      (s : Session) (c : Config)
      → Saves machine (save_config machine) s c (save (defaulted c) ∷ s.actions)
  unfolding save_config
  save_config-cases s c =
      elim (Bool-cases (
        is_ok (validate machine.std c)
        && machine.succeeds (length s.actions) (save (defaulted c)))) [
          | inl e ↦ inl (rw e refl, ground arith)
          | inr e ↦ inr (rw e refl)
        ]

  pub save_config-IsAttempt : IsAttempt machine (save_config machine)
  save_config-IsAttempt = record { saves = λ s c. (_, save_config-cases s c) }

  checked_save-cases :
      (s : Session) (c : Config)
      → (actions : List Action) × Saves machine (checked_save machine) s c actions
  unfolding checked_save validate_config ◌>>=◌ pure
  checked_save-cases s c = elim (Bool-cases (is_ok (validate machine.std c))) [
    | inr e ↦ rw e (s.actions, inr refl)
    | inl e ↦ elim (save_config-cases s (defaulted c)) [
      | inl q ↦ rw e (
        _,
        inl (
          q.0
              ∙ ap
                  (λ x. some (
                    true,
                    record s {
                      config = x;
                      file = x;
                      actions = save (defaulted (defaulted c)) ∷ s.actions;
                    },
                  ))
                  (defaulted-defaulted c),
          refl,
        ),
      )
      | inr q ↦ rw e (
        _,
        inr (
            q
            ∙ ap
                (λ x. some (
                  false,
                  record s { config = x; actions = save (defaulted (defaulted c)) ∷ s.actions },
                ))
                (defaulted-defaulted c)),
      )
    ]
  ]

  pub checked_save-IsAttempt : IsAttempt machine (checked_save machine)
  checked_save-IsAttempt = record { saves = checked_save-cases }

-- A change that is undone when it cannot be saved: where undoing gives back what was there, what is in
-- memory stays what was saved last.
module _ {machine : Machine} {attempt : M Bool} (tries : IsAttempt machine attempt)
    (change undo : Config → Config) {A : Type 0} {yes no : M A}
    (yes_runs : Runs (Agreeing machine) yes) (no_runs : Runs (Agreeing machine) no) where
  abbrev pub Undone : Session → Type 0
  Undone s = defaulted s.config ≡ s.config → undo (defaulted (change s.config)) ≡ s.config

  pub saving-Agrees :
      (s : Session)
      → Outcome
          (λ s t. (Undone s → Agrees s → Agrees t) × Filed machine s t)
          (saving attempt change undo yes no)
          s
  unfolding saving change_config ◌>>◌ ◌>>=◌
  saving-Agrees s =
      let (actions, cases) = tries.saves s (change s.config) in
      elim cases [
        | inl (q, valid) ↦
            let (a, t, e, l, r) = yes_runs.outcome _ in
            (
              a,
              t,
              >>=-some attempt _ q ∙ e,
              l,
              (
                λ undone h. r.0 (Agrees-saved s (change s.config) actions),
                λ h. r.1 (IsValid-defaulted machine _ valid),
              ),
            )
        | inr q ↦
            let (a, t, e, l, r) = no_runs.outcome _ in
            (
              a,
              t,
              >>=-some attempt _ q ∙ e,
              l,
              (λ undone h. r.0 (Agrees-put_back s _ actions (undone h.full) h), λ h. r.1 h),
            )
      ]

  pub saving-Runs :
      ((c : Config) → defaulted c ≡ c → undo (defaulted (change c)) ≡ c)
      → Runs (Agreeing machine) (saving attempt change undo yes no)
  saving-Runs undone = record {
    outcome =
        λ s. let (a, t, e, l, r) = saving-Agrees s in (a, t, e, l, (r.0 (undone s.config), r.1));
  }

module _ (machine : Machine) where
  pub change_config-Filed : (f : Config → Config) → Runs (Filed machine) (change_config f)
  unfolding change_config
  change_config-Filed f = record { outcome = λ s. (_, _, refl, omega arith, λ h. h) }

  pub validate_config-Filed : Runs (Filed machine) (validate_config machine)
  unfolding validate_config
  validate_config-Filed = record { outcome = λ s. (_, _, refl, omega arith, λ h. h) }

  pub save_config-Filed : Runs (Filed machine) (save_config machine)
  save_config-Filed = record {
    outcome = λ s. elim (save_config-cases machine s s.config) [
      | inl (e, valid) ↦ (_, _, e, omega arith, λ h. IsValid-defaulted machine s.config valid)
      | inr e ↦ (_, _, e, omega arith, λ h. h)
    ];
  }
