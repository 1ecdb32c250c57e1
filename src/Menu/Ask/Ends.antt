-- ===== src/Menu/Ask/Ends.antt =====
-- internal/tui/menu.go: lemmas on the questions as programs.
use sbackup.Base.{String, Bool, List, [], ◌∷◌, refl, arith, length, ◌≤◌}
use sbackup.Base.Int.{ℤ}
use sbackup.Menu.{Session, Machine}
use sbackup.Menu.Runs.{Runs, IsOrder, Runs-pure, Runs->>=, Runs-if, read_line-Runs, act-Runs}
use sbackup.Menu.Ask.{
  ask, ask_yes_no, ask_non_negative_int, select, raw_line, next_raw, read_password,
}

module _ {R : Session → Session → Type 0} (order : IsOrder R) where
  pub ask-Runs : (fallback : String) → Runs R (ask fallback)
  unfolding ask
  ask-Runs fallback = Runs->>= order (read_line-Runs order) (λ x. Runs-pure order _)

  pub ask_yes_no-Runs : (machine : Machine) (current : Bool) → Runs R (ask_yes_no machine current)
  unfolding ask_yes_no
  ask_yes_no-Runs machine current = Runs->>= order (read_line-Runs order) (λ x. Runs-pure order _)

  pub ask_non_negative_int-Runs : (current : ℤ) → Runs R (ask_non_negative_int current)
  unfolding ask_non_negative_int
  ask_non_negative_int-Runs current = Runs->>= order (ask-Runs _) (λ x. Runs-pure order _)

  pub select-Runs : {A : Type 0} (xs : List A) → Runs R (select xs)
  unfolding select
  select-Runs [] = Runs-pure order _
  select-Runs (x ∷ xs) = Runs->>= order (read_line-Runs order) (λ line. Runs-pure order _)

  next_raw-shorter : (lines : List String) → length (next_raw lines).1 ≤ length lines
  unfolding next_raw
  next_raw-shorter [] = omega arith
  next_raw-shorter (line ∷ rest) = omega arith

  raw_line-Runs : Runs R raw_line
  unfolding raw_line
  raw_line-Runs = record {
    outcome = λ s. (_, _, refl, next_raw-shorter s.input, order.quiet s _ refl refl);
  }

  pub read_password-Runs : (machine : Machine) → Runs R (read_password machine)
  unfolding read_password
  read_password-Runs machine =
      Runs->>= order (act-Runs order machine _)
        (λ off. Runs-if order off raw_line-Runs (Runs-pure order _))
