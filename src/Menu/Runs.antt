-- ===== src/Menu/Runs.antt =====
-- internal/tui: menus as programs that relate the states before and after.
use sbackup.Base.{
  ℕ, zero, suc, ◌≤◌, ◌<◌, String, Bool, true, false, ◌||◌, List, [], ◌∷◌, some, none, Option,
  length, ◌≡◌, refl, ◌∙◌, arith, if◌then◌else◌, Bool-cases, inl, inr, ◌==◌, string_eq, ap,
}
use sbackup.Config.{Config}
use sbackup.Menu.{
  Session, M, ◌>>=◌, ◌>>◌, pure, next_line, read_line, the_config, change_config, validate_config,
  save_config, rounds, menu, Machine, act, Action,
}

-- From each state the program returns a value in a state that `R` relates to the first.
abbrev pub Outcome : (Session → Session → Type 0) → {A : Type 0} → M A → Session → Type 0
Outcome R {A} m s =
    (a : A) × (s' : Session) × (m s ≡ some (a, s')) × (length s'.input ≤ length s.input) × R s s'

pub record Runs (R : Session → Session → Type 0) {A : Type 0} (m : M A) : Type 0 where
  pub outcome : (s : Session) → Outcome R m s

-- A relation that programs in sequence keep, and that says nothing of what was read and done.
pub record IsOrder (R : Session → Session → Type 0) : Type 0 where
  pub quiet : (s t : Session) → s.config ≡ t.config → s.file ≡ t.file → R s t
  pub both : (s t u : Session) → R s t → R t u → R s u

module _ {A B : Type 0} (m : M A) (f : A → M B) {s t : Session} {a : A} where
  pub >>=-some : m s ≡ some (a, t) → (m >>= f) s ≡ f a t
  unfolding ◌>>=◌
  >>=-some e = rw (e, ◌>>=◌) refl

>>-some :
    {B : Type 0} (m : M (Unit {0})) (k : M B) {s t : Session} {a : Unit {0}}
    → m s ≡ some (a, t)
    → (m >> k) s ≡ k t
unfolding ◌>>◌
>>-some m k e = >>=-some m (λ _. k) e

next_line-shorter : (lines : List String) → length (next_line lines).1 ≤ length lines
unfolding next_line
next_line-shorter [] = omega arith
next_line-shorter (line ∷ rest) = omega arith

shorter_if_continued :
    (lines : List String)
    → ((next_line lines).0 == "0" || (next_line lines).0 == "") ≡ false
    → length (next_line lines).1 < length lines
unfolding next_line
shorter_if_continued [] h = cc
shorter_if_continued (line ∷ rest) h = omega arith

module _ {R : Session → Session → Type 0} (order : IsOrder R) where
  pub Runs-pure : {A : Type 0} (a : A) → Runs R (pure a)
  unfolding pure
  Runs-pure a = record { outcome = λ s. (a, s, refl, omega arith, order.quiet s s refl refl) }

  pub Runs->>= :
      {A B : Type 0} {m : M A} {f : A → M B}
      → Runs R m
      → ((a : A) → Runs R (f a))
      → Runs R (m >>= f)
  Runs->>= {m = m} {f = f} first rest = record {
    outcome = λ s.
        let (a, t, e, l, r) = first.outcome s in
        let (b, u, e', l', r') = (rest a).outcome t in
        (b, u, >>=-some m f e ∙ e', omega arith, order.both s t u r r');
  }

  pub Runs->> : {B : Type 0} {m : M (Unit {0})} {k : M B} → Runs R m → Runs R k → Runs R (m >> k)
  unfolding ◌>>◌
  Runs->> first rest = Runs->>= first (λ _. rest)

  pub Runs-if :
      {A : Type 0} (b : Bool) {m k : M A} → Runs R m → Runs R k → Runs R (if b then m else k)
  Runs-if true hm hk = hm
  Runs-if false hm hk = hk

  pub read_line-Runs : Runs R read_line
  unfolding read_line
  read_line-Runs = record {
    outcome = λ s. (_, _, refl, next_line-shorter s.input, order.quiet s _ refl refl);
  }

  pub the_config-Runs : Runs R the_config
  unfolding the_config
  the_config-Runs = record { outcome = λ s. (_, s, refl, omega arith, order.quiet s s refl refl) }

  -- What is done with the configuration as it is.
  pub Runs-with_config :
      {A : Type 0} (f : Config → M A)
      → ((s : Session) → Outcome R (f s.config) s)
      → Runs R (the_config >>= f)
  unfolding the_config
  Runs-with_config f h = record {
    outcome = λ s. let (a, t, e, l, r) = h s in (a, t, >>=-some the_config f refl ∙ e, l, r);
  }

  pub act-Runs : (machine : Machine) (a : Action) → Runs R (act machine a)
  unfolding act
  act-Runs machine a = record {
    outcome = λ s. (_, _, refl, omega arith, order.quiet s _ refl refl);
  }

  -- With a round more than there are lines, a menu comes to its end.
  rounds-Runs :
      (body : String → M (Unit {0}))
      → ((choice : String) → Runs R (body choice))
      → (fuel : ℕ) (s : Session) → length s.input < fuel
      → Outcome R (rounds fuel body) s
  unfolding rounds
  rounds-Runs body ends zero s h = absurd (omega arith)
  rounds-Runs body ends (suc fuel) s h =
      let (choice, lines) = next_line s.input in
      let t = record s { input = lines } in
      let l = next_line-shorter s.input in
      elim (Bool-cases (choice == "0" || choice == "")) [
        | inl q ↦ (tt, t, rw q refl, l, order.quiet s t refl refl)
        | inr q ↦
            let (_, u, eu, lu, ru) = (ends choice).outcome t in
            let shorter = shorter_if_continued s.input q in
            let (_, v, ev, lv, rv) = rounds-Runs body ends fuel u (omega arith) in
            (
              tt,
              v,
              ap (λ b. if b then some (tt, t) else (body choice >> rounds fuel body) t) q
                  ∙ (>>-some (body choice) (rounds fuel body) eu ∙ ev),
              omega arith,
              order.both s t v (order.quiet s t refl refl) (order.both t u v ru rv),
            )
      ]

  pub menu-Runs :
      {body : String → M (Unit {0})}
      → ((choice : String) → Runs R (body choice))
      → Runs R (menu body)
  unfolding menu
  menu-Runs {body} ends = record {
    outcome = λ s. rounds-Runs body ends (suc (length s.input)) s (omega arith);
  }

-- The relation that says nothing: such a program just ends.
abbrev pub Any : Session → Session → Type 0
Any s t = Unit

pub Any-IsOrder : IsOrder Any
Any-IsOrder = record { quiet = λ s t c f. tt; both = λ s t u r q. tt }

module _ {R : Session → Session → Type 0} where
  -- What only ends.
  pub Runs-Any : {A : Type 0} {m : M A} → Runs R m → Runs Any m
  Runs-Any h = record { outcome = λ s. let (a, t, e, l, r) = h.outcome s in (a, t, e, l, tt) }

  pub Runs-elim :
      {A B : Type 0} (o : Option A) {m : M B} {f : A → M B}
      → Runs R m
      → ((a : A) → Runs R (f a))
      → Runs R (elim o [ none ↦ m | some a ↦ f a ])
  Runs-elim none hm hf = hm
  Runs-elim (some a) hm hf = hf a

pub change_config-Ends : (f : Config → Config) → Runs Any (change_config f)
unfolding change_config
change_config-Ends f = record { outcome = λ s. (_, _, refl, omega arith, tt) }

pub validate_config-Ends : (machine : Machine) → Runs Any (validate_config machine)
unfolding validate_config
validate_config-Ends machine = record { outcome = λ s. (_, _, refl, omega arith, tt) }

pub save_config-Ends : (machine : Machine) → Runs Any (save_config machine)
unfolding save_config
save_config-Ends machine = record { outcome = λ s. (_, _, refl, omega arith, tt) }
