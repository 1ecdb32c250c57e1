-- ===== src/Menu/Asks.antt =====
-- internal/tui: what a program asks of the system, one test for each action.
use sbackup.Base.{Bool, true, false, Option, none, some, ◌≡◌, refl, All, if◌then◌else◌}
use sbackup.Menu.{Machine, Session, Action, M, ◌>>=◌, pure, read_line, the_config, act}

-- All that was asked until a program ended.
abbrev pub Ended : (Action → Type 0) → {A : Type 0} → Option (A × Session) → Type 0
Ended P none = Unit {0}
Ended P (some (a, t)) = All P t.actions

-- Where everything that was asked passed the test, it does so afterwards.
pub record Asks (P : Action → Type 0) {A : Type 0} (m : M A) : Type 0 where
  pub asked : (s : Session) → All P s.actions → Ended P (m s)

module _ {P : Action → Type 0} where
  pub Asks-pure : {A : Type 0} (a : A) → Asks P (pure a)
  unfolding pure
  Asks-pure a = record { asked = λ s all. all }

  pub Asks->>= :
      {A B : Type 0} {m : M A} {f : A → M B}
      → Asks P m
      → ((a : A) → Asks P (f a))
      → Asks P (m >>= f)
  unfolding ◌>>=◌
  Asks->>= {A = A} {m = m} {f = f} first rest = record {
    asked = λ s all. continue (m s) (first.asked s all);
  }
    where
      continue :
          (r : Option (A × Session))
          → Ended P r
          → Ended P (elim r [ none ↦ none | some (a, t) ↦ f a t ])
      continue none all = tt
      continue (some (a, t)) all = (rest a).asked t all

  pub Asks-if :
      {A : Type 0} (b : Bool) {m k : M A} → Asks P m → Asks P k → Asks P (if b then m else k)
  Asks-if true hm hk = hm
  Asks-if false hm hk = hk

  -- What stands behind a guard knows that the guard let it pass.
  pub Asks-guard :
      {A : Type 0} (b : Bool) {m k : M A}
      → Asks P m
      → (b ≡ false → Asks P k)
      → Asks P (if b then m else k)
  Asks-guard true hm hk = hm
  Asks-guard false hm hk = hk refl

  pub Asks-elim :
      {A B : Type 0} (o : Option A) {m : M B} {f : A → M B}
      → Asks P m
      → ((a : A) → Asks P (f a))
      → Asks P (elim o [ none ↦ m | some x ↦ f x ])
  Asks-elim none hm hf = hm
  Asks-elim (some a) hm hf = hf a

  pub read_line-Asks : Asks P read_line
  unfolding read_line
  read_line-Asks = record { asked = λ s all. all }

  pub the_config-Asks : Asks P the_config
  unfolding the_config
  the_config-Asks = record { asked = λ s all. all }

  pub act-Asks : (machine : Machine) (a : Action) → P a → Asks P (act machine a)
  unfolding act
  act-Asks machine a h = record { asked = λ s all. (h, all) }
