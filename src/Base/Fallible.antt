-- ===== src/Base/Fallible.antt =====
-- A Go function that returns `(T, error)` returns `ok` of its value or `err` of its error.
use mathlib.Core.Path.{◌≡◌, refl}
use mathlib.Core.Logic.{◌⊎◌, inl, inr}
use mathlib.Core.Bool.{Bool, true, false}

pub data Result {ℓ κ} (E : Type ℓ) (A : Type κ) : Type (ℓ ⊔ κ) where
  ok : A → Result E A
  err : E → Result E A

module _ {ℓ κ μ} {E : Type ℓ} {A : Type κ} {B : Type μ} where
  infixl 5 ◌>>=◌
  abbrev pub ◌>>=◌ : Result E A → (A → Result E B) → Result E B
  ok a >>= f = f a
  err e >>= f = err e

  -- A chain that gives a value: its head gave one, and the rest gave the value from that.
  pub >>=-eq-ok :
      (first : Result E A) (rest : A → Result E B) {value : B}
      → (first >>= rest) ≡ ok value
      → (x : A) × (first ≡ ok x) × (rest x ≡ ok value)
  >>=-eq-ok (ok x) rest h = (x, refl, h)
  >>=-eq-ok (err _) rest h = cc

module _ {ℓ κ} {E : Type ℓ} {B : Type κ} where
  infixl 5 ◌>>◌
  abbrev pub ◌>>◌ : Result E (Unit {0}) → Result E B → Result E B
  m >> k = m >>= λ _. k

  pub >>-eq-ok :
      (m : Result E (Unit {0})) (k : Result E B) {b : B}
      → (m >> k) ≡ ok b
      → (m ≡ ok tt) × (k ≡ ok b)
  >>-eq-ok (ok u) k h = (refl, h)
  >>-eq-ok (err e) k h = cc

module _ {ℓ κ} {E : Type ℓ} {A : Type κ} where
  pub Result-cases : (r : Result E A) → ((a : A) × (r ≡ ok a)) ⊎ ((e : E) × (r ≡ err e))
  Result-cases (ok a) = inl (a, refl)
  Result-cases (err e) = inr (e, refl)

-- `if bad { return err }`
abbrev pub reject_if {ℓ} : {E : Type ℓ} → Bool → E → Result E (Unit {0})
reject_if true e = err e
reject_if false e = ok tt

-- The same of a whole result: `if bad { return e }; rest`.
pub reject_if-eq-ok {ℓ} : {E : Type ℓ} (b : Bool) (e : E) → reject_if b e ≡ ok tt → b ≡ false
reject_if-eq-ok true e h = cc
reject_if-eq-ok false e h = refl
