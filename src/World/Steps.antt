-- ===== src/World/Steps.antt =====
-- A sequence of steps that ended well: each step did.
use sbackup.Base.{◌≡◌, refl, Result, ok, err}
use sbackup.World.{Work, Exec, after}

module _ {E A B : Type 0} where
  pub after-eq-ok :
      (f : A → Exec E B) (x : Result E A × Work) {b : B} {w : Work}
      → after f x ≡ (ok b, w)
      → (a : A) × (v : Work) × (x ≡ (ok a, v)) × (f a v ≡ (ok b, w))
  after-eq-ok f (ok a, v) h = (a, v, refl, h)
  after-eq-ok f (err e, v) h = cc
