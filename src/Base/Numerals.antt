-- ===== src/Base/Numerals.antt =====
-- `strconv`: reading back a number that was written.
use Prim.Native.Nat.{ℕ, zero, suc, ◌+◌, ◌-◌, ◌*◌, ◌/◌, ◌%◌, ◌^◌, ◌≤◌, ◌<◌}
use Prim.Native.Char.{Char, code}
use Prim.Native.String
use Prim.Native.String.{String}
use mathlib.Core.Path.{◌≡◌, refl, ap, subst, ◌∙◌}
use mathlib.Core.Logic.{inl, inr}
use mathlib.Core.List.{List, ◌∷◌}
use mathlib.Core.Option.{some}
use native.Mathlib.Omega.{arith}
use native.Mathlib.Nat.{pow-suc}
use text.Mathlib.TextLemmas.{nil-append, cons-append}
use sbackup.Base.Tests.{ltb, Bool-cases}
use sbackup.Base.Int.{pos, digit, decimal, itoa, max_int64}
use sbackup.Base.Text.{codes, digits_value, magnitude, in_int64, signed, atoi}

one : (c : Char) (rest : String) → codes (String.◌++◌ (String.◌∷◌ c "") rest) ≡ code c ∷ codes rest
one c rest = rw (cons-append c "" rest, nil-append rest) refl

digit-codes :
    (d : ℕ) (rest : String) → d < 10 → codes (String.◌++◌ (digit d) rest) ≡ (48 + d) ∷ codes rest
digit-codes d rest h = ground (
  arith,
  one "0" rest,
  one "1" rest,
  one "2" rest,
  one "3" rest,
  one "4" rest,
  one "5" rest,
  one "6" rest,
  one "7" rest,
  one "8" rest,
  one "9" rest,
)

tenth_below : (f n : ℕ) → n < 10 ^ suc f → n / 10 < 10 ^ f
tenth_below f n h = let p = pow-suc 10 f in omega arith

one_digit :
    (c : ℕ) (rest : List ℕ) → c < 10 → digits_value 0 ((48 + c) ∷ rest) ≡ digits_value c rest
unfolding digits_value
one_digit c rest h = ground (arith, shifted)
  where
    shifted : 0 * 10 + (48 + c - 48) ≡ c
    shifted = omega arith

next_digit :
    (n : ℕ) (rest : List ℕ) → digits_value (n / 10) ((48 + n % 10) ∷ rest) ≡ digits_value n rest
unfolding digits_value
next_digit n rest = ground (arith, shifted)
  where
    shifted : n / 10 * 10 + (48 + n % 10 - 48) ≡ n
    shifted = omega arith

-- The digits of a number are worth the number.
digits_value-decimal :
    (f n : ℕ) (rest : String)
    → n < 10 ^ f
    → digits_value 0 (codes (decimal f n rest)) ≡ digits_value n (codes rest)
unfolding decimal
digits_value-decimal zero n rest h = ap (λ m. digits_value m (codes rest)) (omega arith)
digits_value-decimal (suc f) n rest h = elim (Bool-cases (ltb n 10)) [
  | inl e ↦
      let below : n < 10 = ground arith in
      rw e (rw (digit-codes n rest below) (one_digit n (codes rest) below))
  | inr e ↦
      let below : n % 10 < 10 = omega arith in
      rw e (
        digits_value-decimal f (n / 10) (String.◌++◌ (digit (n % 10)) rest) (tenth_below f n h)
        ∙ rw (digit-codes (n % 10) rest below) (next_digit n (codes rest)))
]

-- A number has a digit.
decimal-cons :
    (f n : ℕ) (rest : String)
    → (c : ℕ) × (cs : List ℕ) × (codes rest ≡ c ∷ cs)
    → (c : ℕ) × (cs : List ℕ) × (codes (decimal f n rest) ≡ c ∷ cs)
unfolding decimal
decimal-cons zero n rest h = h
decimal-cons (suc f) n rest h = elim (Bool-cases (ltb n 10)) [
  | inl e ↦ rw e (_, _, digit-codes n rest (ground arith))
  | inr e ↦ rw e (
      decimal-cons f (n / 10) (String.◌++◌ (digit (n % 10)) rest)
        (_, _, digit-codes (n % 10) rest (omega arith)))
]

first_digit : (f n : ℕ) → (c : ℕ) × (cs : List ℕ) × (codes (decimal (suc f) n "") ≡ c ∷ cs)
unfolding decimal
first_digit f n = elim (Bool-cases (ltb n 10)) [
  | inl e ↦ rw e (_, _, digit-codes n "" (ground arith))
  | inr e ↦ rw e (
      decimal-cons f (n / 10) (String.◌++◌ (digit (n % 10)) "")
        (_, _, digit-codes (n % 10) "" (omega arith)))
]

signed-digits :
    (n c : ℕ) (cs : List ℕ)
    → digits_value 0 (c ∷ cs) ≡ some n
    → n ≤ max_int64
    → signed (c ∷ cs) ≡ some (pos n)
unfolding signed magnitude digits_value in_int64
signed-digits n c cs h b = ground arith

-- A number that was written is read back.
pub atoi-itoa : (n : ℕ) → n ≤ max_int64 → atoi (itoa (pos n)) ≡ some (pos n)
unfolding atoi itoa digits_value
atoi-itoa n h =
    let (c, cs, e) = first_digit 19 n in
    let below : n < 10 ^ 20 = omega arith in
    rw e (
      signed-digits n c cs
        (subst (λ xs. digits_value 0 xs ≡ some n) e (digits_value-decimal 20 n "" below)) h)
