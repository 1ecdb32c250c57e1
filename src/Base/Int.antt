-- ===== src/Base/Int.antt =====
-- Go's signed integers. `negsuc n` is -(n + 1); an `int` or `int64` wraps at 64 bits.
use Prim.Native.Nat.{ℕ, zero, suc, ◌+◌, ◌-◌, ◌/◌, ◌%◌, ◌≤◌}
use Prim.Native.String
use Prim.Native.String.{String}
use mathlib.Core.Path.{◌≡◌}
use mathlib.Core.Logic.{◌↔◌}
use mathlib.Core.Bool.{Bool, true, false}
use native.Mathlib.Omega.{arith}
use sbackup.Base.Tests.{ltb, leb, if◌then◌else◌, nat_beq, Eq}

pub data ℤ : Type 0 where
  pos : ℕ → ℤ
  negsuc : ℕ → ℤ

abbrev pub pos_part : ℤ → ℕ
pos_part (pos n) = n
pos_part (negsuc n) = 0

abbrev pub neg_part : ℤ → ℕ
neg_part (pos n) = 0
neg_part (negsuc n) = suc n

-- a - b, as an integer.
abbrev pub sub_ℕ : ℕ → ℕ → ℤ
sub_ℕ a b = if leb b a then pos (a - b) else negsuc (b - a - 1)

infixl 65 ◌+ℤ◌ ◌-ℤ◌
infix 50 ◌≤ℤ◌
unfoldable pub ◌+ℤ◌ : ℤ → ℤ → ℤ
a +ℤ b = sub_ℕ (pos_part a + pos_part b) (neg_part a + neg_part b)

unfoldable pub ◌-ℤ◌ : ℤ → ℤ → ℤ
a -ℤ b = sub_ℕ (pos_part a + neg_part b) (neg_part a + pos_part b)

abbrev pub ◌≤ℤ◌ : ℤ → ℤ → Type 0
a ≤ℤ b = pos_part a + neg_part b ≤ pos_part b + neg_part a

abbrev pub ltb_ℤ : ℤ → ℤ → Bool
ltb_ℤ a b = ltb (pos_part a + neg_part b) (pos_part b + neg_part a)

abbrev pub int_beq : ℤ → ℤ → Bool
int_beq (pos a) (pos b) = nat_beq a b
int_beq (negsuc a) (negsuc b) = nat_beq a b
int_beq _ _ = false

pub int_beq_iff : (a b : ℤ) → (int_beq a b ≡ true) ↔ (a ≡ b)
int_beq_iff (pos a) (pos b) = ground arith
int_beq_iff (pos a) (negsuc b) = ground arith
int_beq_iff (negsuc a) (pos b) = ground arith
int_beq_iff (negsuc a) (negsuc b) = ground arith

instance abbrev pub int_eq : Eq ℤ
int_eq = record { equal = int_beq; equal_iff = int_beq_iff }

-- The largest `int64`, 2^63 - 1.
abbrev pub max_int64 : ℕ
max_int64 = 9223372036854775807

-- An exact result brought back into 64 bits.
unfoldable pub wrap64 : ℤ → ℤ
wrap64 (pos n) =
    let r = n % 18446744073709551616 in
    if leb r max_int64 then pos r else negsuc (18446744073709551615 - r)
wrap64 (negsuc n) =
    let r = n % 18446744073709551616 in
    if leb r max_int64 then negsuc r else pos (18446744073709551615 - r)

-- An exact result held at the ends of the range, as `time.Time.Sub` does.
unfoldable pub saturate64 : ℤ → ℤ
saturate64 (pos n) = if leb n max_int64 then pos n else pos max_int64
saturate64 (negsuc n) = if leb n max_int64 then negsuc n else negsuc max_int64

-- One decimal digit.
abbrev pub digit : ℕ → String
digit n =
    if nat_beq n 0
    then "0"
    else if nat_beq n 1
    then "1"
    else if nat_beq n 2
    then "2"
    else if nat_beq n 3
    then "3"
    else if nat_beq n 4
    then "4"
    else if nat_beq n 5
    then "5"
    else if nat_beq n 6
    then "6"
    else if nat_beq n 7
    then "7"
    else if nat_beq n 8
    then "8"
    else "9"

unfoldable pub decimal : ℕ → ℕ → String → String
decimal zero n rest = rest
decimal (suc f) n rest =
    let more = decimal f (n / 10) (String.◌++◌ (digit (n % 10)) rest) in
    if ltb n 10 then String.◌++◌ (digit n) rest else more

-- `strconv.Itoa`, and `%d`; an `int64` has at most 19 digits.
unfoldable pub itoa : ℤ → String
unfolding decimal
itoa (pos n) = decimal 20 n ""
itoa (negsuc n) = String.◌++◌ "-" (decimal 20 (suc n) "")
