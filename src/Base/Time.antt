-- ===== src/Base/Time.antt =====
-- Go's `time.Time` as the nanoseconds since the zero time, 0001-01-01T00:00:00Z, and the text that
-- SQLite orders by, which `Format(time.RFC3339Nano)` writes.
use Prim.Native.Nat.{ℕ, zero, suc, ◌+◌, ◌/◌, ◌%◌}
use mathlib.Core.Bool.{Bool, true, false, ◌&&◌, ◌||◌}
use mathlib.Core.List.{List, [], ◌∷◌, ◌++◌}
use sbackup.Base.Tests.{ltb, nat_beq, if◌then◌else◌}
use sbackup.Base.Int.{ℤ, pos_part, neg_part, sub_ℕ, saturate64}

-- `t.IsZero()`
abbrev pub is_zero : ℕ → Bool
is_zero t = nat_beq t 0

abbrev pub second : ℕ
second = 1000000000

abbrev pub minute : ℕ
minute = 60000000000

abbrev pub hour : ℕ
hour = 3600000000000

-- `t.Add(d)`, for an instant that stays after the zero time
abbrev pub add : ℕ → ℤ → ℕ
add t d = pos_part (sub_ℕ (t + pos_part d) (neg_part d))

-- `t.Sub(u)`
abbrev pub sub : ℕ → ℕ → ℤ
sub t u = saturate64 (sub_ℕ t u)

-- The last `k` decimal digits of `n`, in ASCII, the most significant first.
unfoldable pub ascii_digits : ℕ → ℕ → List ℕ
ascii_digits zero n = []
ascii_digits (suc k) n = ascii_digits k (n / 10) ++ (48 + n % 10) ∷ []

-- Drops the zeros at the end.
unfoldable pub trim_zeros : List ℕ → List ℕ
trim_zeros [] = []
trim_zeros (c ∷ cs) = end (trim_zeros cs)
  where
    end : List ℕ → List ℕ
    end [] = if nat_beq c 48 then [] else c ∷ []
    end (d ∷ ds) = c ∷ d ∷ ds

-- What follows the seconds: `Z`, or the point, the digits without their last zeros, and `Z`.
unfoldable pub fraction : ℕ → List ℕ
unfolding ascii_digits trim_zeros
fraction nanos =
    if nat_beq nanos 0 then b'Z' ∷ [] else b'.' ∷ (trim_zeros (ascii_digits 9 nanos) ++ b'Z' ∷ [])

-- The text of a time. Its first 19 characters have a fixed width and sort as the whole seconds do, so
-- they are kept as that number.
pub record Stamp : Type 0 where
  pub seconds : ℕ
  pub rest : List ℕ

unfoldable pub format : ℕ → Stamp
format t = record { seconds = t / second; rest = fraction (t % second) }

-- `memcmp` on the rest of the text
unfoldable pub text_lt : List ℕ → List ℕ → Bool
text_lt xs [] = false
text_lt [] (y ∷ ys) = true
text_lt (x ∷ xs) (y ∷ ys) = let later = text_lt xs ys in ltb x y || (nat_beq x y && later)

-- SQL's `<` on two such texts
unfoldable pub stamp_lt : Stamp → Stamp → Bool
stamp_lt a b = ltb a.seconds b.seconds || (nat_beq a.seconds b.seconds && text_lt a.rest b.rest)
