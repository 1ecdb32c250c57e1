-- ===== src/Store/Queue/Retry.antt =====
-- The retry delay: exponential from a minute, at most twelve hours.
use sbackup.Base.{
  ℕ, ◌*◌, ◌^◌, ◌≤◌, ◌≡◌, refl, arith, if◌then◌else◌, ltb, true, leb, all_below, all_below_sound,
  nat_beq_iff, ◌==◌, nat_eq, ◌&&◌, ◌∙◌,
}
use native.Mathlib.Decide.{dec_lt}
use sbackup.Base.Int.{ℤ, pos, negsuc, pos_part}
use sbackup.Base.Time.{minute, hour}
use sbackup.Store.Queue.{outbox_retry_delay}

-- Minutes after so many attempts.
pub minutes : ℕ → ℕ
minutes n = if ltb n 10 then 2 ^ n else 720

delay_table : all_below 10 (λ n. outbox_retry_delay (pos n) == minute * minutes n) ≡ true
unfolding all_below outbox_retry_delay minutes
delay_table = refl

delay_late : (n : ℕ) → 10 ≤ n → outbox_retry_delay (pos n) ≡ minute * minutes n
unfolding outbox_retry_delay minutes
delay_late n h = ground arith

delay_pos : (n : ℕ) → outbox_retry_delay (pos n) ≡ minute * minutes n
delay_pos n = elim (dec_lt n 10) [
  | yes p ↦ (nat_beq_iff _ _).0 (all_below_sound 10 _ n delay_table p)
  | no p ↦ delay_late n (omega arith)
]

delay_neg : (n : ℕ) → outbox_retry_delay (negsuc n) ≡ outbox_retry_delay (pos 0)
unfolding outbox_retry_delay
delay_neg n = ground arith

-- The delay is a minute doubled for each attempt up to the ninth, and twelve hours from the tenth on;
-- a negative count is taken as none.
pub outbox_retry_delay_lem : (a : ℤ) → outbox_retry_delay a ≡ minute * minutes (pos_part a)
outbox_retry_delay_lem (negsuc n) = delay_neg n ∙ delay_pos 0
outbox_retry_delay_lem (pos n) = delay_pos n

minutes_table : all_below 10 (λ n. leb 1 (minutes n) && leb (minutes n) 720) ≡ true
unfolding all_below minutes
minutes_table = refl

minutes_late : (n : ℕ) → 10 ≤ n → (1 ≤ minutes n) × (minutes n ≤ 720)
unfolding minutes
minutes_late n h = ground arith

minutes_bounds : (n : ℕ) → (1 ≤ minutes n) × (minutes n ≤ 720)
minutes_bounds n = elim (dec_lt n 10) [
  | yes p ↦ ground (arith, all_below_sound 10 _ n minutes_table p)
  | no p ↦ minutes_late n (omega arith)
]

-- Whatever the count, the next attempt is a minute to twelve hours away.
pub outbox_retry_delay_bounds :
    (a : ℤ) → (minute ≤ outbox_retry_delay a) × (outbox_retry_delay a ≤ 12 * hour)
outbox_retry_delay_bounds a = omega (arith, outbox_retry_delay_lem a, minutes_bounds (pos_part a))
