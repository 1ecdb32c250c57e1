-- ===== src/Monitor/Age.antt =====
-- Which timestamps the handler `report` takes: five minutes on either side.
use sbackup.Base.{ℕ, ◌+◌, ◌*◌, ◌≤◌, false, ◌≡◌, string_eq, arith, if◌then◌else◌}
use sbackup.Base.Int.{pos, max_int64, wrap64, saturate64, ◌+ℤ◌, ◌-ℤ◌, sub_ℕ, ltb_ℤ, int_eq}
use sbackup.Base.Time.{second, minute}
use sbackup.Monitor.Report.{age}

wrapped :
    (u : ℕ)
    → u + 62135596800 ≤ max_int64
    → wrap64 (pos u +ℤ pos 62135596800) ≡ pos (u + 62135596800)
unfolding wrap64 ◌+ℤ◌
wrapped u h = ground arith

distance :
    (now at : ℕ)
    → now ≤ at + 5 * minute
    → at ≤ now + 5 * minute
    → saturate64 (sub_ℕ now at) ≡ sub_ℕ now at
unfolding saturate64
distance now at l h = ground arith

magnitude_within :
    (now at : ℕ)
    → now ≤ at + 5 * minute
    → at ≤ now + 5 * minute
    → ltb_ℤ
        (pos (5 * minute))
        (if ltb_ℤ (sub_ℕ now at) (pos 0) then wrap64 (pos 0 -ℤ sub_ℕ now at) else sub_ℕ now at)
      ≡ false
unfolding wrap64 ◌-ℤ◌
magnitude_within now at l h = ground arith

-- The clocks differ by five minutes at most, counted from the second that the request names.
pub age-within :
    (now u : ℕ)
    → u + 62135596800 ≤ max_int64
    → now ≤ (u + 62135596800) * second + 5 * minute
    → (u + 62135596800) * second ≤ now + 5 * minute
    → ltb_ℤ (pos (5 * minute)) (age now (pos u)) ≡ false
unfolding age
age-within now u b l h =
    let at = (u + 62135596800) * second in
    let plain : now + 0 ≡ now = omega arith in
    rw (wrapped u b, plain, distance now at l h) (magnitude_within now at l h)
