-- ===== src/Store/Runs/History.antt =====
-- What the queries on the history of runs return, and what pruning keeps.
use sbackup.Base.{
  ℕ, ◌+◌, ◌≤◌, ◌<◌, ◌≡◌, ◌≢◌, String, true, ◌||◌, List, [], ◌∷◌, ok, arith, eq_iff, if◌then◌else◌,
  ◌==◌, string_eq, filter, length, take, All, All-take, All-imp, All-filter_self, Bool-cases, inl,
  inr, length-take, length-filter_or, filter_never, ap, ◌*◌, ◌/◌, ◌%◌, ◌⊎◌,
}
use sbackup.Base.Int.{ℤ, pos, pos_part, ltb_ℤ}
use sbackup.Base.Time.{format, stamp_lt, second, fraction, text_lt}
use sbackup.Store.{Run}
use sbackup.Store.Sql.{order_by, All-order_by}
use sbackup.Store.Runs.{
  recent_runs, first_row, last_completed_before, newer, prune_runs, among, row,
}
use sbackup.Store.Runs.Saving.{IsKeyed, row-nil}
use mathlib.Core.Path.{subst}

-- The limit that `RecentRuns` applies.
abbrev pub row_limit : ℤ → ℕ
row_limit limit = if ltb_ℤ (pos 0) limit then pos_part limit else 20

-- `RecentRuns` returns at most its limit, 20 where none is given, and each row is of the job asked
-- for; an empty job id asks for all.
pub recent_runs_bounded :
    (job_id : String) (limit : ℤ) (rows : List Run)
    → (length (recent_runs job_id limit rows) ≤ row_limit limit)
      × All (λ r. (job_id ≡ "") ⊎ (r.job_id ≡ job_id)) (recent_runs job_id limit rows)
unfolding recent_runs
recent_runs_bounded job_id limit rows = (
  omega (
    arith,
    length-take (row_limit limit)
        (order_by newer (filter (λ r. job_id == "" || r.job_id == job_id) rows)),
  ),
  All-imp (λ r h. ground (arith, eq_iff job_id "", eq_iff r.job_id job_id)) _
      (All-take _ (row_limit limit) _ (All-order_by newer _ _ (All-filter_self _ rows))),
)

first_row-All {κ} :
    (P : Run → Type κ) (rows : List Run) {r : Run} → All P rows → first_row rows ≡ ok r → P r
unfolding first_row
first_row-All P [] h e = cc
first_row-All P (x ∷ rows) h e = subst P (cc) h.0

-- A successful `LastCompletedBefore` is of the job, is another run, and is not running.
pub last_completed_before_lem :
    (job_id run_id : String) (rows : List Run) {r : Run}
    → last_completed_before job_id run_id rows ≡ ok r
    → (r.job_id ≡ job_id) × (r.id ≢ run_id) × (r.status ≢ "running")
unfolding last_completed_before
last_completed_before_lem job_id run_id rows {r} h =
    first_row-All (λ x. (x.job_id ≡ job_id) × (x.id ≢ run_id) × (x.status ≢ "running")) _
      (All-imp
        (λ x e.
          ground (arith, eq_iff x.job_id job_id, eq_iff x.id run_id, eq_iff x.status "running"))
        _ (All-take _ 1 _ (All-order_by newer _ _ (All-filter_self _ rows))))
      h

length-row : (rows : List Run) (id : String) → IsKeyed rows → length (row id rows) ≤ 1
unfolding IsKeyed row filter
length-row [] id h = omega arith
length-row (r ∷ rows) id h = elim (Bool-cases (r.id == id)) [
  | inl e ↦ rw e (omega (arith, ap length (row-nil rows ((eq_iff r.id id).0 e) h.0)))
  | inr e ↦ rw e (length-row rows id h.1)
]

among-le : (kept rows : List Run) → IsKeyed rows → length (filter (among kept) rows) ≤ length kept
unfolding row
among-le [] rows h = omega (arith, ap length (filter_never rows))
among-le (k ∷ kept) rows h = omega (
  arith,
  length-filter_or (λ r. r.id == k.id) (among kept) rows,
  length-row rows k.id h,
  among-le kept rows h,
)

-- With a positive limit `Prune` leaves at most that many runs.
pub length-prune_runs :
    (max_runs : ℤ) (rows : List Run)
    → IsKeyed rows
    → ltb_ℤ (pos 0) max_runs ≡ true
    → length (prune_runs max_runs rows) ≤ pos_part max_runs
unfolding prune_runs
length-prune_runs max_runs rows k h = rw h (
    omega (
      arith,
      among-le (take (pos_part max_runs) (order_by newer rows)) rows k,
      length-take (pos_part max_runs) (order_by newer rows),
    ))

misordered :
    (t u : ℕ)
    → t / second ≡ u / second
    → t % second ≡ 0
    → 0 < u % second
    → stamp_lt (format u) (format t) ≡ true
unfolding stamp_lt format fraction text_lt
misordered t u same whole part = ground arith

-- `started_at` is ordered as text. A run that starts at a whole second is taken as newer than every
-- run that starts later within that second.
pub newer_misorders :
    (a b : Run) (s n : ℕ)
    → a.started_at ≡ s * second
    → b.started_at ≡ s * second + n
    → 0 < n
    → n < second
    → newer a b ≡ true
unfolding newer
newer_misorders a b s n ea eb lo hi =
    misordered a.started_at b.started_at (omega arith) (omega arith) (omega arith)

-- Across seconds the order of the text is the order of time.
pub newer_across : (a b : Run) → b.started_at / second < a.started_at / second → newer a b ≡ true
unfolding newer stamp_lt format
newer_across a b h = ground arith
