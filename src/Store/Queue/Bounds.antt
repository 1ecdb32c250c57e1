-- ===== src/Store/Queue/Bounds.antt =====
-- How many events `Prune` leaves, and which events the other operations touch.
use sbackup.Base.{
  ℕ, ◌≤◌, ◌≡◌, ◌≢◌, refl, ap, String, Bool, true, not, List, [], ◌∷◌, ◌++◌, arith, eq_iff, eq_refl,
  ◌==◌, string_eq, filter, length, take, drop, All, All-imp, filter-append, filter-none,
  take-append-drop, length-append, length-filter, length-take, if◌then◌else◌,
}
use sbackup.Base.Int.{ℤ, pos, pos_part, ltb_ℤ}
use sbackup.Store.{Outbox}
use sbackup.Store.Sql.{order_by, count-order_by}
use sbackup.Store.Queue.{older, listed, cap_outbox, complete_outbox, fail_outbox}

listed_self : (rows : List Outbox) → All (λ o. listed rows o ≡ true) rows
listed_self [] = tt
listed_self (x ∷ rows) =
    (ground (arith, eq_refl x.id), All-imp (λ o h. ground arith) rows (listed_self rows))

unlisted-le :
    (n : ℕ) (rows : List Outbox) → length (filter (λ o. not (listed (drop n rows) o)) rows) ≤ n
unlisted-le n rows =
    let p : Outbox → Bool = λ o. not (listed (drop n rows) o) in
    let gone : filter p (drop n rows) ≡ [] =
      filter-none p (drop n rows)
        (All-imp (λ o h. ap not h) (drop n rows) (listed_self (drop n rows))) in
    let parts : filter p rows ≡ filter p (take n rows) ++ filter p (drop n rows) =
      rw (take-append-drop n rows) at (filter-append p (take n rows) (drop n rows)) in
    omega (
      arith,
      ap length parts,
      length-append (filter p (take n rows)) (filter p (drop n rows)),
      ap length gone,
      length-filter p (take n rows),
      length-take n rows,
    )

-- With a positive limit `Prune` leaves at most that many events.
pub length-cap_outbox :
    (max_pending : ℤ) (rows : List Outbox)
    → ltb_ℤ (pos 0) max_pending ≡ true
    → length (cap_outbox max_pending rows) ≤ pos_part max_pending
unfolding cap_outbox
length-cap_outbox max_pending rows h = rw h (
    omega (
      arith,
      unlisted-le (pos_part max_pending) (order_by (λ a b. older b a) rows),
      count-order_by (λ a b. older b a)
          (λ o. not (listed (drop (pos_part max_pending) (order_by (λ a b. older b a) rows)) o))
          rows,
    ))

-- The rows of an id.
pub event : String → List Outbox → List Outbox
event id rows = filter (λ o. o.id == id) rows

-- Completing an event takes its row away and leaves those of other ids.
pub event-complete_outbox :
    (id other : String) (rows : List Outbox)
    → event other (complete_outbox id rows) ≡ (if id == other then [] else event other rows)
unfolding event complete_outbox filter
event-complete_outbox id other [] = ground arith
event-complete_outbox id other (o ∷ rows) =
    ground (
      arith,
      eq_iff id other,
      eq_iff o.id id,
      eq_iff o.id other,
      event-complete_outbox id other rows,
    )

-- A failed attempt leaves the events of other ids alone.
pub event-fail_outbox_other :
    (id message other : String) (attempts : ℤ) (now : ℕ) (rows : List Outbox)
    → id ≢ other
    → event other (fail_outbox id message attempts now rows) ≡ event other rows
unfolding event fail_outbox filter
event-fail_outbox_other id message other attempts now [] h = refl
event-fail_outbox_other id message other attempts now (o ∷ rows) h = ground (
  arith,
  eq_iff o.id id,
  eq_iff o.id other,
  event-fail_outbox_other id message other attempts now rows,
)
