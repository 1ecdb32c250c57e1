-- ===== src/Store/Queue.antt =====
-- The table `outbox`: events that wait for another attempt.
pub mod Retry
pub mod Bounds
use sbackup.Base.{
  ℕ, zero, suc, ◌*◌, ◌^◌, String, Bool, true, false, not, ◌&&◌, ◌||◌, List, [], ◌∷◌, ◌++◌, Result,
  ok, err, if◌then◌else◌, ◌==◌, string_eq, filter, take, drop, any, map, length, ltb,
}
use sbackup.Base.Int.{ℤ, pos, pos_part, ◌-ℤ◌, ltb_ℤ}
use sbackup.Base.Time.{minute, hour, add, format, stamp_lt}
use sbackup.Store.{Outbox, StoreError, unique_violation}
use sbackup.Store.Sql.{order_by}

-- `ORDER BY created_at`
unfoldable pub older : Outbox → Outbox → Bool
older a b = stamp_lt (format a.created_at) (format b.created_at)

-- `Enqueue`, with the id and the time that it takes from the clock
unfoldable pub enqueue :
    String → ℕ → String → String → String → List Outbox → Result StoreError (List Outbox)
enqueue id now kind destination payload rows =
    if any (λ o. o.id == id) rows
    then err unique_violation
    else ok (
        rows
        ++ record {
          id = id;
          kind = kind;
          destination_id = destination;
          payload = payload;
          attempts = pos 0;
          next_attempt_at = now;
          created_at = now;
          last_error = "";
        }
          ∷ [])

-- `DueOutbox`
unfoldable pub due_outbox : ℕ → ℤ → List Outbox → List Outbox
due_outbox now limit rows =
    let n = if ltb_ℤ (pos 0) limit then pos_part limit else 100 in
    take n
      (order_by older (filter (λ o. not (stamp_lt (format now) (format o.next_attempt_at))) rows))

-- `PendingOutbox`
unfoldable pub pending_outbox : List Outbox → ℕ
pending_outbox rows = length rows

-- `CompleteOutbox`
unfoldable pub complete_outbox : String → List Outbox → List Outbox
complete_outbox id rows = filter (λ o. not (o.id == id)) rows

-- `min` of store.go, on the attempts
unfoldable pub min_int : ℤ → ℤ → ℤ
min_int a b = if ltb_ℤ a b then a else b

-- `outboxRetryDelay`, in nanoseconds
unfoldable pub outbox_retry_delay : ℤ → ℕ
unfolding min_int
outbox_retry_delay attempts =
    let a = if ltb_ℤ attempts (pos 0) then pos 0 else attempts in
    let delay = minute * 2 ^ pos_part (min_int a (pos 10)) in
    if ltb (12 * hour) delay then 12 * hour else delay

-- `FailOutbox`
unfoldable pub fail_outbox : String → String → ℤ → ℕ → List Outbox → List Outbox
fail_outbox id message attempts now rows =
    map
      (λ o.
        if o.id == id
        then record o {
          attempts = attempts;
          next_attempt_at = add now (pos (outbox_retry_delay attempts));
          last_error = message;
        }
        else o)
      rows

abbrev pub listed : List Outbox → Outbox → Bool
listed rows o = any (λ x. o.id == x.id) rows

-- The part of `Prune` on events that are older than the retention.
unfoldable pub expire_outbox : ℤ → ℕ → List Outbox → List Outbox
expire_outbox retention now rows =
    if ltb_ℤ (pos 0) retention
    then filter (λ o. not (stamp_lt (format o.created_at) (format (add now (pos 0 -ℤ retention)))))
        rows
    else rows

-- The part of `Prune` on the number of events: `ORDER BY created_at DESC LIMIT -1 OFFSET max_pending`.
unfoldable pub cap_outbox : ℤ → List Outbox → List Outbox
cap_outbox max_pending rows =
    if ltb_ℤ (pos 0) max_pending
    then filter
        (λ o. not (listed (drop (pos_part max_pending) (order_by (λ a b. older b a) rows)) o)) rows
    else rows
