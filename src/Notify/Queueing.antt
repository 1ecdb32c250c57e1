-- ===== src/Notify/Queueing.antt =====
-- Every channel that fails leaves a row in the outbox or an error.
use sbackup.Base.{
  ℕ, suc, ◌+◌, String, Bool, true, false, List, [], ◌∷◌, ◌++◌, Option, none, some, ◌≡◌, refl, sym,
  ap, ◌∙◌, inl, inr, arith, length, length-append, All, All-append, Bool-cases, Result-cases, any,
  if◌then◌else◌, ◌==◌, string_eq,
}
use mathlib.Core.List.{append_assoc, append-nil}
use sbackup.Config.{Config}
use sbackup.Store.{Outbox, unique_violation}
use sbackup.Store.Queue.{enqueue}
use sbackup.Notify.{Net, Event, send, sent_or_queued, not_queued, and_then, send_ids}

abbrev pub is_given : Option String → Bool
is_given none = false
is_given (some e) = true

module _ (net : Net) (c : Config) (e : Event) where
  -- A row that waits for a channel that failed.
  abbrev pub Waits : Outbox → Type 0
  Waits o =
      (o.kind ≡ "notification")
      × ((failure : String) × (send net c o.destination_id e ≡ some failure))

  abbrev pub Accounts : List Outbox → ℕ → List String × List Outbox → Type 0
  Accounts rows n result =
      (added : List Outbox) × (result.1 ≡ rows ++ added)
      × (length result.0 + length added ≡ n)
      × All Waits added

  nothing :
      (rows : List Outbox) (errors : List String) → Accounts rows (length errors) (errors, rows)
  nothing rows errors = ([], sym (append-nil rows), omega arith, tt)

  sent_or_queued-Accounts :
      (k : ℕ) (id : String) (rows : List Outbox) (o : Option String)
      → send net c id e ≡ o
      → Accounts rows (if is_given o then 1 else 0) (sent_or_queued net k id e rows o)
  unfolding enqueue
  sent_or_queued-Accounts k id rows none h = nothing rows []
  sent_or_queued-Accounts k id rows (some failure) h = elim (Result-cases (net.encode e)) [
    | inr (q, p) ↦ rw p (nothing rows (not_queued net id failure q ∷ []))
    | inl (payload, p) ↦ elim (Bool-cases (any (λ o. o.id == net.queue_id k) rows)) [
      | inl d ↦
          rw (p, enqueue, d)
            (nothing rows (not_queued net id failure (net.queue_error unique_violation) ∷ []))
      | inr d ↦ rw (p, enqueue, d) (_ ∷ [], refl, refl, ((refl, (failure, h)), tt))
    ]
  ]

  combined :
      (rows : List Outbox) (n m : ℕ) (x : List String × List Outbox)
      (rest : List Outbox → List String × List Outbox)
      → Accounts rows n x
      → ((rows' : List Outbox) → Accounts rows' m (rest rows'))
      → Accounts rows (n + m) (and_then net x rest)
  combined rows n m (errors, rows') rest (a, p, q, w) k =
      let (b, p', q', w') = k rows' in
      (
        a ++ b,
        p' ∙ ap (λ r. r ++ b) p ∙ append_assoc rows a b,
        counted _ _ _ _ _ _ (length-append errors (rest rows').0) (length-append a b) q q',
        All-append Waits a b w w',
      )
    where
      counted : (s t x y u v : ℕ) → s ≡ x + y → t ≡ u + v → x + u ≡ n → y + v ≡ m → s + t ≡ n + m
      counted s t x y u v h1 h2 h3 h4 = omega arith

  -- The number of channels that fail.
  unfoldable pub failures : List String → ℕ
  failures [] = 0
  failures (id ∷ ids) = (if is_given (send net c id e) then 1 else 0) + failures ids

  -- Every channel that fails leaves a row or an error, and nothing else does: `SendIDs` keeps the rows
  -- there are, adds a row for a channel that failed, and the new rows and the errors together are as
  -- many as the failures.
  pub send_ids-Accounts :
      (k : ℕ) (ids : List String) (rows : List Outbox)
      → Accounts rows (failures ids) (send_ids net c k ids e rows)
  unfolding send_ids failures
  send_ids-Accounts k [] rows = nothing rows []
  send_ids-Accounts k (id ∷ ids) rows =
      combined rows (if is_given (send net c id e) then 1 else 0) (failures ids)
        (sent_or_queued net k id e rows (send net c id e))
        (λ rows'. send_ids net c (suc k) ids e rows')
        (sent_or_queued-Accounts k id rows (send net c id e) refl)
        (λ rows'. send_ids-Accounts (suc k) ids rows')
