-- ===== src/Command/Maintenance/Settled.antt =====
-- The loop over the due events against one pass over the table.
use sbackup.Base.{
  String, true, false, List, [], ◌∷◌, ◌++◌, map, Option, none, some, ok, ◌≡◌, ◌≢◌, refl, ap, sym,
  ◌∙◌, subst, inl, inr, eq_iff, eq_refl, All, Bool-cases, Option-cases, false, ◌⊎◌, if◌then◌else◌,
  ◌==◌, string_eq, filter, find,
}
use sbackup.Base.Int.{pos, wrap64, ◌+ℤ◌}
use sbackup.Base.Time.{add}
use sbackup.Base.Maps.{eq-symmetric}
use sbackup.Config.{Config}
use sbackup.Store.{Outbox}
use sbackup.Store.Queue.{complete_outbox, fail_outbox, outbox_retry_delay}
use sbackup.Monitor.Report.{Codec}
use sbackup.Protocol as Protocol
use sbackup.Notify as Notify
use sbackup.Client.Queued.{IsTaken}
use sbackup.Command.Maintenance.{Around, attempt, settle}

module _ (codec : Codec) (around : Around) (c : Config) where
  -- A row after an attempt at the event i with its id.
  abbrev pub waiting : Outbox → String → Outbox → Outbox
  waiting i failure o = record o {
    attempts = wrap64 (i.attempts +ℤ pos 1);
    next_attempt_at =
        add (around.failed_at i) (pos (outbox_retry_delay (wrap64 (i.attempts +ℤ pos 1))));
    last_error = failure;
  }

  abbrev pub attempted : Outbox → Option String → Outbox → List Outbox
  attempted i none o = []
  attempted i (some failure) o = waiting i failure o ∷ []

  abbrev pub found : Outbox → Option Outbox → List Outbox
  found o none = o ∷ []
  found o (some i) = attempted i (attempt codec around c i) o

  -- One pass: a row whose attempt had no error goes, one whose attempt failed waits, the others stay.
  unfoldable pub settled : List Outbox → List Outbox → List Outbox
  settled items [] = []
  settled items (o ∷ rows) = found o (find (λ i. i.id == o.id) items) ++ settled items rows

  abbrev ids : List Outbox → List String
  ids items = map (λ (o : Outbox). o.id) items

  not_found :
      (id : String) (items : List Outbox)
      → All (λ x. x ≢ id) (ids items)
      → find (λ (i : Outbox). i.id == id) items ≡ none
  unfolding find
  not_found id [] h = refl
  not_found id (i ∷ items) (n, h) = elim (Bool-cases (i.id == id)) [
    | inl e ↦ absurd (n ((eq_iff i.id id).0 e))
    | inr e ↦ rw e (not_found id items h)
  ]

  same_id : (a b : String) → (a == b) ≡ true → (b == a) ≡ true
  same_id a b h = rw ((eq_iff a b).0 h) (eq_refl b)

  completed :
      (i : Outbox) (items rows : List Outbox)
      → attempt codec around c i ≡ none
      → settled items (complete_outbox i.id rows) ≡ settled (i ∷ items) rows
  unfolding settled complete_outbox find filter
  completed i items [] r = refl
  completed i items (o ∷ rows) r = elim (Bool-cases (o.id == i.id)) [
    | inl e ↦ rw (e, find, same_id o.id i.id e, r) (completed i items rows r)
    | inr e ↦
        rw (e, find, eq-symmetric o.id i.id e, settled)
          (ap (λ rest. found o (find (λ x. x.id == o.id) items) ++ rest) (completed i items rows r))
  ]

  failed :
      (i : Outbox) (items rows : List Outbox) (failure : String)
      → All (λ id. id ≢ i.id) (ids items)
      → attempt codec around c i ≡ some failure
      → settled items
          (fail_outbox i.id failure (wrap64 (i.attempts +ℤ pos 1)) (around.failed_at i) rows)
        ≡ settled (i ∷ items) rows
  unfolding settled fail_outbox find
  failed i items [] failure h r = refl
  failed i items (o ∷ rows) failure h r = elim (Bool-cases (o.id == i.id)) [
    | inl e ↦
        ap after (changed e)
        ∙ ap (λ x. found (waiting i failure o) x ++ rest)
            (not_found o.id items
              (subst (λ id. All (λ x. x ≢ id) (ids items)) (sym ((eq_iff o.id i.id).0 e)) h))
        ∙ rw (find, same_id o.id i.id e, r)
            (ap (λ xs. waiting i failure o ∷ xs) (failed i items rows failure h r))
    | inr e ↦
        ap after (unchanged e)
        ∙ rw (find, eq-symmetric o.id i.id e)
            (ap (λ xs. found o (find (λ x. x.id == o.id) items) ++ xs)
              (failed i items rows failure h r))
  ]
    where
      rest : List Outbox
      rest =
          settled items
            (fail_outbox i.id failure (wrap64 (i.attempts +ℤ pos 1)) (around.failed_at i) rows)

      after : Outbox → List Outbox
      after v = found v (find (λ x. x.id == v.id) items) ++ rest

      unchanged : (o.id == i.id) ≡ false → (if o.id == i.id then waiting i failure o else o) ≡ o
      unchanged e = rw e refl

      changed :
          (o.id == i.id) ≡ true
          → (if o.id == i.id then waiting i failure o else o) ≡ waiting i failure o
      changed e = rw e refl

  step :
      (i : Outbox) (items rows : List Outbox)
      → All (λ id. id ≢ i.id) (ids items)
      → settled items (settle codec around c i (attempt codec around c i) rows)
        ≡ settled (i ∷ items) rows
  unfolding settle
  step i items rows h = elim (Option-cases (attempt codec around c i)) [
    | inl r ↦ rw (r, settle) (completed i items rows r)
    | inr (failure, r) ↦ rw (r, settle) (failed i items rows failure h r)
  ]

  -- What an attempt without an error means: a report that can be read and, with monitoring on, was answered
  -- with a status from 200 to 299, or a notification that can be read and was sent.
  abbrev pub IsDone : Outbox → Type 0
  IsDone i =
      ((i.kind ≡ "report")
        × ((e : Protocol.Event) × (codec.decode_event i.payload ≡ some e)
            × ((c.monitoring.enabled ≡ false) ⊎ IsTaken (around.caller i) codec c.monitoring e)))
      ⊎ ((i.kind ≡ "notification")
          × ((e : Notify.Event) × (around.decode_notification i.payload ≡ ok e)
              × (Notify.send (around.net i) c i.destination_id e ≡ none)))

  -- An attempt fails with a message, or is done.
  abbrev pub Explained : Outbox → Type 0
  Explained i = ((failure : String) × (attempt codec around c i ≡ some failure)) ⊎ IsDone i
