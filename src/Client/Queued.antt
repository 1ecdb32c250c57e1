-- ===== src/Client/Queued.antt =====
-- An event is sent, or waits in the outbox, or its loss is reported.
use sbackup.Base.{
  ltb, not, ◌||◌, if◌then◌else◌, ℕ, ◌≤◌, ◌<◌, Option, true, false, arith, sym, String, List, [],
  ◌∷◌, ◌++◌, none, some, ok, ◌≡◌, ◌⊎◌, inl, inr, Bool-cases, Result-cases, string_eq,
}
use sbackup.Base.Int.{pos}
use sbackup.Config.{Monitoring}
use sbackup.Protocol.{Event}
use sbackup.Store.{Outbox}
use sbackup.Monitor.Report.{Codec, Request}
use sbackup.Client.{Caller, timeout, signed_request, send, send_or_queue}

-- The row of an event that waits.
abbrev pub waiting : Caller → Monitoring → String → Outbox
waiting caller m payload = record {
  id = caller.queue_id;
  kind = "report";
  destination_id = m.endpoint;
  payload = payload;
  attempts = pos 0;
  next_attempt_at = caller.queued_at;
  created_at = caller.queued_at;
  last_error = "";
}

none-some : {x : String} → ◌≡◌ {A = Option String} none (some x) → ⊥
none-some q = cc

-- The monitor answered the signed request with a status from 200 to 299, in time.
pub record IsTaken (caller : Caller) (codec : Codec) (m : Monitoring) (e : Event) : Type 0 where
  pub request : Request
  pub status : ℕ
  pub signed : signed_request caller codec m e ≡ ok request
  pub answered :
      caller.deliver (timeout caller codec (caller.parse_duration m.request_timeout)) request
      ≡ ok status
  pub least : 200 ≤ status
  pub most : status < 300

in_range :
    (status : ℕ) (x : String)
    → (if ltb status 200 || not (ltb status 300) then some x else none) ≡ none
    → (200 ≤ status) × (status < 300)
in_range status x h = ground arith

-- `Send` has no error when monitoring is off, and when the monitor took the event.
pub send-eq-none :
    (caller : Caller) (codec : Codec) (m : Monitoring) (e : Event)
    → send caller codec m e ≡ none
    → (m.enabled ≡ false) ⊎ IsTaken caller codec m e
unfolding send
send-eq-none caller codec m e h = elim (Bool-cases m.enabled) [
  | inr off ↦ inl off
  | inl on ↦ elim (Result-cases (signed_request caller codec m e)) [
    | inr (q, p) ↦ absurd (none-some (sym (rw (send, on, p) at h)))
    | inl (r, p) ↦
        elim (Result-cases
          (caller.deliver (timeout caller codec (caller.parse_duration m.request_timeout)) r)) [
            | inr (q, d) ↦ absurd (none-some (sym (rw (send, on, p, d) at h)))
            | inl (status, d) ↦ inr (record {
              request = r;
              status = status;
              signed = p;
              answered = d;
              least = (in_range status _ (rw (send, on, p, d) at h)).0;
              most = (in_range status _ (rw (send, on, p, d) at h)).1;
            })
          ]
  ]
]

-- How an event left `SendOrQueue`: without an error and without a row, since monitoring is off or the
-- monitor took it; without an error and with a row that waits; with an error and without a row.
abbrev pub IsHandled : Caller → Codec → Monitoring → Event → List Outbox → Type 0
IsHandled caller codec m e rows =
    (((send_or_queue caller codec m e rows).0 ≡ none)
      × ((send_or_queue caller codec m e rows).1 ≡ rows)
      × ((m.enabled ≡ false) ⊎ IsTaken caller codec m e))
    ⊎ (((send_or_queue caller codec m e rows).0 ≡ none)
        × (m.enabled ≡ true)
        × ((failure : String) × (send caller codec m e ≡ some failure))
        × ((payload : String) × (codec.encode_event e ≡ ok payload)
            × ((send_or_queue caller codec m e rows).1 ≡ rows ++ waiting caller m payload ∷ [])))
    ⊎ (((message : String) × ((send_or_queue caller codec m e rows).0 ≡ some message))
        × (m.enabled ≡ true)
        × ((send_or_queue caller codec m e rows).1 ≡ rows))
