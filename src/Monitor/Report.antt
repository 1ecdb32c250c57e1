-- ===== src/Monitor/Report.antt =====
-- The handler `report`: a first part that reads the state under the lock and checks the request, and a
-- second part, under the lock again, that writes. Other handlers may run between the two.
use sbackup.Base.{
  ℕ, ◌+◌, ◌-◌, ◌*◌, String, Bool, true, false, not, ◌&&◌, ◌||◌, List, [], ◌∷◌, ◌++◌, Option, none,
  some, Result, ok, err, reject_if, ◌>>=◌, ◌>>◌, if◌then◌else◌, ◌==◌, string_eq, ltb, length, drop,
  any, filter,
}
use sbackup.Base.Int.{
  ℤ, pos, pos_part, neg_part, sub_ℕ, ltb_ℤ, wrap64, saturate64, int_eq, ◌+ℤ◌, ◌-ℤ◌,
}
use sbackup.Base.Text.{concat, atoi}
use sbackup.Base.Time.{minute, second}
use sbackup.Base.Maps.{lookup, put, remove}
use sbackup.Monitor.{Server, Node, JobState, no_node, no_job, or_else}
use sbackup.Protocol.{Event}
use sbackup.Protocol as Protocol

-- A request, its headers and what reading 256 KiB of its body gives.
pub record Request : Type 0 where
  pub method : String
  pub content_length : ℤ
  pub body : Option String
  pub path : String
  pub node : String
  pub timestamp : String
  pub nonce : String
  pub signature : String
  pub key_version : String

-- The packages `crypto` and `encoding`: SHA-256, hex and its reading, the HMAC of a text by a key, and
-- JSON events.
pub record Codec : Type 0 where
  pub sha256 : String → List ℕ
  pub hex : List ℕ → String
  pub unhex : String → Option (List ℕ)
  pub hmac : List ℕ → String → List ℕ
  pub encode_event : Event → Result String String
  pub decode_event : String → Option Event

-- The readings of the clock in one call.
pub record Clock : Type 0 where
  pub received : ℕ
  pub looked_up : ℕ
  pub locked : ℕ
  pub noted : ℕ
  pub cleaned : ℕ

-- An error with its status, or a success that says whether the event was there already.
pub data Response : Type 0 where
  rejected : ℕ → String → Response
  accepted : Bool → Response

abbrev pub nonce_key : String → String → String
nonce_key node nonce = concat (node ∷ ":" ∷ nonce ∷ [])

-- `abs(time.Since(time.Unix(unix, 0)))`
unfoldable pub age : ℕ → ℤ → ℤ
age now unix =
    let seconds = wrap64 (unix +ℤ pos 62135596800) in
    let d = saturate64 (sub_ℕ (now + neg_part seconds * second) (pos_part seconds * second)) in
    if ltb_ℤ d (pos 0) then wrap64 (pos 0 -ℤ d) else d

-- `seen && expires.After(now)`
unfoldable pub is_replay : String → ℕ → List (String × ℕ) → Bool
unfolding lookup
is_replay key now nonces = elim (lookup key nonces) [
  | none ↦ false
  | some expires ↦ ltb now expires
]

module _ (codec : Codec) where
  abbrev pub canonical : Request → String → String
  canonical r body = concat (
      "POST\n"
      ∷ r.path
      ∷ "\n"
      ∷ r.timestamp
      ∷ "\n"
      ∷ r.nonce
      ∷ "\n"
      ∷ codec.hex (codec.sha256 body)
      ∷ [])

  unfoldable pub read_body : Request → Result Response String
  read_body r = do
    reject_if (not (r.method == "POST")) (rejected 405 "method not allowed")
    reject_if (ltb_ℤ (pos 262144) r.content_length) (rejected 413 "request too large")
    elim r.body [ none ↦ err (rejected 400 "bad request") | some b ↦ ok b ]

  -- the test of the headers, which gives the key's version
  unfoldable pub check_headers : Clock → Request → Result Response ℤ
  unfolding age
  check_headers t r =
      if r.node == "" || (r.nonce == "" || r.signature == "")
      then err (rejected 401 "unauthorized")
      else elim (atoi r.timestamp) [
        | none ↦ err (rejected 401 "unauthorized")
        | some unix ↦ elim (atoi r.key_version) [
          | none ↦ err (rejected 401 "unauthorized")
          | some version ↦
              if ltb_ℤ (pos (5 * minute)) (age t.received unix)
              then err (rejected 401 "unauthorized")
              else ok version
        ]
      ]

  unfoldable pub known_node : Server → Request → Result Response Node
  unfolding lookup
  known_node s r = elim (lookup r.node s.nodes) [
    | none ↦ err (rejected 401 "unknown node")
    | some n ↦ ok n
  ]

  unfoldable pub check_signature : Request → String → Node → Result Response (Unit {0})
  check_signature r body n = elim (codec.unhex n.secret_hex) [
    | none ↦ err (rejected 401 "unauthorized")
    | some secret ↦
        let want = codec.hex (codec.hmac secret (canonical r body)) in
        reject_if (not (r.signature == concat ("v1=" ∷ want ∷ []))) (rejected 401 "unauthorized")
  ]

  unfoldable pub read_event : Request → String → Result Response Event
  read_event r body = elim (codec.decode_event body) [
    | none ↦ err (rejected 400 "invalid json")
    | some e ↦ do
      reject_if (e.event_id == "") (rejected 400 "invalid json")
      reject_if (not (e.node.id == "") && not (e.node.id == r.node)) (rejected 401 "node mismatch")
      ok e
  ]

  -- The first part: the node as it was read, and the event.
  unfoldable pub check_request : Clock → Server → Request → Result Response (Node × Event)
  unfolding read_body check_headers known_node is_replay check_signature read_event
  check_request t s r = do
    body ← read_body r
    version ← check_headers t r
    n ← known_node s r
    reject_if (not (n.key_version == pos 0) && not (version == n.key_version))
        (rejected 401 "unknown key version")
    reject_if (is_replay (nonce_key r.node r.nonce) t.looked_up s.nonces)
        (rejected 401 "replayed request")
    check_signature r body n
    e ← read_event r body
    ok (n, e)

-- What a run of the event does to the state of its job.
unfoldable pub job_ran : Event → Option Protocol.Run → JobState → JobState
job_ran e none js = js
job_ran e (some run) js =
    let seen = record js { status = run.status; last_attempt = run.started_at } in
    if run.status == "success" || run.status == "warning"
    then record seen { last_success = e.occurred_at; consecutive_failures = pos 0 }
    else if run.status == "failed"
    then record seen { consecutive_failures = wrap64 (js.consecutive_failures +ℤ pos 1) }
    else seen

unfoldable pub job_reported :
    Event → Option Protocol.Job → List (String × JobState) → List (String × JobState)
unfolding job_ran lookup put
job_reported e none jobs = jobs
job_reported e (some j) jobs =
    let js = or_else no_job (lookup j.id jobs) in
    let described = record js {
      name = j.name;
      grace_seconds = j.grace_seconds;
      next_expected = or_else js.next_expected j.next_expected_at;
    } in
    put j.id (job_ran e e.run described) jobs

-- The node after the event.
unfoldable pub apply_event : Event → Node → Node
unfolding job_reported
apply_event e n = record n {
  name = if e.node.name == "" then n.name else e.node.name;
  last_heartbeat = if e.event_type == "node.heartbeat" then e.occurred_at else n.last_heartbeat;
  jobs = job_reported e e.job n.jobs;
}

-- The newest 10000.
unfoldable pub cap_reports : List Event → List Event
cap_reports reports = drop (length reports - 10000) reports

-- `cleanupNoncesLocked`
unfoldable pub cleanup_nonces : ℕ → List (String × ℕ) → List (String × ℕ)
cleanup_nonces now nonces = filter (λ entry. not (ltb (entry.1) now)) nonces

unfoldable pub has_event : String → List Event → Bool
has_event id reports = any (λ old. old.event_id == id) reports

abbrev noted : Clock → String → Server → List (String × ℕ)
noted t key s = cleanup_nonces t.cleaned (put key (t.noted + 10 * minute) s.nonces)

-- The second part, with the node that the first part read, and whether `saveLocked` fails.
unfoldable pub commit : Clock → Request → Node × Event → Bool → Server → Response × Server
unfolding is_replay has_event apply_event cap_reports cleanup_nonces lookup put remove
commit t r (n, e) save_fails s =
    let key = nonce_key r.node r.nonce in
    let nodes = put r.node (apply_event e (or_else no_node (lookup r.node s.nodes))) s.nodes in
    if is_replay key t.locked s.nonces
    then (rejected 401 "replayed request", s)
    else if has_event e.event_id s.reports
    then (accepted true, s)
    else if save_fails
    then (
      rejected 500 "state persistence failed",
      record s { nodes = put r.node n nodes; nonces = remove key (noted t key s) },
    )
    else (
      accepted false,
      record s {
        nodes = nodes;
        reports = cap_reports (s.reports ++ e ∷ []);
        nonces = noted t key s;
      },
    )

abbrev pub after_check :
    Clock → Request → Bool → Server → Result Response (Node × Event) → Response × Server
after_check t r save_fails s (err response) = (response, s)
after_check t r save_fails s (ok found) = commit t r found save_fails s

-- The handler with nothing between its two parts.
unfoldable pub report : Codec → Clock → Request → Bool → Server → Response × Server
unfolding check_request commit
report codec t r save_fails s = after_check t r save_fails s (check_request codec t s r)
