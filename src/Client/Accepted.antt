-- ===== src/Client/Accepted.antt =====
-- A monitor that knows the key of a node accepts the requests that the node signs.
use sbackup.Base.{
  ℕ, ◌+◌, ◌*◌, ◌≤◌, String, false, ◌||◌, List, [], ◌∷◌, Option, none, some, ok, ◌≡◌, refl, sym, ap,
  ◌∙◌, ◌==◌, string_eq, eq_iff, eq_refl, inl, inr, arith, Bool-cases, ltb,
}
use Prim.Native.String
use text.Mathlib.TextLemmas.{cons-append}
use sbackup.Base.Int.{ℤ, pos, itoa, max_int64, ltb_ℤ, int_eq}
use sbackup.Base.Text.{byte_length, concat, codes, trim_space, trim_suffix, atoi}
use sbackup.Base.Numerals.{atoi-itoa}
use sbackup.Base.Maps.{lookup, lookup-put}
use sbackup.Base.Time.{second, minute}
use sbackup.Config.{Monitoring}
use sbackup.Protocol.{Event}
use sbackup.Monitor.{Server, Node, add_node, no_node, or_else}
use sbackup.Monitor.Report.{
  Request, Clock, Codec, age, read_body, check_headers, known_node, check_signature, read_event,
  check_request, is_replay, nonce_key,
}
use sbackup.Client.{Caller, unix_seconds, unsigned, signature, signed_request}
use sbackup.Monitor.Age.{age-within}

-- A header that the monitor can read.
headers-eq-ok :
    (codec : Codec) (t : Clock) (r : Request) (unix version : ℤ)
    → (r.node == "") ≡ false
    → (r.nonce == "") ≡ false
    → (r.signature == "") ≡ false
    → atoi r.timestamp ≡ some unix
    → atoi r.key_version ≡ some version
    → ltb_ℤ (pos (5 * minute)) (age t.received unix) ≡ false
    → check_headers codec t r ≡ ok version
unfolding check_headers
headers-eq-ok codec t r unix version n c s a v w = rw (n, c, s, a, v, w) refl

-- A text that begins with a letter.
prefixed : (rest : String) → (concat ("v1=" ∷ rest ∷ []) == "") ≡ false
prefixed rest = elim (Bool-cases (concat ("v1=" ∷ rest ∷ []) == "")) [
  | inr e ↦ e
  | inl e ↦ absurd (
      letter (
        sym (ap codes (cons-append "v" "1=" rest))
        ∙ ap codes ((eq_iff (concat ("v1=" ∷ rest ∷ [])) "").0 e)))
]
  where
    letter : 118 ∷ codes (String.◌++◌ "1=" rest) ≡ [] → ⊥
    letter q = cc

module _ (codec : Codec) (caller : Caller) (m : Monitoring) (e : Event) (key b path : String) where
  abbrev made : Request
  made = record (unsigned caller codec m path b) {
    signature = signature caller codec key (unsigned caller codec m path b) b;
  }

  signed_request-eq-ok :
      caller.read_file m.key_file ≡ ok key
      → codec.encode_event e ≡ ok b
      → caller.new_request (trim_suffix m.endpoint "/") ≡ ok path
      → signed_request caller codec m e ≡ ok made
  unfolding signed_request
  signed_request-eq-ok r c p = rw (r, c, p) refl

  headers :
      (t : Clock) (u : ℕ)
      → unix_seconds caller.signing_at ≡ pos u
      → u + 62135596800 ≤ max_int64
      → t.received ≤ (u + 62135596800) * second + 5 * minute
      → (u + 62135596800) * second ≤ t.received + 5 * minute
      → m.key_version ≡ pos 1
      → (m.node_id == "") ≡ false
      → (caller.nonce == "") ≡ false
      → check_headers codec t made ≡ ok (pos 1)
  headers t u a bound l h v n c =
      headers-eq-ok codec t made (pos u) (pos 1) n c (prefixed _)
        (ap (λ z. atoi (itoa z)) a ∙ atoi-itoa u (omega arith))
        (ap (λ z. atoi (itoa z)) v ∙ atoi-itoa 1 (omega arith)) (age-within t.received u bound l h)

  signature-accepted :
      (n : Node)
      → ((bytes : List ℕ) → codec.unhex (codec.hex bytes) ≡ some bytes)
      → n.secret_hex ≡ codec.hex (codec.sha256 (trim_space key))
      → check_signature codec made b n ≡ ok tt
  unfolding check_signature
  signature-accepted n law s =
      rw
        (
          check_signature,
          ap codec.unhex s ∙ law (codec.sha256 (trim_space key)),
          eq_refl (signature caller codec key (unsigned caller codec m path b) b),
        )
        refl

-- The node as `AddNode` leaves it.
abbrev pub known_as : Codec → String → String → String → Server → Node
known_as codec id name key s = record (or_else no_node (lookup id s.nodes)) {
  id = id;
  name = name;
  secret_hex = codec.hex (codec.sha256 (trim_space key));
  key_version = pos 1;
}

add_node-known :
    (codec : Codec) (id name key : String) (s : Server)
    → (add_node (λ k. codec.hex (codec.sha256 k)) id name key none s).0 ≡ none
    → lookup id (add_node (λ k. codec.hex (codec.sha256 k)) id name key none s).1.nodes
      ≡ some (known_as codec id name key s)
unfolding add_node
add_node-known codec id name key s h =
    elim (Bool-cases (id == "" || ltb (byte_length (codes (trim_space key))) 32)) [
      | inl e ↦ absurd (refused (sym h ∙ rw e refl))
      | inr e ↦ rw e (lookup-put id (known_as codec id name key s) s.nodes)
    ]
  where
    refused : ◌≡◌ {A = Option String} none (some "node id 不能为空，key 至少需要 32 个字符") → ⊥
    refused q = cc

-- `read_event` of the encoding of an event of the node.
event-accepted :
    (codec : Codec) (r : Request) (b : String) (e : Event)
    → codec.decode_event b ≡ some e
    → (e.event_id == "") ≡ false
    → (r.node == "") ≡ false
    → e.node.id ≡ r.node
    → read_event codec r b ≡ ok e
unfolding read_event
event-accepted codec r b e d i f n = rw (read_event, d, i, n, f, eq_refl r.node) refl

body-accepted :
    (codec : Codec) (r : Request) (b : String)
    → r.method ≡ "POST"
    → r.content_length ≡ pos (byte_length (codes b))
    → r.body ≡ some b
    → byte_length (codes b) ≤ 262144
    → read_body codec r ≡ ok b
unfolding read_body
body-accepted codec r b m c k h =
    let fits : ltb_ℤ (pos 262144) (pos (byte_length (codes b))) ≡ false = ground arith in
    rw (m, c, k, fits) refl

add_node-nonces :
    (sha : String → String) (id name key : String) (s : Server)
    → (add_node sha id name key none s).1.nonces ≡ s.nonces
unfolding add_node
add_node-nonces sha id name key s =
    elim (Bool-cases (id == "" || ltb (byte_length (codes (trim_space key))) 32)) [
      | inl e ↦ rw e refl
      | inr e ↦ rw e refl
    ]

-- What the first part of the handler gives when each of its tests passes.
check_request-eq-ok :
    (codec : Codec) (t : Clock) (s : Server) (r : Request) (b : String) (n : Node) (e : Event)
    → read_body codec r ≡ ok b
    → check_headers codec t r ≡ ok (pos 1)
    → n.key_version ≡ pos 1
    → lookup r.node s.nodes ≡ some n
    → is_replay (nonce_key r.node r.nonce) t.looked_up s.nonces ≡ false
    → check_signature codec r b n ≡ ok tt
    → read_event codec r b ≡ ok e
    → check_request codec t s r ≡ ok (n, e)
unfolding check_request known_node
check_request-eq-ok codec t s r b n e body headers version found once signed event =
    rw (body, headers, known_node, found, version, once, signed, event) refl

-- A monitor to which a node was added with a key, with its clock at most five minutes from the node's,
-- accepts the request that the node signs with that key for an event of its own, and finds the node and
-- the event, when hex and JSON read back what they wrote, the body is at most 256 KiB, the key has
-- version 1 and the nonce is not a replay.
pub check_request-signed_request :
    (codec : Codec) (caller : Caller) (m : Monitoring) (e : Event) (key b path name : String)
    (s : Server) (t : Clock) (u : ℕ)
    → ((bytes : List ℕ) → codec.unhex (codec.hex bytes) ≡ some bytes)
    → codec.encode_event e ≡ ok b
    → codec.decode_event b ≡ some e
    → caller.read_file m.key_file ≡ ok key
    → caller.new_request (trim_suffix m.endpoint "/") ≡ ok path
    → (add_node (λ k. codec.hex (codec.sha256 k)) m.node_id name key none s).0 ≡ none
    → m.key_version ≡ pos 1
    → (m.node_id == "") ≡ false
    → (caller.nonce == "") ≡ false
    → (e.event_id == "") ≡ false
    → e.node.id ≡ m.node_id
    → byte_length (codes b) ≤ 262144
    → unix_seconds caller.signing_at ≡ pos u
    → u + 62135596800 ≤ max_int64
    → t.received ≤ (u + 62135596800) * second + 5 * minute
    → (u + 62135596800) * second ≤ t.received + 5 * minute
    → is_replay (nonce_key m.node_id caller.nonce) t.looked_up s.nonces ≡ false
    → (r : Request) × (signed_request caller codec m e ≡ ok r)
      × (check_request codec t
            (add_node (λ k. codec.hex (codec.sha256 k)) m.node_id name key none s).1
            r
          ≡ ok (known_as codec m.node_id name key s, e))
check_request-signed_request codec caller m e key b path name s t u law encoded decoded read url
      added version named fresh event own fits at bound late early once =
    let r = made codec caller m e key b path in
    (
      r,
      signed_request-eq-ok codec caller m e key b path read encoded url,
      check_request-eq-ok codec t
          (add_node (λ k. codec.hex (codec.sha256 k)) m.node_id name key none s).1 r b
          (known_as codec m.node_id name key s) e (body-accepted codec r b refl refl refl fits)
          (headers codec caller m e key b path t u at bound late early version named fresh) refl
          (add_node-known codec m.node_id name key s added)
          (ap (λ nonces. is_replay (nonce_key m.node_id caller.nonce) t.looked_up nonces)
              (add_node-nonces (λ k. codec.hex (codec.sha256 k)) m.node_id name key s)
            ∙ once)
          (signature-accepted codec caller m e key b path (known_as codec m.node_id name key s) law
            refl)
          (event-accepted codec r b e decoded event named own),
    )
