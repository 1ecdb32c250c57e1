-- ===== src/Monitor/Rejections.antt =====
-- What a request that is not accepted leaves of the state.
use sbackup.Base.{
  ℕ, String, Bool, some, ok, ◌≡◌, refl, arith, Result-cases, inl, inr, >>=-eq-ok, subst,
}
use sbackup.Base.Maps.{lookup}
use sbackup.Monitor.{Server, Node, or_else, no_node}
use sbackup.Base.Maps.{put-put, put-lookup}
use sbackup.Monitor.Report.{
  Request, Clock, Codec, rejected, commit, check_request, report, after_check, apply_event,
  known_node, read_body, check_headers,
}
use sbackup.Protocol.{Event}

known_node-eq-ok :
    (codec : Codec) (s : Server) (r : Request) {n : Node}
    → known_node codec s r ≡ ok n
    → lookup r.node s.nodes ≡ some n
unfolding known_node
known_node-eq-ok codec s r h = ground arith

-- The node that the first part gives is the one of the state.
check_request-node :
    (codec : Codec) (t : Clock) (s : Server) (r : Request) {n : Node} {e : Event}
    → check_request codec t s r ≡ ok (n, e)
    → lookup r.node s.nodes ≡ some n
unfolding check_request
check_request-node codec t s r {n = n} {e = e} h =
    let (body, p1, h1) = >>=-eq-ok (read_body codec r) _ h in
    let (version, p2, h2) = >>=-eq-ok (check_headers codec t r) _ h1 in
    let (m, p3, h3) = >>=-eq-ok (known_node codec s r) _ h2 in
    ground (arith, known_node-eq-ok codec s r p3)

commit-rejected :
    (t : Clock) (r : Request) (n : Node) (e : Event) (fails : Bool) (s : Server) {c : ℕ}
    {m : String}
    → lookup r.node s.nodes ≡ some n
    → (commit t r (n, e) fails s).0 ≡ rejected c m
    → ((commit t r (n, e) fails s).1.nodes ≡ s.nodes)
      × ((commit t r (n, e) fails s).1.reports ≡ s.reports)
unfolding commit
commit-rejected t r n e fails s k h =
    let written = apply_event e (or_else no_node (lookup r.node s.nodes)) in
    ground (arith, put-put r.node written n s.nodes, put-lookup r.node n s.nodes k)

-- A request that is rejected, also because the state could not be saved, leaves the nodes and the reports
-- as they were, when no other request comes between the two parts.
pub report_rejected :
    (codec : Codec) (t : Clock) (r : Request) (fails : Bool) (s : Server) {c : ℕ} {m : String}
    → (report codec t r fails s).0 ≡ rejected c m
    → ((report codec t r fails s).1.nodes ≡ s.nodes)
      × ((report codec t r fails s).1.reports ≡ s.reports)
unfolding report
report_rejected codec t r fails s {c = c} {m = m} h =
    elim (Result-cases (check_request codec t s r)) [
      | inr (response, p) ↦ rw p (refl, refl)
      | inl ((n, e), p) ↦ rw p (
          commit-rejected t r n e fails s (check_request-node codec t s r p)
            (subst (λ x. (after_check t r fails s x).0 ≡ rejected c m) p h))
    ]
