-- ===== src/Client/Tests.antt =====
-- A heartbeat on its way to the monitor.
use sbackup.Base.{
  String, List, [], ◌∷◌, Option, none, some, ok, true, false, ◌≡◌, refl, arith, ℕ, zero, suc, ◌+◌,
  ◌∙◌, ap, nat_beq, if◌then◌else◌,
}
use Prim.Native.Char.{code}
use sbackup.Base.Int.{pos}
use sbackup.Base.Text.{byte_length, trim_space}
use sbackup.Config.{Monitoring}
use sbackup.Monitor.{add_node}
use sbackup.Monitor.Report.{Request, Codec, check_request, is_replay}
use sbackup.Client.{signed_request, short}
use sbackup.Client.Accepted.{known_as, check_request-signed_request}
use sbackup.Samples.{at_rest, plain, heartbeat, quiet, epoch}

-- Numbers in unary, as an encoding that can be read back.
mark : ℕ → String → String
mark zero s = String.◌∷◌ "0" s
mark (suc n) s = String.◌∷◌ "1" (mark n s)

unary : List ℕ → String
unary [] = ""
unary (n ∷ ns) = mark n (unary ns)

abbrev joined : ℕ → Option (List ℕ) → Option (List ℕ)
joined n none = none
joined n (some ns) = some (n ∷ ns)

read_unary : ℕ → String → Option (List ℕ)
read_unary n String.[] = some []
read_unary n (String.◌∷◌ c s) =
    let more = read_unary (suc n) s in
    let next = read_unary 0 s in if nat_beq (code c) 48 then joined n next else more

read_unary-mark : (n b : ℕ) (s : String) → read_unary n (mark b s) ≡ joined (n + b) (read_unary 0 s)
unfolding read_unary mark
read_unary-mark n zero s = ap (λ k. joined k (read_unary 0 s)) (omega arith)
read_unary-mark n (suc b) s =
    read_unary-mark (suc n) b s ∙ ap (λ k. joined k (read_unary 0 s)) (omega arith)

read_unary-unary : (ns : List ℕ) → read_unary 0 (unary ns) ≡ some ns
unfolding unary read_unary
read_unary-unary [] = refl
read_unary-unary (n ∷ ns) =
    read_unary-mark 0 n (unary ns)
    ∙ ap (λ k. joined k (read_unary 0 (unary ns))) (omega arith)
    ∙ ap (joined n) (read_unary-unary ns)

abbrev coded : Codec
coded = record plain { hex = unary; unhex = read_unary 0 }

abbrev reporting : Monitoring
reporting = record {
  enabled = true;
  endpoint = "https://monitor/api/v1/report";
  node_id = "node";
  key_file = "/etc/sbackup/key";
  key_version = pos 1;
  report_system_info = false;
  report_capacity_stats = false;
  heartbeat_enabled = false;
  heartbeat_interval = "5m";
  request_timeout = "10s";
  max_pending_events = pos 10000;
  event_retention = "30d";
}

shortened : short "0123456789abcdef" ≡ "01234567"
unfolding short
shortened = refl

abbrev key : String
key = "0123456789abcdef0123456789abcdef"

added : (add_node (λ k. coded.hex (coded.sha256 k)) "node" "Node" key none quiet).0 ≡ none
unfolding add_node trim_space byte_length
added = refl

never_seen : is_replay "node:n1" epoch.looked_up [] ≡ false
unfolding is_replay
never_seen = refl

check_request-signed_request_example :
    (r : Request) × (signed_request at_rest coded reporting (heartbeat "e1") ≡ ok r)
    × (check_request coded epoch
          (add_node (λ k. coded.hex (coded.sha256 k)) "node" "Node" key none quiet).1
          r
        ≡ ok (known_as coded "node" "Node" key quiet, heartbeat "e1"))
unfolding byte_length
check_request-signed_request_example =
    check_request-signed_request coded at_rest reporting (heartbeat "e1") key "{}" "/api/v1/report"
      "Node" quiet epoch 0 read_unary-unary refl refl refl refl added refl refl refl refl refl
      (omega arith) refl (omega arith) (omega arith) (omega arith) never_seen
