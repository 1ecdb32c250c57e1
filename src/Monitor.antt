-- ===== src/Monitor.antt =====
-- internal/monitor/server.go: the state of the monitor. A map is the list of its entries, each key once;
-- an entry that is written again stays at its place.
pub mod Report
pub mod Replay
pub mod Rejections
pub mod Age
pub mod View
pub mod Persistence
mod Tests
use sbackup.Base.Maps.{lookup, put, remove}
use sbackup.Base.{
  ℕ, ◌+◌, String, Bool, true, false, not, ◌&&◌, ◌||◌, List, [], ◌∷◌, Option, none, some, Result, ok,
  err, if◌then◌else◌, ◌==◌, string_eq, nat_beq, ltb, filter,
}
use sbackup.Base.Int.{ℤ, pos}
use sbackup.Base.Text.{byte_length, trim_space, codes}
use sbackup.Protocol.{Event}

pub record JobState : Type 0 where
  pub name : String
  pub status : String
  pub last_attempt : ℕ
  pub last_success : ℕ
  pub next_expected : ℕ
  pub consecutive_failures : ℤ
  pub grace_seconds : ℤ

pub record Node : Type 0 where
  pub id : String
  pub name : String
  pub secret_hex : String
  pub key_version : ℤ
  pub last_heartbeat : ℕ
  pub jobs : List (String × JobState)

-- `State`, and the map `nonces`.
pub record Server : Type 0 where
  pub nodes : List (String × Node)
  pub reports : List Event
  pub nonces : List (String × ℕ)

-- `Node{}`, `JobState{}`
abbrev pub no_node : Node
no_node = record {
  id = "";
  name = "";
  secret_hex = "";
  key_version = pos 0;
  last_heartbeat = 0;
  jobs = [];
}

abbrev pub no_job : JobState
no_job = record {
  name = "";
  status = "";
  last_attempt = 0;
  last_success = 0;
  next_expected = 0;
  consecutive_failures = pos 0;
  grace_seconds = pos 0;
}

abbrev pub or_else : {A : Type 0} → A → Option A → A
or_else a none = a
or_else a (some b) = b

-- `AddNode`, with the hex of `sha256.Sum256` and whether `saveLocked` succeeds; `none` is success. A save
-- that fails puts the old entry back, or takes the new one out.
module _ (sha256_hex : String → String) where
  abbrev added : String → String → String → Node → Node
  added id name key n = record n {
    id = id;
    name = name;
    secret_hex = sha256_hex key;
    key_version = pos 1;
  }

  abbrev restored : String → Option Node → List (String × Node) → List (String × Node)
  restored id none nodes = remove id nodes
  restored id (some old) nodes = put id old nodes

  unfoldable pub add_node :
      String → String → String → Option String → Server → Option String × Server
  add_node id name key_text save_error s =
      let key = trim_space key_text in
      let previous = lookup id s.nodes in
      let nodes = put id (added id name key (or_else no_node previous)) s.nodes in
      if id == "" || ltb (byte_length (codes key)) 32
      then (some "node id 不能为空，key 至少需要 32 个字符", s)
      else elim save_error [
        | none ↦ (none, record s { nodes = nodes })
        | some e ↦ (some e, record s { nodes = restored id previous nodes })
      ]
