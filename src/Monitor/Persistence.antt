-- ===== src/Monitor/Persistence.antt =====
-- internal/monitor/server.go: `load` and `saveLocked` over the files of `FileStore`. JSON is a
-- parameter. The nonces are not part of what is saved.
pub mod Restart
mod Tests
use sbackup.Base.{
  ℕ, String, Bool, true, false, List, [], ◌∷◌, Option, none, some, Result, ok, err, if◌then◌else◌,
  ◌==◌, string_eq,
}
use sbackup.Base.Maps.{lookup, put}
use sbackup.FileStore.{Disk, Faults, Stop, failed, call, go_on, write_file_atomic}
use sbackup.Protocol.{Event}
use sbackup.Monitor.{Server, Node}

-- `State` as it is encoded; nodes may be null.
pub record Saved : Type 0 where
  pub nodes : Option (List (String × Node))
  pub reports : List Event

pub record Json : Type 0 where
  pub marshal : Saved → Result String String
  pub unmarshal : String → Result String Saved

-- The part of the server that `saveLocked` encodes.
abbrev pub to_save : Server → Saved
to_save s = record { nodes = some s.nodes; reports = s.reports }

-- A node without an id gets that of its entry.
unfoldable pub named_nodes : List (String × Node) → List (String × Node)
named_nodes [] = []
named_nodes ((id, n) ∷ nodes) =
    (id, record n { id = if n.id == "" then id else n.id }) ∷ named_nodes nodes

abbrev pub nodes_of : Option (List (String × Node)) → List (String × Node)
nodes_of none = []
nodes_of (some nodes) = nodes

-- The server after `load` of a file.
unfoldable pub restored : Saved → Server
unfolding named_nodes
restored saved = record {
  nodes = named_nodes (nodes_of saved.nodes);
  reports = saved.reports;
  nonces = [];
}

abbrev pub empty : Server
empty = record { nodes = []; reports = []; nonces = [] }

module _ (faults : Faults) (json : Json) (data_file : String) where
  abbrev pub decoded : Result String Saved → Result Stop Server
  decoded (ok saved) = ok (restored saved)
  decoded (err e) = err (failed e)

  abbrev pub read : Result Stop (Unit {0}) → Option String → Result Stop Server
  read (err s) file = err s
  read (ok u) none = ok empty
  read (ok u) (some text) = decoded (json.unmarshal text)

  -- `load`, on the server that `New` makes
  unfoldable pub load : Disk → Result Stop Server × Disk
  unfolding restored
  load d = let (r, d') = call faults d.files d.files d in (read r (lookup data_file d.files), d')

  abbrev written : Disk → Result String String → Result Stop (Unit {0}) × Disk
  written d (err e) = (err (failed e), d)
  written d (ok text) = write_file_atomic faults data_file text d

  -- `saveLocked`: the directory, the encoding, the file
  unfoldable pub save : Server → Disk → Result Stop (Unit {0}) × Disk
  save s d =
      go_on faults (λ d'. written d' (json.marshal (to_save s))) (call faults d.files d.files d)
