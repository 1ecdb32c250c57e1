-- ===== src/Backup/Snapshots.antt =====
-- `Snapshots` and `SnapshotFiles`: what Restic lists of a job's repository. JSON is a parameter.
use sbackup.Base.{
  String, ◌||◌, List, [], ◌∷◌, ◌++◌, Option, none, some, Result, map, if◌then◌else◌, ◌==◌,
  string_eq,
}
use sbackup.Base.Text.{concat, contains, split, trim_space}
use sbackup.Config.{Config}
use sbackup.Repository.{Runtime, restic_base}
use sbackup.World.{Outside, Exec, give, lift, check, execute, ◌>>=◌, ◌>>◌}
use sbackup.Backup.Commands.{runtime}

-- `Snapshot`; the time is RFC3339 text
pub record Snapshot : Type 0 where
  pub id : String
  pub short_id : String
  pub time : String
  pub hostname : String
  pub tags : List String
  pub paths : List String

-- An element of the list that Restic prints, its time in nanoseconds, and a line of `restic ls`.
pub record Listed : Type 0 where
  pub snapshot : String → Snapshot
  pub instant : String

pub record Entry : Type 0 where
  pub name : String
  pub path : String

-- `json.Unmarshal` into the two types, and `time.Time.Format(time.RFC3339)`.
pub record Json : Type 0 where
  pub decode_list : String → Result String (List Listed)
  pub decode_entry : String → Option Entry
  pub rfc3339 : String → String

abbrev snapshot_of : Json → Listed → Snapshot
snapshot_of json x = x.snapshot (json.rfc3339 x.instant)

-- The path of a line, or its name; a blank line and one that is no object are left out.
unfoldable pub entry_name : Json → String → Option String
entry_name json line = if trim_space line == "" then none else elim (json.decode_entry line) [
  | none ↦ none
  | some e ↦ some (if e.path == "" then e.name else e.path)
]

-- The loop of `SnapshotFiles` over the lines.
unfoldable pub matching_files : Json → String → List String → List String
unfolding entry_name
matching_files json filter [] = []
matching_files json filter (line ∷ lines) =
    let rest = matching_files json filter lines in
    elim (entry_name json line) [
      | none ↦ rest
      | some name ↦ if filter == "" || contains name filter then name ∷ rest else rest
    ]

module _ (o : Outside) (json : Json) (c : Config) where
  -- `executor.Run`: the output, which has at most 2000 lines, each redacted, or the error
  unfoldable pub query : String → Runtime → List String → Exec String String
  query phase rt args = do
    (lines, res) ←
        execute o
          (record { phase = phase; program = c.tools.restic_path; args = args; env = rt.env })
    check (λ e. e) res.error
    give res.output

  -- `Snapshots`
  unfoldable pub snapshots : String → Exec String (List Snapshot)
  unfolding query
  snapshots job_id = do
    (j, rt) ← runtime o c job_id
    output ← query "snapshots" rt (
        restic_base rt
        ++ "snapshots" ∷ "--json" ∷ "--tag" ∷ concat ("sbackup-job=" ∷ job_id ∷ []) ∷ [])
    listed ← lift (json.decode_list output)
    give (map (snapshot_of json) listed)

  -- `SnapshotFiles`
  unfoldable pub snapshot_files : String → String → String → Exec String (List String)
  unfolding query matching_files
  snapshot_files job_id snapshot filter = do
    (j, rt) ← runtime o c job_id
    output ← query "snapshot-files" rt (restic_base rt ++ "ls" ∷ snapshot ∷ "--json" ∷ [])
    give (matching_files json filter (split b'\n' output))
