-- ===== src/FileStore.antt =====
-- Files that are replaced as a whole: `writeFileAtomic` of internal/config/config.go and of
-- internal/repository/webdav.go, and `saveLocked` of internal/monitor/server.go, which make the same
-- calls. A call fails, or the process ends before it has an effect, as the parameter `Faults` says.
pub mod Untouched
pub mod Atomic
pub mod Runs
mod Tests
use sbackup.Base.{
  ℕ, suc, String, Bool, true, false, List, [], ◌∷◌, ◌++◌, Option, none, some, Result, ok, err,
}
use sbackup.Base.Maps.{lookup, put, remove}

-- The contents of the files, and the number of calls so far.
pub record Disk : Type 0 where
  pub files : List (String × String)
  pub calls : ℕ

pub record Faults : Type 0 where
  -- whether the process ends at a call, and the error of a call that fails
  pub ends : ℕ → Bool
  pub error : ℕ → Option String
  -- what a write that does not succeed leaves of the text
  pub written : ℕ → String → String
  -- the name that `os.CreateTemp` gives
  pub temp : ℕ → String

-- Why a sequence of calls stopped.
pub data Stop : Type 0 where
  ended : Stop
  failed : String → Stop

-- The calls on the temporary file after it was created.
pub data Op : Type 0 where
  chmod sync close rename open_dir sync_dir : Op
  write : String → Op

-- `os.Rename`
unfoldable pub renamed : String → String → List (String × String) → List (String × String)
renamed from to files = elim (lookup from files) [
  | none ↦ files
  | some text ↦ put to text (remove from files)
]

-- What a call does to the files when it succeeds.
unfoldable pub effect : String → String → Op → List (String × String) → List (String × String)
unfolding renamed
effect temp path (write text) files = put temp text files
effect temp path rename files = renamed temp path files
effect temp path chmod files = files
effect temp path sync files = files
effect temp path close files = files
effect temp path open_dir files = files
effect temp path sync_dir files = files

module _ (faults : Faults) where
  -- What it does when it does not succeed.
  unfoldable pub left : String → ℕ → Op → List (String × String) → List (String × String)
  left temp n (write text) files = put temp (faults.written n text) files
  left temp n chmod files = files
  left temp n sync files = files
  left temp n close files = files
  left temp n rename files = files
  left temp n open_dir files = files
  left temp n sync_dir files = files

  -- One call, with what it does to the files in either case.
  abbrev pub outcome :
      Bool
      → Option String
      → List (String × String)
      → List (String × String)
      → ℕ
      → Result Stop (Unit {0}) × Disk
  outcome true e good bad n = (err ended, record { files = bad; calls = suc n })
  outcome false (some e) good bad n = (err (failed e), record { files = bad; calls = suc n })
  outcome false none good bad n = (ok tt, record { files = good; calls = suc n })

  abbrev pub call :
      List (String × String) → List (String × String) → Disk → Result Stop (Unit {0}) × Disk
  call good bad d = outcome (faults.ends d.calls) (faults.error d.calls) good bad d.calls

  unfoldable pub step : String → String → Op → Disk → Result Stop (Unit {0}) × Disk
  unfolding effect left
  step temp path op d = call (effect temp path op d.files) (left temp d.calls op d.files) d

  -- A sequence of calls, which stops at the first that does not succeed.
  abbrev pub go_on :
      (Disk → Result Stop (Unit {0}) × Disk)
      → Result Stop (Unit {0}) × Disk
      → Result Stop (Unit {0}) × Disk
  go_on rest (ok u, d) = rest d
  go_on rest (err e, d) = (err e, d)

  unfoldable pub run : String → String → List Op → Disk → Result Stop (Unit {0}) × Disk
  run temp path [] d = (ok tt, d)
  run temp path (op ∷ ops) d = go_on (run temp path ops) (step temp path op d)

  -- The deferred `os.Remove(tmpName)`; its error is dropped, and a process that has ended makes no call.
  abbrev pub keep_result :
      Result Stop (Unit {0}) → Result Stop (Unit {0}) × Disk → Result Stop (Unit {0}) × Disk
  keep_result r (err ended, d) = (err ended, d)
  keep_result r (err (failed e), d) = (r, d)
  keep_result r (ok u, d) = (r, d)

  abbrev pub clean_up : String → Result Stop (Unit {0}) × Disk → Result Stop (Unit {0}) × Disk
  clean_up temp (err ended, d) = (err ended, d)
  clean_up temp (err (failed e), d) =
      keep_result (err (failed e)) (call (remove temp d.files) d.files d)
  clean_up temp (ok u, d) = keep_result (ok u) (call (remove temp d.files) d.files d)

  abbrev pub calls_of : String → List Op
  calls_of text = chmod ∷ write text ∷ sync ∷ close ∷ rename ∷ open_dir ∷ sync_dir ∷ []

  -- `writeFileAtomic`
  unfoldable pub write_file_atomic : String → String → Disk → Result Stop (Unit {0}) × Disk
  unfolding run step
  write_file_atomic path text d =
      let temp = faults.temp d.calls in
      go_on (λ v. clean_up temp (run temp path (calls_of text) v))
        (call (put temp "" d.files) d.files d)
