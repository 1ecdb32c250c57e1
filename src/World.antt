-- ===== src/World.antt =====
-- What the program asks of the operating system, of the database driver and of the commands that it
-- runs (`Outside`), what a run of a job changes (`Work`), and functions that fail and change it (`Exec`).

pub mod Steps
use sbackup.Base.{
  if◌then◌else◌, ℕ, zero, suc, ◌+◌, String, Bool, true, false, List, [], ◌∷◌, Option, none, some,
  Result, ok, err, ◌||◌, filter, not, ◌==◌, string_eq,
}
use sbackup.Base.Int.{ℤ}
use sbackup.Base.Text.{concat, has_prefix}
use sbackup.Base.FilePath.{CleanPath}
use sbackup.Executor.Output.{Ended, RunResult, run_result}
use sbackup.Lock.{LockDir, LockFile}
use sbackup.Store.{Run, StoreError}

-- The arguments of `executor.Run`.
pub record Command : Type 0 where
  pub phase : String
  pub program : String
  pub args : List String
  pub env : List String

-- `Summary`; its `total_duration` and `message_type` are never read.
pub record Summary : Type 0 where
  pub snapshot_id : String
  pub files_new : ℤ
  pub files_changed : ℤ
  pub files_unmodified : ℤ
  pub data_added : ℤ
  pub total_bytes_processed : ℤ

-- What `encoding/json` makes of a line of Restic's output: no object, an object whose `message_type` is
-- `summary` and which overwrites the fields that it has, or another object.
pub data Decoded : Type 0 where
  no_object other_object : Decoded
  summary_object : (Summary → Summary) → Decoded

-- What `os.Lstat` finds.
pub data Lstat : Type 0 where
  missing symlink other_kind : Lstat
  unreadable : String → Lstat

pub record Outside : Type 0 where
  -- `time.Now`, by the number of the call
  pub now : ℕ → ℕ
  -- what `store.NewID` makes of the clock
  pub new_id : String
  -- `time.ParseDuration`
  pub parse_duration : String → Option ℤ
  -- `strconv.Quote`, which `%q` writes
  pub quote : String → String
  -- `filepath.Join`, `filepath.Base`
  pub join : String → String → String
  pub base_name : String → String
  -- which lock files this process can create and open
  pub openable : LockDir → String → Bool
  -- the error of the last directory that `Acquire` tried, when it could open no lock file
  pub lock_error : String
  -- the error of opening the log file
  pub open_log : String → Option String
  -- the error of the database driver, by the number of the call of `SaveRun`
  pub save_error : ℕ → Option String
  -- the driver's text for an error of the SQL itself
  pub store_error : StoreError → String
  -- `exec.LookPath` before and after the installer ran, `os.Geteuid() == 0`, the directory of
  -- `os.Executable`, a regular file with an executable bit, and the installer's error
  pub look_path : Bool → String → Bool
  pub is_root : Bool
  pub executable_dir : Option String
  pub is_script : String → Bool
  pub install : String → Option String
  -- `os.ReadFile`, and `json.Unmarshal` into a map of texts
  pub read_file : String → Result String String
  pub decode_map : String → Result String (List (String × String))
  -- the errors of `os.Stat`, `os.MkdirAll`, `os.MkdirTemp`, `os.WriteFile`, `os.OpenFile`, `Close`, `os.Chmod`
  pub stat : String → Option String
  pub make_dir : String → Option String
  pub make_temp : String → String → Result String String
  pub write_file : String → String → Option String
  -- whether a file is there, empty or in part, behind an `os.WriteFile` of it that failed
  pub is_left : String → Bool
  -- whether `os.Remove` of it fails
  pub remove_fails : String → Bool
  pub open_file : String → Option String
  pub close_file : String → Option String
  pub chmod : String → Option String
  -- `os.Lstat`, and `filepath.EvalSymlinks`, on cleaned paths
  pub lstat : CleanPath → Lstat
  pub eval_symlinks : CleanPath → Option String
  -- a command's output lines and its end, by the number of the command
  pub execute : ℕ → Command → List String × Ended
  pub decode_line : String → Decoded
  -- `runCtx.Err()` after the backup command failed, with the timeout of the context
  pub context_error : ℤ → Option String

-- `files` are the files and directories that the program itself created under the temporary directory, `run` is
-- the variable `r`, and `started` and `finished` are the calls of the two callbacks, the last one first.
pub record Work : Type 0 where
  pub ticks : ℕ
  pub saves : ℕ
  pub rows : List Run
  pub files : List String
  pub commands : List Command
  pub run : Run
  pub started : List Run
  pub finished : List Run

abbrev pub Exec : Type 0 → Type 0 → Type 0
Exec E A = Work → Result E A × Work

module _ {E A : Type 0} where
  abbrev pub give : A → Exec E A
  give a w = (ok a, w)

  abbrev pub raise : E → Exec E A
  raise e w = (err e, w)

  -- `if err != nil { return f(err) }`
  abbrev pub renamed : {D : Type 0} → (D → E) → Result D A × Work → Result E A × Work
  renamed f (ok a, v) = (ok a, v)
  renamed f (err e, v) = (err (f e), v)

  abbrev pub relabel : {D : Type 0} → (D → E) → Exec D A → Exec E A
  relabel f m w = renamed f (m w)

  -- `value, err := m()`
  abbrev pub attempt : {D : Type 0} → Exec D A → Exec E (Result D A)
  attempt m w = let (r, v) = m w in (ok r, v)

  abbrev pub lift : Result E A → Exec E A
  lift r w = (r, w)

module _ {E A B : Type 0} where
  abbrev pub after : (A → Exec E B) → Result E A × Work → Result E B × Work
  after f (ok a, w) = f a w
  after f (err e, w) = (err e, w)

  infixl 5 ◌>>=◌
  abbrev pub ◌>>=◌ : Exec E A → (A → Exec E B) → Exec E B
  (m >>= f) w = after f (m w)

module _ {E B : Type 0} where
  infixl 5 ◌>>◌
  abbrev pub ◌>>◌ : Exec E (Unit {0}) → Exec E B → Exec E B
  (m >> k) w = after (λ _. k) (m w)

abbrev pub when : {E : Type 0} → Bool → Exec E (Unit {0}) → Exec E (Unit {0})
when true m = m
when false m = give tt

-- `if err := call(); err != nil { return f(err) }`, for a call that only fails or not
abbrev pub check : {E : Type 0} → (String → E) → Option String → Exec E (Unit {0})
check f none w = (ok tt, w)
check f (some e) w = (err (f e), w)

-- a lookup that fails with `e`
abbrev pub find_or : {E A : Type 0} → E → Option A → Exec E A
find_or e none w = (err e, w)
find_or e (some a) w = (ok a, w)

abbrev pub update : {E : Type 0} → (Work → Work) → Exec E (Unit {0})
update f w = (ok tt, f w)

abbrev pub the_run : {E : Type 0} → Exec E Run
the_run w = (ok w.run, w)

-- an assignment to fields of `r`
abbrev pub set_run : {E : Type 0} → (Run → Run) → Exec E (Unit {0})
set_run f w = (ok tt, record w { run = f w.run })

abbrev pub add_file : {E : Type 0} → String → Exec E (Unit {0})
add_file name w = (ok tt, record w { files = name ∷ w.files })

module _ (o : Outside) where
  abbrev written : String → Work → Option String → Result String (Unit {0}) × Work
  written name w none = (ok tt, record w { files = name ∷ w.files })
  written name w (some e) =
      (err e, if o.is_left name then record w { files = name ∷ w.files } else w)

  -- `os.WriteFile`; one that fails can leave a file.
  abbrev pub write_file_at : String → String → Exec String (Unit {0})
  write_file_at name text w = written name w (o.write_file name text)

  -- `os.Remove`, whose error is dropped
  abbrev pub remove_file : {E : Type 0} → String → Exec E (Unit {0})
  remove_file name w = (
    ok tt,
    if o.remove_fails name then w else record w { files = filter (λ f. not (f == name)) w.files },
  )

  -- `time.Now`
  unfoldable pub clock : {E : Type 0} → Exec E ℕ
  clock w = (ok (o.now w.ticks), record w { ticks = suc w.ticks })

  -- `executor.Run`
  unfoldable pub execute : {E : Type 0} → Command → Exec E (List String × RunResult)
  execute k w =
      let (lines, ended) = o.execute (length_of w.commands) k in
      (ok (lines, run_result lines ended), record w { commands = k ∷ w.commands })
    where
      length_of : List Command → ℕ
      length_of [] = 0
      length_of (x ∷ xs) = suc (length_of xs)

-- `os.RemoveAll`
abbrev pub remove_all : {E : Type 0} → String → Exec E (Unit {0})
remove_all name w = (
  ok tt,
  record w {
    files = filter (λ f. not (f == name || has_prefix f (concat (name ∷ "/" ∷ [])))) w.files;
  },
)
