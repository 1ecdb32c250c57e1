-- ===== src/Database/Secrets.antt =====
-- internal/database/dump.go: the files with the password of a dump.
use sbackup.Base.{
  String, Bool, false, not, List, [], ◌∷◌, Result-cases, Option-cases, any, filter, ◌≡◌, refl, inl,
  inr, ◌==◌, string_eq, Bool-cases, true, some, ◌⊎◌, if◌then◌else◌,
}
use sbackup.Config.{Config, Database}
use sbackup.World.{Outside, Work}
use sbackup.Database.{dump_mysql, defaults_file, credentials, mysql_content}

abbrev pub among_files : String → Work → Bool
among_files name w = any (λ f. f == name) w.files

any-filter-not :
    (name : String) (fs : List String)
    → any (λ f. f == name) (filter (λ f. not (f == name)) fs) ≡ false
unfolding filter
any-filter-not name [] = refl
any-filter-not name (f ∷ fs) =
    let h = any-filter-not name fs in
    elim (Bool-cases (f == name)) [ inl e ↦ rw e h | inr e ↦ rw (e, e) h ]

module _ (o : Outside) where
  -- A file of which `os.WriteFile` failed and left a part, or that `os.Remove` could not remove.
  abbrev pub IsStuck : String → Type 0
  IsStuck name =
      (o.remove_fails name ≡ true)
      ⊎ ((o.is_left name ≡ true)
          × (text : String) × (e : String) × (o.write_file name text ≡ some e))

  -- A file that was not there is gone, or it is stuck.
  abbrev IsGone : String → Work → Type 0
  IsGone name w = (among_files name w ≡ false) ⊎ IsStuck name

  IsGone-after_remove :
      (name : String) (w : Work)
      → IsGone name (
          if o.remove_fails name
          then w
          else record w { files = filter (λ f. not (f == name)) w.files })
  IsGone-after_remove name w = elim (Bool-cases (o.remove_fails name)) [
    | inl e ↦ inr (inl e)
    | inr e ↦ rw e (inl (any-filter-not name w.files))
  ]

  IsGone-after_failure :
      (name text e : String) (w : Work)
      → among_files name w ≡ false
      → o.write_file name text ≡ some e
      → IsGone name (if o.is_left name then record w { files = name ∷ w.files } else w)
  IsGone-after_failure name text e w h q = elim (Bool-cases (o.is_left name)) [
    | inl l ↦ inr (inr (l, text, e, q))
    | inr l ↦ rw l (inl h)
  ]

  module _ (c : Config) (d : Database) (dir : String) where
    -- The same of the defaults file of a MySQL dump.
    pub dump_mysql-removes :
        (w : Work)
        → among_files (defaults_file o c d dir) w ≡ false
        → (among_files (defaults_file o c d dir) (dump_mysql o c d dir w).1 ≡ false)
          ⊎ IsStuck (defaults_file o c d dir)
    unfolding dump_mysql
    dump_mysql-removes w h = elim (Result-cases (credentials o d.credential_file)) [
      | inr (e, p) ↦ rw p (inl h)
      | inl (m, p) ↦
          let name = defaults_file o c d dir in
          elim (Option-cases (o.write_file name (mysql_content o c d dir m))) [
            | inr (e, q) ↦ rw (p, q) (IsGone-after_failure name _ e w h q)
            | inl q ↦ rw (p, q) (IsGone-after_remove name _)
          ]
    ]
