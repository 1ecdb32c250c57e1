-- ===== src/Repository/Webdav/Refused.antt =====
-- A remote that the configuration of rclone has already is refused.
use sbackup.Base.{
  ℕ, suc, String, Bool, true, false, List, [], ◌∷◌, Option, none, some, Result, err, ◌≡◌, refl, ◌∙◌,
  inl, inr, Result-cases,
}
use sbackup.Base.Text.{concat}
use sbackup.Base.Maps.{lookup, lookup-put_other}
use sbackup.FileStore.{Disk, Faults, ended, outcome}
use sbackup.Config.File.Saved.{appended_differs, lock_size}
use sbackup.Config.Std.{Std}
use sbackup.Repository.Webdav.{
  Remote, WebdavError, stopped, already_there, has_section, check_remote, named, continue, called,
  opened, add_remote, locked_add, configure_webdav,
}

module _ (std : Std) (faults : Faults) (obscure : Result String String) where
  continue-called :
      (Q : Result WebdavError (Unit {0}) × Disk → Type 0)
      → (rest : Disk → Result WebdavError (Unit {0}) × Disk) (what : String)
        (good : List (String × String)) (d : Disk)
      → ((n : ℕ) → Q (rest (record { files = good; calls = n })))
      → ((e : WebdavError) (n : ℕ) → Q (err e, record { files = d.files; calls = n }))
      → Q (continue std faults obscure rest (called std faults obscure what good d))
  continue-called Q rest what good d k h = after (faults.ends d.calls) (faults.error d.calls)
    where
      after :
          (b : Bool) (o : Option String)
          → Q (
              continue std faults obscure rest
                (named std faults obscure what (outcome faults b o good d.files d.calls)))
      after true o = h (stopped ended) (suc d.calls)
      after false (some e) = h _ (suc d.calls)
      after false none = k (suc d.calls)

  module _ (r : Remote) (old : String) where
    abbrev pub Unchanged : Result WebdavError (Unit {0}) × Disk → Type 0
    Unchanged x = ((e : WebdavError) × (x.0 ≡ err e)) × (lookup r.config_path x.1.files ≡ some old)

    called-Unchanged :
        (rest : Disk → Result WebdavError (Unit {0}) × Disk) (what : String)
        (good : List (String × String)) (d : Disk)
        → lookup r.config_path d.files ≡ some old
        → ((n : ℕ) → Unchanged (rest (record { files = good; calls = n })))
        → Unchanged (continue std faults obscure rest (called std faults obscure what good d))
    called-Unchanged rest what good d h k =
        continue-called Unchanged rest what good d k (λ e n. ((e, refl), h))

    opened-same :
        (o : Option String) (d : Disk)
        → lookup r.config_path d.files ≡ some old
        → lookup r.config_path (opened std faults obscure r o d) ≡ some old
    opened-same none d h =
        lookup-put_other r.config_path (concat (r.config_path ∷ ".lock" ∷ [])) "" d.files
          (appended_differs r.config_path ".lock" 4 lock_size)
        ∙ h
    opened-same (some text) d h = h

    add_remote-Unchanged :
        (file : Option String) (d : Disk)
        → file ≡ some old
        → lookup r.config_path d.files ≡ some old
        → has_section r.name old ≡ true
        → Unchanged (add_remote std faults obscure r file d)
    unfolding add_remote
    add_remote-Unchanged file d f h s = rw (f, add_remote, s) ((already_there, refl), h)

    locked_add-Unchanged :
        (d : Disk)
        → lookup r.config_path d.files ≡ some old
        → has_section r.name old ≡ true
        → Unchanged (locked_add std faults obscure r d)
    unfolding locked_add
    locked_add-Unchanged d h s = called-Unchanged _ "" d.files d h (λ n.
        let v : Disk = record { files = d.files; calls = n } in
        let o = lookup (concat (r.config_path ∷ ".lock" ∷ [])) d.files in
        let files = opened std faults obscure r o v in
        let same = opened-same o v h in
        called-Unchanged _ "打开 rclone 配置锁: " files v h (λ m.
          called-Unchanged _ "锁定 rclone 配置: " files (record { files = files; calls = m }) same
            (λ k.
              called-Unchanged _ "" files (record { files = files; calls = k }) same
                (λ j. add_remote-Unchanged _ (record { files = files; calls = j }) same same s))))

-- A remote whose section is in the configuration of rclone is refused with an error, and the
-- configuration stays as it is, whatever fails.
pub configure_webdav-Unchanged :
    (std : Std) (faults : Faults) (obscure : Result String String) (r : Remote) (old : String)
    (d : Disk)
    → lookup r.config_path d.files ≡ some old
    → has_section r.name old ≡ true
    → ((e : WebdavError) × ((configure_webdav std faults obscure r d).0 ≡ err e))
      × (lookup r.config_path (configure_webdav std faults obscure r d).1.files ≡ some old)
unfolding configure_webdav
configure_webdav-Unchanged std faults obscure r old d h s =
    elim (Result-cases (check_remote std r)) [
      | inl (u, c) ↦ rw (configure_webdav, c) (locked_add-Unchanged std faults obscure r old d h s)
      | inr (e, c) ↦ rw (configure_webdav, c) ((e, refl), h)
    ]
