-- ===== src/FileStore/Untouched.antt =====
-- The files that `write_file_atomic` does not touch.
use sbackup.Base.{
  String, false, List, [], ◌∷◌, Option, ◌≡◌, refl, ◌∙◌, inl, inr, ◌==◌, string_eq, Option-cases,
}
use sbackup.Base.Maps.{lookup, put, remove, lookup-put_other, lookup-remove_other}
use sbackup.FileStore.{
  Disk, Faults, Op, chmod, write, sync, close, rename, open_dir, sync_dir, effect, left, call, run,
  clean_up, renamed, calls_of, write_file_atomic,
}
use sbackup.FileStore.Runs.{run-append, go_on-keeps, clean_up-keeps, call-keeps, run-keeps, AllKeep}

-- The first calls, which only touch the temporary file.
abbrev pub prepare : String → List Op
prepare text = chmod ∷ write text ∷ sync ∷ close ∷ []

-- The last calls.
abbrev pub finish : List Op
finish = rename ∷ open_dir ∷ sync_dir ∷ []

module _ (other temp path : String) (before : Option String) (t : (temp == other) ≡ false) where
  abbrev pub Same : List (String × String) → Type 0
  Same files = lookup other files ≡ before

  pub put-Same :
      (text : String) (files : List (String × String)) → Same files → Same (put temp text files)
  put-Same text files h = lookup-put_other other temp text files t ∙ h

  remove-Same : (files : List (String × String)) → Same files → Same (remove temp files)
  remove-Same files h = lookup-remove_other other temp files t ∙ h

  pub prepare-Same :
      (faults : Faults) (text : String) → AllKeep faults Same temp path (prepare text)
  unfolding AllKeep effect left
  prepare-Same faults text = (
    (λ files n h. (h, h)),
    (
      (λ files n h. (put-Same _ files h, put-Same _ files h)),
      ((λ files n h. (h, h)), ((λ files n h. (h, h)), tt)),
    ),
  )

  renamed-Same :
      (path == other) ≡ false
      → (files : List (String × String)) → Same files
      → Same (renamed temp path files)
  unfolding renamed
  renamed-Same p files h = elim (Option-cases (lookup temp files)) [
    | inl e ↦ rw (renamed, e) h
    | inr (text, e) ↦
        rw (renamed, e)
          (lookup-put_other other path text (remove temp files) p ∙ remove-Same files h)
  ]

  finish-Same : (faults : Faults) → (path == other) ≡ false → AllKeep faults Same temp path finish
  unfolding AllKeep effect left
  finish-Same faults p = (
    (λ files n h. (renamed-Same p files h, h)),
    ((λ files n h. (h, h)), ((λ files n h. (h, h)), tt)),
  )

-- Whatever fails and wherever the process ends, the other files are what they were, but for the
-- temporary file.
pub write_file_atomic-lookup_other :
    (faults : Faults) (path text other : String) (d : Disk)
    → (faults.temp d.calls == other) ≡ false
    → (path == other) ≡ false
    → lookup other (write_file_atomic faults path text d).1.files ≡ lookup other d.files
unfolding write_file_atomic
write_file_atomic-lookup_other faults path text other d t p =
    let temp = faults.temp d.calls in
    let before = lookup other d.files in
    let P = Same other temp path before t in
    go_on-keeps faults P (λ v. clean_up faults temp (run faults temp path (calls_of faults text) v))
      (call faults (put temp "" d.files) d.files d)
      (call-keeps faults P (put temp "" d.files) d.files d
        (put-Same other temp path before t "" d.files refl) refl)
      (λ v h.
        clean_up-keeps faults P temp (run faults temp path (calls_of faults text) v)
          (rw (run-append faults temp path (prepare text) finish v) (
            go_on-keeps faults P (run faults temp path finish)
              (run faults temp path (prepare text) v)
              (run-keeps faults P temp path (prepare text) v
                (prepare-Same other temp path before t faults text) h)
              (λ w g.
                run-keeps faults P temp path finish w
                  (finish-Same other temp path before t faults p) g)))
          (remove-Same other temp path before t))
