-- ===== src/FileStore/Atomic.antt =====
-- What `write_file_atomic` leaves, whichever of its calls fails or is the last of the process.
use sbackup.Base.{
  String, false, List, Option, none, some, ok, err, ◌≡◌, refl, sym, ◌∙◌, ◌⊎◌, inl, inr, ◌==◌,
  string_eq,
}
use sbackup.Base.Maps.{
  lookup, put, remove, lookup-put, lookup-put_other, lookup-remove_other, lookup-remove,
  eq-symmetric,
}
use sbackup.FileStore.{
  Disk, Faults, Stop, effect, left, call, run, clean_up, renamed, calls_of, write_file_atomic,
}
use sbackup.FileStore.Runs.{
  run-cases, run-append, go_on-call, clean_up-keeps, call-keeps, run-keeps, AllKeep, applied,
  ok-err, go_on-keeps_ok, go_on-keeps_with, clean_up-cases,
}
use sbackup.FileStore.Untouched.{prepare, finish, Same, put-Same, prepare-Same}

module _ (faults : Faults) (path text temp : String) (old : Option String)
    (t : (temp == path) ≡ false) where
  -- The file is as it was and the temporary file holds the text, or the file holds it.
  abbrev Replaced : List (String × String) → Type 0
  Replaced files =
      ((lookup path files ≡ old) × (lookup temp files ≡ some text))
      ⊎ ((lookup path files ≡ some text) × (lookup temp files ≡ none))

  abbrev Safe : List (String × String) → Type 0
  Safe files = (lookup path files ≡ old) ⊎ (lookup path files ≡ some text)

  Replaced-Safe : (files : List (String × String)) → Replaced files → Safe files
  Replaced-Safe files (inl h) = inl h.0
  Replaced-Safe files (inr h) = inr h.0

  remove-Safe : (files : List (String × String)) → Safe files → Safe (remove temp files)
  remove-Safe files (inl h) = inl (lookup-remove_other path temp files t ∙ h)
  remove-Safe files (inr h) = inr (lookup-remove_other path temp files t ∙ h)

  renamed-Replaced :
      (files : List (String × String)) → Replaced files → Replaced (renamed temp path files)
  unfolding renamed
  renamed-Replaced files (inl h) =
      rw (renamed, h.1)
        (inr (
          lookup-put path text (remove temp files),
          lookup-put_other temp path text (remove temp files) (eq-symmetric temp path t)
              ∙ lookup-remove temp files,
        ))
  renamed-Replaced files (inr h) = rw (renamed, h.1) (inr h)

  finish-Replaced : AllKeep faults Replaced temp path finish
  unfolding AllKeep effect left
  finish-Replaced = (
    (λ files n h. (renamed-Replaced files h, h)),
    ((λ files n h. (h, h)), ((λ files n h. (h, h)), tt)),
  )

  prepared :
      (v : Disk)
      → lookup path v.files ≡ old
      → (run faults temp path (prepare text) v).0 ≡ ok tt
      → Replaced (run faults temp path (prepare text) v).1.files
  unfolding applied effect
  prepared v h q = elim (run-cases faults temp path (prepare text) v) [
    | inl (o, e) ↦
        rw e (inl (lookup-put_other path temp text v.files t ∙ h, lookup-put temp text v.files))
    | inr (s, e) ↦ absurd (ok-err (sym q ∙ e))
  ]

  -- Once the temporary file is prepared, the file is replaced by it in one call.
  run-Safe :
      (v : Disk)
      → lookup path v.files ≡ old
      → Safe (run faults temp path (calls_of faults text) v).1.files
  run-Safe v h =
      let P = Same path temp path old t in
      let x = run faults temp path (prepare text) v in
      rw (run-append faults temp path (prepare text) finish v) (
        go_on-keeps_ok faults Safe (run faults temp path finish) x
          (inl (
            run-keeps faults P temp path (prepare text) v
              (prepare-Same path temp path old t faults text) h))
          (λ q.
            Replaced-Safe _
              (run-keeps faults Replaced temp path finish x.1 finish-Replaced (prepared v h q))))

renamed-text :
    (temp path text : String) (files : List (String × String))
    → lookup path (renamed temp path (put temp text files)) ≡ some text
unfolding renamed
renamed-text temp path text files =
    rw (renamed, lookup-put temp text files)
      (lookup-put path text (remove temp (put temp text files)))

-- When all calls succeed the file holds the text.
run-written :
    (faults : Faults) (path text temp : String)
    → (temp == path) ≡ false
    → (v : Disk)
    → (((run faults temp path (calls_of faults text) v).0 ≡ ok tt)
        × (lookup path (run faults temp path (calls_of faults text) v).1.files ≡ some text))
      ⊎ ((e : Stop) × ((run faults temp path (calls_of faults text) v).0 ≡ err e))
unfolding applied effect
run-written faults path text temp t v = elim (run-cases faults temp path (calls_of faults text) v) [
  | inl (o, e) ↦ inl (o, rw e (renamed-text temp path text v.files))
  | inr h ↦ inr h
]

module _ (faults : Faults) (path text : String) (d : Disk)
    (t : (faults.temp d.calls == path) ≡ false) where
  write_file_atomic-Safe :
      Safe faults path text
        (faults.temp d.calls)
        (lookup path d.files)
        t
        (write_file_atomic faults path text d).1.files
  unfolding write_file_atomic
  write_file_atomic-Safe =
      let temp = faults.temp d.calls in
      let old = lookup path d.files in
      let P = Same path temp path old t in
      go_on-keeps_with faults P (Safe faults path text temp old t)
        (λ v. clean_up faults temp (run faults temp path (calls_of faults text) v))
        (call faults (put temp "" d.files) d.files d)
        (call-keeps faults P (put temp "" d.files) d.files d
          (put-Same path temp path old t "" d.files refl) refl)
        (λ files h. inl h)
        (λ v h.
          clean_up-keeps faults (Safe faults path text temp old t) temp
            (run faults temp path (calls_of faults text) v)
            (run-Safe faults path text temp old t v h) (remove-Safe faults path text temp old t))

  write_file_atomic-cases :
      (((write_file_atomic faults path text d).0 ≡ ok tt)
        × (lookup path (write_file_atomic faults path text d).1.files ≡ some text))
      ⊎ ((e : Stop) × ((write_file_atomic faults path text d).0 ≡ err e))
  unfolding write_file_atomic applied effect
  write_file_atomic-cases =
      let temp = faults.temp d.calls in
      go_on-call faults
        (λ x. ((x.0 ≡ ok tt) × (lookup path x.1.files ≡ some text)) ⊎ ((e : Stop) × (x.0 ≡ err e)))
        (λ v. clean_up faults temp (run faults temp path (calls_of faults text) v))
        (put temp "" d.files) d.files d
        (λ n.
          clean_up-cases faults (λ files. lookup path files ≡ some text) temp
            (run faults temp path (calls_of faults text)
              (record { files = put temp "" d.files; calls = n }))
            (run-written faults path text temp t
              (record { files = put temp "" d.files; calls = n }))
            (λ files h. lookup-remove_other path temp files t ∙ h))
        (λ e v. inr (e, refl))

-- Whatever fails and wherever the process ends, the file has its old contents or the new text, the
-- whole of it; and a call that returns without an error has written the new text.
pub write_file_atomic-lookup :
    (faults : Faults) (path text : String) (d : Disk)
    → (faults.temp d.calls == path) ≡ false
    → (((write_file_atomic faults path text d).0 ≡ ok tt)
        × (lookup path (write_file_atomic faults path text d).1.files ≡ some text))
      ⊎ ((e : Stop) × ((write_file_atomic faults path text d).0 ≡ err e)
          × ((lookup path (write_file_atomic faults path text d).1.files ≡ lookup path d.files)
              ⊎ (lookup path (write_file_atomic faults path text d).1.files ≡ some text)))
write_file_atomic-lookup faults path text d t =
    elim (write_file_atomic-cases faults path text d t) [
      | inl h ↦ inl h
      | inr (e, h) ↦ inr (e, h, write_file_atomic-Safe faults path text d t)
    ]
