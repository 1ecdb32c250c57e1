-- ===== src/Repository/Password/Exclusive.antt =====
-- A password file that exists stays as it is; a new one has the password.
use sbackup.Base.{
  ℕ, ◌≤◌, String, Bool, true, false, [], ◌∷◌, Option, none, some, Result, ok, err, ◌≡◌, refl, ap,
  ◌∙◌, ◌⊎◌, inl, inr, Result-cases, >>-eq-ok, >>=-eq-ok, arith, subst, reject_if, reject_if-eq-ok,
  ltb, ◌==◌, string_eq,
}
use sbackup.Base.Text.{byte_length, codes, concat, contains_newline}
use sbackup.Base.Maps.{lookup, put, remove, lookup-put}
use sbackup.FileStore.{
  Disk, Faults, Stop, ended, failed, write, sync, close, call, outcome, run, keep_result, go_on,
  effect,
}
use sbackup.FileStore.Runs.{go_on-call, ok-err, run-cases, applied}
use sbackup.Repository.Password.{
  PasswordError, stopped, accepted_password, chosen, measured, trimmed, too_short, has_newline,
  empty_path, open_exclusive, dropped, write_new, answered, create_password_file,
}

module _ (faults : Faults) (path old : String) where
  -- The file as it was, and an error.
  abbrev pub Refused : {E A : Type 0} → Result E A × Disk → Type 0
  Refused {E} x = ((e : E) × (x.0 ≡ err e)) × (lookup path x.1.files ≡ some old)

  open_exclusive-Refused :
      (rest : Disk → Result Stop (Unit {0}) × Disk) (d : Disk)
      → lookup path d.files ≡ some old
      → Refused (go_on faults rest (open_exclusive faults path (some old) d))
  unfolding open_exclusive
  open_exclusive-Refused rest d h = at (faults.ends d.calls)
    where
      at :
          (b : Bool)
          → Refused (
              go_on faults rest (
                outcome faults b
                  (some (concat ("密码文件已存在，拒绝覆盖: " ∷ path ∷ [])))
                  d.files
                  d.files
                  d.calls))
      at true = ((ended, refl), h)
      at false = ((_, refl), h)

  write_new-Refused :
      (password : String) (d : Disk)
      → lookup path d.files ≡ some old
      → Refused (write_new faults path password d)
  unfolding write_new
  write_new-Refused password d h =
      go_on-call faults Refused _ d.files d.files d
        (λ n. rw h (open_exclusive-Refused _ (record { files = d.files; calls = n }) h))
        (λ e n. ((e, refl), h))

-- A password file that is there already is neither changed nor taken for the new one, whatever fails.
pub create_password_file-Refused :
    (faults : Faults) (path old : String) (random : Result String String) (password : String)
    (d : Disk)
    → lookup path d.files ≡ some old
    → ((e : PasswordError) × ((create_password_file faults path random password d).0 ≡ err e))
      × (lookup path (create_password_file faults path random password d).1.files ≡ some old)
unfolding create_password_file
create_password_file-Refused faults path old random password d h =
    elim (Result-cases (accepted_password path password random)) [
      | inr (e, q) ↦ rw (create_password_file, q) ((e, refl), h)
      | inl (given, q) ↦
          rw (create_password_file, q)
            (told given (write_new faults path given.0 d)
              (write_new-Refused faults path old given.0 d h))
    ]
  where
    told :
        (given : String × Bool) (x : Result Stop (Unit {0}) × Disk)
        → ((e : Stop) × (x.0 ≡ err e)) × (lookup path x.1.files ≡ some old)
        → ((e : PasswordError) × ((answered faults path given x).0 ≡ err e))
          × (lookup path (answered faults path given x).1.files ≡ some old)
    told given (ok u, v) ((e, q), k) = absurd (ok-err q)
    told given (err e, v) (q, k) = ((stopped e, refl), k)

module _ (faults : Faults) (path text : String) where
  abbrev Written : Result Stop (Unit {0}) × Disk → Type 0
  Written x = ((x.0 ≡ ok tt) × (lookup path x.1.files ≡ some text)) ⊎ ((e : Stop) × (x.0 ≡ err e))

  kept :
      (e : String) (x : Result Stop (Unit {0}) × Disk)
      → (s : Stop) × ((keep_result faults (err (failed e)) x).0 ≡ err s)
  kept e (ok u, d) = (failed e, refl)
  kept e (err ended, d) = (ended, refl)
  kept e (err (failed q), d) = (failed e, refl)

  dropped-Written :
      (x : Result Stop (Unit {0}) × Disk) → Written x → Written (dropped faults path x)
  dropped-Written (ok u, d) h = h
  dropped-Written (err ended, d) h = inr (ended, refl)
  dropped-Written (err (failed e), d) h = inr (kept e (call faults (remove path d.files) d.files d))

  run-Written : (v : Disk) → Written (run faults path path (write text ∷ sync ∷ close ∷ []) v)
  unfolding applied effect
  run-Written v = elim (run-cases faults path path (write text ∷ sync ∷ close ∷ []) v) [
    | inl (o, e) ↦ inl (o, rw e (lookup-put path text v.files))
    | inr h ↦ inr h
  ]

  open-Written :
      (o : Option String) (d : Disk)
      → Written (
          go_on faults
            (λ w. dropped faults path (run faults path path (write text ∷ sync ∷ close ∷ []) w))
            (open_exclusive faults path o d))
  unfolding open_exclusive
  open-Written none d =
      go_on-call faults Written _ (put path "" d.files) d.files d
        (λ n. dropped-Written _ (run-Written _)) (λ e n. inr (e, refl))
  open-Written (some old) d = at (faults.ends d.calls)
    where
      at :
          (b : Bool)
          → Written (
              go_on faults
                (λ w. dropped faults path (run faults path path (write text ∷ sync ∷ close ∷ []) w))
                (outcome faults b
                  (some (concat ("密码文件已存在，拒绝覆盖: " ∷ path ∷ [])))
                  d.files
                  d.files
                  d.calls))
      at true = inr (_, refl)
      at false = inr (_, refl)

write_new-Written :
    (faults : Faults) (path password : String) (d : Disk)
    → Written faults path (concat (password ∷ "\n" ∷ [])) (write_new faults path password d)
unfolding write_new
write_new-Written faults path password d =
    go_on-call faults (Written faults path (concat (password ∷ "\n" ∷ []))) _ d.files d.files d
      (λ n. open-Written faults path (concat (password ∷ "\n" ∷ [])) _ _) (λ e n. inr (e, refl))

measured-eq-ok :
    (given : String × Bool) (p : String) (g : Bool)
    → measured given ≡ ok (p, g)
    → (16 ≤ byte_length (codes p)) × (contains_newline p ≡ false)
measured-eq-ok (password, made) p g h =
    let (long, h1) =
      >>-eq-ok (reject_if (ltb (byte_length (codes (trimmed password))) 16) too_short) _ h in
    let (one_line, h2) =
      >>-eq-ok (reject_if (contains_newline (trimmed password)) has_newline) _ h1 in
    subst (λ x. (16 ≤ byte_length (codes x)) × (contains_newline x ≡ false)) (same h2)
      (
        not_short (byte_length (codes (trimmed password))) (reject_if-eq-ok _ too_short long),
        reject_if-eq-ok _ has_newline one_line,
      )
  where
    same :
        {x : String}
        → ◌≡◌ {A = Result PasswordError (String × Bool)} (ok (x, made)) (ok (p, g))
        → x ≡ p
    same q = cc

    not_short : (n : ℕ) → ltb n 16 ≡ false → 16 ≤ n
    not_short n q = ground arith

accepted_password-eq-ok :
    (path password p : String) (random : Result String String) (g : Bool)
    → accepted_password path password random ≡ ok (p, g)
    → (16 ≤ byte_length (codes p)) × (contains_newline p ≡ false)
unfolding accepted_password
accepted_password-eq-ok path password p random g h =
    let (_, h1) = >>-eq-ok (reject_if (path == "") empty_path) _ h in
    let (given, _, h2) = >>=-eq-ok (chosen password random) _ h1 in measured-eq-ok given p g h2

-- A password that was returned without an error is in the file, has at least sixteen bytes and is on one
-- line.
pub create_password_file-eq-ok :
    (faults : Faults) (path : String) (random : Result String String) (password p : String)
    (g : Bool) (d : Disk)
    → (create_password_file faults path random password d).0 ≡ ok (p, g)
    → (lookup path (create_password_file faults path random password d).1.files
        ≡ some (concat (p ∷ "\n" ∷ [])))
      × (16 ≤ byte_length (codes p))
      × (contains_newline p ≡ false)
unfolding create_password_file
create_password_file-eq-ok faults path random password p g d h =
    elim (Result-cases (accepted_password path password random)) [
      | inr (e, q) ↦ absurd (refused (rw (create_password_file, q) at h))
      | inl (given, q) ↦
          rw (create_password_file, q)
            (told given q (write_new faults path given.0 d)
              (write_new-Written faults path given.0 d) (rw (create_password_file, q) at h))
    ]
  where
    refused :
        {e : PasswordError} → ◌≡◌ {A = Result PasswordError (String × Bool)} (err e) (ok (p, g)) → ⊥
    refused q = cc

    same :
        {x : String × Bool}
        → ◌≡◌ {A = Result PasswordError (String × Bool)} (ok x) (ok (p, g))
        → x ≡ (p, g)
    same q = cc

    told :
        (given : String × Bool)
        → accepted_password path password random ≡ ok given
        → (x : Result Stop (Unit {0}) × Disk) → Written faults path (concat (given.0 ∷ "\n" ∷ [])) x
        → (answered faults path given x).0 ≡ ok (p, g)
        → (lookup path (answered faults path given x).1.files ≡ some (concat (p ∷ "\n" ∷ [])))
          × (16 ≤ byte_length (codes p))
          × (contains_newline p ≡ false)
    told given q (ok u, v) (inl (o, w)) k =
        let e = same k in
        let (long, one_line) = accepted_password-eq-ok path password p random g (q ∙ ap ok e) in
        (w ∙ ap (λ x. some (concat (x.0 ∷ "\n" ∷ []))) e, long, one_line)
    told given q (ok u, v) (inr (s, o)) k = absurd (ok-err o)
    told given q (err s, v) w k = absurd (refused k)
