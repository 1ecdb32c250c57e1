-- ===== src/Repository/Password/Tests.antt =====
-- Password files.
use sbackup.Base.{◌≤◌, false, [], ◌∷◌, none, some, ok, err, ◌≡◌, refl}
use sbackup.Base.Text.{byte_length, codes, contains_newline, trim_suffix}
use sbackup.Base.Maps.{lookup}
use sbackup.FileStore.{Disk, Faults, step}
use sbackup.Repository.Password.{PasswordError, create_password_file}
use sbackup.Repository.Password.Exclusive.{create_password_file-Refused, create_password_file-eq-ok}

abbrev calm : Faults
calm = record { ends = λ n. false; error = λ n. none; written = λ n text. ""; temp = λ n. "" }

abbrev there : Disk
there = record { files = ("/pw", "kept\n") ∷ []; calls = 0 }

abbrev nothing : Disk
nothing = record { files = []; calls = 0 }

create_password_file-Refused_example :
    ((e : PasswordError) × ((create_password_file calm "/pw" (ok "x") "0123456789abcdef" there).0
        ≡ err e))
    × (lookup "/pw" (create_password_file calm "/pw" (ok "x") "0123456789abcdef" there).1.files
        ≡ some "kept\n")
unfolding lookup
create_password_file-Refused_example =
    create_password_file-Refused calm "/pw" "kept\n" (ok "x") "0123456789abcdef" there in_place
  where
    in_place : lookup "/pw" there.files ≡ some "kept\n"
    in_place = refl

made :
    (create_password_file calm "/pw" (ok "x") "0123456789abcdef\n" nothing).0
    ≡ ok ("0123456789abcdef", false)
unfolding create_password_file byte_length trim_suffix contains_newline lookup step
made = refl

create_password_file-eq-ok_example :
    (lookup "/pw" (create_password_file calm "/pw" (ok "x") "0123456789abcdef\n" nothing).1.files
      ≡ some "0123456789abcdef\n")
    × (16 ≤ byte_length (codes "0123456789abcdef"))
    × (contains_newline "0123456789abcdef" ≡ false)
create_password_file-eq-ok_example =
    create_password_file-eq-ok calm "/pw" (ok "x") "0123456789abcdef\n" "0123456789abcdef" false
      nothing made
