-- ===== src/FileStore/Tests.antt =====
-- A file that is replaced while the process ends.
use sbackup.Base.{ℕ, nat_beq, [], ◌∷◌, none, some, ok, err, ◌≡◌, ◌⊎◌, refl}
use sbackup.Base.Maps.{lookup, put, remove}
use sbackup.FileStore.{Disk, Faults, Stop, write_file_atomic, run, step}
use sbackup.FileStore.Atomic.{write_file_atomic-lookup}

-- The process ends at the n-th call.
abbrev ends_at : ℕ → Faults
ends_at n = record {
  ends = nat_beq n;
  error = λ m. none;
  written = λ m text. "";
  temp = λ m. "/etc/.config-1.tmp";
}

abbrev two_files : Disk
two_files = record { files = ("/etc/c", "old") ∷ ("/etc/d", "other") ∷ []; calls = 0 }

-- The rename is the sixth call, so the process ends before it.
ended_early :
    lookup "/etc/c" (write_file_atomic (ends_at 5) "/etc/c" "new" two_files).1.files ≡ some "old"
unfolding write_file_atomic run step lookup put remove
ended_early = refl

ended_late :
    lookup "/etc/c" (write_file_atomic (ends_at 6) "/etc/c" "new" two_files).1.files ≡ some "new"
unfolding write_file_atomic run step lookup put remove
ended_late = refl

write_file_atomic-lookup_example :
    (((write_file_atomic (ends_at 5) "/etc/c" "new" two_files).0 ≡ ok tt)
      × (lookup "/etc/c" (write_file_atomic (ends_at 5) "/etc/c" "new" two_files).1.files
          ≡ some "new"))
    ⊎ ((e : Stop) × ((write_file_atomic (ends_at 5) "/etc/c" "new" two_files).0 ≡ err e)
        × ((lookup "/etc/c" (write_file_atomic (ends_at 5) "/etc/c" "new" two_files).1.files
              ≡ some "old")
            ⊎ (lookup "/etc/c" (write_file_atomic (ends_at 5) "/etc/c" "new" two_files).1.files
                ≡ some "new")))
unfolding lookup
write_file_atomic-lookup_example =
    write_file_atomic-lookup (ends_at 5) "/etc/c" "new" two_files refl
