-- ===== src/Monitor/Persistence/Tests.antt =====
-- A monitor that is stopped while it saves.
use sbackup.Base.{ℕ, nat_beq, false, [], none, ok, err, ◌≡◌, ◌⊎◌, refl}
use sbackup.Base.Maps.{lookup}
use sbackup.FileStore.{Disk, Faults, Stop}
use sbackup.Monitor.Persistence.{Json, to_save, empty, load, save}
use sbackup.Monitor.Persistence.Restart.{load-save_state}
use sbackup.Samples.{quiet}

abbrev ends_at : ℕ → Faults
ends_at n = record {
  ends = nat_beq n;
  error = λ m. none;
  written = λ m text. "";
  temp = λ m. "/var/.monitor-1";
}

abbrev calm_faults : Faults
calm_faults = record (ends_at 0) { ends = λ n. false }

abbrev one_state : Json
one_state = record { marshal = λ s. ok "quiet"; unmarshal = λ text. ok (to_save quiet) }

abbrev no_files : Disk
no_files = record { files = []; calls = 0 }

first_start : (load calm_faults one_state "/var/state" no_files).0 ≡ ok empty
unfolding load lookup
first_start = refl

load-save_state_example :
    (((save (ends_at 3) one_state "/var/state" quiet no_files).0 ≡ ok tt)
      × ((load calm_faults one_state "/var/state"
            (save (ends_at 3) one_state "/var/state" quiet no_files).1).0
          ≡ ok (record quiet { nonces = [] })))
    ⊎ ((e : Stop) × ((save (ends_at 3) one_state "/var/state" quiet no_files).0 ≡ err e)
        × (((load calm_faults one_state "/var/state"
                (save (ends_at 3) one_state "/var/state" quiet no_files).1).0
              ≡ ok empty)
            ⊎ ((load calm_faults one_state "/var/state"
                  (save (ends_at 3) one_state "/var/state" quiet no_files).1).0
                ≡ ok (record quiet { nonces = [] }))))
load-save_state_example =
    load-save_state (ends_at 3) calm_faults one_state "/var/state" "quiet" quiet empty no_files
      (λ n. refl) refl refl (refl, tt) (λ n. refl) (λ n. refl) first_start
