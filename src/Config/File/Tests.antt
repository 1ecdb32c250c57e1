-- ===== src/Config/File/Tests.antt =====
-- Saving a small configuration.
use sbackup.Base.{ℕ, nat_beq, [], ◌∷◌, none, some, ok, ◌≡◌, refl}
use sbackup.Base.Maps.{lookup}
use sbackup.FileStore.{Disk, Faults}
use sbackup.Config.File.{Yaml, save, load}
use sbackup.Config.File.Saved.{Outcome, save-Outcome}
use sbackup.Config.File.Loaded.{no_faults, load-save}
use sbackup.Config.Tests.{small_accepted}
use sbackup.Samples.{small, simple_std}

abbrev one_text : Yaml
one_text = record { marshal = λ c. ok "small"; unmarshal = λ c text. ok small }

abbrev ends_at : ℕ → Faults
ends_at n = record {
  ends = nat_beq n;
  error = λ m. none;
  written = λ m text. "";
  temp = λ m. "/etc/.config-1.tmp";
}

abbrev one_file : Disk
one_file = record { files = ("/etc/c", "old") ∷ []; calls = 0 }

save-Outcome_example :
    Outcome "/etc/c"
      (some "old")
      "small\n"
      (save simple_std (ends_at 9) one_text "/etc/c" small one_file)
unfolding lookup
save-Outcome_example =
    save-Outcome simple_std (ends_at 9) one_text "/etc/c" "small" small small one_file (λ n. refl)
      (λ n. refl) small_accepted refl

load-save_example :
    ((save simple_std
        (no_faults (λ n text. "") (λ n. "/etc/.config-1.tmp"))
        one_text
        "/etc/c"
        small
        one_file).0
      ≡ ok tt)
    × ((load simple_std
          (no_faults (λ n text. "") (λ n. "/etc/.config-1.tmp"))
          one_text
          "host"
          "/etc/c"
          (save simple_std
            (no_faults (λ n text. "") (λ n. "/etc/.config-1.tmp"))
            one_text
            "/etc/c"
            small
            one_file).1).0
        ≡ ok small)
load-save_example =
    load-save simple_std (λ n text. "") (λ n. "/etc/.config-1.tmp") one_text "host" "/etc/c" "small"
      small small one_file (λ n. refl) (λ n. refl) small_accepted refl refl
