-- ===== src/Repository/Webdav/Tests.antt =====
-- A remote that is there already.
use sbackup.Base.{true, false, [], ◌∷◌, none, some, ok, err, ◌≡◌, refl}
use sbackup.Base.Maps.{lookup}
use sbackup.Base.Text.{split, trim_space}
use sbackup.FileStore.{Disk, Faults}
use sbackup.Repository.Webdav.{Remote, WebdavError, has_section, configure_webdav}
use sbackup.Repository.Webdav.Refused.{configure_webdav-Unchanged}
use sbackup.Samples.{simple_std}

abbrev cloud : Remote
cloud = record {
  config_path = "/etc/rclone.conf";
  name = "cloud";
  endpoint = "https://cloud";
  vendor = "";
  username = "u";
}

abbrev configured : Disk
configured = record { files = ("/etc/rclone.conf", "[cloud]\ntype = webdav\n") ∷ []; calls = 0 }

abbrev calm : Faults
calm = record { ends = λ n. false; error = λ n. none; written = λ n text. ""; temp = λ n. "" }

found_there : lookup "/etc/rclone.conf" configured.files ≡ some "[cloud]\ntype = webdav\n"
unfolding lookup
found_there = refl

section_found : has_section "cloud" "[cloud]\ntype = webdav\n" ≡ true
unfolding has_section split trim_space
section_found = refl

configure_webdav-Unchanged_example :
    ((e : WebdavError) × ((configure_webdav simple_std calm (ok "x") cloud configured).0 ≡ err e))
    × (lookup "/etc/rclone.conf"
          (configure_webdav simple_std calm (ok "x") cloud configured).1.files
        ≡ some "[cloud]\ntype = webdav\n")
configure_webdav-Unchanged_example =
    configure_webdav-Unchanged simple_std calm (ok "x") cloud "[cloud]\ntype = webdav\n" configured
      found_there section_found
