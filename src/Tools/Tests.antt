-- ===== src/Tools/Tests.antt =====
-- A tool that is on the path.
use sbackup.Base.{◌≡◌, refl, ok}
use sbackup.Samples.{calm}
use sbackup.Tools.{ensure}

found : ensure calm "rclone" ≡ ok tt
unfolding ensure
found = refl
