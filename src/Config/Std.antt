-- ===== src/Config/Std.antt =====
-- What `Validate` asks of Go's standard library beyond `strings` and `strconv`.
use sbackup.Base.{String, Bool, Option}
use sbackup.Base.Int.{ℤ}

-- The parts of a parsed URL that the program reads.
pub record Url : Type 0 where
  pub scheme : String
  pub host : String
  pub has_user : Bool
  pub path : String

pub record Std : Type 0 where
  -- whether `time.LoadLocation` succeeds
  pub known_location : String → Bool
  -- `time.ParseDuration`, in nanoseconds
  pub parse_duration : String → Option ℤ
  -- `url.Parse`
  pub parse_url : String → Option Url
  -- `url.ParseRequestURI`
  pub parse_request_uri : String → Option Url
  -- `strings.ToLower`
  pub to_lower : String → String
