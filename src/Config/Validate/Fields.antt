-- ===== src/Config/Validate/Fields.antt =====
-- The checks on single values.
use sbackup.Base.{
  ℕ, zero, suc, ◌*◌, String, Bool, true, false, not, ◌&&◌, ◌||◌, List, [], ◌∷◌, Option, none, some,
  any, if◌then◌else◌, ◌==◌, string_eq, Result, ok, err, reject_if, ◌>>◌, leb, length,
}
use sbackup.Base.Int.{ℤ, pos, ◌+ℤ◌, wrap64, ltb_ℤ, int_eq}
use sbackup.Base.Text.{codes, split, atoi, has_suffix, trim_suffix}
use sbackup.Config.{Retention}
use sbackup.Config.Std.{Std}

-- What an id can belong to; `validateID` is called with these four labels.
pub data Kind : Type 0 where
  storage database notification job : Kind

pub data ConfigError : Type 0 where
  bad_version bad_timezone not_absolute bad_global : ConfigError
  bad_id : Kind → String → ConfigError
  duplicate_id : String → Kind → Kind → ConfigError
  no_password_file incomplete_storage plain_http bad_url bad_storage_type : String → ConfigError
  bad_database_type relative_sqlite_path no_credential_file : String → ConfigError
  no_such_storage no_such_database no_such_notification no_sources : String → ConfigError
  bad_timeout no_expression empty_calendar bad_interval bad_schedule_type : String → ConfigError
  bad_randomized_delay bad_read_subset bad_grace_period bad_backup_mode : String → ConfigError
  bad_compression duplicate_sources empty_retention : String → ConfigError
  incomplete_monitoring insecure_endpoint bad_endpoint bad_endpoint_path : ConfigError
  bad_request_timeout bad_event_retention bad_key_version bad_heartbeat : ConfigError

abbrev is_id_start : ℕ → Bool
is_id_start c = (leb b'a' c && leb c b'z') || (leb b'0' c && leb c b'9')

abbrev is_id_rest : ℕ → Bool
is_id_rest c = is_id_start c || (leb c b'_' && leb b'_' c) || (leb c b'-' && leb b'-' c)

unfoldable pub all_rest : List ℕ → Bool
all_rest [] = true
all_rest (c ∷ cs) = is_id_rest c && all_rest cs

unfoldable pub id_codes : List ℕ → Bool
unfolding all_rest
id_codes [] = false
id_codes (c ∷ cs) = is_id_start c && (all_rest cs && leb (length cs) 63)

-- `idPattern.MatchString`, the pattern `^[a-z0-9][a-z0-9_-]{0,63}$`
unfoldable pub matches_id : String → Bool
unfolding id_codes
matches_id id = id_codes (codes id)

-- The map `ids`: each id with the kind of its owner.
abbrev pub Seen : Type 0
Seen = List (String × Kind)

unfoldable pub owner : String → Seen → Option Kind
owner id [] = none
owner id ((k, v) ∷ seen) = let rest = owner id seen in if k == id then some v else rest

-- `validateID`: the map with the new id
unfoldable pub validate_id : Kind → String → Seen → Result ConfigError Seen
validate_id kind id seen = do
  reject_if (not (matches_id id)) (bad_id kind id)
  elim (owner id seen) [ some old ↦ err (duplicate_id id old kind) | none ↦ ok ((id, kind) ∷ seen) ]

-- `retentionEmpty`; the sum is one of Go's `int`s.
unfoldable pub retention_empty : Retention → Bool
retention_empty r =
    wrap64 (
        r.keep_last +ℤ r.keep_hourly +ℤ r.keep_daily +ℤ r.keep_weekly +ℤ r.keep_monthly
        +ℤ r.keep_yearly)
      == pos 0
    && r.keep_within == ""

-- `hasDuplicates`
unfoldable pub has_duplicates_after : List String → List String → Bool
has_duplicates_after seen [] = false
has_duplicates_after seen (v ∷ vs) = any (λ s. s == v) seen || has_duplicates_after (v ∷ seen) vs

unfoldable pub has_duplicates : List String → Bool
has_duplicates values = has_duplicates_after [] values

abbrev in_percent : Option ℤ → Bool
in_percent none = false
in_percent (some n) = not (ltb_ℤ n (pos 1)) && not (ltb_ℤ (pos 100) n)

abbrev in_fraction : Option ℤ → Option ℤ → Bool
in_fraction (some n) (some m) = not (ltb_ℤ n (pos 1)) && (not (ltb_ℤ m (pos 1)) && not (ltb_ℤ m n))
in_fraction _ _ = false

abbrev two_parts : List String → Bool
two_parts (n ∷ m ∷ []) = in_fraction (atoi n) (atoi m)
two_parts _ = false

-- `validateReadSubset`, whether it accepts
unfoldable pub valid_read_subset : String → Bool
valid_read_subset value =
    if has_suffix value "%"
    then in_percent (atoi (trim_suffix value "%"))
    else two_parts (split b'/' value)

-- The tests on a duration that a field may give.
abbrev pub positive : Option ℤ → Bool
positive none = false
positive (some d) = ltb_ℤ (pos 0) d

abbrev pub at_least : ℤ → Option ℤ → Bool
at_least least none = false
at_least least (some d) = not (ltb_ℤ d least)

abbrev positive_or_none : Option ℤ → Option ℤ
positive_or_none none = none
positive_or_none (some d) = if ltb_ℤ (pos 0) d then some d else none

abbrev days : Option ℤ → Option ℤ
days none = none
days (some (ℤ.negsuc n)) = none
days (some (ℤ.pos zero)) = none
days (some (ℤ.pos (suc n))) = some (wrap64 (pos (suc n * 86400000000000)))

-- `ParseDuration`: Go's durations, and whole days such as "30d"
unfoldable pub parse_duration : Std → String → Option ℤ
parse_duration std value =
    if has_suffix value "d"
    then days (atoi (trim_suffix value "d"))
    else positive_or_none (std.parse_duration value)
