-- ===== src/Command/Secrets.antt =====
-- cmd/sbackup/main.go: the files that hold secrets, and the configuration that `config export` prints.
pub mod Redacted
use sbackup.Base.{
  String, Bool, true, false, not, ◌||◌, List, [], ◌∷◌, ◌++◌, map, Option, none, some, any,
  if◌then◌else◌, ◌==◌, string_eq,
}
use sbackup.Config.{Config, Storage, S3Storage, Database, Notification, Monitoring}

-- The loop of `unique`, behind the values that were seen.
unfoldable pub unseen : List String → List String → List String
unseen seen [] = []
unseen seen (v ∷ values) =
    let skipped = unseen seen values in
    let rest = unseen (v ∷ seen) values in
    if v == "" || any (λ s. s == v) seen then skipped else v ∷ rest

-- `unique`
unfoldable pub unique : List String → List String
unfolding unseen
unique values = unseen [] values

abbrev given : String → List String
given path = if path == "" then [] else path ∷ []

abbrev s3_paths : Option S3Storage → List String
s3_paths none = []
s3_paths (some s3) = given s3.credential_file

abbrev each : {A : Type 0} → (A → List String) → List A → List String
each f [] = []
each f (x ∷ xs) = f x ++ each f xs

-- The paths before `unique`.
unfoldable pub collected : Config → List String
collected c =
    each (λ (s : Storage). s.password_file ∷ s3_paths s.s3) c.storages
    ++ (each (λ (d : Database). given d.credential_file) c.databases
        ++ (each (λ (n : Notification). given n.secret_file) c.notifications
            ++ (if c.monitoring.enabled then c.monitoring.key_file ∷ [] else [])))

-- `secretPaths`
unfoldable pub secret_paths : Config → List String
unfolding collected unique
secret_paths c = unique (collected c)

abbrev pub redacted_file : String
redacted_file = "<redacted-file>"

abbrev hidden : String → String
hidden path = if path == "" then path else redacted_file

abbrev redact_s3 : Option S3Storage → Option S3Storage
redact_s3 none = none
redact_s3 (some s3) = some (record s3 { credential_file = hidden s3.credential_file })

-- `redactConfig`
unfoldable pub redact_config : Config → Config
redact_config c = record c {
  storages =
      map (λ (s : Storage). record s { password_file = redacted_file; s3 = redact_s3 s.s3 })
        c.storages;
  databases =
      map (λ (d : Database). record d { credential_file = hidden d.credential_file }) c.databases;
  notifications =
      map (λ (n : Notification). record n { secret_file = hidden n.secret_file }) c.notifications;
  monitoring = record c.monitoring { key_file = hidden c.monitoring.key_file };
}
