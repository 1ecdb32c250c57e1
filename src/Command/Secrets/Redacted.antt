-- ===== src/Command/Secrets/Redacted.antt =====
-- cmd/sbackup/main.go, `redactConfig`: the paths of secrets in the exported configuration.
use sbackup.Base.{
  String, Bool, true, false, ◌||◌, List, [], ◌∷◌, map, Option, none, some, any, ◌≡◌, ◌≢◌, refl, ap,
  sym, ◌∙◌, ◌⊎◌, inl, inr, arith, eq_iff, All, All-append, All-imp, Bool-cases, if◌then◌else◌, ◌==◌,
  string_eq,
}
use sbackup.Config.{Config, Storage, S3Storage, Database, Notification}
use sbackup.Config.WellFormed.{AllDifferent}
use sbackup.Command.Secrets.{
  unseen, unique, given, s3_paths, each, collected, secret_paths, redacted_file, hidden, redact_s3,
  redact_config,
}

-- A path that was taken out, or none.
abbrev Hidden : String → Type 0
Hidden path = (path ≡ "") ⊎ (path ≡ redacted_file)

given-Hidden : (path : String) → All Hidden (given (hidden path))
given-Hidden path = elim (Bool-cases (path == "")) [
  | inl e ↦ rw (e, e) tt
  | inr e ↦ rw (e) (inr refl, tt)
]

true-false : true ≡ false → ⊥
true-false q = cc

each-map :
    {A : Type 0} (f : A → List String) (g : A → A) (xs : List A)
    → ((x : A) → All Hidden (f (g x)))
    → All Hidden (each f (map g xs))
each-map f g [] h = tt
each-map f g (x ∷ xs) h = All-append Hidden (f (g x)) (each f (map g xs)) (h x) (each-map f g xs h)

s3-Hidden : (o : Option S3Storage) → All Hidden (s3_paths (redact_s3 o))
s3-Hidden none = tt
s3-Hidden (some s3) = given-Hidden s3.credential_file

key-Hidden :
    (enabled : Bool) (path : String) → All Hidden (if enabled then hidden path ∷ [] else [])
key-Hidden false path = tt
key-Hidden true path = elim (Bool-cases (path == "")) [
  | inl e ↦ rw e (inl ((eq_iff path "").0 e), tt)
  | inr e ↦ rw e (inr refl, tt)
]

collected-Hidden : (c : Config) → All Hidden (collected (redact_config c))
unfolding collected redact_config
collected-Hidden c =
    All-append Hidden _ _
      (each-map (λ (s : Storage). s.password_file ∷ s3_paths s.s3) _ c.storages
        (λ s. (inr refl, s3-Hidden s.s3)))
      (All-append Hidden _ _
        (each-map (λ (d : Database). given d.credential_file) _ c.databases
          (λ d. given-Hidden d.credential_file))
        (All-append Hidden _ _
          (each-map (λ (n : Notification). given n.secret_file) _ c.notifications
            (λ n. given-Hidden n.secret_file))
          (key-Hidden c.monitoring.enabled c.monitoring.key_file)))

All-both :
    (P Q : String → Type 0) (xs : List String) → All P xs → All Q xs → All (λ x. P x × Q x) xs
All-both P Q [] h k = tt
All-both P Q (x ∷ xs) (p, h) (q, k) = ((p, q), All-both P Q xs h k)

-- What `unique` keeps is not empty, and not among the values seen.
unseen-fresh :
    (seen values : List String)
    → All (λ v. (v ≢ "") × (any (λ s. s == v) seen ≡ false)) (unseen seen values)
unfolding unseen
unseen-fresh seen [] = tt
unseen-fresh seen (v ∷ values) = elim (Bool-cases (v == "" || any (λ s. s == v) seen)) [
  | inl e ↦ rw e (unseen-fresh seen values)
  | inr e ↦ rw e (
    (fresh_here e, ground arith),
    All-imp (λ w h. (h.0, ground arith)) _ (unseen-fresh (v ∷ seen) values),
  )
]
  where
    fresh_here : (v == "" || any (λ s. s == v) seen) ≡ false → v ≢ ""
    fresh_here e q =
        true-false (sym (ap (λ b. b || any (λ s. s == v) seen) ((eq_iff v "").1 q)) ∙ e)

-- What `unique` keeps of values that were not seen.
unseen-AllDifferent : (seen values : List String) → AllDifferent (unseen seen values)
unfolding unseen
unseen-AllDifferent seen [] = tt
unseen-AllDifferent seen (v ∷ values) = elim (Bool-cases (v == "" || any (λ s. s == v) seen)) [
  | inl e ↦ rw e (unseen-AllDifferent seen values)
  | inr e ↦ rw e (
    All-imp (λ y h. another y h.1) _ (unseen-fresh (v ∷ seen) values),
    unseen-AllDifferent (v ∷ seen) values,
  )
]
  where
    another : (y : String) → any (λ s. s == y) (v ∷ seen) ≡ false → y ≢ v
    another y h q =
        true-false (sym (ap (λ b. b || any (λ s. s == y) seen) ((eq_iff v y).1 (sym q))) ∙ h)

unseen-any :
    (v : String) (seen values : List String)
    → (v == "") ≡ false
    → any (λ s. s == v) seen ≡ false
    → any (λ w. w == v) (unseen seen values) ≡ any (λ w. w == v) values
unfolding unseen
unseen-any v seen [] n h = refl
unseen-any v seen (x ∷ values) n h = elim (Bool-cases (x == v)) [
  | inl q ↦ rw (kept x q, q) refl
  | inr q ↦ elim (Bool-cases (x == "" || any (λ s. s == x) seen)) [
    | inl e ↦ rw (e, q) (unseen-any v seen values n h)
    | inr e ↦ rw (e, q) (unseen-any v (x ∷ seen) values n (rw q h))
  ]
]
  where
    kept : (y : String) → (y == v) ≡ true → (y == "" || any (λ s. s == y) seen) ≡ false
    kept y q = rw ((eq_iff y v).0 q, n) h

-- `unique` keeps each value that is not empty, once.
pub unique_lem :
    (values : List String) (v : String)
    → AllDifferent (unique values)
      × All (λ w. w ≢ "") (unique values)
      × ((v ≡ "") ⊎ (any (λ w. w == v) (unique values) ≡ any (λ w. w == v) values))
unfolding unique
unique_lem values v = (
  unseen-AllDifferent [] values,
  All-imp (λ w h. h.0) _ (unseen-fresh [] values),
  elim (Bool-cases (v == "")) [
    | inl e ↦ inl ((eq_iff v "").0 e)
    | inr e ↦ inr (unseen-any v [] values e refl)
  ],
)

unseen-All :
    (P : String → Type 0) (seen values : List String) → All P values → All P (unseen seen values)
unfolding unseen
unseen-All P seen [] h = tt
unseen-All P seen (v ∷ values) (p, h) = elim (Bool-cases (v == "" || any (λ s. s == v) seen)) [
  | inl e ↦ rw e (unseen-All P seen values h)
  | inr e ↦ rw e (p, unseen-All P (v ∷ seen) values h)
]

-- The paths that `secretPaths` collects from the exported configuration.
secret_paths-redact_config :
    (c : Config) → All (λ path. path ≡ redacted_file) (secret_paths (redact_config c))
unfolding secret_paths unique
secret_paths-redact_config c =
    All-imp (λ path h. only path h.0 h.1) (unique (collected (redact_config c)))
      (All-both Hidden (λ v. v ≢ "") _ (unseen-All Hidden [] _ (collected-Hidden c))
        (All-imp (λ v h. h.0) _ (unseen-fresh [] (collected (redact_config c)))))
  where
    only : (path : String) → Hidden path → path ≢ "" → path ≡ redacted_file
    only path (inl e) n = absurd (n e)
    only path (inr e) n = e

abbrev HasHiddenS3 : Option S3Storage → Type 0
HasHiddenS3 none = Unit {0}
HasHiddenS3 (some s3) = Hidden s3.credential_file

-- What the export of a configuration shows of the files with secrets.
pub record IsRedacted (c exported : Config) : Type 0 where
  pub passwords : All (λ (s : Storage). s.password_file ≡ redacted_file) exported.storages
  pub s3_credentials : All (λ (s : Storage). HasHiddenS3 s.s3) exported.storages
  pub database_credentials : All (λ (d : Database). Hidden d.credential_file) exported.databases
  pub notification_secrets : All (λ (n : Notification). Hidden n.secret_file) exported.notifications
  pub monitor_key : Hidden exported.monitoring.key_file
  pub collected_paths : All (λ path. path ≡ redacted_file) (secret_paths exported)
  -- the key of an SFTP storage and the configuration of rclone are shown as they are
  pub shown_sftp :
      map (λ (s : Storage). s.sftp) exported.storages ≡ map (λ (s : Storage). s.sftp) c.storages
  pub shown_webdav :
      map (λ (s : Storage). s.webdav) exported.storages ≡ map (λ (s : Storage). s.webdav) c.storages
  pub same_jobs : exported.jobs ≡ c.jobs

hidden-Hidden : (path : String) → Hidden (hidden path)
hidden-Hidden path = elim (Bool-cases (path == "")) [
  | inl e ↦ rw e (inl ((eq_iff path "").0 e))
  | inr e ↦ rw e (inr refl)
]

s3-HasHiddenS3 : (o : Option S3Storage) → HasHiddenS3 (redact_s3 o)
s3-HasHiddenS3 none = tt
s3-HasHiddenS3 (some s3) = hidden-Hidden s3.credential_file

All-map :
    {A : Type 0} (P : A → Type 0) (g : A → A) (xs : List A) → ((x : A) → P (g x)) → All P (map g xs)
All-map P g [] h = tt
All-map P g (x ∷ xs) h = (h x, All-map P g xs h)

map-map :
    {A B : Type 0} (f : A → B) (g : A → A) (xs : List A)
    → ((x : A) → f (g x) ≡ f x)
    → map f (map g xs) ≡ map f xs
map-map f g [] h = refl
map-map f g (x ∷ xs) h = rw (h x, map-map f g xs h) refl

-- The exported configuration has no path of a storage's password, of S3, database or notification
-- credentials or of the monitor's key, so `secretPaths` finds none in it. The SFTP settings with their key
-- file, the WebDAV settings with the configuration of rclone, and the jobs are shown as they are.
pub redact_config_lem : (c : Config) → IsRedacted c (redact_config c)
unfolding redact_config
redact_config_lem c = record {
  passwords = All-map _ _ c.storages (λ s. refl);
  s3_credentials = All-map _ _ c.storages (λ s. s3-HasHiddenS3 s.s3);
  database_credentials = All-map _ _ c.databases (λ d. hidden-Hidden d.credential_file);
  notification_secrets = All-map _ _ c.notifications (λ n. hidden-Hidden n.secret_file);
  monitor_key = hidden-Hidden c.monitoring.key_file;
  collected_paths = secret_paths-redact_config c;
  shown_sftp = map-map _ _ c.storages (λ s. refl);
  shown_webdav = map-map _ _ c.storages (λ s. refl);
  same_jobs = refl;
}
