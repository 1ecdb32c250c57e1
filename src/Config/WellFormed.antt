-- ===== src/Config/WellFormed.antt =====
-- What an accepted configuration satisfies: ids are unique across all kinds.
use sbackup.Base.{
  ◌≡◌, ◌≢◌, ap, String, true, List, [], ◌∷◌, ◌++◌, map, arith, eq_iff, eq_refl, string_eq, none,
  some, Result, ok, >>=-eq-ok, Result-cases, inl, inr, ◌>>=◌, ◌>>◌, All,
}
use mathlib.Core.Path.{subst}
use sbackup.Config.{Storage, Database, Notification, Job, Config}
use sbackup.Config.Std.{Std}
use sbackup.Config.Validate.Fields.{Kind, ConfigError, matches_id, Seen, owner, validate_id}
use sbackup.Config.Validate.Storages.{
  check_storage, check_storages, check_database, check_databases, check_notifications,
}
use sbackup.Config.Validate.Jobs.{Known, check_job, check_jobs}
use sbackup.Config.Validate.Whole.{known_ids, check_ids, validate}

validate_id-eq-ok :
    (kind : Kind) (id : String) (seen : Seen) {seen' : Seen}
    → validate_id kind id seen ≡ ok seen'
    → (matches_id id ≡ true) × (owner id seen ≡ none) × (seen' ≡ (id, kind) ∷ seen)
unfolding validate_id
validate_id-eq-ok kind id seen h = ground arith

-- The ids went into the map one after another: each is well-formed, and none was there before.
data Adds : List String → Seen → Seen → Type 0 where
  none_left : {s : Seen} → Adds [] s s
  add :
      {id : String} {ids : List String} {kind : Kind} {s t : Seen}
      → matches_id id ≡ true
      → owner id s ≡ none
      → Adds ids ((id, kind) ∷ s) t
      → Adds (id ∷ ids) s t

Adds-append : {xs ys : List String} {s t u : Seen} → Adds xs s t → Adds ys t u → Adds (xs ++ ys) s u
Adds-append none_left k = k
Adds-append (add m o h) k = add m o (Adds-append h k)

owner-cons :
    (k id : String) (kind v : Kind) (s : Seen)
    → owner id s ≡ none
    → owner k s ≡ some v
    → (id ≢ k) × (owner k ((id, kind) ∷ s) ≡ some v)
unfolding owner
owner-cons k id kind v s o e =
    let different : id ≢ k = λ p. cc (ap (λ i. owner i s) p) in
    (different, ground (arith, eq_iff id k))

-- What is in the map is not added again.
Adds-other :
    {ids : List String} (k : String) (v : Kind) {s t : Seen}
    → Adds ids s t
    → owner k s ≡ some v
    → All (λ x. x ≢ k) ids
Adds-other k v none_left e = tt
Adds-other k v (add {id = x} {kind = kind} {s = s} m o h) e =
    let (different, there) = owner-cons k x kind v s o e in (different, Adds-other k v h there)

-- All different.
abbrev pub AllDifferent : List String → Type 0
AllDifferent [] = Unit
AllDifferent (x ∷ xs) = All (λ y. y ≢ x) xs × AllDifferent xs

owner_self : (id : String) (kind : Kind) (s : Seen) → owner id ((id, kind) ∷ s) ≡ some kind
unfolding owner
owner_self id kind s = ground (arith, eq_refl id)

Adds-AllDifferent :
    {ids : List String} {s t : Seen}
    → Adds ids s t
    → AllDifferent ids × All (λ x. matches_id x ≡ true) ids
Adds-AllDifferent none_left = (tt, tt)
Adds-AllDifferent (add {id = x} {kind = kind} {s = s} m o h) =
    let (different, matched) = Adds-AllDifferent h in
    ((Adds-other x kind h (owner_self x kind s), different), (m, matched))

-- One round of a loop that begins with `validateID`.
round :
    (kind : Kind) (id : String) (seen : Seen) (check : Result ConfigError (Unit {0}))
    (later : Seen → Result ConfigError Seen) {seen' : Seen}
    → (validate_id kind id seen >>= λ next. check >> later next) ≡ ok seen'
    → (matches_id id ≡ true)
      × (owner id seen ≡ none)
      × (check ≡ ok tt)
      × (later ((id, kind) ∷ seen) ≡ ok seen')
round kind id seen check later {seen'} h =
    let (next, added, rest) = >>=-eq-ok (validate_id kind id seen) _ h in
    let (_, checked, after) = >>=-eq-ok check (λ _. later next) rest in
    let (matched, unseen, same) = validate_id-eq-ok kind id seen added in
    (matched, unseen, checked, subst (λ z. later z ≡ ok seen') same after)

check_storages-eq-ok :
    (std : Std) (xs : List Storage) (seen : Seen) {seen' : Seen}
    → check_storages std xs seen ≡ ok seen'
    → Adds (map (λ s. s.id) xs) seen seen' × All (λ s. check_storage std s ≡ ok tt) xs
unfolding check_storages
check_storages-eq-ok std [] seen h = (subst (Adds [] seen) (cc) none_left, tt)
check_storages-eq-ok std (x ∷ xs) seen h =
    let (m, o, c, later) =
      round Kind.storage x.id seen (check_storage std x) (check_storages std xs) h in
    let (adds, checked) = check_storages-eq-ok std xs ((x.id, Kind.storage) ∷ seen) later in
    (add m o adds, (c, checked))

check_databases-eq-ok :
    (xs : List Database) (seen : Seen) {seen' : Seen}
    → check_databases xs seen ≡ ok seen'
    → Adds (map (λ d. d.id) xs) seen seen' × All (λ d. check_database d ≡ ok tt) xs
unfolding check_databases
check_databases-eq-ok [] seen h = (subst (Adds [] seen) (cc) none_left, tt)
check_databases-eq-ok (x ∷ xs) seen h =
    let (m, o, c, later) =
      round Kind.database x.id seen (check_database x) (check_databases xs) h in
    let (adds, checked) = check_databases-eq-ok xs ((x.id, Kind.database) ∷ seen) later in
    (add m o adds, (c, checked))

check_notifications-eq-ok :
    (xs : List Notification) (seen : Seen) {seen' : Seen}
    → check_notifications xs seen ≡ ok seen'
    → Adds (map (λ n. n.id) xs) seen seen'
unfolding check_notifications
check_notifications-eq-ok [] seen h = subst (Adds [] seen) (cc) none_left
check_notifications-eq-ok (x ∷ xs) seen h =
    let (m, o, _, later) = round Kind.notification x.id seen (ok tt) (check_notifications xs) h in
    add m o (check_notifications-eq-ok xs ((x.id, Kind.notification) ∷ seen) later)

check_jobs-eq-ok :
    (std : Std) (known : Known) (xs : List Job) (seen : Seen) {seen' : Seen}
    → check_jobs std known xs seen ≡ ok seen'
    → Adds (map (λ j. j.id) xs) seen seen' × All (λ j. check_job std known j ≡ ok tt) xs
unfolding check_jobs
check_jobs-eq-ok std known [] seen h = (subst (Adds [] seen) (cc) none_left, tt)
check_jobs-eq-ok std known (x ∷ xs) seen h =
    let (m, o, c, later) =
      round Kind.job x.id seen (check_job std known x) (check_jobs std known xs) h in
    let (adds, checked) = check_jobs-eq-ok std known xs ((x.id, Kind.job) ∷ seen) later in
    (add m o adds, (c, checked))

-- The ids of a configuration, of all kinds.
abbrev pub all_ids : Config → List String
all_ids c =
    map (λ (s : Storage). s.id) c.storages
    ++ (map (λ (d : Database). d.id) c.databases
        ++ (map (λ (n : Notification). n.id) c.notifications ++ map (λ (j : Job). j.id) c.jobs))

-- What an accepted configuration satisfies.
pub record IsAccepted (std : Std) (c : Config) : Type 0 where
  pub different : AllDifferent (all_ids c)
  pub matched : All (λ x. matches_id x ≡ true) (all_ids c)
  pub storages_checked : All (λ s. check_storage std s ≡ ok tt) c.storages
  pub databases_checked : All (λ d. check_database d ≡ ok tt) c.databases
  pub jobs_checked : All (λ j. check_job std (known_ids c) j ≡ ok tt) c.jobs

check_ids-IsAccepted :
    (std : Std) (c : Config) {seen : Seen} → check_ids std c ≡ ok seen → IsAccepted std c
unfolding check_ids
check_ids-IsAccepted std c h =
    let (s1, h1, r1) = >>=-eq-ok (check_storages std c.storages []) _ h in
    let (s2, h2, r2) = >>=-eq-ok (check_databases c.databases s1) _ r1 in
    let (s3, h3, r3) = >>=-eq-ok (check_notifications c.notifications s2) _ r2 in
    let (a1, c1) = check_storages-eq-ok std c.storages [] h1 in
    let (a2, c2) = check_databases-eq-ok c.databases s1 h2 in
    let a3 = check_notifications-eq-ok c.notifications s2 h3 in
    let (a4, c4) = check_jobs-eq-ok std (known_ids c) c.jobs s3 r3 in
    let (different, matched) =
      Adds-AllDifferent (Adds-append a1 (Adds-append a2 (Adds-append a3 a4))) in
    record {
      different = different;
      matched = matched;
      storages_checked = c1;
      databases_checked = c2;
      jobs_checked = c4;
    }

validate-check_ids :
    (std : Std) (c : Config) {c' : Config}
    → validate std c ≡ ok c'
    → (seen : Seen) × (check_ids std c ≡ ok seen)
unfolding validate
validate-check_ids std c h = elim (Result-cases (check_ids std c)) [
  | inl found ↦ found
  | inr (e, p) ↦ absurd (ground arith)
]

-- The ids of an accepted configuration are all different, across the four kinds, and match the id
-- pattern, and each of its storages, databases and jobs passed its checks.
pub validate-IsAccepted :
    (std : Std) (c : Config) {c' : Config} → validate std c ≡ ok c' → IsAccepted std c
validate-IsAccepted std c h = check_ids-IsAccepted std c (validate-check_ids std c h).1
