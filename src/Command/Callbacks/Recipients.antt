-- ===== src/Command/Callbacks/Recipients.antt =====
-- In an accepted configuration the channels that are told about a run exist.
use sbackup.Base.{
  String, Bool, true, false, List, [], ◌∷◌, ◌++◌, none, some, Result, ok, ◌≡◌, inl, inr, subst, All,
  Bool-cases, find, ◌==◌, string_eq, if◌then◌else◌,
}
use sbackup.Config.{Config, Job, Notification, notification, job}
use sbackup.Config.Std.{Std}
use sbackup.Config.Validate.Jobs.{groups}
use sbackup.Config.Validate.Whole.{validate}
use sbackup.Config.References.{IsRunnable, validate-IsRunnable}
use sbackup.Store.{Run, StoreError}
use sbackup.Command.Callbacks.{recipients}

found-All :
    (P : Job → Type 0) (p : Job → Bool) (jobs : List Job) {j : Job}
    → find p jobs ≡ some j
    → All P jobs
    → P j
unfolding find
found-All P p [] h a = absurd (none-some h)
  where
    none-some : {j : Job} → none ≡ some j → ⊥
    none-some q = cc
found-All P p (x ∷ jobs) {j} h (a, b) = elim (Bool-cases (p x)) [
  | inl e ↦ subst P (some_injective (rw e at h)) a
  | inr e ↦ found-All P p jobs (rw e at h) b
]
  where
    some_injective : {y z : Job} → some y ≡ some z → y ≡ z
    some_injective q = cc

module _ (P : String → Type 0) where
  All-parts : (xs ys : List String) → All P (xs ++ ys) → All P xs × All P ys
  All-parts [] ys h = (tt, h)
  All-parts (x ∷ xs) ys (p, h) = let (a, b) = All-parts xs ys h in ((p, a), b)

  recipients-All :
      (j : Job) (r : Run) (previous : Result StoreError Run)
      → All P (groups j)
      → All P (recipients j r previous).0
  unfolding recipients
  recipients-All j r previous h =
      let n = j.notifications in
      let (success, h1) =
        All-parts n.on_success (n.on_warning ++ (n.on_failure ++ n.on_recovery)) h in
      let (warning, h2) = All-parts n.on_warning (n.on_failure ++ n.on_recovery) h1 in
      let (failure, recovery) = All-parts n.on_failure n.on_recovery h2 in
      chosen (r.status == "warning") (r.status == "failed") _ n.on_warning n.on_failure
        n.on_recovery n.on_success warning failure recovery success
    where
      chosen :
          (a b d : Bool) (ws fs vs ss : List String)
          → All P ws
          → All P fs
          → All P vs
          → All P ss
          → All P (if a then ws else if b then fs else if d then vs else ss)
      chosen true b d ws fs vs ss w f v s = w
      chosen false true d ws fs vs ss w f v s = f
      chosen false false true ws fs vs ss w f v s = v
      chosen false false false ws fs vs ss w f v s = s

-- In an accepted configuration every channel that a run of a job is announced to exists.
pub recipients-known :
    (std : Std) (c : Config) {c' : Config} (id : String) (j : Job) (r : Run)
    (previous : Result StoreError Run)
    → validate std c ≡ ok c'
    → job c id ≡ some j
    → All (λ n. (x : Notification) × (notification c n ≡ some x)) (recipients j r previous).0
unfolding job
recipients-known std c id j r previous v f =
    recipients-All (λ n. (x : Notification) × (notification c n ≡ some x)) j r previous
      (found-All (IsRunnable c) (λ y. y.id == id) c.jobs f
        (validate-IsRunnable std c v)).has_notifications
