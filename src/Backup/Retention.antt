-- ===== src/Backup/Retention.antt =====
-- What `Validate` accepts as a retention policy, against what `Forget` passes to Restic.
use sbackup.Base.{
  ℕ, zero, suc, subst, ◌<◌, ◌≡◌, ◌≢◌, ◌⊎◌, Bool, not, ◌&&◌, refl, sym, ◌∙◌, String, true, false,
  List, [], ◌∷◌, ◌++◌, arith, eq_iff, if◌then◌else◌, ◌==◌, string_eq, inl, inr, Bool-cases,
}
use sbackup.Base.Int.{ℤ, pos, negsuc, ◌+ℤ◌, wrap64, int_eq, ◌≤ℤ◌, ltb_ℤ}
use sbackup.Config.{Job, Retention}
use sbackup.Config.Validate.Fields.{retention_empty}
use sbackup.Backup.Options.{keep_options, flag_int}

append-eq-nil : {A : Type 0} (xs ys : List A) → xs ++ ys ≡ [] → (xs ≡ []) × (ys ≡ [])
append-eq-nil [] ys h = (refl, h)
append-eq-nil (x ∷ xs) ys h = cc

flag_int-eq-nil : (flag : String) (v : ℤ) → pos 0 ≤ℤ v → flag_int flag v ≡ [] → v ≡ pos 0
flag_int-eq-nil flag (pos zero) p h = refl
flag_int-eq-nil flag (pos (suc n)) p h = ground arith
flag_int-eq-nil flag (negsuc n) p h = ground arith

-- Counts that are not negative, and far from overflow.
pub record IsPlain (r : Retention) : Type 0 where
  pub last : (pos 0 ≤ℤ r.keep_last) × (r.keep_last ≤ℤ pos 1000000)
  pub hourly : (pos 0 ≤ℤ r.keep_hourly) × (r.keep_hourly ≤ℤ pos 1000000)
  pub daily : (pos 0 ≤ℤ r.keep_daily) × (r.keep_daily ≤ℤ pos 1000000)
  pub weekly : (pos 0 ≤ℤ r.keep_weekly) × (r.keep_weekly ≤ℤ pos 1000000)
  pub monthly : (pos 0 ≤ℤ r.keep_monthly) × (r.keep_monthly ≤ℤ pos 1000000)
  pub yearly : (pos 0 ≤ℤ r.keep_yearly) × (r.keep_yearly ≤ℤ pos 1000000)

absurd_bool : true ≡ false → ⊥
absurd_bool h = cc

absurd_nil : {A : Type 0} {x : A} {xs : List A} → x ∷ xs ≡ [] → ⊥
absurd_nil h = cc

within_nil : (w : String) → (if w == "" then [] else "--keep-within" ∷ w ∷ []) ≡ [] → w ≡ ""
within_nil w h = elim (Bool-cases (w == "")) [
  | inl e ↦ (eq_iff w "").0 e
  | inr e ↦ absurd (absurd_nil (subst (λ b. (if b then [] else "--keep-within" ∷ w ∷ []) ≡ []) e h))
]

empty_policy :
    (r : Retention)
    → r.keep_last ≡ pos 0
    → r.keep_hourly ≡ pos 0
    → r.keep_daily ≡ pos 0
    → r.keep_weekly ≡ pos 0
    → r.keep_monthly ≡ pos 0
    → r.keep_yearly ≡ pos 0
    → r.keep_within ≡ ""
    → retention_empty r ≡ true
unfolding retention_empty wrap64 ◌+ℤ◌
empty_policy r a b c d e f g = rw (a, b, c, d, e, f, g) refl

-- With such counts a policy that is not empty gives Restic at least one rule, and an empty one gives
-- none.
pub keep_options-ne-nil :
    (j : Job) → IsPlain j.retention → retention_empty j.retention ≡ false → keep_options j ≢ []
unfolding keep_options retention_empty
keep_options-ne-nil j p h e =
    let (a, e1) = append-eq-nil (flag_int "--keep-last" j.retention.keep_last) _ e in
    let (b, e2) = append-eq-nil (flag_int "--keep-hourly" j.retention.keep_hourly) _ e1 in
    let (c, e3) = append-eq-nil (flag_int "--keep-daily" j.retention.keep_daily) _ e2 in
    let (d, e4) = append-eq-nil (flag_int "--keep-weekly" j.retention.keep_weekly) _ e3 in
    let (m, e5) = append-eq-nil (flag_int "--keep-monthly" j.retention.keep_monthly) _ e4 in
    let (y, e6) = append-eq-nil (flag_int "--keep-yearly" j.retention.keep_yearly) _ e5 in
    absurd_bool (
      sym (
        empty_policy j.retention (flag_int-eq-nil _ _ p.last.0 a) (flag_int-eq-nil _ _ p.hourly.0 b)
          (flag_int-eq-nil _ _ p.daily.0 c) (flag_int-eq-nil _ _ p.weekly.0 d)
          (flag_int-eq-nil _ _ p.monthly.0 m) (flag_int-eq-nil _ _ p.yearly.0 y)
          (within_nil j.retention.keep_within e6))
      ∙ h)

negsuc-add_zero : (n : ℕ) → negsuc n +ℤ pos 0 ≡ negsuc n
unfolding ◌+ℤ◌
negsuc-add_zero n = ground arith

int_beq-wrap64-negsuc : (n : ℕ) → n < 1000000 → (wrap64 (negsuc n) == pos 0) ≡ false
unfolding wrap64
int_beq-wrap64-negsuc n h = ground arith

flag_int-negsuc : (flag : String) (n : ℕ) → flag_int flag (negsuc n) ≡ []
flag_int-negsuc flag n = ground arith

-- A negative count passes the test of `Validate` and is then left out by `Forget`: the command has no
-- rule at all.
pub keep_options_negative :
    (j : Job) (n : ℕ)
    → j.retention.keep_last ≡ negsuc n
    → n < 1000000
    → j.retention.keep_hourly ≡ pos 0
    → j.retention.keep_daily ≡ pos 0
    → j.retention.keep_weekly ≡ pos 0
    → j.retention.keep_monthly ≡ pos 0
    → j.retention.keep_yearly ≡ pos 0
    → j.retention.keep_within ≡ ""
    → (retention_empty j.retention ≡ false) × (keep_options j ≡ [])
unfolding keep_options retention_empty
keep_options_negative j n a b c d e f g h =
    let z = negsuc-add_zero n in
    (
      rw (a, c, d, e, f, g, h, z, z, z, z, z, int_beq-wrap64-negsuc n b) refl,
      rw (a, c, d, e, f, g, h, flag_int-negsuc "--keep-last" n) refl,
    )

abbrev is_plain : ℤ → Bool
is_plain n = not (ltb_ℤ n (pos 0)) && not (ltb_ℤ (pos 1000000) n)

-- No count is negative or above a million.
abbrev pub are_plain : Retention → Bool
are_plain r =
    is_plain r.keep_last
    && (is_plain r.keep_hourly
        && (is_plain r.keep_daily
            && (is_plain r.keep_weekly && (is_plain r.keep_monthly && is_plain r.keep_yearly))))

is_plain-within : (n : ℤ) → is_plain n ≡ true → (pos 0 ≤ℤ n) × (n ≤ℤ pos 1000000)
is_plain-within (pos n) h = ground arith
is_plain-within (negsuc n) h = ground arith

are_plain-IsPlain : (r : Retention) → are_plain r ≡ true → IsPlain r
are_plain-IsPlain r h = record {
  last = is_plain-within r.keep_last (ground arith);
  hourly = is_plain-within r.keep_hourly (ground arith);
  daily = is_plain-within r.keep_daily (ground arith);
  weekly = is_plain-within r.keep_weekly (ground arith);
  monthly = is_plain-within r.keep_monthly (ground arith);
  yearly = is_plain-within r.keep_yearly (ground arith);
}

pub keep_options-are_plain :
    (j : Job)
    → retention_empty j.retention ≡ false
    → (keep_options j ≢ []) ⊎ (are_plain j.retention ≡ false)
keep_options-are_plain j h = elim (Bool-cases (are_plain j.retention)) [
  | inl e ↦ inl (keep_options-ne-nil j (are_plain-IsPlain j.retention e) h)
  | inr e ↦ inr e
]
