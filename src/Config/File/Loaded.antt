-- ===== src/Config/File/Loaded.antt =====
-- `Load` reads what `Save` wrote.
use sbackup.Base.{
  ℕ, String, false, [], ◌∷◌, Option, none, some, Result, ok, err, ◌≡◌, refl, sym, ◌∙◌, inl, inr,
  ◌==◌, string_eq, eq_iff, subst, arith, >>-eq-ok, >>=-eq-ok, if◌then◌else◌,
}
use sbackup.Base.Text.{concat}
use sbackup.FileStore.{Disk, Faults, Stop, write_file_atomic, run, step}
use sbackup.Config.{Config, Global}
use sbackup.Config.Std.{Std}
use sbackup.Config.Validate.Whole.{
  validate, fill_defaults, check_global, check_ids, known_ids, check_monitoring,
}
use sbackup.Config.File.{Yaml, save, locked_replace, replace, wrapped, load, default}
use sbackup.Config.File.Saved.{bak, save-Outcome}

or_default_twice :
    (value fallback : String)
    → ((if (if value == "" then fallback else value) == ""
          then fallback
          else (if value == "" then fallback else value))
        ≡ (if value == "" then fallback else value))
or_default_twice value fallback = ground (arith, eq_iff value "", eq_iff fallback "")

fill_defaults_twice : (g : Global) → fill_defaults (fill_defaults g) ≡ fill_defaults g
unfolding fill_defaults
fill_defaults_twice g =
    rw
      (
        or_default_twice g.state_db "/var/lib/sbackup/state.db",
        or_default_twice g.temp_dir "/var/lib/sbackup/tmp",
        or_default_twice g.log_dir "/var/log/sbackup",
        or_default_twice g.timezone "UTC",
      )
      refl

ok-err : {E : Type 0} {e : E} {u : Unit {0}} → (◌≡◌ {A = Result E (Unit {0})} (ok u) (err e)) → ⊥
ok-err h = cc

abbrev filled : Config → Config
filled c = record c { global = fill_defaults c.global }

pub validate-filled : (std : Std) (c : Config) → validate std (filled c) ≡ validate std c
unfolding validate check_ids known_ids
validate-filled std c = rw (fill_defaults_twice c.global) refl

validate-eq-filled : (std : Std) (c c' : Config) → validate std c ≡ ok c' → filled c ≡ c'
unfolding validate
validate-eq-filled std c c' h =
    let (_, h1) = >>-eq-ok _ _ h in
    let (_, h2) = >>-eq-ok (check_global std (fill_defaults c.global)) _ h1 in
    let (_, _, h3) = >>=-eq-ok (check_ids std c) _ h2 in
    let (_, h4) =
      >>-eq-ok (if c.monitoring.enabled then check_monitoring std c.monitoring else ok tt) _ h3 in
    ok-injective h4
  where
    ok-injective : {a b : Config} {E : Type 0} → (◌≡◌ {A = Result E Config} (ok a) (ok b)) → a ≡ b
    ok-injective h = cc

-- A configuration that `Validate` has accepted it accepts again, and changes no more.
pub validate-twice : (std : Std) (c c' : Config) → validate std c ≡ ok c' → validate std c' ≡ ok c'
validate-twice std c c' h =
    subst (λ x. validate std x ≡ ok c') (validate-eq-filled std c c' h) (validate-filled std c ∙ h)

-- Every call succeeds.
abbrev pub no_faults : (ℕ → String → String) → (ℕ → String) → Faults
no_faults written temp = record {
  ends = λ n. false;
  error = λ n. none;
  written = written;
  temp = temp;
}

module _ (written : ℕ → String → String) (temp : ℕ → String) (path text : String) where
  replace-eq-ok :
      (old : Option String) (d : Disk)
      → (replace (no_faults written temp) path text old d).0 ≡ ok tt
  unfolding replace write_file_atomic run step
  replace-eq-ok none d = refl
  replace-eq-ok (some old) d = refl

  locked_replace-eq-ok :
      (d : Disk) → (locked_replace (no_faults written temp) path text d).0 ≡ ok tt
  unfolding locked_replace
  locked_replace-eq-ok d = replace-eq-ok _ _

wrapped-eq-ok : (x : Result Stop (Unit {0}) × Disk) → x.0 ≡ ok tt → (wrapped x).0 ≡ ok tt
wrapped-eq-ok (ok u, d) h = refl
wrapped-eq-ok (err e, d) h = absurd (ok-err (sym h))

-- When no call fails, `Save` of a configuration that is valid returns no error, and `Load` then gives
-- the configuration with the defaults that `Validate` filled in, if YAML reads back what it wrote.
pub load-save :
    (std : Std) (written : ℕ → String → String) (temp : ℕ → String) (yaml : Yaml)
    (host path text : String) (c c' : Config) (d : Disk)
    → ((n : ℕ) → (temp n == path) ≡ false)
    → ((n : ℕ) → (temp n == bak path) ≡ false)
    → validate std c ≡ ok c'
    → yaml.marshal c' ≡ ok text
    → yaml.unmarshal (default host) (concat (text ∷ "\n" ∷ [])) ≡ ok c'
    → ((save std (no_faults written temp) yaml path c d).0 ≡ ok tt)
      × ((load std
            (no_faults written temp)
            yaml
            host
            path
            (save std (no_faults written temp) yaml path c d).1).0
          ≡ ok c')
unfolding save load
load-save std written temp yaml host path text c c' d t u v m w =
    let saved = save-eq-ok in (saved, load-saved saved)
  where
    save-eq-ok : (save std (no_faults written temp) yaml path c d).0 ≡ ok tt
    save-eq-ok =
        rw (v, m)
          (wrapped-eq-ok _ (locked_replace-eq-ok written temp path (concat (text ∷ "\n" ∷ [])) d))

    load-saved :
        (save std (no_faults written temp) yaml path c d).0 ≡ ok tt
        → (load std
            (no_faults written temp)
            yaml
            host
            path
            (save std (no_faults written temp) yaml path c d).1).0
          ≡ ok c'
    load-saved r = elim (save-Outcome std (no_faults written temp) yaml path text c c' d t u v m) [
      | inl (_, found, _) ↦ rw (found, w, validate-twice std c c' v) refl
      | inr (s, failed_by, _) ↦ absurd (ok-err (sym r ∙ failed_by))
    ]
