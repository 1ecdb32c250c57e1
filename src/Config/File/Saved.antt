-- ===== src/Config/File/Saved.antt =====
-- What `Save` leaves, whichever of its calls fails or is the last of the process.
use sbackup.Base.{
  Bool, true, ℕ, String, false, List, [], ◌∷◌, Option, none, some, Result, ok, err, ◌≡◌, refl, sym,
  ap, ◌∙◌, ◌⊎◌, inl, inr, ◌==◌, string_eq, eq_iff, Bool-cases, subst, arith, suc, ◌+◌,
}
use sbackup.Base.Text.{concat}
use Prim.Native.String
use text.Mathlib.TextLemmas.{nil-append, cons-append}
use sbackup.Base.Maps.{lookup, lookup-put_other, eq-symmetric}
use sbackup.FileStore.{Disk, Faults, Stop, ended, failed, call, go_on, outcome, write_file_atomic}
use sbackup.FileStore.Runs.{go_on-call, ok-err}
use sbackup.FileStore.Atomic.{write_file_atomic-lookup}
use sbackup.FileStore.Untouched.{write_file_atomic-lookup_other}
use sbackup.Config.{Config}
use sbackup.Config.Std.{Std}
use sbackup.Config.Validate.Whole.{validate}
use sbackup.Config.File.{Yaml, stopped, save, replace, locked_replace, opened, wrapped, about}

unfoldable pub size : String → ℕ
size String.[] = 0
size (String.◌∷◌ c s) = suc (size s)

size-append : (a b : String) → size (String.◌++◌ a b) ≡ size a + size b
unfolding size
size-append String.[] b = rw (nil-append b) (omega arith)
size-append (String.◌∷◌ c a) b = let step = size-append a b in rw (cons-append c a b) (omega arith)

-- A longer name is another name.
pub appended_differs : (a b : String) (n : ℕ) → size b ≡ suc n → (String.◌++◌ a b == a) ≡ false
appended_differs a b n h = elim (Bool-cases (String.◌++◌ a b == a)) [
  | inr e ↦ e
  | inl e ↦ absurd (longer (sym (size-append a b) ∙ ap size ((eq_iff (String.◌++◌ a b) a).0 e)))
]
  where
    longer : size a + size b ≡ size a → ⊥
    longer q = omega arith

bak_size : size ".bak" ≡ 4
unfolding size
bak_size = refl

pub lock_size : size ".lock" ≡ 5
unfolding size
lock_size = refl

abbrev pub bak : String → String
bak path = concat (path ∷ ".bak" ∷ [])

-- The old contents, when there were any, are those of the other file.
unfoldable pub KeepsOld : String → Option String → List (String × String) → Type 0
KeepsOld path none files = Unit {0}
KeepsOld path (some old) files = lookup (bak path) files ≡ some old

-- A result with the text in place and the old contents kept, or an error with the file as it was or replaced.
abbrev pub Outcome :
    {E : Type 0} → String → Option String → String → Result E (Unit {0}) × Disk → Type 0
Outcome {E} path old text x =
    ((x.0 ≡ ok tt) × (lookup path x.1.files ≡ some text) × KeepsOld path old x.1.files)
    ⊎ ((e : E) × (x.0 ≡ err e)
        × ((lookup path x.1.files ≡ old) ⊎ (lookup path x.1.files ≡ some text)))

module _ (faults : Faults) (path text : String) (t : (n : ℕ) → (faults.temp n == path) ≡ false)
    (u : (n : ℕ) → (faults.temp n == bak path) ≡ false) where
  replaced :
      (old : String) (x : Result Stop (Unit {0}) × Disk)
      → lookup path x.1.files ≡ some old
      → ((x.0 ≡ ok tt) × (lookup (bak path) x.1.files ≡ some old)) ⊎ ((e : Stop) × (x.0 ≡ err e))
      → Outcome path
          (some old)
          text
          (go_on faults (write_file_atomic faults path text) (about "备份配置文件: " x))
  unfolding KeepsOld
  replaced old (ok v, d) h (inl k) =
      elim (write_file_atomic-lookup faults path text d (t d.calls)) [
        | inl (r, e) ↦ inl (
          r,
          e,
          write_file_atomic-lookup_other faults path text (bak path) d (u d.calls)
                (eq-symmetric (bak path) path (appended_differs path ".bak" 3 bak_size))
              ∙ k.1,
        )
        | inr (s, r, inl e) ↦ inr (s, r, inl (e ∙ h))
        | inr (s, r, inr e) ↦ inr (s, r, inr e)
      ]
  replaced old (ok v, d) h (inr (e, k)) = absurd (ok-err k)
  replaced old (err ended, d) h k = inr (ended, refl, inl h)
  replaced old (err (failed e), d) h k = inr (_, refl, inl h)

  replace-Outcome :
      (old : Option String) (d : Disk)
      → lookup path d.files ≡ old
      → Outcome path old text (replace faults path text old d)
  unfolding replace KeepsOld
  replace-Outcome none d h = elim (write_file_atomic-lookup faults path text d (t d.calls)) [
    | inl (r, e) ↦ inl (r, e, tt)
    | inr (s, r, inl e) ↦ inr (s, r, inl (e ∙ h))
    | inr (s, r, inr e) ↦ inr (s, r, inr e)
  ]
  replace-Outcome (some old) d h =
      replaced old (write_file_atomic faults (bak path) old d)
        (write_file_atomic-lookup_other faults (bak path) old path d (t d.calls)
            (appended_differs path ".bak" 3 bak_size)
          ∙ h)
        (forget (write_file_atomic-lookup faults (bak path) old d (u d.calls)))
    where
      forget : {A B C : Type 0} → {D : B → Type 0} → A ⊎ ((b : B) × D b × C) → A ⊎ ((b : B) × D b)
      forget (inl a) = inl a
      forget (inr (b, e, c)) = inr (b, e)

  called-Outcome :
      (rest : Disk → Result Stop (Unit {0}) × Disk) (good : List (String × String))
      (old : Option String) (d : Disk)
      → lookup path d.files ≡ old
      → ((n : ℕ) → Outcome path old text (rest (record { files = good; calls = n })))
      → Outcome path old text (go_on faults rest (call faults good d.files d))
  called-Outcome rest good old d h k =
      go_on-call faults (Outcome path old text) rest good d.files d k (λ e n. inr (e, refl, inl h))

  about-Outcome :
      (what : String) (rest : Disk → Result Stop (Unit {0}) × Disk) (good : List (String × String))
      (old : Option String) (d : Disk)
      → lookup path d.files ≡ old
      → ((n : ℕ) → Outcome path old text (rest (record { files = good; calls = n })))
      → Outcome path old text (go_on faults rest (about what (call faults good d.files d)))
  about-Outcome what rest good old d h k = after (faults.ends d.calls) (faults.error d.calls)
    where
      after :
          (b : Bool) (o : Option String)
          → Outcome path old text
              (go_on faults rest (about what (outcome faults b o good d.files d.calls)))
      after true o = inr (ended, refl, inl h)
      after false (some e) = inr (_, refl, inl h)
      after false none = k (suc d.calls)

  opened-same :
      (o : Option String) (d : Disk) → lookup path (opened faults path o d) ≡ lookup path d.files
  opened-same none d =
      lookup-put_other path (concat (path ∷ ".lock" ∷ [])) "" d.files
        (appended_differs path ".lock" 4 lock_size)
  opened-same (some text') d = refl

  -- The calls before change no file but the one of the lock.
  pub locked_replace-Outcome :
      (d : Disk) → Outcome path (lookup path d.files) text (locked_replace faults path text d)
  unfolding locked_replace
  locked_replace-Outcome d =
      let old = lookup path d.files in
      let o = lookup (concat (path ∷ ".lock" ∷ [])) d.files in
      called-Outcome _ d.files old d refl (λ n.
        let v : Disk = record { files = d.files; calls = n } in
        let opened_files = opened faults path o v in
        called-Outcome _ opened_files old v refl (λ m.
          about-Outcome "锁定配置文件: " _ opened_files old (record { files = opened_files; calls = m })
            (opened-same o v)
            (λ k.
              called-Outcome _ opened_files old (record { files = opened_files; calls = k })
                (opened-same o v)
                (λ j.
                  replaced_old (lookup path opened_files) old
                    (record { files = opened_files; calls = j }) refl (opened-same o v)))))
    where
      replaced_old :
          (now old : Option String) (v : Disk)
          → lookup path v.files ≡ now
          → now ≡ old
          → Outcome path old text (replace faults path text now v)
      replaced_old now old v h e =
          subst (λ q. Outcome path q text (replace faults path text now v)) e
            (replace-Outcome now v h)

-- Whichever call of `Save` fails or is the last of the process, the file has its old contents or the
-- whole of the new ones; after a `Save` without an error it has the new ones, and the file with the
-- suffix .bak has those that were there before.
pub save-Outcome :
    (std : Std) (faults : Faults) (yaml : Yaml) (path text : String) (c c' : Config) (d : Disk)
    → ((n : ℕ) → (faults.temp n == path) ≡ false)
    → ((n : ℕ) → (faults.temp n == bak path) ≡ false)
    → validate std c ≡ ok c'
    → yaml.marshal c' ≡ ok text
    → Outcome path (lookup path d.files) (concat (text ∷ "\n" ∷ [])) (save std faults yaml path c d)
unfolding save
save-Outcome std faults yaml path text c c' d t u v m =
    rw (v, m)
      (wrapped-Outcome (locked_replace faults path (concat (text ∷ "\n" ∷ [])) d)
        (locked_replace-Outcome faults path (concat (text ∷ "\n" ∷ [])) t u d))
  where
    wrapped-Outcome :
        (x : Result Stop (Unit {0}) × Disk)
        → Outcome path (lookup path d.files) (concat (text ∷ "\n" ∷ [])) x
        → Outcome path (lookup path d.files) (concat (text ∷ "\n" ∷ [])) (wrapped x)
    wrapped-Outcome (ok a, w) (inl h) = inl (refl, h.1, h.2)
    wrapped-Outcome (err e, w) (inr (s, r, h)) = inr (stopped e, refl, h)
    wrapped-Outcome (ok a, w) (inr (s, r, h)) = absurd (ok-err r)
    wrapped-Outcome (err e, w) (inl h) = absurd (ok-err (sym h.0))
