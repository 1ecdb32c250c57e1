-- ===== src/FileStore/Runs.antt =====
-- Sequences of calls: what each call keeps, the sequence keeps.
use sbackup.Base.{
  ℕ, suc, String, Bool, true, false, List, [], ◌∷◌, ◌++◌, Option, none, some, Result, ok, err, ◌≡◌,
  refl, ap, ◌⊎◌, inl, inr, fun_ext, ◌∙◌,
}
use sbackup.Base.Maps.{remove}
use sbackup.FileStore.{
  Disk, Faults, Stop, ended, failed, Op, effect, left, outcome, call, step, go_on, run, clean_up,
  keep_result,
}

-- What a sequence of calls does to the files when all of them succeed.
unfoldable pub applied : String → String → List Op → List (String × String) → List (String × String)
applied temp path [] files = files
applied temp path (op ∷ ops) files = applied temp path ops (effect temp path op files)

pub ok-err : {u : Unit {0}} {e : Stop} → ok u ≡ err e → ⊥
ok-err h = cc

module _ (faults : Faults) where
  -- What holds of the rest after a call that ends as it should, and of every error, holds of both.
  pub go_on-call :
      (Q : Result Stop (Unit {0}) × Disk → Type 0)
      → (rest : Disk → Result Stop (Unit {0}) × Disk) (good bad : List (String × String)) (d : Disk)
      → ((n : ℕ) → Q (rest (record { files = good; calls = n })))
      → ((e : Stop) (n : ℕ) → Q (err e, record { files = bad; calls = n }))
      → Q (go_on faults rest (call faults good bad d))
  go_on-call Q rest good bad d k h = after (faults.ends d.calls) (faults.error d.calls)
    where
      after :
          (x : Bool) (e : Option String)
          → Q (go_on faults rest (outcome faults x e good bad d.calls))
      after true e = h ended (suc d.calls)
      after false (some e) = h (failed e) (suc d.calls)
      after false none = k (suc d.calls)

  -- A sequence of calls succeeds with the effects of all of them, or ends with an error.
  pub run-cases :
      (temp path : String) (ops : List Op) (d : Disk)
      → (((run faults temp path ops d).0 ≡ ok tt)
          × ((run faults temp path ops d).1.files ≡ applied temp path ops d.files))
        ⊎ ((e : Stop) × ((run faults temp path ops d).0 ≡ err e))
  unfolding run step applied
  run-cases temp path [] d = inl (refl, refl)
  run-cases temp path (op ∷ ops) d =
      go_on-call
        (λ x.
          ((x.0 ≡ ok tt) × (x.1.files ≡ applied temp path (op ∷ ops) d.files))
          ⊎ ((e : Stop) × (x.0 ≡ err e)))
        (run faults temp path ops) _ _ d
        (λ n. run-cases temp path ops (record { files = effect temp path op d.files; calls = n }))
        (λ e v. inr (e, refl))

  go_on-go_on :
      (f g : Disk → Result Stop (Unit {0}) × Disk) (x : Result Stop (Unit {0}) × Disk)
      → go_on faults (λ v. go_on faults g (f v)) x ≡ go_on faults g (go_on faults f x)
  go_on-go_on f g (ok u, d) = refl
  go_on-go_on f g (err e, d) = refl

  pub run-append :
      (temp path : String) (xs ys : List Op) (d : Disk)
      → run faults temp path (xs ++ ys) d
        ≡ go_on faults (run faults temp path ys) (run faults temp path xs d)
  unfolding run
  run-append temp path [] ys d = refl
  run-append temp path (op ∷ xs) ys d =
      ap (λ f. go_on faults f (step faults temp path op d))
        (fun_ext (λ v. run-append temp path xs ys v))
      ∙ go_on-go_on (run faults temp path xs) (run faults temp path ys) (step faults temp path op d)

  pub go_on-keeps_with :
      (P Q : List (String × String) → Type 0)
      → (rest : Disk → Result Stop (Unit {0}) × Disk) (x : Result Stop (Unit {0}) × Disk)
      → P x.1.files
      → ((files : List (String × String)) → P files → Q files)
      → ((d : Disk) → P d.files → Q (rest d).1.files)
      → Q (go_on faults rest x).1.files
  go_on-keeps_with P Q rest (ok u, d) h w k = k d h
  go_on-keeps_with P Q rest (err e, d) h w k = w d.files h

  module _ (P : List (String × String) → Type 0) where
    pub call-keeps :
        (good bad : List (String × String)) (d : Disk)
        → P good
        → P bad
        → P (call faults good bad d).1.files
    call-keeps good bad d g b = kept (faults.ends d.calls) (faults.error d.calls)
      where
        kept : (x : Bool) (e : Option String) → P (outcome faults x e good bad d.calls).1.files
        kept true e = b
        kept false (some e) = b
        kept false none = g

    pub go_on-keeps :
        (rest : Disk → Result Stop (Unit {0}) × Disk) (x : Result Stop (Unit {0}) × Disk)
        → P x.1.files
        → ((d : Disk) → P d.files → P (rest d).1.files)
        → P (go_on faults rest x).1.files
    go_on-keeps rest (ok u, d) h k = k d h
    go_on-keeps rest (err e, d) h k = h

    -- The rest may use that the first part succeeded.
    pub go_on-keeps_ok :
        (rest : Disk → Result Stop (Unit {0}) × Disk) (x : Result Stop (Unit {0}) × Disk)
        → P x.1.files
        → (x.0 ≡ ok tt → P (rest x.1).1.files)
        → P (go_on faults rest x).1.files
    go_on-keeps_ok rest (ok tt, d) h k = k refl
    go_on-keeps_ok rest (err e, d) h k = h

    pub clean_up-cases :
        (temp : String) (x : Result Stop (Unit {0}) × Disk)
        → ((x.0 ≡ ok tt) × P x.1.files) ⊎ ((e : Stop) × (x.0 ≡ err e))
        → ((files : List (String × String)) → P files → P (remove temp files))
        → (((clean_up faults temp x).0 ≡ ok tt) × P (clean_up faults temp x).1.files)
          ⊎ ((e : Stop) × ((clean_up faults temp x).0 ≡ err e))
    clean_up-cases temp (err ended, d) h k = inr (ended, refl)
    clean_up-cases temp (err (failed e), d) h k = after (faults.ends d.calls) (faults.error d.calls)
      where
        after :
            (b : Bool) (o : Option String)
            → (((keep_result faults
                    (err (failed e))
                    (outcome faults b o (remove temp d.files) d.files d.calls)).0
                  ≡ ok tt)
                × P
                    (keep_result faults
                      (err (failed e))
                      (outcome faults b o (remove temp d.files) d.files d.calls)).1.files)
              ⊎ ((s : Stop) × ((keep_result faults
                      (err (failed e))
                      (outcome faults b o (remove temp d.files) d.files d.calls)).0
                    ≡ err s))
        after true o = inr (ended, refl)
        after false (some q) = inr (failed e, refl)
        after false none = inr (failed e, refl)
    clean_up-cases temp (ok u, d) (inr h) k = absurd (ok-err h.1)
    clean_up-cases temp (ok tt, d) (inl h) k = after (faults.ends d.calls) (faults.error d.calls)
      where
        after :
            (b : Bool) (o : Option String)
            → (((keep_result faults
                    (ok tt)
                    (outcome faults b o (remove temp d.files) d.files d.calls)).0
                  ≡ ok tt)
                × P
                    (keep_result faults
                      (ok tt)
                      (outcome faults b o (remove temp d.files) d.files d.calls)).1.files)
              ⊎ ((s : Stop) × ((keep_result faults
                      (ok tt)
                      (outcome faults b o (remove temp d.files) d.files d.calls)).0
                    ≡ err s))
        after true o = inr (ended, refl)
        after false (some q) = inl (refl, h.1)
        after false none = inl (refl, k d.files h.1)

    keep_result-keeps :
        (r : Result Stop (Unit {0})) (x : Result Stop (Unit {0}) × Disk)
        → P x.1.files
        → P (keep_result faults r x).1.files
    keep_result-keeps r (err ended, d) h = h
    keep_result-keeps r (err (failed e), d) h = h
    keep_result-keeps r (ok u, d) h = h

    pub clean_up-keeps :
        (temp : String) (x : Result Stop (Unit {0}) × Disk)
        → P x.1.files
        → ((files : List (String × String)) → P files → P (remove temp files))
        → P (clean_up faults temp x).1.files
    clean_up-keeps temp (err ended, d) h k = h
    clean_up-keeps temp (err (failed e), d) h k =
        keep_result-keeps (err (failed e)) _ (call-keeps _ _ d (k d.files h) h)
    clean_up-keeps temp (ok u, d) h k =
        keep_result-keeps (ok u) _ (call-keeps _ _ d (k d.files h) h)

    -- Every call of the sequence keeps P, whether it succeeds or not.
    unfoldable pub AllKeep : String → String → List Op → Type 0
    AllKeep temp path [] = Unit {0}
    AllKeep temp path (op ∷ ops) =
        ((files : List (String × String)) (n : ℕ)
          → P files
          → P (effect temp path op files) × P (left faults temp n op files))
        × AllKeep temp path ops

    pub run-keeps :
        (temp path : String) (ops : List Op) (d : Disk)
        → AllKeep temp path ops
        → P d.files
        → P (run faults temp path ops d).1.files
    unfolding run step AllKeep
    run-keeps temp path [] d k h = h
    run-keeps temp path (op ∷ ops) d k h =
        let (g, b) = k.0 d.files d.calls h in
        go_on-keeps (run faults temp path ops) _ (call-keeps _ _ d g b)
          (λ v. run-keeps temp path ops v k.1)
