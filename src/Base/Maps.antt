-- ===== src/Base/Maps.antt =====
-- Maps as lists of entries, each key once; an entry that is written again stays at its place.
use sbackup.Base.{
  String, Option, none, Bool, true, false, List, [], ◌∷◌, some, ◌==◌, string_eq, ◌≡◌, refl, ap,
  eq_iff, eq_refl, Bool-cases, inl, inr, filter, subst, sym, ◌∙◌, if◌then◌else◌,
}

module _ {A : Type 0} where
  -- `value, ok := m[key]`
  unfoldable pub lookup : String → List (String × A) → Option A
  lookup key [] = none
  lookup key ((k, v) ∷ m) = if k == key then some v else lookup key m

  -- `m[key] = value`
  unfoldable pub put : String → A → List (String × A) → List (String × A)
  put key value [] = (key, value) ∷ []
  put key value ((k, v) ∷ m) =
      let rest = put key value m in if k == key then (key, value) ∷ m else (k, v) ∷ rest

  -- `delete(m, key)`
  unfoldable pub remove : String → List (String × A) → List (String × A)
  remove key [] = []
  remove key ((k, v) ∷ m) = let rest = remove key m in if k == key then rest else (k, v) ∷ rest

pub eq-symmetric : (a b : String) → (a == b) ≡ false → (b == a) ≡ false
eq-symmetric a b h = elim (Bool-cases (b == a)) [
  | inl e ↦
      absurd (true-false (sym (eq_refl a) ∙ subst (λ x. (a == x) ≡ false) ((eq_iff b a).0 e) h))
  | inr e ↦ e
]
  where
    true-false : true ≡ false → ⊥
    true-false q = cc

module _ {A : Type 0} where
  pub lookup-put :
      (key : String) (v : A) (m : List (String × A)) → lookup key (put key v m) ≡ some v
  unfolding lookup put
  lookup-put key v [] = rw (eq_refl key) refl
  lookup-put key v ((k, x) ∷ m) = elim (Bool-cases (k == key)) [
    | inl e ↦ rw (e, eq_refl key) refl
    | inr e ↦ rw (e, e) (lookup-put key v m)
  ]

  -- Writing twice is writing the second value.
  pub put-put :
      (key : String) (v w : A) (m : List (String × A)) → put key w (put key v m) ≡ put key w m
  unfolding put
  put-put key v w [] = rw (eq_refl key) refl
  put-put key v w ((k, x) ∷ m) = elim (Bool-cases (k == key)) [
    | inl e ↦ rw (e, eq_refl key) refl
    | inr e ↦ rw (e, e) (ap (λ r. (k, x) ∷ r) (put-put key v w m))
  ]

  some_injective : {a b : A} → some a ≡ some b → a ≡ b
  some_injective h = cc

  first-eq :
      (key k : String) (x v : A) (m : List (String × A))
      → (k == key) ≡ true
      → lookup key ((k, x) ∷ m) ≡ some v
      → some x ≡ some v
  unfolding lookup
  first-eq key k x v m e h = subst (λ b. (if b then some x else lookup key m) ≡ some v) e h

  rest-eq :
      (key k : String) (x v : A) (m : List (String × A))
      → (k == key) ≡ false
      → lookup key ((k, x) ∷ m) ≡ some v
      → lookup key m ≡ some v
  unfolding lookup
  rest-eq key k x v m e h = subst (λ b. (if b then some x else lookup key m) ≡ some v) e h

  subst2 :
      (keep : String × A → Bool) (j key : String) (x v : A)
      → j ≡ key
      → x ≡ v
      → keep (key, v) ≡ true
      → keep (j, x) ≡ true
  subst2 keep j key x v e q h = rw (e, q) h

  -- Writing the value that is there changes nothing.
  pub put-lookup :
      (key : String) (v : A) (m : List (String × A)) → lookup key m ≡ some v → put key v m ≡ m
  unfolding lookup put
  put-lookup key v [] h = cc
  put-lookup key v ((k, x) ∷ m) h = elim (Bool-cases (k == key)) [
    | inl e ↦ rw (e, (eq_iff k key).0 e, some_injective (first-eq key k x v m e h)) refl
    | inr e ↦ rw e (ap (λ r. (k, x) ∷ r) (put-lookup key v m (rest-eq key k x v m e h)))
  ]

  pub lookup-filter :
      (keep : String × A → Bool) (key : String) (v : A) (m : List (String × A))
      → keep (key, v) ≡ true
      → lookup key m ≡ some v
      → lookup key (filter keep m) ≡ some v
  unfolding lookup filter
  lookup-filter keep key v [] k h = cc
  lookup-filter keep key v ((j, x) ∷ m) k h = elim (Bool-cases (j == key)) [
    | inl e ↦
        rw
          (
            subst2 keep j key x v ((eq_iff j key).0 e) (some_injective (first-eq key j x v m e h))
                k,
            lookup,
            e,
          )
          (first-eq key j x v m e h)
    | inr e ↦ elim (Bool-cases (keep (j, x))) [
      | inl q ↦ rw (q, lookup, e) (lookup-filter keep key v m k (rest-eq key j x v m e h))
      | inr q ↦ rw q (lookup-filter keep key v m k (rest-eq key j x v m e h))
    ]
  ]

  pub lookup-put_other :
      (j key : String) (v : A) (m : List (String × A))
      → (key == j) ≡ false
      → lookup j (put key v m) ≡ lookup j m
  unfolding lookup put
  lookup-put_other j key v [] h = rw h refl
  lookup-put_other j key v ((k, x) ∷ m) h = elim (Bool-cases (k == key)) [
    | inl e ↦ rw (e, lookup, h, (eq_iff k key).0 e, h) refl
    | inr e ↦ rw (e, lookup, lookup-put_other j key v m h) refl
  ]

  pub lookup-remove_other :
      (j key : String) (m : List (String × A))
      → (key == j) ≡ false
      → lookup j (remove key m) ≡ lookup j m
  unfolding lookup remove
  lookup-remove_other j key [] h = refl
  lookup-remove_other j key ((k, x) ∷ m) h = elim (Bool-cases (k == key)) [
    | inl e ↦ rw (e, (eq_iff k key).0 e, h) (lookup-remove_other j key m h)
    | inr e ↦ rw (e, lookup, lookup-remove_other j key m h) refl
  ]

  pub lookup-remove : (key : String) (m : List (String × A)) → lookup key (remove key m) ≡ none
  unfolding lookup remove
  lookup-remove key [] = refl
  lookup-remove key ((k, x) ∷ m) = elim (Bool-cases (k == key)) [
    | inl e ↦ rw e (lookup-remove key m)
    | inr e ↦ rw (e, lookup, e) (lookup-remove key m)
  ]
