-- ===== src/Store/Sql.antt =====
-- `ORDER BY … LIMIT` on the rows of a table, by the stored text of a time. Rows with the same text
-- keep their order.
use sbackup.Base.{
  ◌≡◌, refl, Bool, List, [], ◌∷◌, arith, filter, length, if◌then◌else◌, All, Bool-cases, inl, inr,
}

module _ {ℓ} {A : Type ℓ} (before : A → A → Bool) where
  unfoldable pub insert_row : A → List A → List A
  insert_row x [] = x ∷ []
  insert_row x (y ∷ ys) =
      let later = insert_row x ys in if before y x then y ∷ later else x ∷ y ∷ ys

  unfoldable pub order_by : List A → List A
  unfolding insert_row
  order_by [] = []
  order_by (x ∷ xs) = insert_row x (order_by xs)

  All-insert_row {κ} :
      (P : A → Type κ) (x : A) (xs : List A) → P x → All P xs → All P (insert_row x xs)
  unfolding insert_row
  All-insert_row P x [] p h = (p, tt)
  All-insert_row P x (y ∷ ys) p h = elim (Bool-cases (before y x)) [
    | inl e ↦ rw e (h.0, All-insert_row P x ys p h.1)
    | inr e ↦ rw e (p, (h.0, h.1))
  ]

  -- Sorting keeps what holds of every row.
  pub All-order_by {κ} : (P : A → Type κ) (xs : List A) → All P xs → All P (order_by xs)
  unfolding order_by
  All-order_by P [] h = h
  All-order_by P (x ∷ xs) h = All-insert_row P x (order_by xs) h.0 (All-order_by P xs h.1)

  count-insert_row :
      (p : A → Bool) (x : A) (xs : List A)
      → length (filter p (insert_row x xs)) ≡ length (filter p (x ∷ xs))
  unfolding insert_row filter
  count-insert_row p x [] = refl
  count-insert_row p x (y ∷ ys) = ground (arith, count-insert_row p x ys)

  -- Sorting neither loses nor repeats a row: each test passes as often as before.
  pub count-order_by :
      (p : A → Bool) (xs : List A) → length (filter p (order_by xs)) ≡ length (filter p xs)
  unfolding order_by filter
  count-order_by p [] = refl
  count-order_by p (x ∷ xs) =
      ground (arith, count-insert_row p x (order_by xs), count-order_by p xs)
