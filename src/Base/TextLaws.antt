-- ===== src/Base/TextLaws.antt =====
-- `strings`: splitting and trimming texts whose characters are known.
use Prim.Native.Nat.{ℕ}
use Prim.Native.Char.{Char, code}
use Prim.Native.String
use Prim.Native.String.{String}
use mathlib.Core.Path.{◌≡◌, refl, sym, ap, ◌∙◌}
use mathlib.Core.Logic.{◌≢◌, inl, inr}
use mathlib.Core.Bool.{Bool, true, false, ◌&&◌, ◌||◌}
use mathlib.Core.List.{List, [], ◌∷◌, ◌++◌}
use native.Mathlib.Omega.{arith}
use text.Mathlib.TextLemmas.{nil-append, cons-append, append-ne-nil_of_right_ne-nil}
use text.Mathlib.Text.{starts_with}
use text.Mathlib.TextEquality.{eq_iff}
use text.Mathlib.TextPositions.{eq_refl, starts_with-append}
use sbackup.Base.Tests.{nat_beq, nat_beq_iff, ◌==◌, string_eq, Bool-cases}
use sbackup.Base.Lists.{All, any, length, length-append}
use sbackup.Base.Text.{
  codes, is_space, trim_left, trim_right, split, split_where, join, trim_suffix, contains_newline,
  trim_space, contains,
}

-- No character passes the test.
abbrev pub Free : (ℕ → Bool) → String → Type 0
Free p s = All (λ c. p c ≡ false) (codes s)

pub codes-append : (s t : String) → codes (String.◌++◌ s t) ≡ codes s ++ codes t
codes-append String.[] t = ap codes (nil-append t)
codes-append (String.◌∷◌ c s) t =
    ap codes (cons-append c s t) ∙ ap (λ cs. code c ∷ cs) (codes-append s t)

pub split_where-Free : (p : ℕ → Bool) (s : String) → Free p s → split_where p s ≡ s ∷ []
unfolding split_where
split_where-Free p String.[] h = refl
split_where-Free p (String.◌∷◌ c s) h = rw (split_where-Free p s h.1, h.0) refl

split_where-cons :
    (p : ℕ → Bool) (s : String) → (w : String) × (ws : List String) × (split_where p s ≡ w ∷ ws)
unfolding split_where
split_where-cons p String.[] = (_, _, refl)
split_where-cons p (String.◌∷◌ c s) =
    let (w, ws, e) = split_where-cons p s in
    elim (Bool-cases (p (code c))) [
      | inl q ↦ ("", w ∷ ws, rw (e, q) refl)
      | inr q ↦ (String.◌∷◌ c w, ws, rw (e, q) refl)
    ]

-- The part before the first separator, and the rest.
pub split_where-append :
    (p : ℕ → Bool) (s : String) (c : Char) (rest : String)
    → Free p s
    → p (code c) ≡ true
    → split_where p (String.◌++◌ s (String.◌∷◌ c rest)) ≡ s ∷ split_where p rest
unfolding split_where
split_where-append p String.[] c rest h e =
    let (w, ws, q) = split_where-cons p rest in rw (nil-append (String.◌∷◌ c rest), e, q) refl
split_where-append p (String.◌∷◌ d s) c rest h e =
    rw (cons-append d s (String.◌∷◌ c rest), split_where-append p s c rest h.1 e, h.0) refl

-- `strings.Split` of `strings.Join`, where no part has the separator.
pub split-join :
    (c : Char) (s : String) (rest : List String)
    → All (Free (λ x. nat_beq x (code c))) (s ∷ rest)
    → split (code c) (join (String.◌∷◌ c "") (s ∷ rest)) ≡ s ∷ rest
unfolding split join
split-join c s [] h = split_where-Free _ s h.0
split-join c s (t ∷ rest) h =
    let more = join (String.◌∷◌ c "") (t ∷ rest) in
    ap (λ x. split_where (λ x. nat_beq x (code c)) (String.◌++◌ s x))
      (cons-append c "" more ∙ ap (λ x. String.◌∷◌ c x) (nil-append more))
    ∙ (split_where-append _ s c more h.0 ((nat_beq_iff _ _).1 refl)
        ∙ ap (λ ps. s ∷ ps) (split-join c t rest h.1))

pub eq-false : (s t : String) → s ≢ t → (s == t) ≡ false
eq-false s t h = elim (Bool-cases (s == t)) [ inl e ↦ absurd (h ((eq_iff s t).0 e)) | inr e ↦ e ]

longer : (c : Char) (s suffix : String) → String.◌∷◌ c (String.◌++◌ s suffix) ≢ suffix
longer c s suffix p =
    let same = ap (λ x. length (codes x)) p in
    let parts = ap length (codes-append s suffix) ∙ length-append (codes s) (codes suffix) in
    absurd (omega arith)

-- A text behind which something stands that is not trimmed.
pub trim_right-append :
    (s t : String) → t ≢ "" → trim_right t ≡ t → trim_right (String.◌++◌ s t) ≡ String.◌++◌ s t
unfolding trim_right
trim_right-append String.[] t h e = rw (nil-append t) e
trim_right-append (String.◌∷◌ d s) t h e =
    rw
      (
        cons-append d s t,
        trim_right-append s t h e,
        eq-false _ "" (append-ne-nil_of_right_ne-nil s h),
      )
      refl

pub any-none : (p : ℕ → Bool) (xs : List ℕ) → All (λ x. p x ≡ false) xs → any p xs ≡ false
any-none p [] h = refl
any-none p (x ∷ xs) h = rw h.0 (any-none p xs h.1)

pub trim_left-started :
    (c : Char) (s : String)
    → is_space (code c) ≡ false
    → trim_left (String.◌∷◌ c s) ≡ String.◌∷◌ c s
unfolding trim_left
trim_left-started c s h = rw h refl

-- The end of a text that is cut off.
pub trim_suffix-append :
    (s suffix : String) → suffix ≢ "" → trim_suffix (String.◌++◌ s suffix) suffix ≡ s
unfolding trim_suffix
trim_suffix-append String.[] String.[] h = absurd (h refl)
trim_suffix-append String.[] (String.◌∷◌ c t) h =
    rw (nil-append (String.◌∷◌ c t)) (rw (eq_refl (String.◌∷◌ c t)) refl)
trim_suffix-append (String.◌∷◌ c s) suffix h =
    rw
      (cons-append c s suffix, eq-false _ suffix (longer c s suffix), trim_suffix-append s suffix h)
      refl

pub contains_newline-append :
    (s t : String)
    → contains_newline s ≡ false
    → contains_newline t ≡ false
    → contains_newline (String.◌++◌ s t) ≡ false
unfolding contains_newline
contains_newline-append s t hs ht = rw (codes-append s t) (any-append _ (codes s) (codes t) hs ht)
  where
    any-append :
        (p : ℕ → Bool) (xs ys : List ℕ)
        → any p xs ≡ false
        → any p ys ≡ false
        → any p (xs ++ ys) ≡ false
    any-append p [] ys hx hy = hy
    any-append p (x ∷ xs) ys hx hy = ground (arith, any-append p xs ys)

and_false : (b : Bool) → (b && false) ≡ false
and_false true = refl
and_false false = refl

trim_left-Free : (s : String) → Free is_space s → trim_left s ≡ s
unfolding trim_left
trim_left-Free String.[] h = refl
trim_left-Free (String.◌∷◌ c s) h = trim_left-started c s h.0

trim_right-Free : (s : String) → Free is_space s → trim_right s ≡ s
unfolding trim_right
trim_right-Free String.[] h = refl
trim_right-Free (String.◌∷◌ c s) h = rw (trim_right-Free s h.1, h.0, and_false (s == "")) refl

-- A text without blanks is left alone.
pub trim_space-Free : (s : String) → Free is_space s → trim_space s ≡ s
unfolding trim_space
trim_space-Free s h = ap trim_left (trim_right-Free s h) ∙ trim_left-Free s h

or_true : (b : Bool) → (b || true) ≡ true
or_true true = refl
or_true false = refl

cons-cons : (c : Char) (t : String) → String.◌++◌ (String.◌∷◌ c "") t ≡ String.◌∷◌ c t
cons-cons c t = cons-append c "" t ∙ ap (λ x. String.◌∷◌ c x) (nil-append t)

starts-cons : (c : Char) (t : String) → starts_with (String.◌∷◌ c t) (String.◌∷◌ c "") ≡ true
starts-cons c t =
    ap (λ x. starts_with x (String.◌∷◌ c "")) (sym (cons-cons c t))
    ∙ starts_with-append (String.◌∷◌ c "") t

-- The character that stands between two parts is in the text.
pub contains-between :
    (s : String) (c : Char) (t : String)
    → contains (String.◌++◌ s (String.◌∷◌ c t)) (String.◌∷◌ c "") ≡ true
unfolding contains
contains-between String.[] c t = rw (nil-append (String.◌∷◌ c t), starts-cons c t) refl
contains-between (String.◌∷◌ d s) c t =
    rw (cons-append d s (String.◌∷◌ c t), contains-between s c t) (or_true _)
