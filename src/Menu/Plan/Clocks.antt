-- ===== src/Menu/Plan/Clocks.antt =====
-- internal/tui/menu.go: times of day and the calendar expressions that are made of them.
use Prim.Native.String
use sbackup.Base.{
  ℕ, ◌≤◌, String, Bool, true, false, ◌||◌, List, [], ◌∷◌, some, ◌≡◌, ◌≢◌, refl, sym, ap, ◌∙◌, arith,
  All, All-append, All-imp, nat_beq, filter, string_eq,
}
use text.Mathlib.TextLemmas.{nil-append, cons-append, append-ne-nil_of_right_ne-nil, cons-ne-nil}
use sbackup.Base.Text.{
  codes, is_space, signed, magnitude, digits_value, in_int64, split_where, trim_space, trim_left,
  trim_right, contains_newline,
}
use sbackup.Base.TextLaws.{
  Free, codes-append, split_where-Free, trim_suffix-append, eq-false, trim_right-append,
  trim_left-started, any-none,
}
use sbackup.Menu.Plan.{
  below, clock_codes, valid_clock, clock_expression, fields, last_of, if_valid, clock_in, clock_of,
}

-- A character that a time of day can have: a digit, a sign or a colon.
pub record IsPlain (c : ℕ) : Type 0 where
  pub least : 43 ≤ c
  pub most : c ≤ 58
  pub no_comma : c ≢ 44

number-IsPlain : (limit a b : ℕ) → below limit (signed (a ∷ b ∷ [])) ≡ true → IsPlain a × IsPlain b
unfolding below signed magnitude digits_value in_int64
number-IsPlain limit a b h = (ground arith, ground arith)

clock_codes-IsPlain : (cs : List ℕ) → clock_codes cs ≡ true → All IsPlain cs
unfolding clock_codes
clock_codes-IsPlain [] h = tt
clock_codes-IsPlain (a ∷ []) h = cc
clock_codes-IsPlain (a ∷ b ∷ []) h = cc
clock_codes-IsPlain (a ∷ b ∷ c ∷ []) h = cc
clock_codes-IsPlain (a ∷ b ∷ c ∷ d ∷ []) h = cc
clock_codes-IsPlain (a ∷ b ∷ c ∷ d ∷ e ∷ f ∷ cs) h = cc
clock_codes-IsPlain (a ∷ b ∷ c ∷ d ∷ e ∷ []) h =
    let (a_plain, b_plain) = number-IsPlain 24 a b (ground arith) in
    let (d_plain, e_plain) = number-IsPlain 60 d e (ground arith) in
    (a_plain, (b_plain, (ground arith, (d_plain, (e_plain, tt)))))

pub valid_clock-IsPlain : (v : String) → valid_clock v ≡ true → All IsPlain (codes v)
unfolding valid_clock
valid_clock-IsPlain v h = clock_codes-IsPlain (codes v) h

not_space : (c : ℕ) → IsPlain c → is_space c ≡ false
unfolding is_space
not_space c h = ground arith

not_semicolon : (c : ℕ) → IsPlain c → nat_beq c b';' ≡ false
not_semicolon c h = ground arith

not_comma : (c : ℕ) → IsPlain c → nat_beq c b',' ≡ false
not_comma c h = ground arith

not_newline : (c : ℕ) → IsPlain c → (nat_beq c 10 || nat_beq c 13) ≡ false
not_newline c h = ground arith

-- What stands in an expression behind its first blank.
abbrev seconds : String → String
seconds v = String.◌++◌ v ":00"

abbrev starred : String → String
starred t =
    String.◌∷◌ "*"
      (String.◌∷◌ "-" (String.◌∷◌ "*" (String.◌∷◌ "-" (String.◌∷◌ "*" (String.◌∷◌ " " t)))))

clock_expression-eq : (v : String) → clock_expression v ≡ starred (seconds v)
clock_expression-eq v =
    let t = seconds v in
    rw
      (
        cons-append "*" "-*-* " t,
        cons-append "-" "*-* " t,
        cons-append "*" "-* " t,
        cons-append "-" "* " t,
        cons-append "*" " " t,
        cons-append " " "" t,
        nil-append t,
      )
      refl

module _ (v : String) (valid : valid_clock v ≡ true) where
  plain : All IsPlain (codes v)
  plain = valid_clock-IsPlain v valid

  seconds-Free :
      (p : ℕ → Bool) → ((c : ℕ) → IsPlain c → p c ≡ false) → Free p ":00" → Free p (seconds v)
  seconds-Free p plain_free end = rw (codes-append v ":00") (
      All-append (λ c. p c ≡ false) (codes v) (codes ":00") (All-imp plain_free (codes v) plain)
        end)

  -- What no character of a time of day is, and none of the others, is not in the expression.
  expression-Free :
      (p : ℕ → Bool)
      → ((c : ℕ) → IsPlain c → p c ≡ false)
      → Free p "*-*-* "
      → Free p ":00"
      → Free p (clock_expression v)
  expression-Free p plain_free (a, (b, (c, (d, (e, (f, _)))))) end =
      rw (clock_expression-eq v) (a, (b, (c, (d, (e, (f, seconds-Free p plain_free end))))))

  pub expression_without_semicolon : Free (λ c. nat_beq c b';') (clock_expression v)
  expression_without_semicolon =
      expression-Free _ not_semicolon (refl, (refl, (refl, (refl, (refl, (refl, tt))))))
        (refl, (refl, (refl, tt)))

  fields-expression : fields (clock_expression v) ≡ "*-*-*" ∷ seconds v ∷ []
  unfolding fields split_where is_space filter
  fields-expression = rw (clock_expression-eq v) (
      rw
        (
          split_where-Free is_space (seconds v)
              (seconds-Free is_space not_space (refl, (refl, (refl, tt)))),
          eq-false (seconds v) "" (append-ne-nil_of_right_ne-nil v (cons-ne-nil ":" "00")),
        )
        refl)

  pub clock_of-expression : clock_of (clock_expression v) ≡ some v
  unfolding clock_of
  clock_of-expression =
      ap (λ ws. clock_in (last_of ws)) fields-expression
      ∙ (ap if_valid (trim_suffix-append v ":00" (cons-ne-nil ":" "00")) ∙ rw valid refl)

  -- An expression is a text that trimming leaves alone, and has no line break.
  pub trim_space-expression : trim_space (clock_expression v) ≡ clock_expression v
  unfolding trim_space trim_right
  trim_space-expression =
      ap trim_left (
        trim_right-append "*-*-* " (seconds v)
          (append-ne-nil_of_right_ne-nil v (cons-ne-nil ":" "00"))
          (trim_right-append v ":00" (cons-ne-nil ":" "00") refl))
      ∙ (ap trim_left (clock_expression-eq v)
          ∙ (trim_left-started "*" _ refl ∙ sym (clock_expression-eq v)))

  pub expression-ne-nil : clock_expression v ≢ ""
  expression-ne-nil p = cons-ne-nil "*" _ (sym (clock_expression-eq v) ∙ p)

  pub expression_one_line : contains_newline (clock_expression v) ≡ false
  unfolding contains_newline
  expression_one_line = any-none _ (codes (clock_expression v)) (
      expression-Free _ not_newline (refl, (refl, (refl, (refl, (refl, (refl, tt))))))
        (refl, (refl, (refl, tt))))

  -- A time of day is no empty text, and has neither blanks nor commas.
  pub clock_without_blanks : Free is_space v
  clock_without_blanks = All-imp not_space (codes v) plain

  pub clock_without_comma : Free (λ c. nat_beq c b',') v
  clock_without_comma = All-imp not_comma (codes v) plain

  pub clock-ne-nil : v ≢ ""
  unfolding valid_clock clock_codes
  clock-ne-nil p = not_valid (sym valid ∙ ap valid_clock p)
    where
      not_valid : true ≡ false → ⊥
      not_valid h = cc
