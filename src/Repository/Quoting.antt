-- ===== src/Repository/Quoting.antt =====
-- `shellQuote` against the shell's own reading of a word.
use Prim.Native.Char.{code}
use Prim.Native.String
use text.Mathlib.TextLemmas.{cons-append, nil-append}
use mathlib.Core.Option
use text.Mathlib.TextEquality.{Char-path}
use sbackup.Base.{
  ℕ, ◌≡◌, refl, ap, String, Bool, true, false, ◌&&◌, ◌||◌, leb, [], ◌∷◌, Option, none, some,
  if◌then◌else◌, Bool-cases, inl, inr, nat_beq, nat_beq_iff, ◌∙◌, sym,
}
use sbackup.Base.Text.{replace_char}
use sbackup.Repository.{shell_quote}

-- A character that the shell reads as itself outside quotes, wherever it stands in a word: a letter, a digit
-- or one of `%+,-./:@_`. Blanks, quotes, `$`, `;`, `&`, `|`, `<`, `>`, the backquote, `*`, `?`, `[`, `#`, `~`,
-- `=`, `!`, braces and parentheses are none.
unfoldable pub is_plain : ℕ → Bool
is_plain c =
    (leb 97 c && leb c 122)
    || ((leb 65 c && leb c 90)
        || ((leb 48 c && leb c 57)
            || (nat_beq c b'%'
                || (nat_beq c b'_'
                    || (nat_beq c b'@' || (nat_beq c b':' || (leb 43 c && leb c 47)))))))

-- One word by the POSIX rules, where each expansion, operator and separator is refused: within single quotes
-- each character but the quote stands for itself; outside, a backslash makes the next one but a line break
-- stand for itself, and every other character has to be plain.
unfoldable pub unquote : Bool → String → Option String
unquote true String.[] = none
unquote false String.[] = some ""
unquote true (String.◌∷◌ c s) =
    let outside = unquote false s in
    let inside = Option.map (String.◌∷◌ c) (unquote true s) in
    if nat_beq (code c) b'\'' then outside else inside
unquote false (String.◌∷◌ c String.[]) = if is_plain (code c) then some (String.◌∷◌ c "") else none
unquote false (String.◌∷◌ c (String.◌∷◌ d s)) =
    let quoted = unquote true (String.◌∷◌ d s) in
    let escaped = Option.map (String.◌∷◌ d) (unquote false s) in
    let plain = Option.map (String.◌∷◌ c) (unquote false (String.◌∷◌ d s)) in
    if nat_beq (code c) b'\''
    then quoted
    else if nat_beq (code c) b'\\'
    then (if nat_beq (code d) 10 then none else escaped)
    else if is_plain (code c)
    then plain
    else none

abbrev body : String → String
body s = replace_char b'\'' ("'" ∷ "\\" ∷ "'" ∷ "'" ∷ []) s

-- A quote outside quotes opens them.
open_quote : (r : String) → unquote false (String.◌∷◌ "'" r) ≡ unquote true r
unfolding unquote is_plain
open_quote String.[] = refl
open_quote (String.◌∷◌ d r) = refl

-- Inside the quotes the replaced text and the closing quote are read as the text.
unquote-body : (s : String) → unquote true (String.◌++◌ (body s) "'") ≡ some s
unfolding unquote replace_char
unquote-body String.[] = refl
unquote-body (String.◌∷◌ c s) = elim (Bool-cases (nat_beq (code c) b'\'')) [
  | inl e ↦ rw e (
      rw (cons-append _ _ _, cons-append _ _ _, cons-append _ _ _, cons-append _ _ _)
        (rw (open_quote (String.◌++◌ (body s) "'"), unquote-body s)
          (ap (λ q. some (String.◌∷◌ q s))
            (Char-path "'" c (sym ((nat_beq_iff (code c) b'\'').0 e))))))
  | inr e ↦ rw e (rw (cons-append c (body s) "'") (rw (e, unquote-body s) refl))
]

-- Read by the POSIX rules for one word, with every expansion, operator and separator outside quotes
-- refused, `shellQuote(s)` is the word `s`, whatever `s` is.
pub unquote-shell_quote : (s : String) → unquote false (shell_quote s) ≡ some s
unfolding shell_quote unquote
unquote-shell_quote s =
    rw (cons-append _ _ _, nil-append _) (open_quote (String.◌++◌ (body s) "'") ∙ unquote-body s)
