-- ===== src/Executor.antt =====
-- internal/executor/executor.go: running a command, and keeping secrets out of what is logged of it.
pub mod Redaction
pub mod Output
mod Tests
use Prim.Native.Char.{Char, code}
use Prim.Native.String
use sbackup.Base.{
  ℕ, zero, suc, ◌+◌, ◌-◌, String, Bool, true, false, not, ◌&&◌, ◌||◌, List, [], ◌∷◌, Option, none,
  some, take, map, if◌then◌else◌, ◌==◌, string_eq, nat_beq, leb, length,
}
use sbackup.Base.Int.{ℤ, pos, negsuc}
use sbackup.Base.Text.{codes, concat, join, has_prefix, contains}

-- The letter that a character stands for under `(?i)`: ASCII capitals, the long s and the Kelvin sign.
unfoldable pub fold_case : ℕ → ℕ
fold_case c =
    if leb b'A' c && leb c b'Z'
    then c + 32
    else if nat_beq c 0x17f
    then b's'
    else if nat_beq c 0x212a
    then b'k'
    else c

-- What is left behind a word, if the text begins with it.
unfoldable pub after_word : List ℕ → List ℕ → Option (List ℕ)
unfolding fold_case
after_word [] s = some s
after_word (w ∷ ws) [] = none
after_word (w ∷ ws) (c ∷ s) =
    let rest = after_word ws s in if nat_beq (fold_case c) w then rest else none

abbrev words : List (List ℕ)
words =
    codes "password"
    ∷ codes "passwd"
    ∷ codes "token"
    ∷ codes "secret"
    ∷ codes "authorization"
    ∷ codes "access_key"
    ∷ codes "access-key"
    ∷ codes "accesskey"
    ∷ []

unfoldable pub first_word : List (List ℕ) → List ℕ → Option (List ℕ)
unfolding after_word
first_word [] s = none
first_word (w ∷ ws) s = elim (after_word w s) [ some rest ↦ some rest | none ↦ first_word ws s ]

-- `[=: ]`
abbrev is_separator : ℕ → Bool
is_separator c = nat_beq c b'=' || (nat_beq c b':' || nat_beq c 32)

-- `[^\s,;]`
abbrev is_value : ℕ → Bool
is_value c = not (
    nat_beq c 32
    || (nat_beq c 9
        || (nat_beq c 10
            || (nat_beq c 12 || (nat_beq c 13 || (nat_beq c b',' || nat_beq c b';'))))))

unfoldable pub value_length : List ℕ → ℕ
value_length [] = 0
value_length (c ∷ s) = let rest = value_length s in if is_value c then suc rest else 0

-- `([=: ]+)([^\s,;]+)` behind one separator: the most separators that leave a value, and its length.
unfoldable pub separated : List ℕ → Option (ℕ × ℕ)
unfolding value_length
separated [] = none
separated (c ∷ s) =
    let here : Option (ℕ × ℕ) = if is_value c then some (0, value_length (c ∷ s)) else none in
    let further = separated s in if is_separator c then or_else further here else here
  where
    or_else : Option (ℕ × ℕ) → Option (ℕ × ℕ) → Option (ℕ × ℕ)
    or_else (some (k, m)) other = some (suc k, m)
    or_else none other = other

abbrev matched : ℕ → List ℕ → Option (ℕ × ℕ)
matched total [] = none
matched total (c ∷ s) =
    if is_separator c
    then elim (separated s) [ none ↦ none | some (k, m) ↦ some (total - length s + k, m) ]
    else none

-- A match of `sensitive` at the head of the text: how many characters of it stay, and how many are
-- replaced.
unfoldable pub match_at : List ℕ → Option (ℕ × ℕ)
unfolding first_word separated
match_at s = elim (first_word words s) [ none ↦ none | some rest ↦ matched (length s) rest ]

-- Where the scan of the text stands: looking for a match, copying so many characters before a value of
-- so many, or dropping so many.
pub data Scan : Type 0 where
  look : Scan
  copy : ℕ → ℕ → Scan
  skip : ℕ → Scan

unfoldable pub redact_from : Scan → String → String
unfolding match_at
redact_from scan String.[] = ""
redact_from look (String.◌∷◌ c s) = elim (match_at (codes (String.◌∷◌ c s))) [
  | none ↦ String.◌∷◌ c (redact_from look s)
  | some (k, m) ↦ String.◌∷◌ c (redact_from (copy (k - 1) m) s)
]
redact_from (copy (suc k) m) (String.◌∷◌ c s) = String.◌∷◌ c (redact_from (copy k m) s)
redact_from (copy zero m) (String.◌∷◌ c s) = String.◌++◌ "<redacted>" (redact_from (skip (m - 1)) s)
redact_from (skip (suc m)) (String.◌∷◌ c s) = redact_from (skip m) s
redact_from (skip zero) (String.◌∷◌ c s) = elim (match_at (codes (String.◌∷◌ c s))) [
  | none ↦ String.◌∷◌ c (redact_from look s)
  | some (k, m) ↦ String.◌∷◌ c (redact_from (copy (k - 1) m) s)
]

-- `Redact`
unfoldable pub redact : String → String
unfolding redact_from
redact s = redact_from look s
