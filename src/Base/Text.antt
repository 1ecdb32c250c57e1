-- ===== src/Base/Text.antt =====
-- Go's `strings` functions that the program calls. A text is walked as the list of its code points:
-- what is searched for is ASCII, so this and the bytes give the same answer.
use Prim.Native.Nat.{ℕ, zero, suc, ◌+◌, ◌-◌, ◌*◌}
use Prim.Native.Char.{Char, code}
use Prim.Native.String
use Prim.Native.String.{String}
use mathlib.Core.Bool.{Bool, ◌&&◌, ◌||◌}
use mathlib.Core.List.{List, [], ◌∷◌}
use sbackup.Base.Tests.{leb, ltb, nat_beq, if◌then◌else◌, ◌==◌, string_eq}
use mathlib.Core.Option.{Option, none, some}
use text.Mathlib.Text.{starts_with}
use sbackup.Base.Int.{ℤ, pos, negsuc, max_int64}
use sbackup.Base.Lists.{any}

abbrev pub codes : String → List ℕ
codes String.[] = []
codes (String.◌∷◌ c s) = code c ∷ codes s

-- Go's `+` on strings, over all the parts of a concatenation.
abbrev pub concat : List String → String
concat [] = ""
concat (s ∷ []) = s
concat (s ∷ rest) = String.◌++◌ s (concat rest)

-- `unicode.IsSpace`
unfoldable pub is_space : ℕ → Bool
is_space c =
    (leb 9 c && leb c 13)
    || nat_beq c 32
    || nat_beq c 0x85
    || nat_beq c 0xa0
    || nat_beq c 0x1680
    || (leb 0x2000 c && leb c 0x200a)
    || nat_beq c 0x2028
    || nat_beq c 0x2029
    || nat_beq c 0x202f
    || nat_beq c 0x205f
    || nat_beq c 0x3000

-- `strings.TrimLeftFunc`, on characters
unfoldable pub trim_left : String → String
unfolding is_space
trim_left String.[] = ""
trim_left (String.◌∷◌ c s) =
    let rest = trim_left s in if is_space (code c) then rest else String.◌∷◌ c s

unfoldable pub trim_right : String → String
unfolding is_space
trim_right String.[] = ""
trim_right (String.◌∷◌ c s) =
    let rest = trim_right s in if rest == "" && is_space (code c) then "" else String.◌∷◌ c rest

-- `strings.TrimSpace`
unfoldable pub trim_space : String → String
unfolding trim_left trim_right
trim_space s = trim_left (trim_right s)

abbrev pub grown : Bool → Char → List String → List String
grown ends c [] = []
grown ends c (w ∷ ws) = if ends then "" ∷ w ∷ ws else String.◌∷◌ c w ∷ ws

-- The parts between the characters that pass the test.
unfoldable pub split_where : (ℕ → Bool) → String → List String
split_where p String.[] = "" ∷ []
split_where p (String.◌∷◌ c s) = grown (p (code c)) c (split_where p s)

-- `strings.Split(s, sep)` for a separator of one character
unfoldable pub split : ℕ → String → List String
unfolding split_where
split sep = split_where (λ c. nat_beq c sep)

-- `strings.Join`
unfoldable pub join : String → List String → String
join sep [] = ""
join sep (s ∷ []) = s
join sep (s ∷ rest) = String.◌++◌ s (String.◌++◌ sep (join sep rest))

-- `strings.ContainsAny(s, "\r\n")`
unfoldable pub contains_newline : String → Bool
contains_newline s = any (λ c. nat_beq c 10 || nat_beq c 13) (codes s)

-- `strings.HasSuffix`
unfoldable pub has_suffix : String → String → Bool
has_suffix String.[] suffix = suffix == ""
has_suffix (String.◌∷◌ c s) suffix = String.◌∷◌ c s == suffix || has_suffix s suffix

-- `strings.TrimSuffix`
unfoldable pub trim_suffix : String → String → String
trim_suffix String.[] suffix = ""
trim_suffix (String.◌∷◌ c s) suffix =
    let rest = trim_suffix s suffix in if String.◌∷◌ c s == suffix then "" else String.◌∷◌ c rest

-- `strings.TrimPrefix(s, p)` for a prefix of one character
unfoldable pub trim_char : ℕ → String → String
trim_char p String.[] = ""
trim_char p (String.◌∷◌ c s) = if nat_beq (code c) p then s else String.◌∷◌ c s

-- `strings.HasPrefix`
abbrev pub has_prefix : String → String → Bool
has_prefix s p = starts_with s p

-- `strings.Contains`
unfoldable pub contains : String → String → Bool
contains String.[] part = part == ""
contains (String.◌∷◌ c s) part = has_prefix (String.◌∷◌ c s) part || contains s part

-- The value of decimal digits behind those read so far.
unfoldable pub digits_value : ℕ → List ℕ → Option ℕ
digits_value n [] = some n
digits_value n (c ∷ cs) =
    let more = digits_value (n * 10 + (c - 48)) cs in if leb 48 c && leb c 57 then more else none

unfoldable pub magnitude : List ℕ → Option ℕ
unfolding digits_value
magnitude [] = none
magnitude (c ∷ cs) = digits_value 0 (c ∷ cs)

unfoldable pub in_int64 : ℕ → (ℕ → ℤ) → Option ℕ → Option ℤ
in_int64 bound f none = none
in_int64 bound f (some n) = if leb n bound then some (f n) else none

abbrev pub minus : ℕ → ℤ
minus zero = pos 0
minus (suc n) = negsuc n

unfoldable pub signed : List ℕ → Option ℤ
unfolding magnitude in_int64
signed [] = none
signed (c ∷ cs) =
    if nat_beq c b'-'
    then in_int64 (suc max_int64) minus (magnitude cs)
    else if nat_beq c b'+'
    then in_int64 max_int64 pos (magnitude cs)
    else in_int64 max_int64 pos (magnitude (c ∷ cs))

-- `strconv.Atoi`, and `strconv.ParseInt(s, 10, 64)`
unfoldable pub atoi : String → Option ℤ
unfolding signed
atoi s = signed (codes s)

unfoldable pub nearest : ℕ → (ℕ → ℤ) → Option ℕ → ℤ
nearest bound f none = pos 0
nearest bound f (some n) = f (if leb n bound then n else bound)

-- The number that `strconv.Atoi` returns beside its error: 0, or the nearest in range.
unfoldable pub signed_value : List ℕ → ℤ
unfolding magnitude nearest
signed_value [] = pos 0
signed_value (c ∷ cs) =
    if nat_beq c b'-'
    then nearest (suc max_int64) minus (magnitude cs)
    else if nat_beq c b'+'
    then nearest max_int64 pos (magnitude cs)
    else nearest max_int64 pos (magnitude (c ∷ cs))

unfoldable pub atoi_value : String → ℤ
unfolding signed_value
atoi_value s = signed_value (codes s)

-- The characters in front of a text.
abbrev pub prepend : List Char → String → String
prepend [] s = s
prepend (c ∷ cs) s = String.◌∷◌ c (prepend cs s)

-- `strings.ReplaceAll(s, old, new)` for one old character
unfoldable pub replace_char : ℕ → List Char → String → String
replace_char old new String.[] = ""
replace_char old new (String.◌∷◌ c s) =
    let rest = replace_char old new s in
    if nat_beq (code c) old then prepend new rest else String.◌∷◌ c rest

-- The number of bytes of a text in UTF-8.
unfoldable pub byte_length : List ℕ → ℕ
byte_length [] = 0
byte_length (c ∷ cs) =
    let rest = byte_length cs in
    (if ltb c 128 then 1 else if ltb c 2048 then 2 else if ltb c 65536 then 3 else 4) + rest
