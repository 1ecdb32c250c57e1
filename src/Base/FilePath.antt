-- ===== src/Base/FilePath.antt =====
-- `path/filepath` on Unix: `Clean` and `Rel`, on the elements of a path.
use Prim.Native.String.{String}
use Prim.Native.Char.{code}
use mathlib.Core.Bool.{Bool, false, ◌&&◌, ◌||◌, not}
use mathlib.Core.Option.{Option, none, some}
use mathlib.Core.List.{List, [], ◌∷◌, reverse}
use sbackup.Base.Tests.{nat_beq, if◌then◌else◌, ◌==◌, string_eq}
use sbackup.Base.Text.{split}

-- `filepath.IsAbs`
unfoldable pub is_abs : String → Bool
is_abs String.[] = false
is_abs (String.◌∷◌ c s) = nat_beq (code c) b'/'

-- A cleaned path: whether it is rooted, and its elements. The path `.` has none.
pub record CleanPath : Type 0 where
  pub rooted : Bool
  pub parts : List String

-- One element onto the cleaned ones, the last of which stands first.
unfoldable pub push : Bool → String → List String → List String
push rooted e [] = if e == "" || e == "." then [] else if e == ".." && rooted then [] else e ∷ []
push rooted e (p ∷ done) =
    if e == "" || e == "."
    then p ∷ done
    else if e == ".."
    then (if p == ".." then e ∷ p ∷ done else done)
    else e ∷ p ∷ done

unfoldable pub clean_onto : Bool → List String → List String → List String
unfolding push
clean_onto rooted [] done = done
clean_onto rooted (e ∷ es) done = clean_onto rooted es (push rooted e done)

-- `filepath.Clean`
unfoldable pub clean : String → CleanPath
unfolding is_abs clean_onto
clean path = record {
  rooted = is_abs path;
  parts = reverse (clean_onto (is_abs path) (split b'/' path) []);
}

-- `..` for each element that is left of the base
unfoldable pub climb : List String → List String → List String
climb [] target = target
climb (b ∷ bs) target = ".." ∷ climb bs target

-- What is left of base and target behind their common beginning gives the relative path; it cannot be
-- known if the base goes on with `..`.
unfoldable pub rel_parts : List String → List String → Option (List String)
unfolding climb
rel_parts [] target = some target
rel_parts (b ∷ bs) [] = if b == ".." then none else some (climb (b ∷ bs) [])
rel_parts (b ∷ bs) (t ∷ ts) =
    let deeper = rel_parts bs ts in
    if b == t then deeper else if b == ".." then none else some (climb (b ∷ bs) (t ∷ ts))

-- `filepath.Rel`; the path `.` has no elements.
unfoldable pub rel : String → String → Option (List String)
unfolding rel_parts clean
rel base target =
    let b = clean base in
    let t = clean target in
    if (b.rooted && t.rooted) || (not b.rooted && not t.rooted)
    then rel_parts b.parts t.parts
    else none

abbrev last_named : List String → Option String
last_named [] = none
last_named (e ∷ es) = elim (last_named es) [
  | some found ↦ some found
  | none ↦ if e == "" then none else some e
]

-- `filepath.Base`
unfoldable pub base : String → String
unfolding split
base path =
    if path == "" then "." else elim (last_named (split b'/' path)) [ none ↦ "/" | some e ↦ e ]
