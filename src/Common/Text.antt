-- ===== src/Common/Text.antt =====
-- The `str` methods of Python that the program uses, on native texts.
use Prim.Native.Char.{Char, code}
use Prim.Native.String.{String, count, [], ◌∷◌, ◌++◌}
use Prim.Native.Nat.{ℕ, zero, suc, ◌-◌, ◌/◌, ◌%◌}
use mathlib.Core.Bool.{Bool, true, false, ◌&&◌, ◌||◌}
use mathlib.Core.List.{List}
use mathlib.Core.Option.{Option, none, some}
use text.Mathlib.Text.{◌==◌ as str_eq}
use decisionos.Common.Tests.{leb, ◌==◌, if◌then◌else◌}

-- The code points that `str.strip` takes for white space.
abbrev pub is_space : ℕ → Bool
is_space n =
    leb 9 n && leb n 13
    || leb 28 n && leb n 32
    || leb 8192 n && leb n 8202
    || n == 133
    || n == 160
    || n == 5760
    || n == 8232
    || n == 8233
    || n == 8239
    || n == 8287
    || n == 12288

-- `s.lstrip()`
unfoldable pub lstrip : String → String
lstrip [] = []
lstrip (c ∷ s) = let rest = lstrip s in if is_space (code c) then rest else c ∷ s

-- `s.rstrip()`
unfoldable pub rstrip : String → String
rstrip [] = []
rstrip (c ∷ s) = let rest = rstrip s in if str_eq rest "" && is_space (code c) then [] else c ∷ rest

-- `s.strip()`
unfoldable pub strip : String → String
unfolding lstrip rstrip
strip s = rstrip (lstrip s)

-- The character in front of the first text.
abbrev pub cons_first : Char → List String → List String
cons_first c List.[] = List.◌∷◌ (c ∷ []) List.[]
cons_first c (List.◌∷◌ s l) = List.◌∷◌ (c ∷ s) l

-- `s.split(sep)` for a separator of one character, by its code.
unfoldable pub split : ℕ → String → List String
split sep [] = List.◌∷◌ [] List.[]
split sep (c ∷ s) =
    let rest = split sep s in if code c == sep then List.◌∷◌ [] rest else cons_first c rest

-- `s.endswith(t)`
unfoldable pub ends_with : String → String → Bool
ends_with [] t = str_eq [] t
ends_with (c ∷ s) t = if ends_with s t then true else str_eq (c ∷ s) t

-- `s[:-1]`
unfoldable pub drop_last : String → String
drop_last [] = []
drop_last (c ∷ s) = if str_eq s "" then [] else c ∷ drop_last s

-- `s.replace(cc, r)` for a character that is written twice, by its code.
unfoldable pub replace_double : ℕ → String → String → String
replace_double c r [] = []
replace_double c r (x ∷ []) = x ∷ []
replace_double c r (x ∷ (y ∷ s)) = elim (code x == c && code y == c) [
  | true ↦ r ++ replace_double c r s
  | false ↦ x ∷ replace_double c r (y ∷ s)
]

abbrev digit : ℕ → String
digit n =
    if n == 0
    then "0"
    else if n == 1
    then "1"
    else if n == 2
    then "2"
    else if n == 3
    then "3"
    else if n == 4
    then "4"
    else if n == 5
    then "5"
    else if n == 6
    then "6"
    else if n == 7
    then "7"
    else if n == 8
    then "8"
    else "9"

-- The decimal digits, with fuel for them: a number has no more digits than its value plus one.
unfoldable pub decimal_from : ℕ → ℕ → String
decimal_from zero n = digit n
decimal_from (suc fuel) n = elim (leb 10 n) [
  | true ↦ decimal_from fuel (n / 10) ++ digit (n % 10)
  | false ↦ digit n
]

-- `str(n)`
unfoldable pub decimal : ℕ → String
unfolding decimal_from
decimal n = decimal_from n n

abbrev starts_word : (ℕ → Bool) → String → Bool
starts_word sep [] = false
starts_word sep (c ∷ s) = if sep (code c) then false else true

-- `s.split()`, where `sep` tells the code points that separate.
unfoldable pub words : (ℕ → Bool) → String → List String
words sep [] = List.[]
words sep (c ∷ s) =
    let rest = words sep s in
    if sep (code c)
    then rest
    else if starts_word sep s
    then cons_first c rest
    else List.◌∷◌ (c ∷ []) rest

-- `s.split(sep, 1)` for a separator of one character, by its code; `none` where it is not in `s`.
unfoldable pub split_once : ℕ → String → Option (String × String)
split_once sep [] = none
split_once sep (c ∷ s) =
    let rest = split_once sep s in
    if code c == sep
    then some ([], s)
    else elim rest [ none ↦ none | some (a, b) ↦ some (c ∷ a, b) ]

-- `s.startswith(t)`
unfoldable pub starts_with : String → String → Bool
starts_with s [] = true
starts_with [] (d ∷ t) = false
starts_with (c ∷ s) (d ∷ t) = if code c == code d then starts_with s t else false

-- `t in s`
unfoldable pub has_text : String → String → Bool
unfolding starts_with
has_text t [] = starts_with [] t
has_text t (c ∷ s) = if starts_with (c ∷ s) t then true else has_text t s

-- `s.replace(old, new)`, `old` not empty, with the number of characters to skip
unfoldable pub replace_from : String → String → ℕ → String → String
unfolding starts_with
replace_from old new skip [] = []
replace_from old new (suc skip) (c ∷ s) = replace_from old new skip s
replace_from old new zero (c ∷ s) = elim (starts_with (c ∷ s) old) [
  | true ↦ new ++ replace_from old new (count old - 1) s
  | false ↦ c ∷ replace_from old new zero s
]

-- `s.replace(old, new)`, `old` not empty
unfoldable pub replace : String → String → String → String
unfolding replace_from
replace old new s = replace_from old new zero s
