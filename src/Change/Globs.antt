-- ===== src/Change/Globs.antt =====
-- `match_glob` of scripts/ci/check_multisig.py. Regular expressions are a parameter.
pub mod Braces
pub mod Expand
pub mod Regex
pub mod Matches
use Prim.Native.Char.{Char, code}
use Prim.Native.String.{◌++◌ as ◌<>◌}
use decisionos.Common.{
  ℕ, zero, suc, String, Bool, true, false, Option, none, some, List, [], ◌∷◌, str_eq, ◌==◌,
  if◌then◌else◌,
}
use decisionos.Common.Text.{split, split_once, replace}

abbrev pub further : Char → Option (String × String × String) → Option (String × String × String)
further c none = none
further c (some (a, g, z)) = some (String.◌∷◌ c a, g, z)

-- `re.search(r"\{([^}]+)\}", pattern)`: what stands before, in and after the braces
unfoldable pub search_braces : String → Option (String × String × String)
unfolding split_once
search_braces String.[] = none
search_braces (String.◌∷◌ c s) =
    let rest = further c (search_braces s) in
    if code c == 123
    then elim (split_once 125 s) [
      | none ↦ rest
      | some (g, z) ↦ if str_eq g "" then rest else some ("", g, z)
    ]
    else rest

-- `regex = pattern.replace(".", r"\.").replace("*", ".*").replace("?", ".")`
abbrev pub regex_of : String → String
regex_of pattern = replace "?" "." (replace "*" ".*" (replace "." "\\." pattern))

abbrev pub any_text : (String → Bool) → List String → Bool
any_text p [] = false
any_text p (x ∷ xs) = if p x then true else any_text p xs

-- The number of "}" of a pattern.
unfoldable pub closings : String → ℕ
closings String.[] = zero
closings (String.◌∷◌ c s) = if code c == 125 then suc (closings s) else closings s

-- `re.fullmatch(regex, filename)` is a match, for the parameter.
module _ (fullmatch : String → String → Bool) where
  -- The body of `match_glob`, with what it does for the patterns that it makes.
  unfoldable pub expand : (String → Bool) → String → String → Bool
  unfolding search_braces split replace
  expand again filename pattern = elim (search_braces pattern) [
    | none ↦ fullmatch (regex_of pattern) filename
    | some (a, g, z) ↦ any_text (λ ext. again (replace "EXT" ext (a <> ("EXT" <> z)))) (split 44 g)
  ]

  -- `match_glob`, with fuel for the braces of the pattern
  unfoldable pub match_from : ℕ → String → String → Bool
  unfolding expand
  match_from zero filename pattern = false
  match_from (suc fuel) filename pattern = expand (match_from fuel filename) filename pattern

  -- `match_glob`
  unfoldable pub match_glob : String → String → Bool
  unfolding match_from closings
  match_glob filename pattern = match_from (suc (closings pattern)) filename pattern
