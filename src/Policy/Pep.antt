-- ===== src/Policy/Pep.antt =====
-- apps/policy/pep.py: scopes that are granted by the environment, with wildcards. The set of grants
-- is a list: `enforce` goes through it in some order and stops at the first match. The value of
-- DECISIONOS_ALLOW_SCOPES is the one that the cache of `_allowed` was filled from.
pub mod Grants
use text.Mathlib.Text.{starts_with}
use decisionos.Common.{
  String, Bool, true, false, Option, none, some, List, [], ◌∷◌, str_eq, if◌then◌else◌,
}
use decisionos.Common.Text.{strip, split, ends_with, drop_last}

abbrev pub default_allow : Bool
default_allow = false

unfoldable pub stripped : List String → List String
unfolding strip
stripped [] = []
stripped (s ∷ l) = let rest = stripped l in if str_eq (strip s) "" then rest else strip s ∷ rest

-- `_allowed`, of the value of DECISIONOS_ALLOW_SCOPES
unfoldable pub allowed : String → List String
unfolding stripped strip split
allowed scopes =
    if str_eq (strip scopes) ""
    then (if default_allow then "*" ∷ [] else [])
    else if str_eq (strip scopes) "*"
    then "*" ∷ []
    else stripped (split b',' scopes)

unfoldable pub matches_wildcard : String → String → Bool
matches_wildcard granted requested =
    if str_eq granted "*"
    then true
    else if ends_with granted ":*"
    then starts_with requested (drop_last granted)
    else str_eq granted requested

-- the loop of `enforce`, with the grant that it logs
unfoldable pub first_match : String → List String → Option String
first_match scope [] = none
first_match scope (granted ∷ l) =
    if matches_wildcard granted scope then some granted else first_match scope l

unfoldable pub enforce : String → String → Bool
unfolding first_match
enforce scopes scope = elim (first_match scope (allowed scopes)) [ none ↦ false | some g ↦ true ]

pub data Denial : Type 0 where
  no_grants_configured : Denial
  no_matching_grant : List String → Denial

denial : List String → Option Denial
denial [] = some no_grants_configured
denial (g ∷ l) = some (no_matching_grant (g ∷ l))

-- `require`: `none` returns, anything else is the reason of the `PermissionError`
unfoldable pub require : String → String → Option Denial
unfolding enforce denial
require scopes scope = if enforce scopes scope then none else denial (allowed scopes)
