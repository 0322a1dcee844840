-- ===== src/Change/Multisig/Tests.antt =====
-- Examples of scripts/ci/check_multisig.py.
use decisionos.Common.{
  ◌≡◌, ◌↔◌, refl, String, true, false, ◌&&◌, none, some, List, [], ◌∷◌, str_eq, contains,
  if◌then◌else◌,
}
use decisionos.Common.Text.{
  split, split_once, starts_with, ends_with, has_text, replace, replace_from,
}
use decisionos.Common.Dict.{insert, lookup}
use decisionos.Change.Globs.{search_braces, closings, regex_of, expand, match_from, match_glob}
use decisionos.Change.Multisig.{
  Outside, Review, World, exits, filled, get_pr_reviewers, collect, zeros, bump, team_errors,
  matching, get_user_teams, tally, check_rule, check_rules, main,
}
use decisionos.Change.Multisig.Reviews.{ApprovedBy, AllDistinct, get_pr_reviewers_iff}
use decisionos.Change.Globs.Matches.{Matches}

-- A library that knows the patterns of the RBAC rule and of the last rule, and the number "7".
abbrev std : Outside
std = record {
  fullmatch = λ r s.
      if str_eq r "configs/policy/rbac.*\\.json"
      then starts_with s "configs/policy/rbac" && ends_with s ".json"
      else if str_eq r "configs/policy/.*\\.json"
      then starts_with s "configs/policy/" && ends_with s ".json"
      else false;
  lower = λ s. s;
  int = λ s. if str_eq s "7" then some 7 else none;
}

abbrev approval : String → Review
approval user = record { state = some "APPROVED"; login = some user }

abbrev refusal : String → Review
refusal user = record { state = some "CHANGES_REQUESTED"; login = some user }

abbrev reviews : List Review
reviews = approval "ana-sec" ∷ approval "bob" ∷ approval "bob" ∷ refusal "bob" ∷ []

abbrev pull : World
pull = record {
  token = "t";
  pr_number = "7";
  repo = "org/name";
  policy = none;
  first_diff = some ("configs/policy/rbac_map.json" ∷ "" ∷ []);
  second_diff = none;
  reviews = λ n. some reviews;
}

abbrev file : String
file = "configs/policy/rbac_map.json"

regex : regex_of "rbac?*.json" ≡ "rbac..*\\.json"
unfolding replace replace_from starts_with
regex = refl

braced : match_glob std.fullmatch file "configs/policy/rbac*.{yaml,json}" ≡ true
unfolding match_glob match_from expand search_braces closings split split_once replace replace_from
    starts_with ends_with
braced = refl

-- One member of the security team and one other approval are enough for the default rule of RBAC.
one_of_security : main std pull ≡ exits 0
unfolding main filled get_pr_reviewers collect check_rules check_rule matching tally bump zeros
    team_errors get_user_teams has_text match_glob match_from expand search_braces closings split
    split_once replace replace_from starts_with ends_with insert lookup
one_of_security = refl

get_pr_reviewers_iff_example :
    AllDistinct ("ana-sec" ∷ "bob" ∷ [])
    × ((contains "bob" ("ana-sec" ∷ "bob" ∷ []) ≡ true) ↔ ApprovedBy "bob" reviews)
unfolding get_pr_reviewers collect
get_pr_reviewers_iff_example = get_pr_reviewers_iff "bob" reviews ("ana-sec" ∷ "bob" ∷ []) refl
