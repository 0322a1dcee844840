-- ===== src/Change/Multisig.antt =====
-- scripts/ci/check_multisig.py: the approvals that a change of policy files needs. Regular expressions,
-- `str.lower` and `int` are parameters; what git, GitHub and the YAML of the rules give is an input.
pub mod Counts
pub mod Approved
pub mod Reviews
mod Tests
use Prim.Native.Char.{Char, code}
use Prim.Native.String.{◌++◌ as ◌<>◌}
use decisionos.Common.{
  ℕ, zero, suc, ◌+◌, String, Bool, true, false, not, ◌&&◌, ◌||◌, Option, none, some, List, [], ◌∷◌,
  ◌++◌, str_eq, ltb, ◌==◌, if◌then◌else◌, length, contains,
}
use decisionos.Change.Globs.{match_glob}
use decisionos.Common.Dict.{Dict, lookup, insert}
use decisionos.Common.Text.{split, split_once, has_text, replace}

pub record Outside : Type 0 where
  -- `re.fullmatch(regex, filename)` is a match
  pub fullmatch : String → String → Bool
  pub lower : String → String
  pub int : String → Option ℕ

-- A rule, whose missing fields have their defaults.
pub record Rule : Type 0 where
  pub name : String
  pub glob : String
  pub required_approvers : ℕ
  pub required_teams : List String
  pub min_per_team : ℕ

pub record Review : Type 0 where
  pub state : Option String
  pub login : Option String

-- What is printed of a rule that is not met, with the numbers in its text.
pub data Error : Type 0 where
  requires_approvers : String → ℕ → ℕ → Error
  team_requires : String → String → ℕ → ℕ → Error

pub data Exit : Type 0 where
  exits : ℕ → Exit
  raises : Exit

-- DEFAULT_APPROVAL_POLICY
abbrev pub default_policy : List Rule
default_policy =
    record {
      name = "RBAC policies";
      glob = "configs/policy/rbac*.{json,yaml}";
      required_approvers = 2;
      required_teams = "security" ∷ [];
      min_per_team = 1;
    }
    ∷ record {
      name = "SLO and infrastructure policies";
      glob = "configs/policy/slo*.json";
      required_approvers = 2;
      required_teams = "platform" ∷ [];
      min_per_team = 1;
    }
    ∷ record {
      name = "Canary policies";
      glob = "configs/policy/canary*.{json,yaml}";
      required_approvers = 2;
      required_teams = "platform" ∷ "service" ∷ [];
      min_per_team = 1;
    }
    ∷ record {
      name = "Freeze window policies";
      glob = "configs/change/freeze*.yaml";
      required_approvers = 2;
      required_teams = "platform" ∷ [];
      min_per_team = 1;
    }
    ∷ record {
      name = "All other policy files";
      glob = "configs/policy/*.{json,yaml,signed}";
      required_approvers = 2;
      required_teams = [];
      min_per_team = 1;
    }
    ∷ []

-- The rules of the file, or of the default policy where there is none.
abbrev pub load_approval_policy : Option (List Rule) → List Rule
load_approval_policy none = default_policy
load_approval_policy (some rules) = rules

-- `[line for line in out.splitlines() if line]`
unfoldable pub filled : List String → List String
filled [] = []
filled (l ∷ ls) = let rest = filled ls in if str_eq l "" then rest else l ∷ rest

-- The lines of the first diff, or where git fails those of the second.
abbrev pub get_changed_files : Option (List String) → Option (List String) → List String
get_changed_files (some out) second = filled out
get_changed_files none (some out) = filled out
get_changed_files none none = []

-- `add` of a set
abbrev pub add : String → List String → List String
add u s = if contains u s then s else s ++ u ∷ []

-- `get_pr_reviewers`: the logins of the reviews that approve; `none` where a user is missing
unfoldable pub collect : List Review → List String → Option (List String)
collect [] s = some s
collect (r ∷ rs) s = elim r.state [
  | none ↦ collect rs s
  | some state ↦ elim (str_eq state "APPROVED") [
    | true ↦ elim r.login [ none ↦ none | some u ↦ collect rs (add u s) ]
    | false ↦ collect rs s
  ]
]

-- `get_pr_reviewers`, of what the API gives
unfoldable pub get_pr_reviewers : Option (List Review) → Option (List String)
unfolding collect
get_pr_reviewers none = some []
get_pr_reviewers (some reviews) = collect reviews []

-- `{team: 0 for team in required_teams}`
unfoldable pub zeros : List String → Dict ℕ → Dict ℕ
zeros [] d = d
zeros (t ∷ ts) d = zeros ts (insert t 0 d)

abbrev pub or_none : Option ℕ → ℕ
or_none none = 0
or_none (some n) = n

-- The loop over the required teams for one reviewer.
unfoldable pub bump : List String → List String → Dict ℕ → Dict ℕ
bump [] teams d = d
bump (t ∷ ts) teams d =
    bump ts teams (if contains t teams then insert t (or_none (lookup t d) + 1) d else d)

-- The loop over the teams and their counts.
unfoldable pub team_errors : String → ℕ → Dict ℕ → List Error
team_errors name least [] = []
team_errors name least ((t, n) ∷ d) =
    let rest = team_errors name least d in
    if ltb n least then team_requires name t least n ∷ rest else rest

module _ (std : Outside) where
  -- `[f for f in changed_files if match_glob(f, glob_pattern)]`
  unfoldable pub matching : String → List String → List String
  unfolding match_glob
  matching glob [] = []
  matching glob (f ∷ fs) =
      let rest = matching glob fs in if match_glob std.fullmatch f glob then f ∷ rest else rest

  -- `get_user_teams`
  unfoldable pub get_user_teams : String → List String
  unfolding has_text
  get_user_teams username =
      let lower = std.lower username in
      let security =
        if has_text "sec" lower || has_text "security" lower then "security" ∷ [] else [] in
      let platform =
        if has_text "platform" lower || has_text "infra" lower then "platform" ∷ [] else [] in
      let service =
        if has_text "service" lower || has_text "svc" lower then "service" ∷ [] else [] in
      security ++ platform ++ service

  -- The loop over the reviewers.
  unfoldable pub tally : List String → List String → Dict ℕ → Dict ℕ
  unfolding bump get_user_teams
  tally required [] d = d
  tally required (r ∷ rs) d = tally required rs (bump required (get_user_teams r) d)

  -- `check_rule`, whose first result is that there are no errors
  unfoldable pub check_rule : Rule → List String → List String → List Error
  unfolding matching tally team_errors zeros
  check_rule rule changed_files reviewers = elim (matching rule.glob changed_files) [
    | [] ↦ []
    | _ ↦
        (if ltb (length reviewers) rule.required_approvers
          then requires_approvers rule.name rule.required_approvers (length reviewers) ∷ []
          else [])
        ++ team_errors rule.name rule.min_per_team
            (tally rule.required_teams reviewers (zeros rule.required_teams []))
  ]

  -- The loop over the rules.
  unfoldable pub check_rules : List Rule → List String → List String → List Error
  unfolding check_rule
  check_rules [] changed_files reviewers = []
  check_rules (rule ∷ rules) changed_files reviewers =
      check_rule rule changed_files reviewers ++ check_rules rules changed_files reviewers

  abbrev pub exit_of : List Error → Exit
  exit_of [] = exits 0
  exit_of (e ∷ es) = exits 3

-- What `main` meets: GITHUB_TOKEN, CI_PR_NUMBER and CI_REPO, the rules of the file, the lines that the
-- two calls of git give, and what the API gives for the number of the request.
pub record World : Type 0 where
  pub token : String
  pub pr_number : String
  pub repo : String
  pub policy : Option (List Rule)
  pub first_diff : Option (List String)
  pub second_diff : Option (List String)
  pub reviews : ℕ → Option (List Review)

module _ (std : Outside) where
  unfoldable pub main : World → Exit
  unfolding filled get_pr_reviewers check_rules
  main w =
      if str_eq w.token "" || str_eq w.pr_number "" || str_eq w.repo ""
      then exits 0
      else elim (std.int w.pr_number) [
        | none ↦ exits 0
        | some n ↦ elim (load_approval_policy w.policy) [
          | [] ↦ exits 0
          | rule ∷ rules ↦ elim (get_changed_files w.first_diff w.second_diff) [
            | [] ↦ exits 0
            | f ∷ fs ↦ elim (get_pr_reviewers (w.reviews n)) [
              | none ↦ raises
              | some reviewers ↦ exit_of std (check_rules std (rule ∷ rules) (f ∷ fs) reviewers)
            ]
          ]
        ]
      ]
