-- ===== src/Change/Multisig/Approved.antt =====
-- What `check_rule` and `main` of scripts/ci/check_multisig.py ask of the approvals.
use decisionos.Common.{
  ◌*◌, ◌≤◌, ◌≡◌, String, true, false, List, [], ◌∷◌, ltb, if◌then◌else◌, length, contains, All,
}
use decisionos.Change.Globs.{match_glob}
use decisionos.Change.Multisig.{Outside, Rule, Error, requires_approvers}
use decisionos.Change.Multisig.Counts.{times, members}

module _ (std : Outside) where
  -- No changed file matches the pattern of the rule.
  abbrev pub Untouched : Rule → List String → Type 0
  Untouched rule = All (λ f. match_glob std.fullmatch f rule.glob ≡ false)

  -- There are enough reviewers, and each team that the rule names has enough of them, where a team that
  -- is named twice counts each of them twice.
  abbrev pub Approves : Rule → List String → Type 0
  Approves rule reviewers =
      (rule.required_approvers ≤ length reviewers)
      × ((t : String)
          → contains t rule.required_teams ≡ true
          → rule.min_per_team ≤ members std t reviewers * times t rule.required_teams)

  abbrev count_errors : Rule → List String → List Error
  count_errors rule rs =
      if ltb (length rs) rule.required_approvers
      then requires_approvers rule.name rule.required_approvers (length rs) ∷ []
      else []
