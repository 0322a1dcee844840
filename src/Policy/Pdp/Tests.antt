-- ===== src/Policy/Pdp/Tests.antt =====
-- The theorem on apps/policy/pdp.py at a concrete input.
use decisionos.Common.{◌≡◌, ◌↔◌, String, true, false, none, [], ◌∷◌, All}
use decisionos.Common.Int.{pos}
use decisionos.Policy.Pdp.{
  PolicyRule, PolicyStore, Candidate, Value, gives, records, is_deny, evaluate,
}
use decisionos.Policy.Pdp.Decides.{Matches, OutRanked, evaluate_iff}
use decisionos.Common.{Among}

abbrev rule : String → PolicyRule
rule effect = record {
  effect = effect;
  action = "get";
  subject = "user";
  resource = "doc";
  when = "true";
  unless = none;
  priority = pos 5;
  policy_id = none;
  purpose = none;
  metadata = [];
}

abbrev store : PolicyStore
store = ("b", record { metadata = []; policies = rule "allow" ∷ (rule "deny" ∷ []) }) ∷ []

abbrev eval : String → Value
eval e = gives true

evaluate_iff_example : ((evaluate eval "get" store).allow ≡ true) ↔ (
    (c : Candidate) × Among c (records "get" store)
    × Matches eval c
    × (is_deny c ≡ false)
    × All (λ b. Matches eval b → OutRanked eval c b) (records "get" store))
evaluate_iff_example = evaluate_iff eval "get" store
