-- ===== src/Policy/Pdp.antt =====
-- apps/policy/pdp.py: the decision over the policies of the store. What `eval` gives for an
-- expression, or raises, is a parameter: it depends on the request alone.
mod Tests
pub mod Order
pub mod Decides
use Prim.Native.String.{◌++◌}
use decisionos.Common.{
  ℕ, suc, String, Bool, true, false, Option, none, some, List, [], ◌∷◌, or_text, leb, ltb, str_eq,
  ◌||◌, if◌then◌else◌,
}
use mathlib.Core.List
use decisionos.Common.Int.{ℤ, ltb_ℤ}
use decisionos.Common.Dict.{Dict, insert}
use decisionos.Common.Text.{replace_double, decimal}

-- apps/policy/parser.py
pub record PolicyRule : Type 0 where
  pub effect : String
  pub action : String
  pub subject : String
  pub resource : String
  pub when : String
  pub unless : Option String
  pub priority : ℤ
  pub policy_id : Option String
  pub purpose : Option String
  pub metadata : Dict String

-- apps/policy/store.py
pub record PolicyBundle : Type 0 where
  pub metadata : Dict String
  pub policies : List PolicyRule

abbrev pub PolicyStore : Type 0
PolicyStore = Dict PolicyBundle

pub record RuleEvaluation : Type 0 where
  pub policy_ref : String
  pub effect : String
  pub priority : ℤ
  pub matched : Bool
  pub when_result : Option Bool
  pub unless_result : Option Bool
  pub purpose : Option String
  pub error : Option String
  pub metadata : Dict String
  pub bundle : Option String

pub record Decision : Type 0 where
  pub allow : Bool
  pub effect : String
  pub policy_id : Option String
  pub reason : Option String
  pub purpose : Option String
  pub bundle : Option String
  pub trace : List RuleEvaluation

pub record Candidate : Type 0 where
  pub order : ℕ
  pub bundle_name : String
  pub policy : PolicyRule
  pub metadata : Dict String

-- `dict.update`
abbrev updated : Dict String → Dict String → Dict String
updated d [] = d
updated d ((k, v) ∷ l) = updated (insert k v d) l

-- The policies of a bundle for an action, with their places in it.
unfoldable pub of_bundle : String → String → Dict String → ℕ → List PolicyRule → List Candidate
of_bundle action name meta i [] = []
of_bundle action name meta i (p ∷ l) =
    let rest = of_bundle action name meta (suc i) l in
    if str_eq p.action action || str_eq p.action "*"
    then record { order = i; bundle_name = name; policy = p; metadata = updated meta p.metadata }
      ∷ rest
    else rest

unfoldable pub records : String → PolicyStore → List Candidate
records action [] = []
records action ((name, b) ∷ store) =
    List.◌++◌ (of_bundle action name b.metadata 0 b.policies) (records action store)

abbrev pub is_deny : Candidate → Bool
is_deny c = str_eq c.policy.effect "deny"

abbrev pub rank : Candidate → ℕ
rank c = if is_deny c then 0 else 1

-- The key of the sort: the priority from the highest, a deny first, then the place in the bundle.
unfoldable pub key_leb : Candidate → Candidate → Bool
key_leb a b =
    if ltb_ℤ b.policy.priority a.policy.priority
    then true
    else if ltb_ℤ a.policy.priority b.policy.priority
    then false
    else if ltb (rank a) (rank b)
    then true
    else if ltb (rank b) (rank a)
    then false
    else leb a.order b.order

unfoldable pub place : Candidate → List Candidate → List Candidate
place c [] = c ∷ []
place c (d ∷ l) = let rest = place c l in if key_leb c d then c ∷ (d ∷ l) else d ∷ rest

-- `list.sort`, which is stable.
unfoldable pub sort : List Candidate → List Candidate
unfolding place
sort [] = []
sort (c ∷ l) = place c (sort l)

unfoldable pub candidate_policies : String → PolicyStore → List Candidate
candidate_policies action store = sort (records action store)

-- What `eval` does with an expression.
pub data Value : Type 0 where
  gives : Bool → Value
  raises : String → Value

-- `_eval_expression`
unfoldable pub eval_expression : (String → Value) → String → Value
eval_expression eval expr = eval (replace_double b'|' " or " (replace_double b'&' " and " expr))

-- `policy.policy_id or f"{bundle_name}:{order}"`
abbrev policy_ref : Candidate → String
policy_ref c = or_id c.policy.policy_id
  where
    or_id : Option String → String
    or_id none = c.bundle_name ++ (":" ++ decimal c.order)
    or_id (some id) = if str_eq id "" then c.bundle_name ++ (":" ++ decimal c.order) else id

abbrev traced : Candidate → Bool → Option Bool → Option Bool → Option String → RuleEvaluation
traced c matched when_result unless_result error = record {
  policy_ref = policy_ref c;
  effect = c.policy.effect;
  priority = c.policy.priority;
  matched = matched;
  when_result = when_result;
  unless_result = unless_result;
  purpose = c.policy.purpose;
  error = error;
  metadata = c.metadata;
  bundle = some c.bundle_name;
}

-- A policy without an `unless` has no test to pass.
unfoldable pub eval_unless : (String → Value) → Option String → Option Value
eval_unless eval none = none
eval_unless eval (some u) = if str_eq u "" then none else some (eval_expression eval u)

-- One turn of the loop: the policy's entry in the trace, and whether it decides.
unfoldable pub test : (String → Value) → Candidate → Bool × RuleEvaluation
test eval c = elim (eval_expression eval c.policy.when) [
  | raises e ↦ (false, traced c false none none (some ("when_error:" ++ e)))
  | gives false ↦ (false, traced c false (some false) none none)
  | gives true ↦ elim (eval_unless eval c.policy.unless) [
    | none ↦ (true, traced c true (some true) (some false) none)
    | some (raises e) ↦ (false, traced c false (some true) none (some ("unless_error:" ++ e)))
    | some (gives true) ↦ (false, traced c false (some true) (some true) none)
    | some (gives false) ↦ (true, traced c true (some true) (some false) none)
  ]
]

abbrev decided : Candidate → List RuleEvaluation → Decision
decided c trace = record {
  allow = if is_deny c then false else true;
  effect = if is_deny c then "deny" else "allow";
  policy_id = some (policy_ref c);
  reason = if is_deny c then some "explicit_deny" else none;
  purpose = c.policy.purpose;
  bundle = some c.bundle_name;
  trace = trace;
}

abbrev deny_by_default : List RuleEvaluation → Decision
deny_by_default trace = record {
  allow = false;
  effect = "deny";
  policy_id = none;
  reason = some "deny_by_default";
  purpose = none;
  bundle = none;
  trace = trace;
}

-- The loop over the candidates, with the trace so far.
unfoldable pub go_through : (String → Value) → List Candidate → List RuleEvaluation → Decision
go_through eval [] trace = deny_by_default trace
go_through eval (c ∷ l) trace =
    let (decides, entry) = test eval c in
    let so_far = List.◌++◌ trace (entry ∷ []) in
    elim decides [ true ↦ decided c so_far | false ↦ go_through eval l so_far ]

unfoldable pub evaluate : (String → Value) → String → PolicyStore → Decision
unfolding go_through
evaluate eval action store = go_through eval (candidate_policies action store) []
