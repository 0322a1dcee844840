-- ===== src/Payments/Receipts.antt =====
-- apps/taxes/rules.py and apps/payments/receipts.py. A tax rate, a float of the rules, stands as the
-- function that takes an amount to `int(amount * rate)`.
use Prim.Native.String.{◌++◌}
use decisionos.Common.{
  ℕ, ◌/◌, suc, String, Option, none, some, List, [], ◌∷◌, contains, str_eq, if◌then◌else◌,
}
use decisionos.Common.Int.{ℤ, pos, negsuc}
use decisionos.Common.Dict.{Dict, lookup}
use decisionos.Payments.Models.{PaymentIntent, Charge, Receipt}

pub record TaxRule : Type 0 where
  pub vat : ℤ → ℤ
  pub exempt : List String

abbrev zero_rate : ℤ → ℤ
zero_rate amount = pos 0

-- `int(amount * 0.1)`, which cuts off towards zero, for amounts below 2^50.
abbrev pub one_tenth : ℤ → ℤ
one_tenth (pos n) = pos (n / 10)
one_tenth (negsuc n) = negate (suc n / 10)
  where
    negate : ℕ → ℤ
    negate ℕ.zero = pos 0
    negate (suc m) = negsuc m

abbrev pub default_rules : Dict TaxRule
default_rules =
    ("KR", record { vat = one_tenth; exempt = [] })
    ∷ ("US", record { vat = zero_rate; exempt = "digital_goods" ∷ [] })
    ∷ []

-- What `rules.get` gives for a region that has no rule.
abbrev no_rule : TaxRule
no_rule = record { vat = zero_rate; exempt = [] }

abbrev rule_for : Option TaxRule → TaxRule
rule_for none = no_rule
rule_for (some r) = r

abbrev or_default : Dict TaxRule → Dict TaxRule
or_default [] = default_rules
or_default (e ∷ d) = e ∷ d

unfoldable pub calculate_tax : Dict TaxRule → ℤ → String → String → ℤ
calculate_tax rules amount region_code category =
    let rule = rule_for (lookup region_code (or_default rules)) in
    if str_eq category ""
    then rule.vat amount
    else if contains category rule.exempt
    then pos 0
    else rule.vat amount

unfoldable pub generate_receipt :
    Dict TaxRule → PaymentIntent → Charge → String → String → ℕ → Receipt
unfolding calculate_tax
generate_receipt rules intent charge region_code fresh now = record {
  id = fresh;
  charge_id = charge.id;
  org_id = intent.org_id;
  total = charge.amount;
  tax_amount = calculate_tax rules charge.amount region_code "default";
  currency = charge.currency;
  issued_at = now;
  pdf_uri = some ("var/receipts/" ++ (fresh ++ ".pdf"));
  json_uri = some ("var/receipts/" ++ (fresh ++ ".json"));
}
