-- ===== src/Judge/Slo/Checks.antt =====
-- apps/judge/slo_judge.py: the single checks of `evaluate`, each with the reasons that it adds.
use decisionos.Common.{
  ℕ, String, Bool, true, false, not, ◌&&◌, Option, none, some, List, [], ◌∷◌, ◌++◌, ltb, str_eq,
  truthy, contains, is_some, if◌then◌else◌,
}
use decisionos.Common.Dict.{Dict, lookup, has}
use decisionos.Judge.Slo.Schema.{
  SloSpec, Perf, Evidence, Reason, missing_block, no_csv_sha256, signature_mismatch,
  level_forbidden, spent_over, quota_forbid, spike_forbidden, perf_missing,
  samples_insufficient_latency, samples_insufficient_error, latency_p95_over, latency_p99_over,
  error_rate_over,
}

abbrev pub required_blocks : List String
required_blocks =
    "meta" ∷ "witness" ∷ "usage" ∷ "rating" ∷ "quota" ∷ "budget" ∷ "anomaly" ∷ "integrity" ∷ []

abbrev pub optional_blocks : List String
optional_blocks = "perf" ∷ "perf_judge" ∷ "judges" ∷ "canary" ∷ []

-- The reason if the test holds.
abbrev pub add_if : Bool → Reason → List Reason
add_if true r = r ∷ []
add_if false r = []

-- A value over its limit, where there is a limit.
abbrev pub over : Option ℕ → ℕ → (ℕ → ℕ → Reason) → List Reason
over none v r = []
over (some limit) v r = add_if (ltb limit v) (r v limit)

-- `min_samples and count < min_samples`
abbrev pub too_few : Option ℕ → ℕ → Bool
too_few none count = false
too_few (some least) count = ltb count least

abbrev pub or_zero : Option ℕ → ℕ
or_zero none = 0
or_zero (some n) = n

abbrev pub signed_blocks : List String
signed_blocks = "meta" ∷ "witness" ∷ "usage" ∷ "rating" ∷ "quota" ∷ "budget" ∷ "anomaly" ∷ []

abbrev pub same_text : Option String → String → Bool
same_text none s = false
same_text (some t) s = str_eq t s

abbrev pub allowed_level : Option String → List String → Bool
allowed_level none levels = false
allowed_level (some l) levels = contains l levels

-- `quota.get(metric, {}).get("action")`
abbrev pub action_of : Dict (Option String) → String → Option String
action_of actions metric = elim (lookup metric actions) [ none ↦ none | some a ↦ a ]

unfoldable pub forbidden : Dict (Option String) → Dict (List String) → List Reason
forbidden actions [] = []
forbidden actions ((metric, forbids) ∷ l) =
    add_if (allowed_level (action_of actions metric) forbids)
      (quota_forbid metric (action_of actions metric))
    ++ forbidden actions l

-- `perf_required`
abbrev pub perf_required : SloSpec → Bool
perf_required spec =
    if is_some spec.latency.max_p95_ms
    then true
    else if is_some spec.latency.max_p99_ms
    then true
    else if is_some spec.latency.min_samples
    then true
    else if is_some spec.error.max_error_rate
    then true
    else is_some spec.error.min_samples

-- `_check_perf_min_samples`
abbrev pub few_samples : SloSpec → Option ℕ → List Reason
few_samples spec none = []
few_samples spec (some count) =
    add_if (too_few spec.latency.min_samples count) samples_insufficient_latency
    ++ add_if (too_few spec.error.min_samples count) samples_insufficient_error

abbrev pub over_limits : SloSpec → Perf → List Reason
over_limits spec p =
    over spec.latency.max_p95_ms (or_zero p.p95) latency_p95_over
    ++ (over spec.latency.max_p99_ms (or_zero p.p99) latency_p99_over
        ++ over spec.error.max_error_rate (or_zero p.error_rate) error_rate_over)

abbrev pub unless_few : List Reason → List Reason → List Reason
unless_few [] rest = rest
unless_few (r ∷ rs) rest = r ∷ rs

module _ {Raw : Type 0} where
  abbrev pub absent : Dict Raw → List String → List Reason
  absent blocks [] = []
  absent blocks (k ∷ ks) =
      if has k blocks then absent blocks ks else missing_block k ∷ absent blocks ks

  unfoldable pub missing_blocks : Evidence Raw → List Reason
  missing_blocks ev = absent ev.blocks required_blocks

  unfoldable pub check_witness : SloSpec → Evidence Raw → List Reason
  check_witness spec ev =
      add_if (spec.require_csv_sha256 && not (truthy ev.csv_sha256)) no_csv_sha256

  -- `core` of the required blocks but `integrity`, then of the optional ones that are not null
  abbrev pub taken : Dict Raw → (Raw → Bool) → List String → Dict Raw
  taken blocks skip [] = []
  taken blocks skip (k ∷ ks) = elim (lookup k blocks) [
    | none ↦ taken blocks skip ks
    | some b ↦ if skip b then taken blocks skip ks else (k, b) ∷ taken blocks skip ks
  ]

  unfoldable pub core : (Raw → Bool) → Evidence Raw → Dict Raw
  core is_null ev =
      taken ev.blocks (λ b. false) signed_blocks ++ taken ev.blocks is_null optional_blocks

  unfoldable pub check_integrity :
      (List (String × Raw) → String) → (Raw → Bool) → SloSpec → Evidence Raw → List Reason
  check_integrity digest is_null spec ev =
      add_if
        (spec.require_signature && not (same_text ev.signature_sha256 (digest (core is_null ev))))
        signature_mismatch

  unfoldable pub check_budget : SloSpec → Evidence Raw → List Reason
  check_budget spec ev =
      add_if (not (allowed_level ev.level spec.allow_levels)) (level_forbidden ev.level)
      ++ over spec.max_spent (or_zero ev.spent) (λ v limit. spent_over ev.spent limit)

  unfoldable pub check_quota : SloSpec → Evidence Raw → List Reason
  unfolding forbidden
  check_quota spec ev = forbidden ev.actions spec.forbid_actions

  unfoldable pub check_anomaly : SloSpec → Evidence Raw → List Reason
  check_anomaly spec ev = add_if (not spec.allow_spike && ev.is_spike) spike_forbidden

  unfoldable pub check_perf : SloSpec → Evidence Raw → List Reason
  check_perf spec ev =
      if perf_required spec
      then (elim ev.perf [
        | none ↦ perf_missing ∷ []
        | some p ↦ unless_few (few_samples spec p.count) (over_limits spec p)
      ])
      else []
