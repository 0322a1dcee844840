-- ===== src/Judge/Slo.antt =====
-- apps/judge/slo_judge.py and apps/judge/slo_schema.py: the judgement of evidence against an SLO.
-- Numbers are exact, those of one comparison in one unit; rates of the grace are millionths.
pub mod Schema
pub mod Checks
pub mod Blocks
pub mod Meets
mod Tests
use decisionos.Common.{String, Bool, true, false, Option, none, some, List, [], ◌∷◌, ◌++◌}
use decisionos.Judge.Slo.Schema.{SloSpec, Evidence, DriftFile, Reason, slo_parse}
use decisionos.Judge.Slo.Checks.{
  missing_blocks, check_witness, check_integrity, check_budget, check_quota, check_anomaly,
  check_perf,
}
use decisionos.Judge.Slo.Blocks.{check_infra, check_canary, check_drift, check_saturation}

pub data Verdict : Type 0 where
  pass fail : Verdict

abbrev pub verdict_of : List Reason → Verdict × List Reason
verdict_of [] = (pass, [])
verdict_of (r ∷ rs) = (fail, r ∷ rs)

-- `if reasons: return "fail", reasons` after the required blocks
abbrev pub unless_missing : List Reason → List Reason → Verdict × List Reason
unless_missing [] rest = verdict_of rest
unless_missing (r ∷ rs) rest = (fail, r ∷ rs)

module _ {Raw : Type 0} (digest : List (String × Raw) → String) (is_null : Raw → Bool)
    (drift_file : String → DriftFile) where
  -- The checks after that of the required blocks, in their order.
  unfoldable pub checks : SloSpec → Evidence Raw → List Reason
  checks spec ev =
      check_witness spec ev
      ++ (check_integrity digest is_null spec ev
          ++ (check_budget spec ev
              ++ (check_quota spec ev
                  ++ (check_anomaly spec ev
                      ++ (check_perf spec ev
                          ++ (check_infra spec ev
                              ++ (check_canary spec ev
                                  ++ (check_drift drift_file spec ev
                                      ++ check_saturation spec ev))))))))

  -- `evaluate`, on what pydantic makes of the SLO: `none` is a `ValidationError`
  unfoldable pub evaluate : Evidence Raw → Option SloSpec → Verdict × List Reason
  evaluate ev none = (fail, slo_parse ∷ [])
  evaluate ev (some spec) = unless_missing (missing_blocks ev) (checks spec ev)
