-- ===== src/Judge/Quorum/Tests.antt =====
-- The theorems on apps/judge/quorum.py and apps/judge/pool.py at concrete inputs.
use decisionos.Common.{◌≡◌, ◌⊎◌, refl, String, true, Option, none, some, List, [], ◌∷◌}
use decisionos.Judge.Quorum.{Final, Verdict, decide}
use decisionos.Judge.Quorum.Pool
use decisionos.Judge.Quorum.Pool.{
  Answer, returned, judge_error, Task, PoolTally, value_error, gather, vote_of, quorum_decide,
}
use decisionos.Judge.Quorum.Laws.{
  IsQuorum, Decides, quorum_decide_lem, quorum_decide-decide, pool_final, quorum_final,
}

abbrev yes_verdict : Verdict
yes_verdict = record { decision = "pass"; reasons = [] }

abbrev no_verdict : Verdict
no_verdict = record { decision = "fail"; reasons = "slow" ∷ [] }

abbrev judges : List (String → String → Option Verdict)
judges =
    (λ ev slo. some yes_verdict)
    ∷ ((λ ev slo. some no_verdict) ∷ ((λ ev slo. some yes_verdict) ∷ []))

abbrev verdicts : List Verdict
verdicts = yes_verdict ∷ (no_verdict ∷ (yes_verdict ∷ []))

abbrev answer : String → Answer
answer d = record { id = none; decision = some d; reasons = []; version = none }

abbrev task : String → String → Task
task id d = record { provider_id = id; ended = returned (answer d) }

abbrev tasks : List Task
tasks = task "a" "pass" ∷ (task "b" "fail" ∷ (task "c" "pass" ∷ []))

abbrev broken : List Task
broken =
    task "a" "pass"
    ∷ (record { provider_id = "b"; ended = judge_error "Timeout" "late" } ∷ (task "c" "pass" ∷ []))

abbrev broken_tally : PoolTally
broken_tally = record {
  final = Final.fail;
  k = 2;
  n = 3;
  pass_count = 2;
  votes =
      vote_of "a" (returned (answer "pass"))
      ∷ (vote_of "b" (judge_error "Timeout" "late")
          ∷ (vote_of "c" (returned (answer "pass")) ∷ []));
  degraded = true;
}

broken-decided : quorum_decide broken 2 3 true ≡ Pool.decided broken_tally
unfolding quorum_decide gather
broken-decided = refl

quorum_decide_lem_example :
    ((quorum_decide broken 2 3 true ≡ value_error) × ¬ IsQuorum broken 2 3)
    ⊎ (IsQuorum broken 2 3
        × (t : PoolTally) × (quorum_decide broken 2 3 true ≡ Pool.decided t)
        × Decides broken 2 3 true t)
quorum_decide_lem_example = quorum_decide_lem broken 2 3 true

quorum_decide-decide_example :
    pool_final (quorum_decide tasks 2 3 true) ≡ quorum_final (decide judges "ev" "slo" 2 3)
quorum_decide-decide_example =
    quorum_decide-decide "ev" "slo" judges tasks verdicts 2 3 true (refl, (refl, (refl, tt)))
      (
        (answer "pass", refl, refl),
        ((answer "fail", refl, refl), ((answer "pass", refl, refl), tt)),
      )
