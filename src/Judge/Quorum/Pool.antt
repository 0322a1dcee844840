-- ===== src/Judge/Quorum/Pool.antt =====
-- apps/judge/pool.py: the same decision over asynchronous providers. The tasks are awaited in the
-- order of the providers, so each provider's outcome is what its task ended with. Of a vote's `meta`
-- the model keeps the name of the error.
use decisionos.Common.{
  ℕ, ◌+◌, String, Bool, true, false, ◌&&◌, Option, none, some, List, [], ◌∷◌, ◌++◌, length, ltb,
  leb, ◌==◌, str_eq, if◌then◌else◌,
}
use decisionos.Judge.Quorum.{Final, fail, final_of}

-- The fields of a provider's answer that the code reads.
pub record Answer : Type 0 where
  pub id : Option String
  pub decision : Option String
  pub reasons : List String
  pub version : Option String

pub data Ended : Type 0 where
  returned : Answer → Ended
  judge_error : String → String → Ended
  other_error : String → String → Ended

pub record Task : Type 0 where
  pub provider_id : String
  pub ended : Ended

pub record PoolVote : Type 0 where
  pub id : String
  pub decision : Option String
  pub reasons : List String
  pub error : Option String
  pub version : Option String

pub record PoolTally : Type 0 where
  pub final : Final
  pub k : ℕ
  pub n : ℕ
  pub pass_count : ℕ
  pub votes : List PoolVote
  pub degraded : Bool

pub data PoolDecision : Type 0 where
  value_error : PoolDecision
  decided : PoolTally → PoolDecision

abbrev pub id_or : Option String → String → String
id_or none d = d
id_or (some s) _ = s

abbrev pub says_pass : Option String → Bool
says_pass none = false
says_pass (some s) = str_eq s "pass"

unfoldable pub vote_of : String → Ended → PoolVote
vote_of provider_id (returned r) = record {
  id = id_or r.id provider_id;
  decision = r.decision;
  reasons = r.reasons;
  error = none;
  version = r.version;
}
vote_of provider_id (judge_error cls message) = record {
  id = provider_id;
  decision = some "fail";
  reasons = message ∷ [];
  error = some cls;
  version = none;
}
vote_of provider_id (other_error cls message) = record {
  id = provider_id;
  decision = some "fail";
  reasons = message ∷ [];
  error = some cls;
  version = none;
}

abbrev pub is_error : Ended → Bool
is_error (returned r) = false
is_error _ = true

abbrev pub passes : Ended → Bool
passes (returned r) = says_pass r.decision
passes _ = false

-- The loop over the tasks.
unfoldable pub gather : List Task → List PoolVote → ℕ → Bool → List PoolVote × ℕ × Bool
gather [] votes pass_count degraded = (votes, pass_count, degraded)
gather (t ∷ rest) votes pass_count degraded =
    gather rest (votes ++ vote_of t.provider_id t.ended ∷ [])
      (if passes t.ended then pass_count + 1 else pass_count)
      (if is_error t.ended then true else degraded)

unfoldable pub quorum_decide : List Task → ℕ → ℕ → Bool → PoolDecision
quorum_decide tasks k n fail_closed_on_degrade =
    if length tasks == n
    then (if ltb 0 k && leb k n
        then (let (votes, pass_count, degraded) = gather tasks [] 0 false in
            decided (record {
              final = if degraded && fail_closed_on_degrade then fail else final_of k pass_count;
              k = k;
              n = n;
              pass_count = pass_count;
              votes = votes;
              degraded = degraded;
            }))
        else value_error)
    else value_error
