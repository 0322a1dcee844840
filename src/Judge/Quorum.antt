-- ===== src/Judge/Quorum.antt =====
-- apps/judge/quorum.py: the k-of-n decision over judge functions. A judge that raises ends the
-- decision with its exception.
mod Tests
pub mod Pool
pub mod Votes
pub mod Laws
use decisionos.Common.{
  ℕ, suc, ◌+◌, String, Bool, true, false, ◌&&◌, Option, none, some, List, [], ◌∷◌, ◌++◌, length,
  ltb, leb, ◌==◌, str_eq, if◌then◌else◌,
}

pub data Final : Type 0 where
  pass fail : Final

pub record Verdict : Type 0 where
  pub decision : String
  pub reasons : List String

pub record Vote : Type 0 where
  pub idx : ℕ
  pub decision : String
  pub reasons : List String

pub record Tally : Type 0 where
  pub final : Final
  pub pass_count : ℕ
  pub k : ℕ
  pub n : ℕ
  pub votes : List Vote

pub data Decision : Type 0 where
  assertion_failed raised : Decision
  decided : Tally → Decision

abbrev pub is_pass : String → Bool
is_pass decision = str_eq decision "pass"

-- `"pass" if pass_cnt >= k else "fail"`
abbrev pub final_of : ℕ → ℕ → Final
final_of k pass_cnt = if leb k pass_cnt then pass else fail

-- `0 < k <= n == len(providers)`
abbrev pub quorum_ok : ℕ → ℕ → ℕ → Bool
quorum_ok k n size = ltb 0 k && leb k n && n == size

module _ {Evidence Slo : Type 0} where
  -- The loop over the providers, from index i with the votes so far; `none` if one of them raised.
  unfoldable pub poll :
      Evidence
      → Slo
      → List (Evidence → Slo → Option Verdict)
      → ℕ
      → List Vote
      → ℕ
      → Option (List Vote × ℕ)
  poll ev slo [] i votes pass_cnt = some (votes, pass_cnt)
  poll ev slo (provider ∷ rest) i votes pass_cnt = elim (provider ev slo) [
    | none ↦ none
    | some v ↦
        poll ev slo rest (i + 1)
          (votes ++ record { idx = i; decision = v.decision; reasons = v.reasons } ∷ [])
          (if is_pass v.decision then pass_cnt + 1 else pass_cnt)
  ]

  unfoldable pub decide : List (Evidence → Slo → Option Verdict) → Evidence → Slo → ℕ → ℕ → Decision
  unfolding poll
  decide providers ev slo k n =
      if quorum_ok k n (length providers)
      then elim (poll ev slo providers 0 [] 0) [
        | none ↦ raised
        | some (votes, pass_cnt) ↦ decided (record {
          final = final_of k pass_cnt;
          pass_count = pass_cnt;
          k = k;
          n = n;
          votes = votes;
        })
      ]
      else assertion_failed
