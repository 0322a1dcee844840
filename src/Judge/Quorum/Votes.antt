-- ===== src/Judge/Quorum/Votes.antt =====
-- The votes that apps/judge/pool.py gathers.
use decisionos.Common.{
  ℕ, suc, ◌+◌, ◌≡◌, refl, ap, String, Bool, true, none, some, List, [], ◌∷◌, ◌++◌, arith, length,
  if◌then◌else◌,
}
use mathlib.Core.List.{append-nil, append_assoc}
use decisionos.Judge.Quorum.Pool.{
  Ended, returned, judge_error, other_error, Task, PoolVote, is_error, passes, vote_of, gather,
}

-- What a vote says of how its provider ended: its answer, under its own id where it gives none, or a fail
-- with the error.
abbrev pub VoteFor : String → Ended → PoolVote → Type 0
VoteFor provider_id (returned a) v =
    (v.decision ≡ a.decision)
    × (v.reasons ≡ a.reasons)
    × (v.error ≡ none)
    × (v.version ≡ a.version)
    × ((i : String) → a.id ≡ some i → v.id ≡ i)
    × (a.id ≡ none → v.id ≡ provider_id)
VoteFor provider_id (judge_error cls message) v =
    (v.id ≡ provider_id)
    × (v.decision ≡ some "fail")
    × (v.reasons ≡ message ∷ [])
    × (v.error ≡ some cls)
    × (v.version ≡ none)
VoteFor provider_id (other_error cls message) v =
    (v.id ≡ provider_id)
    × (v.decision ≡ some "fail")
    × (v.reasons ≡ message ∷ [])
    × (v.error ≡ some cls)
    × (v.version ≡ none)

-- The votes are those of the tasks, one by one and in order.
abbrev pub Votes : List Task → List PoolVote → Type 0
Votes [] [] = Unit
Votes [] (v ∷ vs) = ⊥
Votes (t ∷ ts) [] = ⊥
Votes (t ∷ ts) (v ∷ vs) = VoteFor t.provider_id t.ended v × Votes ts vs

vote_of-VoteFor : (provider_id : String) (e : Ended) → VoteFor provider_id e (vote_of provider_id e)
unfolding vote_of
vote_of-VoteFor provider_id (returned a) =
    (refl, refl, refl, refl, λ i h. ground arith, λ h. ground arith)
vote_of-VoteFor provider_id (judge_error cls message) = (refl, refl, refl, refl, refl)
vote_of-VoteFor provider_id (other_error cls message) = (refl, refl, refl, refl, refl)

unfoldable pub votes_of : List Task → List PoolVote
votes_of [] = []
votes_of (t ∷ ts) = vote_of t.provider_id t.ended ∷ votes_of ts

pub votes_of-Votes : (ts : List Task) → Votes ts (votes_of ts)
unfolding votes_of
votes_of-Votes [] = tt
votes_of-Votes (t ∷ ts) = (vote_of-VoteFor t.provider_id t.ended, votes_of-Votes ts)

pub length-votes_of : (ts : List Task) → length (votes_of ts) ≡ length ts
unfolding votes_of
length-votes_of [] = refl
length-votes_of (t ∷ ts) = ap suc (length-votes_of ts)

pub gather_votes :
    (ts : List Task) (votes : List PoolVote) (c : ℕ) (d : Bool)
    → (gather ts votes c d).0 ≡ votes ++ votes_of ts
unfolding gather votes_of
gather_votes [] votes c d = ground (arith, append-nil votes)
gather_votes (t ∷ ts) votes c d = ground (
  arith,
  gather_votes ts (votes ++ vote_of t.provider_id t.ended ∷ [])
      (if passes t.ended then c + 1 else c) (if is_error t.ended then true else d),
  append_assoc votes (vote_of t.provider_id t.ended ∷ []) (votes_of ts),
)
