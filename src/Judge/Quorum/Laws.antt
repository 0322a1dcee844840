-- ===== src/Judge/Quorum/Laws.antt =====
-- The decisions of apps/judge/quorum.py and apps/judge/pool.py, and that the two agree.
use decisionos.Common.{
  ℕ, suc, ◌+◌, ◌≤◌, ◌<◌, ◌⊎◌, inl, inr, ◌&&◌, ◌==◌, ltb, leb, Bool-cases, ◌≡◌, ◌↔◌, refl, ap, Bool,
  true, false, Option, none, some, List, [], ◌∷◌, ◌++◌, arith, length, count, if◌then◌else◌,
}
use mathlib.Core.Path.{subst}
use mathlib.Core.List.{append-nil, append_assoc}
use decisionos.Judge.Quorum.{
  Final, pass, fail, Verdict, Vote, Decision, assertion_failed, decided, is_pass, final_of,
  quorum_ok, poll, decide,
}
use decisionos.Judge.Quorum.Votes.{Votes, votes_of, votes_of-Votes, length-votes_of, gather_votes}
use decisionos.Judge.Quorum.Pool
use decisionos.Judge.Quorum.Pool.{
  Answer, Ended, returned, judge_error, other_error, Task, PoolVote, PoolTally, PoolDecision,
  value_error, is_error, passes, vote_of, gather, quorum_decide,
}

-- The judges return these verdicts, one by one.
abbrev pub Returns :
    {Evidence Slo : Type 0}
    → Evidence
    → Slo
    → List (Evidence → Slo → Option Verdict)
    → List Verdict
    → Type 0
Returns ev slo [] [] = Unit
Returns ev slo [] (v ∷ vs) = ⊥
Returns ev slo (p ∷ ps) [] = ⊥
Returns ev slo (p ∷ ps) (v ∷ vs) = (p ev slo ≡ some v) × Returns ev slo ps vs

abbrev pub passing : List Verdict → ℕ
passing = count (λ v. is_pass v.decision)

-- The votes of a list of verdicts, numbered from an index.
abbrev pub numbered : ℕ → List Verdict → List Vote
numbered i [] = []
numbered i (v ∷ vs) =
    record { idx = i; decision = v.decision; reasons = v.reasons } ∷ numbered (i + 1) vs

module _ {Evidence Slo : Type 0} (ev : Evidence) (slo : Slo) where
  poll-Returns :
      (ps : List (Evidence → Slo → Option Verdict)) (vs : List Verdict) (i c : ℕ)
      (votes : List Vote)
      → Returns ev slo ps vs
      → poll ev slo ps i votes c ≡ some (votes ++ numbered i vs, c + passing vs)
  unfolding poll
  poll-Returns [] [] i c votes h = ground (arith, append-nil votes)
  poll-Returns [] (v ∷ vs) i c votes h = absurd h
  poll-Returns (p ∷ ps) [] i c votes h = absurd h
  poll-Returns (p ∷ ps) (v ∷ vs) i c votes h = ground (
    arith,
    poll-Returns ps vs (i + 1) (if is_pass v.decision then c + 1 else c)
        (votes ++ record { idx = i; decision = v.decision; reasons = v.reasons } ∷ []) h.1,
    append_assoc votes (record { idx = i; decision = v.decision; reasons = v.reasons } ∷ [])
        (numbered (i + 1) vs),
  )

  -- With a quorum 0 < k ≤ n over n judges that return, the decision counts the passing verdicts, lists
  -- every verdict in order under its index, and is `pass` exactly if at least k of them pass; any
  -- other k or n fails the assertion, whatever the judges do.
  pub decide-Returns :
      (ps : List (Evidence → Slo → Option Verdict)) (vs : List Verdict) (k n : ℕ)
      → Returns ev slo ps vs
      → decide ps ev slo k n ≡ (
          if quorum_ok k n (length ps)
          then decided (record {
            final = final_of k (passing vs);
            pass_count = passing vs;
            k = k;
            n = n;
            votes = numbered 0 vs;
          })
          else assertion_failed)
  unfolding decide
  decide-Returns ps vs k n h = ground (arith, poll-Returns ps vs 0 0 [] h)

unfoldable pub any_error : List Task → Bool
any_error [] = false
any_error (t ∷ ts) = if is_error t.ended then true else any_error ts

abbrev pub task_passes : Task → Bool
task_passes t = passes t.ended

gather-count :
    (ts : List Task) (votes : List PoolVote) (c : ℕ) (d : Bool)
    → (gather ts votes c d).1 ≡ c + count task_passes ts
unfolding gather
gather-count [] votes c d = omega arith
gather-count (t ∷ ts) votes c d = ground (
  arith,
  gather-count ts (votes ++ vote_of t.provider_id t.ended ∷ [])
      (if passes t.ended then c + 1 else c) (if is_error t.ended then true else d),
)

gather_degraded :
    (ts : List Task) (votes : List PoolVote) (c : ℕ) (d : Bool)
    → (gather ts votes c d).2 ≡ (if d then true else any_error ts)
unfolding gather any_error
gather_degraded [] votes c d = ground arith
gather_degraded (t ∷ ts) votes c d = ground (
  arith,
  gather_degraded ts (votes ++ vote_of t.provider_id t.ended ∷ [])
      (if passes t.ended then c + 1 else c) (if is_error t.ended then true else d),
)

-- A quorum of k of the n providers.
abbrev pub IsQuorum : List Task → ℕ → ℕ → Type 0
IsQuorum ts k n = (length ts ≡ n) × (0 < k) × (k ≤ n)

-- A decision has the vote of each provider, is degraded exactly if some provider raised, and is a pass
-- exactly if at least k providers returned a pass and, where it fails closed, none raised.
abbrev pub Decides : List Task → ℕ → ℕ → Bool → PoolTally → Type 0
Decides ts k n closed t =
    (length t.votes ≡ n)
    × Votes ts t.votes
    × (t.pass_count ≡ count task_passes ts)
    × (t.degraded ≡ any_error ts)
    × ((t.final ≡ pass) ↔ ((k ≤ count task_passes ts) × (closed ≡ true → any_error ts ≡ false)))

decided-Decides :
    (ts : List Task) (k n : ℕ) (closed : Bool) (t : PoolTally)
    → quorum_decide ts k n closed ≡ Pool.decided t
    → Decides ts k n closed t
unfolding quorum_decide
decided-Decides ts k n closed t h =
    let votes = gather_votes ts [] 0 false in
    let passed = gather-count ts [] 0 false in
    let failed = gather_degraded ts [] 0 false in
    let same : votes_of ts ≡ t.votes = ground arith in
    (
      ground (arith, length-votes_of ts),
      subst (Votes ts) same (votes_of-Votes ts),
      ground arith,
      ground arith,
      ground arith,
    )

-- What `quorum_decide` gives: a tally exactly where there is a quorum.
IsQuorum-cases :
    (ts : List Task) (k n : ℕ) (closed : Bool)
    → ((quorum_decide ts k n closed ≡ value_error) × ¬ IsQuorum ts k n)
      ⊎ (IsQuorum ts k n × (t : PoolTally) × (quorum_decide ts k n closed ≡ Pool.decided t))
unfolding quorum_decide
IsQuorum-cases ts k n closed = elim (Bool-cases (length ts == n && (ltb 0 k && leb k n))) [
  | inl y ↦
      let (votes, pass_count, degraded) = gather ts [] 0 false in
      inr (
        (ground arith, ground arith, ground arith),
        record {
          final = if degraded && closed then fail else final_of k pass_count;
          k = k;
          n = n;
          pass_count = pass_count;
          votes = votes;
          degraded = degraded;
        },
        ground arith,
      )
  | inr refused ↦ inl (ground arith, λ (a, b, c). absurd (ground arith))
]

-- The pool refuses to decide exactly where 0 < k ≤ n fails or there are not n providers. Else, whatever the
-- providers do, it decides, with the vote of each provider, in order, with its answer or, where it
-- raised, a fail with the error; the decision is `degraded` exactly if some provider raised, and is `pass`
-- exactly if at least k providers returned a pass and, where it fails closed on a degraded quorum, none
-- raised.
pub quorum_decide_lem :
    (ts : List Task) (k n : ℕ) (closed : Bool)
    → ((quorum_decide ts k n closed ≡ value_error) × ¬ IsQuorum ts k n)
      ⊎ (IsQuorum ts k n
          × (t : PoolTally) × (quorum_decide ts k n closed ≡ Pool.decided t)
          × Decides ts k n closed t)
quorum_decide_lem ts k n closed = elim (IsQuorum-cases ts k n closed) [
  | inl refused ↦ inl refused
  | inr (q, t, e) ↦ inr (q, t, e, decided-Decides ts k n closed t e)
]

-- The final word of either decision, if it comes to one.
abbrev pub pool_final : PoolDecision → Option Final
pool_final value_error = none
pool_final (Pool.decided t) = some t.final

abbrev pub quorum_final : Decision → Option Final
quorum_final (decided q) = some q.final
quorum_final _ = none

-- Each task returned, with the decision of the verdict in its place.
abbrev pub Answers : List Task → List Verdict → Type 0
Answers [] [] = Unit
Answers [] (v ∷ vs) = ⊥
Answers (t ∷ ts) [] = ⊥
Answers (t ∷ ts) (v ∷ vs) =
    ((a : Answer) × (t.ended ≡ returned a) × (a.decision ≡ some v.decision)) × Answers ts vs

length-Returns :
    {Evidence Slo : Type 0} (ev : Evidence) (slo : Slo)
    (ps : List (Evidence → Slo → Option Verdict)) (vs : List Verdict)
    → Returns ev slo ps vs
    → length ps ≡ length vs
length-Returns ev slo [] [] h = refl
length-Returns ev slo [] (v ∷ vs) h = absurd h
length-Returns ev slo (p ∷ ps) [] h = absurd h
length-Returns ev slo (p ∷ ps) (v ∷ vs) h = ap suc (length-Returns ev slo ps vs h.1)

Answers-facts :
    (ts : List Task) (vs : List Verdict)
    → Answers ts vs
    → (length ts ≡ length vs) × (count task_passes ts ≡ passing vs) × (any_error ts ≡ false)
unfolding any_error
Answers-facts [] [] h = (refl, refl, refl)
Answers-facts [] (v ∷ vs) h = absurd h
Answers-facts (t ∷ ts) [] h = absurd h
Answers-facts (t ∷ ts) (v ∷ vs) h = ground (arith, Answers-facts ts vs h.1)

-- Where no provider raises, the pool decides as `decide` of quorum.py does over judges that return
-- the same verdicts, for every k and n.
pub quorum_decide-decide :
    {Evidence Slo : Type 0} (ev : Evidence) (slo : Slo)
    (ps : List (Evidence → Slo → Option Verdict)) (ts : List Task) (vs : List Verdict) (k n : ℕ)
    (closed : Bool)
    → Returns ev slo ps vs
    → Answers ts vs
    → pool_final (quorum_decide ts k n closed) ≡ quorum_final (decide ps ev slo k n)
unfolding quorum_decide
quorum_decide-decide ev slo ps ts vs k n closed hp ht = rw (decide-Returns ev slo ps vs k n hp) (
    ground (
      arith,
      gather-count ts [] 0 false,
      gather_degraded ts [] 0 false,
      length-Returns ev slo ps vs hp,
      Answers-facts ts vs ht,
    ))
