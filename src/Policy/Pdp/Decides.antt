-- ===== src/Policy/Pdp/Decides.antt =====
-- What the decision of apps/policy/pdp.py comes to.
use decisionos.Common.{
  ◌≡◌, ◌↔◌, ◌⊎◌, inl, inr, refl, String, true, false, none, some, List, [], ◌∷◌, arith, All, Among,
  All-Among, All-map, All-among, Bool-cases, if◌then◌else◌,
}
use mathlib.Core.List
use decisionos.Common.Int.{◌≤ℤ◌}
use decisionos.Policy.Pdp.{
  Candidate, PolicyStore, Value, gives, eval_expression, eval_unless, test, is_deny, key_leb,
  Decision, RuleEvaluation, go_through, records, sort, candidate_policies, evaluate,
}
use decisionos.Policy.Pdp.Order.{
  IsSorted, sort-IsSorted, sort-All, All-sort, key_leb-priority, key_leb_refl,
}

Among-sort : (c : Candidate) (l : List Candidate) → Among c (sort l) → Among c l
Among-sort c l m =
    All-Among (λ d. Among d l) c (sort l) (sort-All (λ d. Among d l) l (All-among l)) m

sort-Among : (c : Candidate) (l : List Candidate) → Among c l → Among c (sort l)
sort-Among c l m =
    All-Among (λ d. Among d (sort l)) c l (All-sort (λ d. Among d (sort l)) l (All-among (sort l)))
      m

module _ (eval : String → Value) where
  -- The policy's condition holds, and its exception, if it has one, does not; neither raises.
  pub record Matches (c : Candidate) : Type 0 where
    pub holds : eval_expression eval c.policy.when ≡ gives true
    pub not_excepted :
        (eval_unless eval c.policy.unless ≡ none)
        ⊎ (eval_unless eval c.policy.unless ≡ some (gives false))

  test-Matches : (c : Candidate) → (test eval c).0 ≡ true → Matches c
  unfolding test
  test-Matches c h = ground arith

  Matches-test : (c : Candidate) → Matches c → (test eval c).0 ≡ true
  unfolding test
  Matches-test c m = ground (arith, m.holds, m.not_excepted)

  -- The decision of a sorted list: that of the first policy that matches.
  abbrev First : List Candidate → Decision → Type 0
  First l d =
      (All (λ c. ¬ Matches c) l × (d.allow ≡ false) × (d.reason ≡ some "deny_by_default"))
      ⊎ ((c : Candidate) × Among c l
          × Matches c
          × All (λ b. Matches b → key_leb c b ≡ true) l
          × (d.allow ≡ (if is_deny c then false else true)))

  step_First :
      (c : Candidate) (l : List Candidate) (d : Decision)
      → ¬ Matches c
      → First l d
      → First (c ∷ l) d
  step_First c l d bad (inl (all, a, r)) = inl ((bad, all), a, r)
  step_First c l d bad (inr (b, m, h, all, a)) = inr (b, inr m, h, (λ k. absurd (bad k), all), a)

  go_through-First :
      (l : List Candidate) (t : List RuleEvaluation) → IsSorted l → First l (go_through eval l t)
  unfolding go_through
  go_through-First [] t s = inl (tt, refl, refl)
  go_through-First (c ∷ l) t s = elim (Bool-cases (test eval c).0) [
    | inl e ↦
        rw (go_through, e)
          (inr (
            c,
            inl refl,
            test-Matches c e,
            (
              λ m. key_leb_refl c,
              All-map (λ b. key_leb c b ≡ true) (λ b. Matches b → key_leb c b ≡ true) l (λ b k m. k)
                  s.0,
            ),
            refl,
          ))
    | inr e ↦
        rw (go_through, e)
          (let so_far = List.◌++◌ t ((test eval c).1 ∷ []) in
            step_First c l (go_through eval l so_far) (λ m. cc (Matches-test c m, e))
              (go_through-First l so_far s.1))
  ]

  -- No more than this policy counts the other: a lower priority, or the same and no denial.
  abbrev pub OutRanked : Candidate → Candidate → Type 0
  OutRanked c b =
      (b.policy.priority ≤ℤ c.policy.priority)
      × (c.policy.priority ≤ℤ b.policy.priority → is_deny b ≡ false)

  key_leb-OutRanked : (c b : Candidate) → is_deny c ≡ false → key_leb c b ≡ true → OutRanked c b
  key_leb-OutRanked c b e k = let (p, q) = key_leb-priority c b k in (p, λ r. ground (arith, q r))

  abbrev Allowed : List Candidate → Type 0
  Allowed l =
      (c : Candidate) × Among c l
      × Matches c
      × (is_deny c ≡ false)
      × All (λ b. Matches b → OutRanked c b) l

  First-Allowed :
      (l : List Candidate) (d : Decision) → First (sort l) d → d.allow ≡ true → Allowed l
  First-Allowed l d (inl (all, a, r)) h = absurd (ground arith)
  First-Allowed l d (inr (c, m, k, all, a)) h =
      let e : is_deny c ≡ false = ground arith in
      (
        c,
        Among-sort c l m,
        k,
        e,
        All-sort (λ b. Matches b → OutRanked c b) l
            (All-map (λ b. Matches b → key_leb c b ≡ true) (λ b. Matches b → OutRanked c b) (sort l)
              (λ b f j. key_leb-OutRanked c b e (f j)) all),
      )

  Allowed-First :
      (l : List Candidate) (d : Decision) → First (sort l) d → Allowed l → d.allow ≡ true
  Allowed-First l d (inl (all, a, r)) (c, m, k, e, top) =
      absurd (All-Among (λ b. ¬ Matches b) c (sort l) all (sort-Among c l m) k)
  Allowed-First l d (inr (b, n, j, all, a)) (c, m, k, e, top) =
      let before =
        All-Among (λ x. Matches x → key_leb b x ≡ true) c (sort l) all (sort-Among c l m) k in
      let under = All-Among (λ x. Matches x → OutRanked c x) b l top (Among-sort b l n) j in
      let least = key_leb-priority b c before in ground (arith, under.1 least.0)

  -- The request is allowed exactly if some policy for its action allows it and matches, and every
  -- policy for the action that matches has a lower priority than that one, or the same priority and
  -- is no denial: a denial overrides what has its priority or less. A policy whose expressions raise
  -- does not match, and where none matches the request is denied.
  pub evaluate_iff :
      (action : String) (store : PolicyStore)
      → ((evaluate eval action store).allow ≡ true) ↔ (
          (c : Candidate) × Among c (records action store)
          × Matches c
          × (is_deny c ≡ false)
          × All (λ b. Matches b → OutRanked c b) (records action store))
  unfolding evaluate candidate_policies
  evaluate_iff action store =
      let l = records action store in
      let first = go_through-First (sort l) [] (sort-IsSorted l) in
      (
        First-Allowed l (evaluate eval action store) first,
        Allowed-First l (evaluate eval action store) first,
      )
