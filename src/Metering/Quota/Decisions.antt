-- ===== src/Metering/Quota/Decisions.antt =====
-- What the quotas of apps/limits/quota.py decide on.
use mathlib.Core.Path.{subst}
use decisionos.Common.{
  ◌≡◌, ◌↔◌, ◌∙◌, Option, refl, String, false, none, some, List, [], ◌∷◌, arith, str_eq, eq_iff,
  ◌&&◌, if◌then◌else◌,
}
use decisionos.Common.Int.{ℤ, pos, ◌+ℤ◌, ◌≤ℤ◌}
use decisionos.Common.Dict.{Dict, lookup, has, lookup-empty}
use decisionos.Metering.Quota.{
  QuotaRule, Action, allow, throttle, deny, decide_quota, QuotaConfig, QuotaDecision, QuotaState,
  get, put, add, action_for, apply_quota_batch,
}

get-put :
    (t t' m m' : String) (v : ℤ) (s : QuotaState)
    → get t' m' (put t m v s) ≡ (if str_eq t t' && str_eq m m' then v else get t' m' s)
unfolding get put
get-put t t' m m' v [] = refl
get-put t t' m m' v (e ∷ s) = ground (
  arith,
  get-put t t' m m' v s,
  eq_iff e.tenant t,
  eq_iff e.tenant t',
  eq_iff t t',
  eq_iff e.metric m,
  eq_iff e.metric m',
  eq_iff m m',
)

-- The keys of a dict are distinct.
abbrev pub Distinct : Dict ℤ → Type 0
Distinct [] = Unit
Distinct ((m, v) ∷ d) = (has m d ≡ false) × Distinct d

-- What a batch adds to a metric.
abbrev pub added : String → Dict ℤ → ℤ
added m d = elim (lookup m d) [ none ↦ pos 0 | some v ↦ v ]

-- The action is right for an amount under a rule: denied where it is over the hard limit, else throttled
-- where it is over the soft one, else allowed, as it is where there is no rule.
abbrev pub IsRight : Option QuotaRule → ℤ → Action → Type 0
IsRight none used a = a ≡ allow
IsRight (some r) used a =
    ((a ≡ deny) ↔ ¬ (used ≤ℤ r.hard))
    × ((a ≡ throttle) ↔ ((used ≤ℤ r.hard) × ¬ (used ≤ℤ r.soft)))
    × ((a ≡ allow) ↔ ((used ≤ℤ r.hard) × (used ≤ℤ r.soft)))

-- The decision on a metric, of which an amount is used.
abbrev pub Decides : QuotaConfig → String → ℤ → QuotaDecision → Type 0
Decides cfg m used q =
    (q.metric ≡ m)
    × (q.used ≡ used)
    × (q.rule ≡ lookup m cfg)
    × IsRight (lookup m cfg) used q.action

-- The decisions of a batch, each on what is used with its own amount.
abbrev pub Each : String → QuotaConfig → QuotaState → Dict ℤ → List QuotaDecision → Type 0
Each t cfg s [] [] = Unit
Each t cfg s [] (q ∷ out) = ⊥
Each t cfg s (e ∷ d) [] = ⊥
Each t cfg s ((m, v) ∷ d) (q ∷ out) = Decides cfg m (get t m s +ℤ v) q × Each t cfg s d out

action_for-IsRight : (r : Option QuotaRule) (used : ℤ) → IsRight r used (action_for r used)
unfolding decide_quota
action_for-IsRight none used = refl
action_for-IsRight (some r) used = ground arith

apart :
    (m m' : String) (w : ℤ) (d : Dict ℤ)
    → has m ((m', w) ∷ d) ≡ false
    → (str_eq m m' ≡ false) × (has m d ≡ false)
unfolding lookup
apart m m' w d h = ground (arith, eq_iff m m', eq_iff m' m)

get-put_other :
    (t m m' : String) (v : ℤ) (s : QuotaState)
    → str_eq m m' ≡ false
    → get t m' (put t m v s) ≡ get t m' s
get-put_other t m m' v s h = ground (arith, get-put t t m m' v s)

add_zero : (a : ℤ) → a +ℤ pos 0 ≡ a
unfolding ◌+ℤ◌
add_zero a = ground arith

added-cons :
    (t k m : String) (v : ℤ) (d : Dict ℤ) (s : QuotaState)
    → has m d ≡ false
    → get t k (put t m (get t m s +ℤ v) s) +ℤ added k d ≡ get t k s +ℤ added k ((m, v) ∷ d)
unfolding lookup
added-cons t k m v d s h =
    ground
      (arith, get-put t t m k (get t m s +ℤ v) s, eq_iff t t, eq_iff m k, add_zero (get t m s +ℤ v))

Each-put :
    (t m : String) (v : ℤ) (cfg : QuotaConfig) (s : QuotaState) (d : Dict ℤ)
    (out : List QuotaDecision)
    → has m d ≡ false
    → Each t cfg (put t m v s) d out
    → Each t cfg s d out
Each-put t m v cfg s [] [] h e = tt
Each-put t m v cfg s [] (q ∷ out) h e = absurd e
Each-put t m v cfg s ((m', w) ∷ d) [] h e = absurd e
Each-put t m v cfg s ((m', w) ∷ d) (q ∷ out) h e =
    let (other, rest) = apart m m' w d h in
    (
      subst (λ x. Decides cfg m' (x +ℤ w) q) (get-put_other t m m' v s other) e.0,
      Each-put t m v cfg s d out rest e.1,
    )

-- A batch of amounts for distinct metrics gives one decision for each metric, in order, on what the
-- tenant has used of it with the batch's amount: it denies what is over the hard limit of the metric,
-- throttles what is over the soft one, and allows the rest and what has no rule; afterwards the tenant
-- has used that much of each metric, the same as before of every other metric, and no other tenant's
-- use has changed.
pub apply_quota_batch_lem :
    (t : String) (d : Dict ℤ) (cfg : QuotaConfig) (s : QuotaState)
    → Distinct d
    → let (out, s') = apply_quota_batch t d cfg s in
      Each t cfg s d out
      × ((m : String) → get t m s' ≡ get t m s +ℤ added m d)
      × ((t' m : String) → str_eq t t' ≡ false → get t' m s' ≡ get t' m s)
unfolding apply_quota_batch add
apply_quota_batch_lem t [] cfg s h =
    (tt, λ m. ground (arith, lookup-empty {V = ℤ} m, add_zero (get t m s)), λ t' m e. refl)
apply_quota_batch_lem t ((m, v) ∷ d) cfg s h =
    let cur = get t m s +ℤ v in
    let (each, own, others) = apply_quota_batch_lem t d cfg (put t m cur s) h.1 in
    (
      (
        (refl, refl, refl, action_for-IsRight (lookup m cfg) cur),
        Each-put t m cur cfg s d (apply_quota_batch t d cfg (put t m cur s)).0 h.0 each,
      ),
      λ k. own k ∙ added-cons t k m v d s h.0,
      λ t' k e. ground (arith, others t' k e, get-put t t' m k cur s),
    )
