-- ===== src/Rollout/Controller/Results.antt =====
-- apps/experiment/controller.py: what the results of a canary do to its stage, and who is routed to it.
use decisionos.Common.{
  ℕ, ◌%◌, ◌≤◌, ◌≡◌, refl, ap, ◌∙◌, inl, inr, String, Bool, true, false, List, arith, ltb,
  if◌then◌else◌,
}
use decisionos.Common.Int.{pos, negsuc}
use decisionos.Common.Dict.{Dict}
use decisionos.Rollout.StageFile.{Crypto, StageEnv, Disk}
use decisionos.Rollout.Controller.{
  Traffic, StateFile, missing, broken, holds, loaded_pct, World, init, set_stage, register_result,
  Hashing, route, hash_key_value,
}
use decisionos.Rollout.Controller.Stages.{
  IsValid, IsNext, next, next-IsNext, register_result-IsValid, success_pct, sorted_stages-Rising,
}

-- A result moves the canary by one stage: a success to the least stage above its percentage, at most
-- to 100, and nowhere where there is none; a failure back to 0. The controller stays as it should be:
-- stages that rise from 0, a percentage of at most 100, and the index of the last stage reached.
pub register_result_lem :
    (crypto : Crypto) (env : StageEnv) (now : ℕ) (w : World) (l : List ℕ)
    → IsValid w.traffic l
    → IsValid (register_result crypto env now true w).traffic l
      × IsValid (register_result crypto env now false w).traffic l
      × ((register_result crypto env now false w).traffic.stage_pct ≡ 0)
      × (n : ℕ) × IsNext w.traffic.stage_pct w.traffic.stage_pct l n
      × ((register_result crypto env now true w).traffic.stage_pct ≡ (if ltb n 100 then n else 100))
unfolding register_result set_stage
register_result_lem crypto env now w l v = (
  register_result-IsValid crypto env now true w l v,
  register_result-IsValid crypto env now false w l v,
  refl,
  next w.traffic.stage_pct w.traffic.stage_pct l,
  next-IsNext w.traffic.stage_pct w.traffic.stage_pct 0 l v.rising,
  success_pct crypto env now w l v,
)

-- A controller starts in that state, whatever the policy and the state file hold.
pub init-IsValid :
    (stages : List ℕ) (hash_key : String) (file : StateFile) (d : Disk)
    → (l : List ℕ) × IsValid (init stages hash_key file d).traffic l
unfolding init
init-IsValid stages hash_key file d =
    let (l, e, r) = sorted_stages-Rising stages in
    (l, record { listed = e; rising = r; bounded = clamp_bounded file; indexed = refl })
  where
    clamp_bounded : (f : StateFile) → loaded_pct f ≤ 100
    clamp_bounded missing = omega arith
    clamp_bounded broken = omega arith
    clamp_bounded (holds (pos n)) = ground arith
    clamp_bounded (holds (negsuc n)) = omega arith

route-ltb :
    (hashing : Hashing) (t : Traffic) (headers : Dict String)
    → route hashing t headers
      ≡ ltb (hashing.digest32 (hash_key_value hashing t.hash_key headers) % 100) t.stage_pct
unfolding route
route-ltb hashing t headers = ground arith

same_key :
    (crypto : Crypto) (env : StageEnv) (now : ℕ) (b : Bool) (w : World)
    → (register_result crypto env now b w).traffic.hash_key ≡ w.traffic.hash_key
unfolding register_result set_stage
same_key crypto env now true w = refl
same_key crypto env now false w = refl

route_after :
    (hashing : Hashing) (crypto : Crypto) (env : StageEnv) (now : ℕ) (b : Bool) (w : World)
    (headers : Dict String)
    → route hashing (register_result crypto env now b w).traffic headers
      ≡ ltb
          (hashing.digest32 (hash_key_value hashing w.traffic.hash_key headers) % 100)
          (register_result crypto env now b w).traffic.stage_pct
route_after hashing crypto env now b w headers =
    let t = (register_result crypto env now b w).traffic in
    route-ltb hashing t headers
    ∙ ap (λ k. ltb (hashing.digest32 (hash_key_value hashing k headers) % 100) t.stage_pct)
        (same_key crypto env now b w)

next-grows : (pct n : ℕ) (l : List ℕ) → IsNext pct pct l n → pct ≤ n
next-grows pct n l (inl (h, _, _)) = omega arith
next-grows pct n l (inr (e, _)) = omega arith

-- Routing is sticky: a request that goes to the canary still goes there after a success, since its key
-- falls into the same of the 100 parts; after a failure no request goes there, and at 100 all do.
pub route_sticky :
    (hashing : Hashing) (crypto : Crypto) (env : StageEnv) (now : ℕ) (w : World) (l : List ℕ)
    (headers : Dict String)
    → IsValid w.traffic l
    → (route hashing w.traffic headers ≡ true
        → route hashing (register_result crypto env now true w).traffic headers ≡ true)
      × (route hashing (register_result crypto env now false w).traffic headers ≡ false)
      × (w.traffic.stage_pct ≡ 100 → route hashing w.traffic headers ≡ true)
route_sticky hashing crypto env now w l headers v =
    let (_, _, zero', n, is, e) = register_result_lem crypto env now w l v in
    let grows = next-grows w.traffic.stage_pct n l is in
    (
      λ h. ground (
        arith,
        route-ltb hashing w.traffic headers,
        route_after hashing crypto env now true w headers,
      ),
      ground (arith, route_after hashing crypto env now false w headers),
      λ full. ground (arith, route-ltb hashing w.traffic headers),
    )
