-- ===== src/Rollout/Controller/Governed.antt =====
-- apps/experiment/controller.py: what the guard of changes lets through.
use decisionos.Common.{
  ℕ, ◌≡◌, ◌≢◌, ◌↔◌, ◌⊎◌, refl, inl, inr, String, Bool, true, false, Option, none, some, List, arith,
  str_eq, eq_iff, Bool-cases, Option-cases,
}
use Prim.Native.String.{◌++◌ as ◌<>◌}
use decisionos.Judge.Keys.{Stdlib}
use decisionos.Judge.Keys.Loader.{Loader}
use decisionos.Change.PolicyLoader.{Config}
use decisionos.Change.BreakGlass.{Lifted, has_valid_break_glass_iff}
use decisionos.Change.Windows.{Calendar, FreezeWindow}
use decisionos.Change.Windows.Parse.{Item}
use decisionos.Change.Freeze.{Site, is_freeze_active}
use decisionos.Change.Freeze.Guarded.{Open, unblocked-reason, is_freeze_active_iff}
use decisionos.Rollout.StageFile.{Crypto, StageEnv}
use decisionos.Rollout.Controller.{
  Verdict, passed, refused, crashed, guard_query, change_guard, World, promote, abort, Health,
  health_of, cutover,
}

verdict_cases : (v : Verdict) → (v ≡ passed) ⊎ (v ≢ passed)
verdict_cases passed = inl refl
verdict_cases (refused reason) = inr (λ e. cc e)
verdict_cases crashed = inr (λ e. cc e)

same_world : {A : Type 0} (v : Verdict) (a b : A) → v ≢ passed → (elim v [ passed ↦ a | _ ↦ b ]) ≡ b
same_world passed a b n = absurd (n refl)
same_world (refused reason) a b n = refl
same_world crashed a b n = refl

no_cutover :
    (v : Verdict) (r : Bool × String × String) (current message stage : String)
    → v ≢ passed
    → (elim v [ passed ↦ some r | refused reason ↦ some (false, reason, current) | crashed ↦ none ])
      ≢ some (true, message, stage)
no_cutover passed r current message stage n = absurd (n refl)
no_cutover (refused reason) r current message stage n = λ e. absurd (ground arith)
no_cutover crashed r current message stage n = λ e. cc e

module _ {Payload : Type 0} (std : Stdlib Payload) (cal : Calendar) (cfg : Config)
    (array : Payload → Option (List (Option Item))) where
  -- The freeze is open for the change, or a break-glass manifest lifts it.
  abbrev pub Permitted : Site Payload → Option Loader → Type 0
  Permitted c g =
      ((now : ℕ) × (ws : List FreezeWindow) × Open std cal cfg array c (guard_query c) g now ws)
      ⊎ Lifted std c.glass none

  change_guard-Permitted :
      (c : Site Payload) (action : String) (g : Option Loader)
      → (change_guard std cal cfg array false c action g).0 ≡ passed
      → Permitted c g
  unfolding change_guard
  change_guard-Permitted c action g h =
      elim (Option-cases (is_freeze_active std cal cfg array c (guard_query c) g).0) [
        | inl e ↦ absurd (ground arith)
        | inr ((blocked, reason), e) ↦ elim (Bool-cases blocked) [
          | inl b ↦ inr ((has_valid_break_glass_iff std c.glass none).0 (ground arith))
          | inr b ↦ inl (
              (is_freeze_active_iff std cal cfg array c (guard_query c) g).0
                (unblocked-reason std cal cfg array c (guard_query c) g reason (ground arith)))
        ]
      ]

  Permitted-change_guard :
      (c : Site Payload) (action : String) (g : Option Loader)
      → (change_guard std cal cfg array false c action g).0 ≢ crashed
      → Permitted c g
      → (change_guard std cal cfg array false c action g).0 ≡ passed
  unfolding change_guard
  Permitted-change_guard c action g live (inl o) =
      let clear = (is_freeze_active_iff std cal cfg array c (guard_query c) g).1 o in ground arith
  Permitted-change_guard c action g live (inr l) =
      let lifted = (has_valid_break_glass_iff std c.glass none).1 l in
      elim (Option-cases (is_freeze_active std cal cfg array c (guard_query c) g).0) [
        | inl e ↦ absurd (live (ground arith))
        | inr ((blocked, reason), e) ↦ ground arith
      ]

  -- The guard passes a change exactly if the freeze is open for it or a break-glass manifest lifts
  -- the freeze, provided that the guard itself does not raise.
  change_guard_iff :
      (c : Site Payload) (action : String) (g : Option Loader)
      → (change_guard std cal cfg array false c action g).0 ≢ crashed
      → ((change_guard std cal cfg array false c action g).0 ≡ passed) ↔ Permitted c g
  change_guard_iff c action g live =
      (change_guard-Permitted c action g, Permitted-change_guard c action g live)

  module _ (crypto : Crypto) (env : StageEnv) (now : ℕ) where
    promoted :
        (c : Site Payload) (g : Option Loader) (w : World)
        → (promote std cal cfg array crypto env now false c g w).1 ≢ w
        → (change_guard std cal cfg array false c "promote" g).0 ≡ passed
    unfolding promote
    promoted c g w h = elim (verdict_cases (change_guard std cal cfg array false c "promote" g).0) [
      | inl e ↦ e
      | inr n ↦ absurd (h (same_world (change_guard std cal cfg array false c "promote" g).0 _ w n))
    ]

    aborted :
        (c : Site Payload) (g : Option Loader) (w : World)
        → (abort std cal cfg array crypto env now false c g w).1 ≢ w
        → (change_guard std cal cfg array false c "abort" g).0 ≡ passed
    unfolding abort
    aborted c g w h = elim (verdict_cases (change_guard std cal cfg array false c "abort" g).0) [
      | inl e ↦ e
      | inr n ↦ absurd (h (same_world (change_guard std cal cfg array false c "abort" g).0 _ w n))
    ]

  cut_over :
      (c : Site Payload) (h : Health) (target : String) (check : Bool) (g : Option Loader)
      (current message stage : String)
      → (cutover std cal cfg array false c h target check g current).0 ≡ some (true, message, stage)
      → ((change_guard std cal cfg array false c ("cutover:" <> target) g).0 ≡ passed)
        × (stage ≡ target)
        × ((target ≡ "blue") ⊎ (target ≡ "green"))
        × (check ≡ true → health_of h target ≡ "ok")
  unfolding cutover
  cut_over c h target check g current message stage e =
      elim (verdict_cases (change_guard std cal cfg array false c ("cutover:" <> target) g).0) [
        | inl p ↦ (
          p,
          ground arith,
          ground (
            arith,
            eq_iff target "blue",
            eq_iff target "green",
            Bool-cases (str_eq target "blue"),
          ),
          λ checked. ground (arith, eq_iff (health_of h target) "ok"),
        )
        | inr n ↦ absurd (
            no_cutover (change_guard std cal cfg array false c ("cutover:" <> target) g).0 _ current
              message stage n e)
      ]

  -- With change governance on, whatever `promote` or `abort` changes of the controller, its state file
  -- and the stage file, and whatever stage `cutover` switches to, is changed only where no freeze
  -- blocks the change, or a break-glass manifest lifts the freeze; and a cutover goes to the stage that
  -- was asked for, one of the two, which is healthy where the health is checked.
  pub changes_governed :
      (crypto : Crypto) (env : StageEnv) (now : ℕ) (c : Site Payload) (g : Option Loader)
      (w : World) (h : Health) (target : String) (check : Bool) (current message stage : String)
      → ((promote std cal cfg array crypto env now false c g w).1 ≢ w → Permitted c g)
        × ((abort std cal cfg array crypto env now false c g w).1 ≢ w → Permitted c g)
        × ((cutover std cal cfg array false c h target check g current).0
              ≡ some (true, message, stage)
            → Permitted c g
              × (stage ≡ target)
              × ((target ≡ "blue") ⊎ (target ≡ "green"))
              × (check ≡ true → health_of h target ≡ "ok"))
  changes_governed crypto env now c g w h target check current message stage = (
    λ d. change_guard-Permitted c "promote" g (promoted crypto env now c g w d),
    λ d. change_guard-Permitted c "abort" g (aborted crypto env now c g w d),
    λ e.
        let (p, same, known, healthy) = cut_over c h target check g current message stage e in
        (change_guard-Permitted c ("cutover:" <> target) g p, same, known, healthy),
  )
