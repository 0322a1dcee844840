-- ===== src/Security/PiiBreaker/Runs.antt =====
-- Histories of the breaker of apps/security/pii_circuit_breaker.py, restarts included.
use mathlib.Core.Path.{subst}
use decisionos.Common.{
  ℕ, ◌≡◌, refl, inl, inr, String, Bool, true, false, none, List, [], ◌∷◌, arith,
}
use decisionos.Security.PiiBreaker.{
  State, disabled_manual, Config, Breaker, given, change, disabled_manually, disable_manual,
  should_enable_pii_middleware,
}
use decisionos.Security.PiiBreaker.Machine.{
  Reading, Input, observe, Step, keep_few, keep_held, held, restarted, Op, checked, disable, enable,
  start, input, apply, InSync, change-InSync, apply-Step,
}

-- A run of the machine, the first input first.
pub data Steps : State → List Input → State → Type 0 where
  done : {s : State} → Steps s [] s
  then_step :
      {s t u : State} {i : Input} {l : List Input} → Step s i t → Steps t l u → Steps s (i ∷ l) u

-- No call of a run is `enable_manual`.
abbrev pub no_enable : List Op → Bool
no_enable [] = true
no_enable (checked now m ∷ l) = no_enable l
no_enable (disable now r ∷ l) = no_enable l
no_enable (enable now r ∷ l) = false
no_enable (start now ∷ l) = no_enable l

module _ (cfg : Config) where
  unfoldable pub run : List Op → Breaker → Breaker
  run [] b = b
  run (op ∷ l) b = run l (apply cfg op b)

  abbrev pub inputs : List Op → List Input
  inputs [] = []
  inputs (op ∷ l) = input cfg op ∷ inputs l

  -- Where the state file can be written and has the state of the breaker (or none, and the breaker is on),
  -- a run of calls and restarts of the breaker is a run of the machine, and then the file has the state.
  pub run-Steps :
      (l : List Op) (b : Breaker)
      → cfg.writable ≡ true
      → InSync cfg b
      → Steps b.current.state (inputs l) (run l b).current.state × InSync cfg (run l b)
  unfolding run
  run-Steps [] b w i = (done, i)
  run-Steps (op ∷ l) b w i =
      let s = apply-Step cfg op b w i in
      let rest = run-Steps l (apply cfg op b) w s.1 in (then_step s.0 rest.0, rest.1)

  Step-held : {r : Reading} {t : State} → Step disabled_manual (observe r) t → t ≡ disabled_manual
  Step-held keep_few = refl
  Step-held keep_held = refl

  Steps-held :
      (l : List Op) {u : State}
      → Steps disabled_manual (inputs l) u
      → no_enable l ≡ true
      → u ≡ disabled_manual
  Steps-held [] done n = refl
  Steps-held (checked now m ∷ l) {u} (then_step s rest) n =
      Steps-held l (subst (λ x. Steps x (inputs l) u) (Step-held s) rest) n
  Steps-held (disable now r ∷ l) (then_step held rest) n = Steps-held l rest n
  Steps-held (enable now r ∷ l) (then_step s rest) n = absurd (ground arith)
  Steps-held (start now ∷ l) (then_step restarted rest) n = Steps-held l rest n

  InSync-off :
      (now : ℕ) (b : Breaker)
      → InSync cfg b
      → b.current.state ≡ disabled_manual
      → should_enable_pii_middleware now b.file ≡ false
  unfolding should_enable_pii_middleware
  InSync-off now b (inl (r, t, f)) e = rw f (rw e refl)
  InSync-off now b (inr (on, f)) e = absurd (ground arith)

  -- Where the state file can be written, the middleware stays off after `disable_manual`, whatever is
  -- checked and however often the process starts again, until `enable_manual` is called.
  pub disable_manual-held :
      (now : ℕ) (reason : String) (l : List Op) (later : ℕ) (b : Breaker)
      → cfg.writable ≡ true
      → no_enable l ≡ true
      → should_enable_pii_middleware later (run l (disable_manual cfg now reason b)).file ≡ false
  unfolding disable_manual
  disable_manual-held now reason l later b w n =
      let b' = change cfg disabled_manually disabled_manual (given reason) now none b in
      let i = change-InSync cfg disabled_manually disabled_manual (given reason) now none b w in
      let s = run-Steps l b' w i in InSync-off later (run l b') s.1 (Steps-held l s.0 n)
