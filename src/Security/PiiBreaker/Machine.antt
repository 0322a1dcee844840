-- ===== src/Security/PiiBreaker/Machine.antt =====
-- apps/security/pii_circuit_breaker.py as a state machine, whose states survive a restart.
use mathlib.Core.Path.{subst}
use decisionos.Common.{
  ℕ, ◌≡◌, ◌⊎◌, refl, sym, inl, inr, String, true, ◌||◌, Option, none, some, ltb, Bool-cases,
  if◌then◌else◌,
}
use decisionos.Security.PiiBreaker.{
  State, enabled, disabled_auto, disabled_manual, Metrics, Reason, given, saved, Config, Breaker,
  load_state, init, Event, disabled, recovered, over, metrics_recovered, disabled_manually,
  enabled_manually, error_over, latency_over, change, react, check, disable_manual, enable_manual,
}

-- What the machine takes metrics for.
pub data Reading : Type 0 where
  few fine bad : Reading

pub data Input : Type 0 where
  observe : Reading → Input
  hold release restart : Input

-- The steps that the machine may make.
pub data Step : State → Input → State → Type 0 where
  keep_few : {s : State} → Step s (observe few) s
  keep_held : {r : Reading} → Step disabled_manual (observe r) disabled_manual
  trip : Step enabled (observe bad) disabled_auto
  stay_on : Step enabled (observe fine) enabled
  stay_off : Step disabled_auto (observe bad) disabled_auto
  recover : Step disabled_auto (observe fine) enabled
  held : {s : State} → Step s hold disabled_manual
  released : {s : State} → Step s release enabled
  restarted : {s : State} → Step s restart s

-- The calls of a breaker, with the clock, and the start of a new process.
pub data Op : Type 0 where
  checked : ℕ → Metrics → Op
  disable : ℕ → String → Op
  enable : ℕ → String → Op
  start : ℕ → Op

module _ (cfg : Config) where
  abbrev pub reading : Metrics → Reading
  reading m =
      if ltb m.total_requests cfg.min_samples
      then few
      else if error_over cfg m || latency_over cfg m
      then bad
      else fine

  abbrev pub input : Op → Input
  input (checked now m) = observe (reading m)
  input (disable now r) = hold
  input (enable now r) = release
  input (start now) = restart

  unfoldable pub apply : Op → Breaker → Breaker
  unfolding check disable_manual enable_manual
  apply (checked now m) b = (check cfg now m b).1
  apply (disable now r) b = disable_manual cfg now r b
  apply (enable now r) b = enable_manual cfg now r b
  apply (start now) b = init now b.file b.alerts

  -- What is saved is the state, or nothing was saved and the breaker is as it started.
  abbrev pub InSync : Breaker → Type 0
  InSync b =
      ((r : Reason) × (t : ℕ) × (b.file ≡ saved b.current.state r t))
      ⊎ ((b.current.state ≡ enabled) × ((now : ℕ) → (load_state now b.file).state ≡ enabled))

  pub change-InSync :
      (e : Event) (s : State) (r : Reason) (now : ℕ) (m : Option Metrics) (b : Breaker)
      → cfg.writable ≡ true
      → InSync (change cfg e s r now m b)
  unfolding change
  change-InSync e s r now m b w = inl (r, now, rw w refl)

  react-Step :
      (s : State) (now : ℕ) (m : Metrics) (b : Breaker)
      → cfg.writable ≡ true
      → b.current.state ≡ s
      → InSync b
      → Step s
          (observe (if error_over cfg m || latency_over cfg m then bad else fine))
          (react cfg s now m b).current.state
        × InSync (react cfg s now m b)
  unfolding react
  react-Step enabled now m b w e i = elim (Bool-cases (error_over cfg m || latency_over cfg m)) [
    | inl t ↦ rw t (
      trip,
      change-InSync disabled disabled_auto (over (error_over cfg m) (latency_over cfg m) m) now
          (some m) b w,
    )
    | inr f ↦ rw f (subst (λ x. Step enabled (observe fine) x) (sym e) stay_on, i)
  ]
  react-Step disabled_auto now m b w e i =
      elim (Bool-cases (error_over cfg m || latency_over cfg m)) [
        | inl t ↦ rw t (subst (λ x. Step disabled_auto (observe bad) x) (sym e) stay_off, i)
        | inr f ↦ rw f (recover, change-InSync recovered enabled metrics_recovered now (some m) b w)
      ]
  react-Step disabled_manual now m b w e i = (
    subst
        (λ x.
          Step disabled_manual
            (observe (if error_over cfg m || latency_over cfg m then bad else fine)) x)
        (sym e) keep_held,
    i,
  )

  check-Step :
      (now : ℕ) (m : Metrics) (b : Breaker)
      → cfg.writable ≡ true
      → InSync b
      → Step b.current.state (observe (reading m)) (check cfg now m b).1.current.state
        × InSync (check cfg now m b).1
  unfolding check
  check-Step now m b w i = elim (Bool-cases (ltb m.total_requests cfg.min_samples)) [
    | inl t ↦ rw t (keep_few, i)
    | inr f ↦ rw f (react-Step b.current.state now m b w refl i)
  ]

  start-Step :
      (now : ℕ) (b : Breaker)
      → InSync b
      → Step b.current.state restart (load_state now b.file).state
        × InSync (init now b.file b.alerts)
  unfolding load_state
  start-Step now b (inl (r, t, e)) = rw e (restarted, inl (r, t, refl))
  start-Step now b (inr (on, f)) = (
    subst (λ x. Step x restart (load_state now b.file).state) (sym on)
        (subst (λ x. Step enabled restart x) (sym (f now)) restarted),
    inr (f now, f),
  )

  pub apply-Step :
      (op : Op) (b : Breaker)
      → cfg.writable ≡ true
      → InSync b
      → Step b.current.state (input op) (apply op b).current.state × InSync (apply op b)
  unfolding apply
  apply-Step (checked now m) b w i = check-Step now m b w i
  apply-Step (disable now r) b w i =
      (held, change-InSync disabled_manually disabled_manual (given r) now none b w)
  apply-Step (enable now r) b w i =
      (released, change-InSync enabled_manually enabled (given r) now none b w)
  apply-Step (start now) b w i = start-Step now b i

  -- `check` returns the state that it leaves.
  check-state :
      (now : ℕ) (m : Metrics) (b : Breaker)
      → (check cfg now m b).0 ≡ (check cfg now m b).1.current.state
  unfolding check
  check-state now m b = refl
