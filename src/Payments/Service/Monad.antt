-- ===== src/Payments/Service/Monad.antt =====
-- The repository of apps/payments/core.py, and methods that change it and may raise.
use decisionos.Common.{Option, none, some}
use decisionos.Common.Dict.{Dict}
use decisionos.Payments.Models.{PaymentIntent, Charge, Refund, Receipt}
use decisionos.Payments.Adapters.{Error}

pub record Repo : Type 0 where
  pub intents : Dict PaymentIntent
  pub charges : Dict Charge
  pub refunds : Dict Refund
  pub receipts : Dict Receipt

pub data Result (A : Type 0) : Type 0 where
  ok : A → Result A
  raised : Error → Result A

abbrev pub M : Type 0 → Type 0
M A = Repo → Result A × Repo

module _ {A : Type 0} where
  abbrev pub pure : A → M A
  pure a r = (ok a, r)

  abbrev pub raise : Error → M A
  raise e r = (raised e, r)

  abbrev pub gets : (Repo → A) → M A
  gets f r = (ok (f r), r)

  abbrev pub or_raise : Option A → Error → M A
  or_raise none e = raise e
  or_raise (some a) e = pure a

abbrev pub modify : (Repo → Repo) → M (Unit {0})
modify f r = (ok tt, f r)

infixl 5 ◌>>=◌ ◌>>◌
abbrev pub ◌>>=◌ : {A B : Type 0} → M A → (A → M B) → M B
◌>>=◌ m f r = let (a, r') = m r in elim a [ ok x ↦ f x r' | raised e ↦ (raised e, r') ]

abbrev pub ◌>>◌ : {A B : Type 0} → M A → M B → M B
m >> k = m >>= λ _. k
