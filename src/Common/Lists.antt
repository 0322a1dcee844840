-- ===== src/Common/Lists.antt =====
-- Lists measured by native numbers, and a predicate on all the items of a list.
use Prim.Native.Nat.{ℕ, suc, ◌+◌}
use mathlib.Core.Path.{◌≡◌, refl}
use mathlib.Core.Logic.{◌⊎◌, inl, inr}
use mathlib.Core.Bool.{Bool}
use mathlib.Core.List.{List, [], ◌∷◌, ◌++◌}
use native.Mathlib.Omega.{arith}
use Prim.Native.Nat.{◌≤◌}
use decisionos.Common.Tests.{if◌then◌else◌}

module _ {ℓ} {A : Type ℓ} where
  abbrev pub length : List A → ℕ
  length [] = 0
  length (x ∷ xs) = suc (length xs)

  pub length-append : (xs ys : List A) → length (xs ++ ys) ≡ length xs + length ys
  length-append [] ys = omega arith
  length-append (x ∷ xs) ys = omega (arith, length-append xs ys)

  -- How many items pass a test.
  abbrev pub count : (A → Bool) → List A → ℕ
  count p [] = 0
  count p (x ∷ xs) = if p x then suc (count p xs) else count p xs

  pub count-le-length : (p : A → Bool) (xs : List A) → count p xs ≤ length xs
  count-le-length p [] = omega arith
  count-le-length p (x ∷ xs) = ground (arith, count-le-length p xs)

module _ {ℓ κ} {A : Type ℓ} where
  abbrev pub All : (A → Type κ) → List A → Type κ
  All P [] = Unit
  All P (x ∷ xs) = P x × All P xs

  pub All-append : (P : A → Type κ) (xs ys : List A) → All P xs → All P ys → All P (xs ++ ys)
  All-append P [] ys hx hy = hy
  All-append P (x ∷ xs) ys hx hy = (hx.0, All-append P xs ys hx.1 hy)

module _ {A : Type 0} where
  pub List-cases : (xs : List A) → (xs ≡ []) ⊎ ((x : A) × (rest : List A) × (xs ≡ x ∷ rest))
  List-cases [] = inl refl
  List-cases (x ∷ xs) = inr (x, xs, refl)

  -- It is one of the items.
  abbrev pub Among : A → List A → Type 0
  Among c [] = ⊥
  Among c (d ∷ l) = (c ≡ d) ⊎ Among c l

  pub All-Among : (P : A → Type 0) (c : A) (l : List A) → All P l → Among c l → P c
  All-Among P c [] h m = absurd m
  All-Among P c (d ∷ l) h (inl e) = rw e h.0
  All-Among P c (d ∷ l) h (inr m) = All-Among P c l h.1 m

  pub All-map : (P Q : A → Type 0) (l : List A) → ((c : A) → P c → Q c) → All P l → All Q l
  All-map P Q [] f h = tt
  All-map P Q (c ∷ l) f h = (f c h.0, All-map P Q l f h.1)

  pub All-among : (l : List A) → All (λ c. Among c l) l
  All-among [] = tt
  All-among (c ∷ l) =
      (inl refl, All-map (λ d. Among d l) (λ d. Among d (c ∷ l)) l (λ d m. inr m) (All-among l))
