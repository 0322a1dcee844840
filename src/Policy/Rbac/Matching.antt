-- ===== src/Policy/Rbac/Matching.antt =====
-- The route that `_route_match` of apps/policy/rbac_enforce.py chooses.
use Prim.Native.String.{count}
use decisionos.Common.{
  ◌≤◌, ◌≡◌, ◌⊎◌, inl, inr, refl, String, true, false, Option, none, some, List, [], ◌∷◌, arith, All,
  Among, Bool-cases,
}
use decisionos.Policy.Rbac.{Library, Route, pattern, longer, fits, best_route}

-- A route whose test holds has no longer a pattern than this one.
abbrev pub Longest : Library → String → String → List Route → Route → Type 0
Longest lib path method l r =
    All (λ b. fits lib path method b ≡ true → count (pattern b) ≤ count (pattern r)) l

module _ (lib : Library) (path method : String) where
  -- The loop gives the longest of the route that it starts with and the routes that fit.
  abbrev pub Best : List Route → Option Route → Option Route → Type 0
  Best l start none = (start ≡ none) × All (λ b. fits lib path method b ≡ false) l
  Best l start (some r) =
      ((start ≡ some r) ⊎ (Among r l × (fits lib path method r ≡ true)))
      × Longest lib path method l r
      × ((b : Route) → start ≡ some b → count (pattern b) ≤ count (pattern r))

  some-some : (r x : Route) → some r ≡ some x → x ≡ r
  some-some r x e = cc

  taken :
      (r x : Route) (l : List Route)
      → fits lib path method r ≡ true
      → (some r ≡ some x) ⊎ (Among x l × (fits lib path method x ≡ true))
      → Among x (r ∷ l) × (fits lib path method x ≡ true)
  taken r x l f (inl e) = (inl (some-some r x e), rw (some-some r x e) f)
  taken r x l f (inr (m, k)) = (inr m, k)

  kept :
      (r x : Route) (l : List Route) (start : Option Route)
      → (start ≡ some x) ⊎ (Among x l × (fits lib path method x ≡ true))
      → (start ≡ some x) ⊎ (Among x (r ∷ l) × (fits lib path method x ≡ true))
  kept r x l start (inl e) = inl e
  kept r x l start (inr (m, k)) = inr (inr m, k)

  skip_Best :
      (r : Route) (l : List Route) (start res : Option Route)
      → fits lib path method r ≡ false
      → Best l start res
      → Best (r ∷ l) start res
  skip_Best r l start none e h = (h.0, (e, h.1))
  skip_Best r l start (some x) e h = (kept r x l start h.0, ((λ k. cc (k, e)), h.1), h.2)

  take_Best :
      (r : Route) (l : List Route) (start res : Option Route)
      → fits lib path method r ≡ true
      → longer r start ≡ true
      → Best l (some r) res
      → Best (r ∷ l) start res
  take_Best r l start none e g h = cc
  take_Best r l none (some x) e g h = (inr (taken r x l e h.0), ((λ k. h.2 r refl), h.1), λ b k. cc)
  take_Best r l (some s) (some x) e g h =
      (inr (taken r x l e h.0), ((λ k. h.2 r refl), h.1), λ b k. ground (arith, h.2 r refl))

  keep_Best :
      (r : Route) (l : List Route) (start res : Option Route)
      → longer r start ≡ false
      → Best l start res
      → Best (r ∷ l) start res
  keep_Best r l none res g h = cc
  keep_Best r l (some s) none g h = cc
  keep_Best r l (some s) (some x) g h =
      (kept r x l (some s) h.0, ((λ k. ground (arith, h.2 s refl)), h.1), h.2)

  pub best_route-Best :
      (l : List Route) (start : Option Route) → Best l start (best_route lib path method l start)
  unfolding best_route
  best_route-Best [] none = (refl, tt)
  best_route-Best [] (some s) = (inl refl, tt, λ b e. ground arith)
  best_route-Best (r ∷ l) start = elim (Bool-cases (fits lib path method r)) [
    | inr e ↦
        rw (best_route, e)
          (skip_Best r l start (best_route lib path method l start) e (best_route-Best l start))
    | inl e ↦ elim (Bool-cases (longer r start)) [
      | inl g ↦
          rw (best_route, e, g)
            (take_Best r l start (best_route lib path method l (some r)) e g
              (best_route-Best l (some r)))
      | inr g ↦
          rw (best_route, e, g)
            (keep_Best r l start (best_route lib path method l start) g (best_route-Best l start))
    ]
  ]
