-- ===== src/Policy/Rbac/Access.antt =====
-- Whom the middleware of apps/policy/rbac_enforce.py lets through.

use decisionos.Common.{
  ◌≡◌, ◌≢◌, ◌↔◌, ◌⊎◌, inl, inr, refl, sym, ap, ◌∙◌, String, Bool, true, false, Option, none, some,
  List, [], ◌∷◌, ◌++◌, arith, All, Among, All-Among, eq_iff, Bool-cases, Option-cases, contains,
  if◌then◌else◌,
}
use mathlib.Core.Path.{subst}
use decisionos.Common.Text.{split, strip, lstrip, rstrip}
use decisionos.Policy.Pep.{stripped}
use decisionos.Policy.Rbac.{
  Library, Route, needs, fits, route_match, has_all, has_any, allowed, Settings, Request,
  is_test_mode_enabled, parse_scopes, RbacMapState, no_route_match, forwarded, judge_route,
  require_scopes,
}
use decisionos.Policy.Rbac.Matching.{Longest, Best, best_route-Best}

-- What the scopes of a request must be for the scopes that a route needs.
abbrev pub Granted : List String → List String → Bool → Type 0
Granted scopes need true = (contains "*" scopes ≡ true) ⊎ All (λ s. contains s scopes ≡ true) need
Granted scopes need false =
    (contains "*" scopes ≡ true)
    ⊎ ((need ≡ []) ⊎ ((s : String) × Among s need × (contains s scopes ≡ true)))

has_all-All :
    (scopes need : List String)
    → (has_all scopes need ≡ true) ↔ All (λ s. contains s scopes ≡ true) need
unfolding has_all
has_all-All scopes [] = (λ h. tt, λ h. refl)
has_all-All scopes (s ∷ l) =
    let (f, g) = has_all-All scopes l in (λ h. ground (arith, f), λ h. ground (arith, g h.1, h.0))

has_any-Among :
    (scopes need : List String)
    → has_any scopes need ≡ true
    → (s : String) × Among s need × (contains s scopes ≡ true)
unfolding has_any
has_any-Among scopes [] h = cc
has_any-Among scopes (s ∷ l) h = elim (Bool-cases (contains s scopes)) [
  | inl e ↦ (s, inl refl, e)
  | inr e ↦ let (t, m, k) = has_any-Among scopes l (rw e at h) in (t, inr m, k)
]

Among-has_any :
    (scopes need : List String) (s : String)
    → Among s need
    → contains s scopes ≡ true
    → has_any scopes need ≡ true
unfolding has_any
Among-has_any scopes [] s m h = absurd m
Among-has_any scopes (t ∷ l) s (inl e) h = rw (ap (λ x. contains x scopes) (sym e) ∙ h) refl
Among-has_any scopes (t ∷ l) s (inr m) h = ground (arith, Among-has_any scopes l s m h)

-- Scopes pass the test of a route exactly if they hold the wildcard, or all the scopes that the
-- route needs where it asks for all, or else one of them, or the route needs none.
pub allowed_iff :
    (scopes need : List String) (all : Bool)
    → (allowed scopes need all ≡ true) ↔ Granted scopes need all
unfolding allowed
allowed_iff scopes [] true = (λ h. inr tt, λ h. ground arith)
allowed_iff scopes [] false = (λ h. inr (inl refl), λ h. ground arith)
allowed_iff scopes (x ∷ l) true =
    let (f, g) = has_all-All scopes (x ∷ l) in
    elim (Bool-cases (contains "*" scopes)) [
      | inl e ↦ (λ h. inl e, λ h. rw e refl)
      | inr e ↦ (
        λ h. inr (f (rw e at h)),
        λ h. elim h [ inl k ↦ absurd (cc (k, e)) | inr a ↦ rw e (g a) ],
      )
    ]
allowed_iff scopes (x ∷ l) false = elim (Bool-cases (contains "*" scopes)) [
  | inl e ↦ (λ h. inl e, λ h. rw e refl)
  | inr e ↦ (
    λ h. inr (inr (has_any-Among scopes (x ∷ l) (rw e at h))),
    λ h. elim h [
      | inl k ↦ absurd (cc (k, e))
      | inr k ↦ elim k [
        | inl n ↦ absurd (cc n)
        | inr (s, m, a) ↦ rw e (Among-has_any scopes (x ∷ l) s m a)
      ]
    ],
  )
]

route-Best :
    (lib : Library) (r : Request) (s : RbacMapState) (res : Option Route)
    → route_match lib s.routes r.path r.method ≡ res
    → Best lib r.path (lib.upper r.method) s.routes none res
unfolding route_match
route-Best lib r s res e =
    subst (Best lib r.path (lib.upper r.method) s.routes none) e
      (best_route-Best lib r.path (lib.upper r.method) s.routes none)

started :
    {P : Type 0} (m : Route) (l : List Route) → (none ≡ some m) ⊎ (Among m l × P) → Among m l × P
started m l (inl e) = cc
started m l (inr p) = p

-- With denial as the default, a request that no prefix lets through goes on to the application only
-- by a route of the map that fits its path and method, that has the longest pattern of those, and
-- whose scopes the request holds; and it is told that there is no route exactly if none fits.
pub judge_route_lem :
    (lib : Library) (c : Settings) (r : Request) (s : RbacMapState)
    → (judge_route lib c true r s ≡ forwarded
        → (m : Route) × Among m s.routes
          × (fits lib r.path (lib.upper r.method) m ≡ true)
          × Longest lib r.path (lib.upper r.method) s.routes m
          × Granted (parse_scopes lib c r) (needs m) s.require_all)
      × ((judge_route lib c true r s ≡ no_route_match)
          ↔ All (λ b. fits lib r.path (lib.upper r.method) b ≡ false) s.routes)
unfolding judge_route route_match
judge_route_lem lib c r s = elim (Option-cases (route_match lib s.routes r.path r.method)) [
  | inl e ↦ (λ h. absurd (ground arith), (λ h. (route-Best lib r s none e).1, λ h. ground arith))
  | inr (m, e) ↦
      let (found, long, first) = route-Best lib r s (some m) e in
      let (among, fit) = started m s.routes found in
      (
        λ h. (
          m,
          among,
          fit,
          long,
          (allowed_iff (parse_scopes lib c r) (needs m) s.require_all).0 (ground arith),
        ),
        (λ h. absurd (ground arith), λ h. absurd (cc (All-Among _ m s.routes h among, fit))),
      )
]

contains_left : (k : String) (a b : List String) → contains k a ≡ true → contains k (a ++ b) ≡ true
contains_left k [] b h = cc
contains_left k (x ∷ a) b h = ground (arith, contains_left k a b)

contains_right : (k : String) (a b : List String) → contains k b ≡ true → contains k (a ++ b) ≡ true
contains_right k [] b h = h
contains_right k (x ∷ a) b h = ground (arith, contains_right k a b h)

star_stripped : (text : String) → text ≡ "*" → contains "*" (stripped (split b',' text)) ≡ true
unfolding stripped split strip lstrip rstrip
star_stripped text e = rw e refl

legacy_wildcard :
    (lib : Library) (c : Settings) (r : Request)
    → r.decisionos_scopes ≡ "*"
    → contains "*" (parse_scopes lib c r) ≡ true
unfolding parse_scopes
legacy_wildcard lib c r e =
    let given = stripped (split b',' r.decisionos_scopes) in
    let test = if is_test_mode_enabled lib c then stripped (split b',' r.x_scopes) else [] in
    rw
      (contains_left "*" (r.state_scopes ++ given) test
        (contains_right "*" r.state_scopes given (star_stripped r.decisionos_scopes e)))
      refl

star_allowed :
    (lib : Library) (c : Settings) (r : Request) (need : List String) (all : Bool)
    → contains "*" (parse_scopes lib c r) ≡ true
    → allowed (parse_scopes lib c r) need all ≡ true
unfolding allowed
star_allowed lib c r need all h = ground arith

wildcard_alone :
    (lib : Library) (c : Settings) (r : Request)
    → contains "*" (parse_scopes lib c r) ≡ true
    → parse_scopes lib c r ≡ "*" ∷ []
unfolding parse_scopes
wildcard_alone lib c r h = ground arith

-- The header X-DecisionOS-Scopes is believed in every environment: a request that carries the
-- wildcard in it passes any route that fits, also in production.
pub legacy_header_grants :
    (lib : Library) (c : Settings) (r : Request) (s : RbacMapState) (m : Route)
    → r.decisionos_scopes ≡ "*"
    → route_match lib s.routes r.path r.method ≡ some m
    → judge_route lib c true r s ≡ forwarded
unfolding judge_route
legacy_header_grants lib c r s m e h =
    ground (arith, star_allowed lib c r (needs m) s.require_all (legacy_wildcard lib c r e))

star_any : (l : List String) → contains "*" l ≡ false → has_any ("*" ∷ []) l ≡ false
unfolding has_any
star_any [] h = refl
star_any (x ∷ l) h = ground (arith, star_any l, eq_iff x "*", eq_iff "*" x)

star_all : (l : List String) → contains "*" l ≡ false → l ≢ [] → has_all ("*" ∷ []) l ≡ false
unfolding has_all
star_all [] h n = absurd (n refl)
star_all (x ∷ l) h n = ground (arith, eq_iff x "*", eq_iff "*" x)

-- The wildcard, which passes every route of the map, is no scope for `require_scopes`: a caller that
-- holds it is refused wherever the wildcard itself is not among the scopes that are required.
pub require_scopes_wildcard :
    (lib : Library) (c : Settings) (r : Request) (required : List String)
    → contains "*" (parse_scopes lib c r) ≡ true
    → contains "*" required ≡ false
    → (require_scopes lib c required false r ≡ false)
      × (required ≢ [] → require_scopes lib c required true r ≡ false)
      × (allowed (parse_scopes lib c r) required true ≡ true)
unfolding require_scopes
require_scopes_wildcard lib c r required h e =
    let alone = wildcard_alone lib c r h in
    (
      rw alone (star_any required e),
      (λ n. rw alone (star_all required e n)),
      star_allowed lib c r required true h,
    )
