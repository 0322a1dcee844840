-- ===== src/Policy/Rbac.antt =====
-- apps/policy/rbac_enforce.py: the map from routes to scopes, and the middleware that enforces it.
-- Sets of scopes are lists, metrics and logs are left out.
mod Tests
pub mod Access
pub mod Matching
pub mod Fresh
use Prim.Native.String.{count}
use text.Mathlib.Text.{starts_with}
use decisionos.Common.{
  ℕ, ◌+◌, String, Bool, true, false, not, ◌&&◌, ◌||◌, Option, none, some, List, [], ◌∷◌, ◌++◌, ltb,
  str_eq, contains, if◌then◌else◌,
}
use decisionos.Common.Text.{strip, split}
use decisionos.Policy.Pep.{stripped}

-- `fnmatch.fnmatch(path, pattern)`, `str.upper` and `str.lower`.
pub record Library : Type 0 where
  pub fnmatch : String → String → Bool
  pub upper : String → String
  pub lower : String → String

-- A route of the map: a key that is not there is `none`. No route is without any key.
pub record Route : Type 0 where
  pub path : Option String
  pub method : Option String
  pub scopes : Option (List String)

abbrev pub pattern : Route → String
pattern r = elim r.path [ none ↦ "" | some p ↦ p ]

abbrev method_of : Route → String
method_of r = elim r.method [ none ↦ "*" | some m ↦ if str_eq m "" then "*" else m ]

abbrev pub needs : Route → List String
needs r = elim r.scopes [ none ↦ [] | some l ↦ l ]

-- The test of the loop of `_route_match`, on a method in upper case.
unfoldable pub fits : Library → String → String → Route → Bool
fits lib path method r =
    lib.fnmatch path (pattern r)
    && (str_eq (lib.upper (method_of r)) "*" || str_eq (lib.upper (method_of r)) method)

abbrev pub longer : Route → Option Route → Bool
longer r none = true
longer r (some best) = ltb (count (pattern best)) (count (pattern r))

-- The loop of `_route_match`, with the best route so far.
unfoldable pub best_route : Library → String → String → List Route → Option Route → Option Route
best_route lib path method [] best = best
best_route lib path method (r ∷ l) best =
    best_route lib path method l (if fits lib path method r && longer r best then some r else best)

unfoldable pub route_match : Library → List Route → String → String → Option Route
unfolding best_route
route_match lib routes path method = best_route lib path (lib.upper method) routes none

unfoldable pub has_all : List String → List String → Bool
has_all scopes [] = true
has_all scopes (s ∷ l) = let rest = has_all scopes l in if contains s scopes then rest else false

unfoldable pub has_any : List String → List String → Bool
has_any scopes [] = false
has_any scopes (s ∷ l) = let rest = has_any scopes l in if contains s scopes then true else rest

abbrev is_empty : List String → Bool
is_empty [] = true
is_empty (s ∷ l) = false

-- `_allowed`
unfoldable pub allowed : List String → List String → Bool → Bool
allowed req_scopes need require_all =
    if contains "*" req_scopes
    then true
    else if is_empty need
    then true
    else if require_all
    then has_all req_scopes need
    else has_any req_scopes need

-- The settings of the process: DECISIONOS_ENV, DECISIONOS_RBAC_TEST_MODE, and the prefixes of the
-- paths that are let through.
pub record Settings : Type 0 where
  pub env : String
  pub test_mode : String
  pub bypass : List String

-- `_is_test_mode_enabled`
unfoldable pub is_test_mode_enabled : Library → Settings → Bool
is_test_mode_enabled lib c =
    let raw_val = lib.lower (strip c.test_mode) in
    if str_eq (lib.lower c.env) "prod"
    then false
    else str_eq raw_val "1" || str_eq raw_val "true" || str_eq raw_val "yes"

-- What a request shows: `req.state.scopes` and the headers that carry scopes, empty if not there.
pub record Request : Type 0 where
  pub path : String
  pub method : String
  pub state_scopes : List String
  pub decisionos_scopes : String
  pub x_scopes : String

-- `_parse_scopes`
unfoldable pub parse_scopes : Library → Settings → Request → List String
parse_scopes lib c r =
    let from_ctx = r.state_scopes ++ stripped (split b',' r.decisionos_scopes) in
    let from_headers =
      if is_test_mode_enabled lib c then stripped (split b',' r.x_scopes) else [] in
    let scopes = from_ctx ++ from_headers in if contains "*" scopes then "*" ∷ [] else scopes

pub record RbacMapState : Type 0 where
  pub reload_sec : ℕ
  pub require_all : Bool
  pub routes : List Route
  pub sha : String
  pub next_check_ts : ℕ

-- The map's file: its hash, empty if it is not there, and its routes, `none` if loading it raises;
-- and the clock at the start and at the end of a check.
pub record World : Type 0 where
  pub now : ℕ
  pub done : ℕ
  pub sha : String
  pub loaded : Option (List Route)

abbrev checked : World → RbacMapState → RbacMapState
checked w s = record s { next_check_ts = w.done + s.reload_sec }

-- `ensure_fresh`: true if the call raised.
unfoldable pub ensure_fresh : World → RbacMapState → Bool × RbacMapState
ensure_fresh w s =
    if ltb w.now s.next_check_ts
    then (false, s)
    else if not (str_eq w.sha "") && not (str_eq w.sha s.sha)
    then elim w.loaded [
      | none ↦ (true, s)
      | some routes ↦ (false, checked w (record s { routes = routes; sha = w.sha }))
    ]
    else (false, checked w s)

-- What becomes of a request: 403 with its reason, an exception, or on to the application.
pub data Outcome : Type 0 where
  no_route_match missing_scope crashed forwarded : Outcome

unfoldable pub bypassed : List String → String → Bool
bypassed [] path = false
bypassed (p ∷ l) path = let rest = bypassed l path in if starts_with path p then true else rest

-- `dispatch` once the map is fresh
unfoldable pub judge_route : Library → Settings → Bool → Request → RbacMapState → Outcome
judge_route lib c default_deny r s = elim (route_match lib s.routes r.path r.method) [
  | none ↦ if default_deny then no_route_match else forwarded
  | some matched ↦
      if allowed (parse_scopes lib c r) (needs matched) s.require_all
      then forwarded
      else missing_scope
]

unfoldable pub dispatch :
    Library → Settings → Bool → World → Request → RbacMapState → Outcome × RbacMapState
unfolding judge_route
dispatch lib c default_deny w r s =
    if bypassed c.bypass r.path
    then (forwarded, s)
    else (let (raised, s') = ensure_fresh w s in
        (if raised then crashed else judge_route lib c default_deny r s', s'))

-- The dependency of `require_scopes`: false is a 403. `all` is whether the policy is AND.
unfoldable pub require_scopes : Library → Settings → List String → Bool → Request → Bool
require_scopes lib c required all r =
    let caller = parse_scopes lib c r in
    if all then has_all caller required else has_any caller required
