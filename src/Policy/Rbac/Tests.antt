-- ===== src/Policy/Rbac/Tests.antt =====
-- The theorems on apps/policy/rbac_enforce.py at concrete inputs.

use decisionos.Common.{◌≡◌, refl, String, true, false, some, List, [], ◌∷◌, Among, str_eq}
use decisionos.Common.Text.{split, strip, lstrip, rstrip}
use decisionos.Policy.Pep.{stripped}
use decisionos.Policy.Rbac.{
  Library, Route, needs, fits, allowed, Settings, Request, is_test_mode_enabled, parse_scopes,
  RbacMapState, World, ensure_fresh, bypassed, judge_route, dispatch, route_match, best_route,
  has_any,
}
use decisionos.Policy.Rbac.Matching.{Longest}
use decisionos.Policy.Rbac.Access.{Granted}
use decisionos.Policy.Rbac.Fresh.{dispatch_forwarded}

-- A library whose patterns match literally.
abbrev lib : Library
lib = record { fnmatch = λ path p. str_eq path p; upper = λ s. s; lower = λ s. s }

abbrev route : Route
route = record { path = some "/ops"; method = some "GET"; scopes = some ("ops:read" ∷ []) }

abbrev prod : Settings
prod = record { env = "prod"; test_mode = "0"; bypass = "/healthz" ∷ [] }

abbrev state : RbacMapState
state = record {
  reload_sec = 2;
  require_all = false;
  routes = route ∷ [];
  sha = "a";
  next_check_ts = 100;
}

abbrev request : Request
request = record {
  path = "/ops";
  method = "GET";
  state_scopes = "ops:read" ∷ [];
  decisionos_scopes = "";
  x_scopes = "";
}

abbrev wild : Request
wild = record request { state_scopes = []; decisionos_scopes = "*" }

abbrev world : World
world = record { now = 50; done = 51; sha = "b"; loaded = some [] }

abbrev required : List String
required = "ops:read" ∷ []

dispatch_forwarded_example :
    let s' = (ensure_fresh world state).1 in
    ((ensure_fresh world state).0 ≡ false)
    × ((m : Route) × Among m s'.routes
        × (fits lib "/ops" "GET" m ≡ true)
        × Longest lib "/ops" "GET" s'.routes m
        × Granted (parse_scopes lib prod request) (needs m) s'.require_all)
unfolding dispatch bypassed ensure_fresh judge_route route_match best_route fits allowed has_any
    parse_scopes stripped split strip lstrip rstrip is_test_mode_enabled
dispatch_forwarded_example = dispatch_forwarded lib prod world request state refl refl
