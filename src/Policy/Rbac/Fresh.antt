-- ===== src/Policy/Rbac/Fresh.antt =====
-- The middleware of apps/policy/rbac_enforce.py as a whole: the map that it judges by, and what it
-- lets through.

use decisionos.Common.{◌+◌, ◌≤◌, ◌<◌, ◌≡◌, ◌≢◌, true, false, some, arith, Among, eq_iff}
use decisionos.Policy.Rbac.{
  Library, Route, needs, fits, Settings, Request, parse_scopes, RbacMapState, World, ensure_fresh,
  forwarded, bypassed, judge_route, dispatch,
}
use decisionos.Policy.Rbac.Matching.{Longest}
use decisionos.Policy.Rbac.Access.{Granted, judge_route_lem}

-- Before its next check is due the map is taken as it is. From then on, if the file is there and
-- loading it does not raise, the map's hash is the file's, its routes are the file's where the hash
-- has changed and the old ones where it has not, and the next check is due a reload interval later;
-- if loading raises, the map and the time of its check stay as they were.
pub ensure_fresh_lem :
    (w : World) (s : RbacMapState)
    → let (raised, s') = ensure_fresh w s in
      (w.now < s.next_check_ts → (raised ≡ false) × (s' ≡ s))
      × (raised ≡ true → s' ≡ s)
      × (s.next_check_ts ≤ w.now
          → w.sha ≢ ""
          → raised ≡ false
          → (s'.sha ≡ w.sha)
            × (w.sha ≢ s.sha → w.loaded ≡ some s'.routes)
            × (w.sha ≡ s.sha → s'.routes ≡ s.routes)
            × (s'.next_check_ts ≡ w.done + s.reload_sec))
unfolding ensure_fresh
ensure_fresh_lem w s = ground (arith, eq_iff w.sha "", eq_iff w.sha s.sha)

dispatch-judge_route :
    (lib : Library) (c : Settings) (w : World) (r : Request) (s : RbacMapState)
    → bypassed c.bypass r.path ≡ false
    → (dispatch lib c true w r s).0 ≡ forwarded
    → ((ensure_fresh w s).0 ≡ false) × (judge_route lib c true r (ensure_fresh w s).1 ≡ forwarded)
unfolding dispatch
dispatch-judge_route lib c w r s b h = ground arith

-- With denial as the default, a request whose path has no bypass prefix goes on to the application
-- only if the map could be kept fresh and has a route that fits the path and the method, whose
-- pattern is the longest of those, and whose scopes the request holds.
pub dispatch_forwarded :
    (lib : Library) (c : Settings) (w : World) (r : Request) (s : RbacMapState)
    → bypassed c.bypass r.path ≡ false
    → (dispatch lib c true w r s).0 ≡ forwarded
    → let s' = (ensure_fresh w s).1 in
      ((ensure_fresh w s).0 ≡ false)
      × ((m : Route) × Among m s'.routes
          × (fits lib r.path (lib.upper r.method) m ≡ true)
          × Longest lib r.path (lib.upper r.method) s'.routes m
          × Granted (parse_scopes lib c r) (needs m) s'.require_all)
dispatch_forwarded lib c w r s b h =
    let (fine, on) = dispatch-judge_route lib c w r s b h in
    (fine, (judge_route_lem lib c r (ensure_fresh w s).1).0 on)
