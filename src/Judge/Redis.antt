-- ===== src/Judge/Redis.antt =====
-- apps/judge/replay_plugins.py: the Redis replay store. A key that was set with `ex` is there until
-- the server's clock reaches its expiry; the server's clock is the caller's.
use Prim.Native.String.{◌++◌}
use decisionos.Common.{
  ℕ, ◌+◌, ◌≤◌, String, ◌≡◌, Bool, true, false, ◌&&◌, List, [], ◌∷◌, arith, ltb, str_eq, eq_iff,
  if◌then◌else◌,
}
use decisionos.Common.Int.{ℤ, pos, ◌≤ℤ◌, ◌+ℤ◌, ltb_ℤ, distance}
use decisionos.Judge.Replay.{ttl_sec, skew_sec}

-- A key and the second at which it is gone.
pub record Key : Type 0 where
  pub name : String
  pub expires : ℕ

abbrev pub RedisLog : Type 0
RedisLog = List Key

-- `f"judge:nonce:{key_id}:{nonce}"`
abbrev pub nonce_key : String → String → String
nonce_key key_id nonce = "judge:nonce:" ++ (key_id ++ (":" ++ nonce))

present : String → ℕ → RedisLog → Bool
present name now [] = false
present name now (k ∷ s) =
    if str_eq k.name name && ltb now k.expires then true else present name now s

-- `reachable` is whether the server answers; `SET key ts NX EX TTL_SEC` sets a key that is not there.
unfoldable pub seen_or_insert : Bool → String → String → ℤ → ℕ → RedisLog → Bool × RedisLog
unfolding present
seen_or_insert reachable k n ts now s =
    if ltb (skew_sec + ttl_sec) (distance (pos now) ts)
    then (true, s)
    else if reachable
    then (if present (nonce_key k n) now s
        then (true, s)
        else (false, record { name = nonce_key k n; expires = now + ttl_sec } ∷ s))
    else (true, s)

-- The key of this nonce is there past the given second.
unfoldable pub covers : String → String → ℤ → RedisLog → Bool
covers k n until [] = false
covers k n until (r ∷ s) =
    if str_eq r.name (nonce_key k n) && ltb_ℤ until (pos r.expires)
    then true
    else covers k n until s

pub covers-accepted :
    (e : Bool) (k n : String) (t : ℤ) (now : ℕ) (s : RedisLog)
    → (seen_or_insert e k n t now s).0 ≡ false
    → t ≤ℤ pos (now + 90)
    → covers k n (t +ℤ pos 390) (seen_or_insert e k n t now s).1 ≡ true
unfolding seen_or_insert covers ◌+ℤ◌
covers-accepted e k n t now s h early = ground (arith, eq_iff (nonce_key k n) (nonce_key k n))

pub covers-seen_or_insert :
    (e : Bool) (k n k' n' : String) (until t' : ℤ) (now : ℕ) (s : RedisLog)
    → covers k n until s ≡ true
    → pos now ≤ℤ until
    → covers k n until (seen_or_insert e k' n' t' now s).1 ≡ true
unfolding seen_or_insert covers
covers-seen_or_insert e k n k' n' until t' now s h late = ground arith

covers-present :
    (k n : String) (until : ℤ) (now : ℕ) (s : RedisLog)
    → covers k n until s ≡ true
    → pos now ≤ℤ until
    → present (nonce_key k n) now s ≡ true
unfolding present covers
covers-present k n until now [] h late = ground arith
covers-present k n until now (r ∷ s) h late = ground (arith, covers-present k n until now s)

pub refused_covered :
    (e : Bool) (k n : String) (until t' : ℤ) (now : ℕ) (s : RedisLog)
    → covers k n until s ≡ true
    → pos now ≤ℤ until
    → (seen_or_insert e k n t' now s).0 ≡ true
unfolding seen_or_insert
refused_covered e k n until t' now s h late = ground (arith, covers-present k n until now s h late)

-- The Redis store counts its 600 s from the request and not from the timestamp: a timestamp in the
-- future is accepted again once the key is gone, for as long as it is at most 720 s from the clock.
pub future_accepted_twice :
    (k n : String) (t : ℤ) (now now' : ℕ)
    → distance (pos now) t ≤ 720
    → now + ttl_sec ≤ now'
    → distance (pos now') t ≤ 720
    → ((seen_or_insert true k n t now []).0 ≡ false)
      × ((seen_or_insert true k n t now' (seen_or_insert true k n t now []).1).0 ≡ false)
unfolding seen_or_insert
future_accepted_twice k n t now now' near gone near' = (ground arith, ground arith)
