-- ===== src/Judge/Replay/Window.antt =====
-- How long the replay store of apps/judge/replay_plugins.py remembers a nonce.
use decisionos.Common.{
  ℕ, ◌+◌, ◌≤◌, String, ◌≡◌, Bool, true, false, ◌&&◌, List, [], ◌∷◌, arith, All, ltb, eq_iff,
  Bool-cases, inl, inr, str_eq, if◌then◌else◌,
}
use decisionos.Common.Int.{ℤ, pos, ◌≤ℤ◌, ◌+ℤ◌, eqb_ℤ, distance}
use decisionos.Judge.Replay.{NonceLog, ttl_sec, skew_sec, recorded, expired, purge, seen_or_insert}

-- A row with this key and this timestamp is in the table.
unfoldable pub live : String → String → ℤ → NonceLog → Bool
live k n t [] = false
live k n t (r ∷ s) =
    if str_eq r.key_id k && str_eq r.nonce n && eqb_ℤ r.ts t then true else live k n t s

pub live-recorded :
    (k n : String) (t : ℤ) (s : NonceLog) → live k n t s ≡ true → recorded k n s ≡ true
unfolding live recorded
live-recorded k n t [] h = ground arith
live-recorded k n t (r ∷ s) h = ground (arith, live-recorded k n t s)

live-purge :
    (k n : String) (t : ℤ) (now : ℕ) (s : NonceLog)
    → live k n t s ≡ true
    → pos now ≤ℤ t +ℤ pos ttl_sec
    → live k n t (purge now s) ≡ true
unfolding live purge expired ◌+ℤ◌
live-purge k n t now [] h p = h
live-purge k n t now (r ∷ s) h p = ground (arith, live-purge k n t now s)

pub record Call : Type 0 where
  pub key_id : String
  pub nonce : String
  pub ts : ℤ
  pub now : ℕ

abbrev pub after : List Call → NonceLog → NonceLog
after [] s = s
after (c ∷ cs) s = after cs (seen_or_insert c.key_id c.nonce c.ts c.now s).1

pub live-seen_or_insert :
    (k n : String) (t : ℤ) (c : Call) (s : NonceLog)
    → live k n t s ≡ true
    → pos c.now ≤ℤ t +ℤ pos ttl_sec
    → live k n t (seen_or_insert c.key_id c.nonce c.ts c.now s).1 ≡ true
unfolding seen_or_insert live
live-seen_or_insert k n t c s h p =
    ground
      (arith, live-purge k n t c.now (record { key_id = c.key_id; nonce = c.nonce; ts = c.ts } ∷ s))

live-after :
    (k n : String) (t : ℤ) (cs : List Call) (s : NonceLog)
    → live k n t s ≡ true
    → All (λ c. pos c.now ≤ℤ t +ℤ pos ttl_sec) cs
    → live k n t (after cs s) ≡ true
live-after k n t [] s h p = h
live-after k n t (c ∷ cs) s h p =
    live-after k n t cs (seen_or_insert c.key_id c.nonce c.ts c.now s).1
      (live-seen_or_insert k n t c s h p.0) p.1

pub live-accepted :
    (k n : String) (t : ℤ) (now : ℕ) (s : NonceLog)
    → (seen_or_insert k n t now s).0 ≡ false
    → pos now ≤ℤ t +ℤ pos ttl_sec
    → live k n t (seen_or_insert k n t now s).1 ≡ true
unfolding seen_or_insert live
live-accepted k n t now s h p = ground (
  arith,
  live-purge k n t now (record { key_id = k; nonce = n; ts = t } ∷ s),
  eq_iff k k,
  eq_iff n n,
)

pub refused_recorded :
    (k n : String) (t : ℤ) (now : ℕ) (s : NonceLog)
    → recorded k n s ≡ true
    → (seen_or_insert k n t now s).0 ≡ true
unfolding seen_or_insert
refused_recorded k n t now s h = ground arith

-- Once a nonce is accepted with a timestamp that is at most 600 s old, the store refuses the nonce
-- for that key, with any timestamp, after any further calls that come within 600 s of the timestamp.
pub replay_refused_within_ttl :
    (k n : String) (t t' : ℤ) (now now' : ℕ) (cs : List Call) (s : NonceLog)
    → (seen_or_insert k n t now s).0 ≡ false
    → pos now ≤ℤ t +ℤ pos ttl_sec
    → All (λ c. pos c.now ≤ℤ t +ℤ pos ttl_sec) cs
    → (seen_or_insert k n t' now' (after cs (seen_or_insert k n t now s).1)).0 ≡ true
replay_refused_within_ttl k n t t' now now' cs s h p q =
    refused_recorded k n t' now' (after cs (seen_or_insert k n t now s).1) (
      live-recorded k n t _
        (live-after k n t cs (seen_or_insert k n t now s).1 (live-accepted k n t now s h p) q))

recorded-purge :
    (k n : String) (now : ℕ) (s : NonceLog)
    → recorded k n s ≡ false
    → recorded k n (purge now s) ≡ false
unfolding recorded purge
recorded-purge k n now [] h = h
recorded-purge k n now (r ∷ s) h = ground (arith, recorded-purge k n now s)

-- A timestamp that is between 600 s and 720 s old is accepted, and its row is deleted at once, so
-- that the very same request is accepted again for as long as the timestamp is at most 720 s old.
pub stale_accepted_twice :
    (k n : String) (t : ℤ) (now now' : ℕ) (s : NonceLog)
    → recorded k n s ≡ false
    → ¬ (pos now ≤ℤ t +ℤ pos ttl_sec)
    → now ≤ now'
    → pos now' ≤ℤ t +ℤ pos (skew_sec + ttl_sec)
    → ((seen_or_insert k n t now s).0 ≡ false)
      × ((seen_or_insert k n t now' (seen_or_insert k n t now s).1).0 ≡ false)
unfolding seen_or_insert purge expired ◌+ℤ◌
stale_accepted_twice k n t now now' s new old later fresh =
    (ground arith, ground (arith, recorded-purge k n now s))

-- The rows have distinct primary keys.
abbrev pub HasKeys : NonceLog → Type 0
HasKeys [] = Unit
HasKeys (r ∷ s) = (recorded r.key_id r.nonce s ≡ false) × HasKeys s

purge-HasKeys : (now : ℕ) (s : NonceLog) → HasKeys s → HasKeys (purge now s)
unfolding purge
purge-HasKeys now [] h = h
purge-HasKeys now (r ∷ s) h =
    ground (arith, purge-HasKeys now s h.1, recorded-purge r.key_id r.nonce now s h.0)

purge-All : (now : ℕ) (s : NonceLog) → All (λ r. expired now r ≡ false) (purge now s)
unfolding purge
purge-All now [] = tt
purge-All now (r ∷ s) = ground (arith, purge-All now s)

-- Every call keeps the primary keys distinct, and after an accepted call no row is expired.
pub seen_or_insert-HasKeys :
    (k n : String) (t : ℤ) (now : ℕ) (s : NonceLog)
    → HasKeys s
    → HasKeys (seen_or_insert k n t now s).1
      × ((seen_or_insert k n t now s).0 ≡ false
          → All (λ r. expired now r ≡ false) (seen_or_insert k n t now s).1)
unfolding seen_or_insert
seen_or_insert-HasKeys k n t now s h =
    elim (Bool-cases (ltb (skew_sec + ttl_sec) (distance (pos now) t))) [
      | inl far ↦ rw far (h, λ e. cc)
      | inr near ↦ elim (Bool-cases (recorded k n s)) [
        | inl old ↦ rw (near, old) (h, λ e. cc)
        | inr new ↦ rw (near, new) (purge-HasKeys now _ (new, h), λ e. purge-All now _)
      ]
    ]
