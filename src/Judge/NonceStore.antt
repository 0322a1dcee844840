-- ===== src/Judge/NonceStore.antt =====
-- What the judge server relies on of a replay store (`ReplayStoreABC` of
-- apps/judge/replay_plugins.py), and that the SQLite and the Redis store have it.
use decisionos.Common.{ℕ, ◌+◌, String, ◌≡◌, Bool, true, false}
use decisionos.Common.Int.{ℤ, pos, ◌≤ℤ◌, ◌+ℤ◌, int_laws}
use decisionos.Judge.Replay.{NonceLog, seen_or_insert, ttl_sec}
use decisionos.Judge.Replay.Window.{
  live, live-recorded, live-seen_or_insert, live-accepted, refused_recorded,
}
use decisionos.Judge.Redis
use decisionos.Judge.Redis.{
  RedisLog, covers, covers-accepted, covers-seen_or_insert, refused_covered,
}

-- Seconds by which a request's timestamp may differ from the clock (`within_clock_skew`).
abbrev pub window_sec : ℕ
window_sec = 90

-- Seconds past its timestamp for which a nonce is to be remembered: the window, and five minutes
-- that a request may take between the test of its timestamp and the call of the store.
abbrev pub hold_sec : ℕ
hold_sec = 390

-- `Env` is what a call meets outside the process, `S` the contents of the store.
pub record NonceStore (Env S : Type 0) : Type 1 where
  pub seen : Env → String → String → ℤ → ℕ → S → Bool × S
  pub Remembers : String → String → ℤ → S → Type 0
  pub remembers_new :
      (e : Env) (k n : String) (t : ℤ) (now : ℕ) (s : S)
      → (seen e k n t now s).0 ≡ false
      → t ≤ℤ pos (now + window_sec)
      → pos now ≤ℤ t +ℤ pos hold_sec
      → Remembers k n t (seen e k n t now s).1
  pub remembers_kept :
      (e : Env) (k n k' n' : String) (t t' : ℤ) (now : ℕ) (s : S)
      → Remembers k n t s
      → pos now ≤ℤ t +ℤ pos hold_sec
      → Remembers k n t (seen e k' n' t' now s).1
  pub refuses :
      (e : Env) (k n : String) (t t' : ℤ) (now : ℕ) (s : S)
      → Remembers k n t s
      → pos now ≤ℤ t +ℤ pos hold_sec
      → (seen e k n t' now s).0 ≡ true

pub within_ttl : (t : ℤ) (now : ℕ) → pos now ≤ℤ t +ℤ pos hold_sec → pos now ≤ℤ t +ℤ pos ttl_sec
within_ttl t now h = omega int_laws

-- The SQLite store keeps what the server relies on.
abbrev pub sqlite : NonceStore (Unit {0}) NonceLog
sqlite = record {
  seen = λ e. seen_or_insert;
  Remembers = λ k n t s. live k n t s ≡ true;
  remembers_new = λ e k n t now s h early late. live-accepted k n t now s h (within_ttl t now late);
  remembers_kept = λ e k n k' n' t t' now s h late.
      live-seen_or_insert k n t (record { key_id = k'; nonce = n'; ts = t'; now = now }) s h
        (within_ttl t now late);
  refuses = λ e k n t t' now s h late. refused_recorded k n t' now s (live-recorded k n t s h);
}

-- The Redis store keeps it too, whether or not the server can be reached.
abbrev pub redis : NonceStore Bool RedisLog
redis = record {
  seen = Redis.seen_or_insert;
  Remembers = λ k n t s. covers k n (t +ℤ pos hold_sec) s ≡ true;
  remembers_new = λ e k n t now s h early late. covers-accepted e k n t now s h early;
  remembers_kept = λ e k n k' n' t t' now s h late.
      covers-seen_or_insert e k n k' n' (t +ℤ pos hold_sec) t' now s h late;
  refuses = λ e k n t t' now s h late. refused_covered e k n (t +ℤ pos hold_sec) t' now s h late;
}
