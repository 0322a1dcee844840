-- ===== src/Judge/Replay.antt =====
-- apps/judge/replay_plugins.py: the SQLite replay store. The table `nonce_log` is a list of rows,
-- whose primary key is (key_id, nonce); clock readings and header timestamps are whole seconds.
pub mod Window
use decisionos.Common.{
  ℕ, ◌+◌, String, Bool, true, false, ◌&&◌, List, [], ◌∷◌, ltb, str_eq, if◌then◌else◌,
}
use decisionos.Common.Int.{ℤ, pos, ◌-ℤ◌, ltb_ℤ, distance}

abbrev pub ttl_sec : ℕ
ttl_sec = 600

abbrev pub skew_sec : ℕ
skew_sec = 120

pub record Row : Type 0 where
  pub key_id : String
  pub nonce : String
  pub ts : ℤ

abbrev pub NonceLog : Type 0
NonceLog = List Row

-- Whether a row has this primary key, so that an `INSERT` raises `IntegrityError`.
unfoldable pub recorded : String → String → NonceLog → Bool
recorded k n [] = false
recorded k n (r ∷ s) = if str_eq r.key_id k && str_eq r.nonce n then true else recorded k n s

-- `? - ts > ?` with the clock reading and `TTL_SEC`.
unfoldable pub expired : ℕ → Row → Bool
unfolding ◌-ℤ◌
expired now r = ltb_ℤ (pos ttl_sec) (pos now -ℤ r.ts)

-- `DELETE FROM nonce_log WHERE ? - ts > ?`
unfoldable pub purge : ℕ → NonceLog → NonceLog
purge now [] = []
purge now (r ∷ s) = let rest = purge now s in if expired now r then rest else r ∷ rest

-- `true` is a replay or an invalid time, which the caller refuses.
unfoldable pub seen_or_insert : String → String → ℤ → ℕ → NonceLog → Bool × NonceLog
seen_or_insert k n ts now s =
    if ltb (skew_sec + ttl_sec) (distance (pos now) ts)
    then (true, s)
    else if recorded k n s
    then (true, s)
    else (false, purge now (record { key_id = k; nonce = n; ts = ts } ∷ s))
