-- ===== src/Judge/Server.antt =====
-- apps/judge/server.py: the handler of POST /judge. The state is that of the key loader and of the
-- replay store; a request carries the clock readings that its handling meets, in microseconds.
pub mod Effect
pub mod Once
pub mod Unsigned
pub mod Evaluated
use decisionos.Common.{
  ℕ, ◌+◌, ◌-◌, ◌*◌, ◌/◌, ◌≤◌, String, Bool, true, false, not, ◌&&◌, ◌||◌, Option, none, some, leb,
  truthy, if◌then◌else◌,
}
use decisionos.Common.Int.{ℤ, pos, negsuc, pos_part, neg_part, ltb_ℤ, distance}
use decisionos.Judge.Keys.{Stdlib}
use decisionos.Judge.Keys.Loader.{Loader, World}
use decisionos.Judge.Keys.Verify.{Outcome, valid, signature_invalid, crashed, verify_signature_safe}
use decisionos.Judge.NonceStore.{NonceStore, window_sec}
use decisionos.Policy.Pep.{require}

-- `ts_epoch` is the timestamp header: missing, no number, or the whole seconds that it holds.
pub record Request (Payload : Type 0) : Type 0 where
  pub payload : Option Payload
  pub key_id : Option String
  pub signature : Option String
  pub nonce : Option String
  pub ts_epoch : Option (Option ℤ)

-- What a request meets: the key sources, the store's surroundings, the clock at the test of the
-- skew and at the call of the store, and DECISIONOS_ALLOW_SCOPES.
pub record Ambient (Env : Type 0) : Type 0 where
  pub world : World
  pub env : Env
  pub skew_at : ℕ
  pub store_at : ℕ
  pub scopes : String

-- The answer: an HTTP error with its detail, an uncaught exception (500), or a judgement.
pub data Response (Judgement : Type 0) : Type 0 where
  rejected : ℕ → String → Response Judgement
  failed : Response Judgement
  judged : Judgement → Response Judgement

-- `datetime.fromtimestamp` takes the years 1 to 9999.
abbrev pub datetime_range : ℤ → Bool
datetime_range t = not (ltb_ℤ t (negsuc 62135596799)) && not (ltb_ℤ (pos 253402300799) t)

-- `within_clock_skew`, with the difference in microseconds
unfoldable pub within_clock_skew : ℕ → ℤ → ℕ → Bool
within_clock_skew now ts skew =
    leb (now + neg_part ts * 1000000 - pos_part ts * 1000000) (skew * 1000000)
    && leb (pos_part ts * 1000000 - (now + neg_part ts * 1000000)) (skew * 1000000)

abbrev key_or_default : Option String → String
key_or_default none = "k1"
key_or_default (some k) = k

pub record Server (S : Type 0) : Type 0 where
  pub keys : Loader
  pub store : S

-- What `slo_judge.evaluate` gives for the evidence and the SLO of a payload, `none` if it raises, where
-- both are JSON objects; and otherwise whether the payload is an object at all.
pub data Parts (Judgement : Type 0) : Type 0 where
  no_object malformed : Parts Judgement
  both : Option Judgement → Parts Judgement

module _ {Payload Env S Judgement : Type 0} (std : Stdlib Payload) (nonces : NonceStore Env S)
    (parts : Payload → Parts Judgement) where
  -- after the replay check
  unfoldable pub judge : Ambient Env → Payload → Response Judgement
  judge a payload = elim (parts payload) [
    | no_object ↦ failed
    | malformed ↦ rejected 400 "invalid payload structure"
    | both result ↦ elim (require a.scopes "judge:run") [
      | none ↦ elim result [ none ↦ failed | some j ↦ judged j ]
      | some denial ↦ rejected 403 "rbac denied"
    ]
  ]

  -- after the signature check
  unfoldable pub admit :
      Ambient Env → Payload → String → String → ℤ → Server S → Response Judgement × Server S
  unfolding within_clock_skew judge
  admit a payload key_id nonce ts s =
      if within_clock_skew a.skew_at ts window_sec
      then (let (replayed, store') =
            nonces.seen a.env key_id nonce ts (a.store_at / 1000000) s.store in
          (
            if replayed then rejected 401 "replay detected" else judge a payload,
            record s { store = store' },
          ))
      else (rejected 401 "timestamp skew exceeded", s)

  unfoldable pub verify :
      Ambient Env
      → Payload
      → String
      → String
      → String
      → ℤ
      → Server S
      → Response Judgement × Server S
  unfolding admit
  verify a payload signature key_id nonce ts s =
      let (outcome, keys') =
        verify_signature_safe std a.world payload signature key_id true s.keys in
      elim outcome [
        | valid ↦ admit a payload key_id nonce ts (record s { keys = keys' })
        | signature_invalid ↦ (rejected 401 "invalid signature", record s { keys = keys' })
        | crashed ↦ (failed, record s { keys = keys' })
      ]

  unfoldable pub timed :
      Ambient Env
      → Payload
      → String
      → String
      → String
      → Option ℤ
      → Server S
      → Response Judgement × Server S
  unfolding verify
  timed a payload signature key_id nonce none s = (rejected 400 "invalid timestamp header", s)
  timed a payload signature key_id nonce (some ts) s =
      if datetime_range ts then verify a payload signature key_id nonce ts s else (failed, s)

  -- `not signature or nonce is None or ts_raw is None`, then the timestamp
  unfoldable pub headers :
      Ambient Env → Payload → Request Payload → Server S → Response Judgement × Server S
  unfolding timed
  headers a payload r s = elim r.signature [
    | none ↦ (rejected 400 "missing signature headers", s)
    | some signature ↦ elim r.nonce [
      | none ↦ (rejected 400 "missing signature headers", s)
      | some nonce ↦ elim r.ts_epoch [
        | none ↦ (rejected 400 "missing signature headers", s)
        | some raw ↦
            if truthy r.signature
            then timed a payload signature (key_or_default r.key_id) nonce raw s
            else (rejected 400 "missing signature headers", s)
      ]
    ]
  ]

  unfoldable pub post_judge :
      Ambient Env → Request Payload → Server S → Response Judgement × Server S
  unfolding headers
  post_judge a r s = elim r.payload [
    | none ↦ (rejected 400 "invalid json", s)
    | some payload ↦ headers a payload r s
  ]
