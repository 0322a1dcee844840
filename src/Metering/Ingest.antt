-- ===== src/Metering/Ingest.antt =====
-- apps/metering/schema.py, store.py and ingest.py: events, and each of them taken in once. Times are
-- whole seconds of UTC, and values whole numbers of the least unit that is metered.
pub mod Once
use Prim.Native.String.{◌++◌ as ◌<>◌}
use decisionos.Common.{
  ℕ, ◌+◌, String, Bool, true, false, List, [], ◌∷◌, ◌++◌, contains, if◌then◌else◌,
}

pub record MeterEvent : Type 0 where
  pub tenant : String
  pub metric : String
  pub corr_id : String
  pub ts : ℕ
  pub value : ℕ

-- The hex digest of `hashlib.sha256`, and `isoformat` of the start of an hour.
pub record Library : Type 0 where
  pub sha256 : String → String
  pub isoformat : ℕ → String

unfoldable pub idempotency_key : Library → MeterEvent → String
idempotency_key lib ev = lib.sha256 (ev.tenant <> ("|" <> (ev.metric <> ("|" <> ev.corr_id))))

-- The keys of either store: the set in memory, or the table whose primary key they are.
abbrev pub IdempoStore : Type 0
IdempoStore = List String

abbrev pub seen : String → IdempoStore → Bool
seen key store = contains key store

unfoldable pub mark : String → IdempoStore → Bool × IdempoStore
mark key store = if contains key store then (false, store) else (true, key ∷ store)

unfoldable pub apply_event : Library → MeterEvent → IdempoStore → Bool × IdempoStore
unfolding mark
apply_event lib ev store =
    let k = idempotency_key lib ev in if seen k store then (false, store) else mark k store

-- The loop of `filter_idempotent_with`, with the events and the duplicates so far.
unfoldable pub filter_from :
    Library
    → List MeterEvent
    → List MeterEvent
    → ℕ
    → IdempoStore
    → (List MeterEvent × ℕ) × IdempoStore
filter_from lib [] acc dup store = ((acc, dup), store)
filter_from lib (ev ∷ events) acc dup store =
    let (taken, store') = apply_event lib ev store in
    filter_from lib events (if taken then acc ++ ev ∷ [] else acc) (if taken then dup else dup + 1)
      store'

unfoldable pub filter_idempotent_with :
    Library → IdempoStore → List MeterEvent → (List MeterEvent × ℕ) × IdempoStore
unfolding filter_from
filter_idempotent_with lib store events = filter_from lib events [] 0 store

unfoldable pub filter_idempotent : Library → List MeterEvent → List MeterEvent × ℕ
unfolding filter_idempotent_with
filter_idempotent lib events = (filter_idempotent_with lib [] events).0
