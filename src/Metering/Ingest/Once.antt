-- ===== src/Metering/Ingest/Once.antt =====
-- Each event of apps/metering/ingest.py is taken in once.
use decisionos.Common.{
  ℕ, ◌+◌, ◌≡◌, sym, String, true, false, List, [], ◌∷◌, ◌++◌, arith, All, contains, length,
  Bool-cases, inl, inr, if◌then◌else◌, eq_iff,
}
use mathlib.Core.Path.{subst}
use mathlib.Core.List.{append-nil, append_assoc}
use decisionos.Metering.Ingest.{
  MeterEvent, Library, idempotency_key, IdempoStore, mark, apply_event, filter_from,
  filter_idempotent_with,
}

module _ (lib : Library) where
  -- The events whose keys neither the store nor an earlier event has.
  abbrev pub firsts : List MeterEvent → IdempoStore → List MeterEvent
  firsts [] store = []
  firsts (ev ∷ l) store =
      let rest = firsts l (idempotency_key lib ev ∷ store) in
      if contains (idempotency_key lib ev) store then firsts l store else ev ∷ rest

  filter-firsts :
      (l acc : List MeterEvent) (dup : ℕ) (store : IdempoStore)
      → ((filter_from lib l acc dup store).0.0 ≡ acc ++ firsts l store)
        × (length (firsts l store) + (filter_from lib l acc dup store).0.1 ≡ dup + length l)
  unfolding filter_from apply_event mark
  filter-firsts [] acc dup store = ground (arith, append-nil acc)
  filter-firsts (ev ∷ l) acc dup store =
      elim (Bool-cases (contains (idempotency_key lib ev) store)) [
        | inl e ↦ ground (arith, filter-firsts l acc (dup + 1) store)
        | inr e ↦ ground (
          arith,
          filter-firsts l (acc ++ ev ∷ []) dup (idempotency_key lib ev ∷ store),
          append_assoc acc (ev ∷ []) (firsts l (idempotency_key lib ev ∷ store)),
        )
      ]

  -- Every event's key is in the store.
  abbrev Known : IdempoStore → List MeterEvent → Type 0
  Known store = All (λ ev. contains (idempotency_key lib ev) store ≡ true)

  filter-contains :
      (k : String) (l acc : List MeterEvent) (dup : ℕ) (store : IdempoStore)
      → contains k store ≡ true
      → contains k (filter_from lib l acc dup store).1 ≡ true
  unfolding filter_from apply_event mark
  filter-contains k [] acc dup store h = h
  filter-contains k (ev ∷ l) acc dup store h =
      elim (Bool-cases (contains (idempotency_key lib ev) store)) [
        | inl e ↦ ground (arith, filter-contains k l acc (dup + 1) store h)
        | inr e ↦ ground (
          arith,
          filter-contains k l (acc ++ ev ∷ []) dup (idempotency_key lib ev ∷ store) (ground arith),
        )
      ]

  filter-seen :
      (ev : MeterEvent) (l acc : List MeterEvent) (dup : ℕ) (store : IdempoStore)
      → contains (idempotency_key lib ev) store ≡ true
      → filter_from lib (ev ∷ l) acc dup store ≡ filter_from lib l acc (dup + 1) store
  unfolding filter_from apply_event
  filter-seen ev l acc dup store e = ground arith

  filter-new :
      (ev : MeterEvent) (l acc : List MeterEvent) (dup : ℕ) (store : IdempoStore)
      → contains (idempotency_key lib ev) store ≡ false
      → filter_from lib (ev ∷ l) acc dup store
        ≡ filter_from lib l (acc ++ ev ∷ []) dup (idempotency_key lib ev ∷ store)
  unfolding filter_from apply_event mark
  filter-new ev l acc dup store e = ground arith

  filter-Known :
      (l acc : List MeterEvent) (dup : ℕ) (store : IdempoStore)
      → Known (filter_from lib l acc dup store).1 l
  filter-Known [] acc dup store = tt
  filter-Known (ev ∷ l) acc dup store =
      let key = idempotency_key lib ev in
      elim (Bool-cases (contains key store)) [
        | inl e ↦
            subst (λ r. Known r.1 (ev ∷ l)) (sym (filter-seen ev l acc dup store e))
              (filter-contains key l acc (dup + 1) store e, filter-Known l acc (dup + 1) store)
        | inr e ↦
            subst (λ r. Known r.1 (ev ∷ l)) (sym (filter-new ev l acc dup store e))
              (
                filter-contains key l (acc ++ ev ∷ []) dup (key ∷ store)
                    (ground (arith, eq_iff key key)),
                filter-Known l (acc ++ ev ∷ []) dup (key ∷ store),
              )
      ]

  Known-filter :
      (l acc : List MeterEvent) (dup : ℕ) (store : IdempoStore)
      → Known store l
      → filter_from lib l acc dup store ≡ ((acc, dup + length l), store)
  unfolding filter_from apply_event
  Known-filter [] acc dup store h = ground arith
  Known-filter (ev ∷ l) acc dup store h = ground (arith, Known-filter l acc (dup + 1) store h.1)

  -- Of a batch exactly the events are taken, in their order, whose keys neither the store nor an
  -- earlier event of the batch has, and all others are counted as duplicates; and of the same batch
  -- once more nothing is taken, every event is a duplicate, and the store stays as it is.
  pub filter_idempotent_with_lem :
      (store : IdempoStore) (l : List MeterEvent)
      → let ((taken, dup), store') = filter_idempotent_with lib store l in
        (taken ≡ firsts l store)
        × (length taken + dup ≡ length l)
        × (filter_idempotent_with lib store' l ≡ (([], length l), store'))
  unfolding filter_idempotent_with
  filter_idempotent_with_lem store l =
      let (same, whole) = filter-firsts l [] 0 store in
      (
        same,
        ground (arith, same, whole),
        ground (
          arith,
          Known-filter l [] 0 (filter_from lib l [] 0 store).1 (filter-Known l [] 0 store),
        ),
      )
