-- ===== src/Metering/Reconcile/Buckets.antt =====
-- Which events the buckets of apps/metering/reconcile.py hold.
use Prim.Native.String.{◌++◌ as ◌<>◌}
use mathlib.Core.Path.{subst}
use mathlib.Core.List.{append-nil, append_assoc}
use decisionos.Common.{
  ℕ, ◌+◌, ◌-◌, ◌%◌, ◌≤◌, ◌≡◌, refl, sym, ap, ◌∙◌, inl, inr, String, Bool, true, false, Option, none,
  some, List, [], ◌∷◌, ◌++◌, arith, str_eq, eq_iff, leb, count, All, All-append, All-map, Among,
  Bool-cases, if◌then◌else◌,
}
use decisionos.Common.Dict.{Dict, lookup, lookup-insert, lookup-empty}
use decisionos.Metering.Ingest.{MeterEvent, Library}
use decisionos.Metering.Reconcile.{
  MeterBucket, floor_hour, filled, bucket_key, into_bucket, sum_up, least, most,
}

-- The start of the hour of a time: the time less what is past the full hour.
abbrev pub hour_start : ℕ → ℕ
hour_start ts = ts - ts % 3600

floor_hour-start : (ts : ℕ) → floor_hour ts ≡ hour_start ts
floor_hour-start ts = omega arith

module _ (lib : Library) (k : String) where
  -- The event is of the tenant, the metric and the hour of the key.
  abbrev pub is_under : MeterEvent → Bool
  is_under ev =
      str_eq (ev.tenant <> ("|" <> (ev.metric <> ("|" <> lib.isoformat (hour_start ev.ts))))) k

  -- The values of the events under the key.
  abbrev pub values_under : List MeterEvent → ℕ
  values_under [] = 0
  values_under (ev ∷ l) = if is_under ev then ev.value + values_under l else values_under l

  -- Some event under the key is so.
  abbrev pub SomeUnder : (MeterEvent → Type 0) → List MeterEvent → Type 0
  SomeUnder P l = (ev : MeterEvent) × Among ev l × (is_under ev ≡ true) × P ev

  -- A bucket is of an event: it has its tenant and metric, and the hour of its time.
  abbrev pub NamedBy : MeterBucket → MeterEvent → Type 0
  NamedBy b ev =
      (b.tenant ≡ ev.tenant)
      × (b.metric ≡ ev.metric)
      × (b.window_start ≡ hour_start ev.ts)
      × (b.window_end ≡ hour_start ev.ts + 3600)

  -- The bucket of a key holds exactly the events under the key: their number, sum, least and greatest
  -- value, and it is of one of them; there is no bucket where there is no event.
  abbrev pub Holds : List MeterEvent → Option MeterBucket → Type 0
  Holds l none = count is_under l ≡ 0
  Holds l (some b) =
      (b.count ≡ count is_under l)
      × (b.sum ≡ values_under l)
      × All (λ ev. is_under ev ≡ true → (b.min ≤ ev.value) × (ev.value ≤ b.max)) l
      × SomeUnder (λ ev. ev.value ≡ b.min) l
      × SomeUnder (λ ev. ev.value ≡ b.max) l
      × SomeUnder (NamedBy b) l

  is_under-bucket_key : (ev : MeterEvent) → is_under ev ≡ str_eq (bucket_key lib ev) k
  is_under-bucket_key ev = rw (floor_hour-start ev.ts) refl

  count-snoc :
      (l : List MeterEvent) (ev : MeterEvent)
      → count is_under (l ++ ev ∷ [])
        ≡ (if is_under ev then count is_under l + 1 else count is_under l)
  count-snoc [] ev = ground arith
  count-snoc (e ∷ l) ev = ground (arith, count-snoc l ev)

  values-snoc :
      (l : List MeterEvent) (ev : MeterEvent)
      → values_under (l ++ ev ∷ [])
        ≡ (if is_under ev then values_under l + ev.value else values_under l)
  values-snoc [] ev = ground arith
  values-snoc (e ∷ l) ev = ground (arith, values-snoc l ev)

  Among-left : (c ev : MeterEvent) (l : List MeterEvent) → Among c l → Among c (l ++ ev ∷ [])
  Among-left c ev [] m = absurd m
  Among-left c ev (e ∷ l) (inl h) = inl h
  Among-left c ev (e ∷ l) (inr m) = inr (Among-left c ev l m)

  Among-last : (ev : MeterEvent) (l : List MeterEvent) → Among ev (l ++ ev ∷ [])
  Among-last ev [] = inl refl
  Among-last ev (e ∷ l) = inr (Among-last ev l)

  SomeUnder-left :
      (P : MeterEvent → Type 0) (l : List MeterEvent) (ev : MeterEvent)
      → SomeUnder P l
      → SomeUnder P (l ++ ev ∷ [])
  SomeUnder-left P l ev (c, m, u, p) = (c, Among-left c ev l m, u, p)

  SomeUnder-last :
      (P : MeterEvent → Type 0) (l : List MeterEvent) (ev : MeterEvent)
      → is_under ev ≡ true
      → P ev
      → SomeUnder P (l ++ ev ∷ [])
  SomeUnder-last P l ev u p = (ev, Among-last ev l, u, p)

  -- What bounds the values under the key up to some bounds still does up to wider ones.
  widen :
      (lo hi lo' hi' : ℕ) (l : List MeterEvent)
      → lo' ≤ lo
      → hi ≤ hi'
      → All (λ ev. is_under ev ≡ true → (lo ≤ ev.value) × (ev.value ≤ hi)) l
      → All (λ ev. is_under ev ≡ true → (lo' ≤ ev.value) × (ev.value ≤ hi')) l
  widen lo hi lo' hi' l a b =
      All-map (λ ev. is_under ev ≡ true → (lo ≤ ev.value) × (ev.value ≤ hi))
        (λ ev. is_under ev ≡ true → (lo' ≤ ev.value) × (ev.value ≤ hi')) l
        (λ ev h u. (omega (arith, (h u).0, a), omega (arith, (h u).1, b)))

  not_under :
      (lo hi : ℕ) (l : List MeterEvent)
      → count is_under l ≡ 0
      → All (λ ev. is_under ev ≡ true → (lo ≤ ev.value) × (ev.value ≤ hi)) l
  not_under lo hi [] e = tt
  not_under lo hi (ev ∷ l) e = (λ u. absurd (ground arith), not_under lo hi l (ground arith))

  no_values : (l : List MeterEvent) → count is_under l ≡ 0 → values_under l ≡ 0
  no_values [] e = refl
  no_values (ev ∷ l) e = ground (arith, no_values l)

  filled-NamedBy : (ev : MeterEvent) (o : Option MeterBucket) → NamedBy (filled ev o) ev
  unfolding filled
  filled-NamedBy ev none =
      (refl, refl, floor_hour-start ev.ts, ap (λ x. x + 3600) (floor_hour-start ev.ts))
  filled-NamedBy ev (some b) =
      (refl, refl, floor_hour-start ev.ts, ap (λ x. x + 3600) (floor_hour-start ev.ts))

  filled-Holds :
      (ev : MeterEvent) (l : List MeterEvent) (o : Option MeterBucket)
      → is_under ev ≡ true
      → Holds l o
      → Holds (l ++ ev ∷ []) (some (filled ev o))
  unfolding filled
  filled-Holds ev l none u h = (
    ground (arith, count-snoc l ev),
    ground (arith, values-snoc l ev, no_values l h),
    All-append _ l (ev ∷ []) (not_under ev.value ev.value l h)
        ((λ x. (omega arith, omega arith)), tt),
    SomeUnder-last (λ e. e.value ≡ ev.value) l ev u refl,
    SomeUnder-last (λ e. e.value ≡ ev.value) l ev u refl,
    SomeUnder-last (NamedBy (filled ev none)) l ev u (filled-NamedBy ev none),
  )
  filled-Holds ev l (some b) u (n, s, a, lo, hi, named) = (
    ground (arith, count-snoc l ev),
    ground (arith, values-snoc l ev),
    All-append _ l (ev ∷ [])
        (widen b.min b.max (least b.min ev.value) (most b.max ev.value) l (ground arith)
          (ground arith) a)
        ((λ x. (ground arith, ground arith)), tt),
    elim (Bool-cases (leb b.min ev.value)) [
      | inl y ↦ rw y (SomeUnder-left (λ e. e.value ≡ b.min) l ev lo)
      | inr z ↦ rw z (SomeUnder-last (λ e. e.value ≡ ev.value) l ev u refl)
    ],
    elim (Bool-cases (leb b.max ev.value)) [
      | inl y ↦ rw y (SomeUnder-last (λ e. e.value ≡ ev.value) l ev u refl)
      | inr z ↦ rw z (SomeUnder-left (λ e. e.value ≡ b.max) l ev hi)
    ],
    SomeUnder-last (NamedBy (filled ev (some b))) l ev u (filled-NamedBy ev (some b)),
  )

  skipped-Holds :
      (ev : MeterEvent) (l : List MeterEvent) (o : Option MeterBucket)
      → is_under ev ≡ false
      → Holds l o
      → Holds (l ++ ev ∷ []) o
  skipped-Holds ev l none u h = ground (arith, count-snoc l ev)
  skipped-Holds ev l (some b) u (n, s, a, lo, hi, named) = (
    ground (arith, count-snoc l ev),
    ground (arith, values-snoc l ev),
    All-append _ l (ev ∷ []) a ((λ x. absurd (ground arith)), tt),
    SomeUnder-left (λ e. e.value ≡ b.min) l ev lo,
    SomeUnder-left (λ e. e.value ≡ b.max) l ev hi,
    SomeUnder-left (NamedBy b) l ev named,
  )

  into_bucket-Holds :
      (ev : MeterEvent) (l : List MeterEvent) (agg : Dict MeterBucket)
      → Holds l (lookup k agg)
      → Holds (l ++ ev ∷ []) (lookup k (into_bucket lib ev agg))
  into_bucket-Holds ev l agg h =
      let key = bucket_key lib ev in
      let slot = lookup-insert key k (filled ev (lookup key agg)) agg in
      elim (Bool-cases (str_eq key k)) [
        | inl y ↦
            let eq : lookup k (into_bucket lib ev agg) ≡ some (filled ev (lookup k agg)) =
              slot ∙ rw y (ap (λ x. some (filled ev (lookup x agg))) ((eq_iff key k).0 y)) in
            rw eq (filled-Holds ev l (lookup k agg) (is_under-bucket_key ev ∙ y) h)
        | inr z ↦
            let eq : lookup k (into_bucket lib ev agg) ≡ lookup k agg = slot ∙ rw z refl in
            rw eq (skipped-Holds ev l (lookup k agg) (is_under-bucket_key ev ∙ z) h)
      ]

  sum_up-Holds :
      (l before : List MeterEvent) (agg : Dict MeterBucket)
      → Holds before (lookup k agg)
      → Holds (before ++ l) (lookup k (sum_up lib l agg))
  unfolding sum_up
  sum_up-Holds [] before agg h = subst (λ x. Holds x (lookup k agg)) (sym (append-nil before)) h
  sum_up-Holds (ev ∷ l) before agg h =
      subst (λ x. Holds x (lookup k (sum_up lib l (into_bucket lib ev agg))))
        (append_assoc before (ev ∷ []) l)
        (sum_up-Holds l (before ++ ev ∷ []) (into_bucket lib ev agg)
          (into_bucket-Holds ev before agg h))

  -- From no buckets.
  pub sum_up-new_Holds : (l : List MeterEvent) → Holds l (lookup k (sum_up lib l []))
  sum_up-new_Holds l =
      sum_up-Holds l [] [] (subst (λ o. Holds [] o) (sym (lookup-empty {V = MeterBucket} k)) refl)
