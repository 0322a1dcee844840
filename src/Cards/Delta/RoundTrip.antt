-- ===== src/Cards/Delta/RoundTrip.antt =====
-- The delta of apps/ops/cache/etag_delta.py takes the old cards to the new ones.
use decisionos.Common.{
  ◌≡◌, sym, ap, ◌∙◌, inl, inr, refl, String, false, Option, none, some, List, [], ◌∷◌, arith,
  Bool-cases, Option-cases, str_eq, eq_iff, if◌then◌else◌,
}
use decisionos.Common.Dict.{
  Dict, lookup, insert, remove, has, values, lookup-insert, lookup-remove, lookup-empty,
}
use decisionos.Cards.Delta.{
  Card, Delta, store_cards, index, added_from, differs, updated_from, removed_from,
  compute_cards_delta, remove_all, card_map, apply_cards_delta, is_delta_applicable,
}

module _ {Json : Type 0} where
  -- Every card stands once, under its own id.
  abbrev pub Keyed : Dict (Card Json) → Type 0
  Keyed [] = Unit
  Keyed ((k, c) ∷ m) = (c.id ≡ some k) × (has k m ≡ false) × Keyed m

  has-insert :
      (k j : String) (c : Card Json) (m : Dict (Card Json))
      → has j m ≡ false
      → str_eq k j ≡ false
      → has j (insert k c m) ≡ false
  has-insert k j c m h e = ground (arith, lookup-insert k j c m)

  insert-Keyed :
      (k : String) (c : Card Json) (m : Dict (Card Json))
      → c.id ≡ some k
      → Keyed m
      → Keyed (insert k c m)
  unfolding insert
  insert-Keyed k c [] e h = ground (arith, lookup-empty {V = Card Json} k)
  insert-Keyed k c ((j, d) ∷ m) e h = elim (Bool-cases (str_eq j k)) [
    | inl x ↦ ground (arith, eq_iff j k)
    | inr x ↦
        ground (arith, insert-Keyed k c m e h.2, has-insert k j c m h.1, eq_iff j k, eq_iff k j)
  ]

  store_cards-Keyed :
      (l : List (Card Json)) (m : Dict (Card Json)) → Keyed m → Keyed (store_cards l m)
  unfolding store_cards
  store_cards-Keyed [] m h = h
  store_cards-Keyed (c ∷ l) m h = elim (Option-cases c.id) [
    | inl e ↦ ground (arith, store_cards-Keyed l m h)
    | inr (k, e) ↦ ground (arith, store_cards-Keyed l (insert k c m) (insert-Keyed k c m e h))
  ]

  added-lookup :
      (k : String) (bi ni m : Dict (Card Json))
      → Keyed ni
      → lookup k (store_cards (added_from bi ni) m) ≡ (
          if has k bi
          then lookup k m
          else elim (lookup k ni) [ none ↦ lookup k m | some c ↦ some c ])
  unfolding store_cards added_from lookup
  added-lookup k bi [] m h = ground arith
  added-lookup k bi ((j, c) ∷ ni) m h = ground (
    arith,
    added-lookup k bi ni m h.2,
    added-lookup k bi ni (insert j c m) h.2,
    lookup-insert j k c m,
    eq_iff j k,
  )

  updated-lookup :
      (dumps : Json → String) (k : String) (bi ni m : Dict (Card Json))
      → Keyed ni
      → lookup k (store_cards (updated_from dumps bi ni) m) ≡ elim (lookup k ni) [
        | none ↦ lookup k m
        | some c ↦ if differs dumps c (lookup k bi) then some c else lookup k m
      ]
  unfolding store_cards updated_from lookup
  updated-lookup dumps k bi [] m h = ground arith
  updated-lookup dumps k bi ((j, c) ∷ ni) m h = ground (
    arith,
    updated-lookup dumps k bi ni m h.2,
    updated-lookup dumps k bi ni (insert j c m) h.2,
    lookup-insert j k c m,
    eq_iff j k,
  )

  removed-lookup :
      (k : String) (ni bi m : Dict (Card Json))
      → lookup k (remove_all (removed_from ni bi) m)
        ≡ (if has k ni then lookup k m else if has k bi then none else lookup k m)
  unfolding remove_all removed_from lookup
  removed-lookup k ni [] m = ground arith
  removed-lookup k ni ((j, c) ∷ bi) m = ground (
    arith,
    removed-lookup k ni bi m,
    removed-lookup k ni bi (remove j m),
    lookup-remove j k m,
    eq_iff j k,
  )

  -- The JSON text of a card that may be there.
  abbrev pub text : (Json → String) → Option (Card Json) → Option String
  text dumps none = none
  text dumps (some c) = some (dumps c.content)

  delta-lookup :
      (dumps : Json → String) (k : String) (bi ni : Dict (Card Json))
      → Keyed ni
      → text dumps (
          lookup k (
            store_cards
              (added_from bi ni)
              (store_cards (updated_from dumps bi ni) (remove_all (removed_from ni bi) bi))))
        ≡ text dumps (lookup k ni)
  delta-lookup dumps k bi ni h =
      let kept = remove_all (removed_from ni bi) bi in
      let one = added-lookup k bi ni (store_cards (updated_from dumps bi ni) kept) h in
      let two = updated-lookup dumps k bi ni kept h in
      let three = removed-lookup k ni bi bi in
      elim (Option-cases (lookup k ni)) [
        | inl e ↦ elim (Option-cases (lookup k bi)) [
          | inl f ↦ ground (arith, one, two, three)
          | inr (b, f) ↦ ground (arith, one, two, three)
        ]
        | inr (c, e) ↦ elim (Option-cases (lookup k bi)) [
          | inl f ↦ ground (arith, one, two, three)
          | inr (b, f) ↦ ground (arith, one, two, three, eq_iff (dumps c.content) (dumps b.content))
        ]
      ]

  nothing_applies :
      (base : List (Card Json)) (delta : Delta Json)
      → is_delta_applicable delta ≡ false
      → card_map base delta ≡ index base
  unfolding is_delta_applicable card_map store_cards remove_all
  nothing_applies base delta h = ground arith

  map-lookup :
      (dumps : Json → String) (base now : List (Card Json)) (k : String)
      → text dumps (lookup k (card_map base (compute_cards_delta dumps base now)))
        ≡ text dumps (lookup k (index now))
  unfolding compute_cards_delta card_map
  map-lookup dumps base now k =
      delta-lookup dumps k (index base) (index now) (store_cards-Keyed now [] tt)

  values-lookup :
      (k : String) (m acc : Dict (Card Json))
      → Keyed m
      → lookup k (store_cards (values m) acc)
        ≡ elim (lookup k m) [ none ↦ lookup k acc | some c ↦ some c ]
  unfolding store_cards lookup
  values-lookup k [] acc h = refl
  values-lookup k ((j, c) ∷ m) acc h =
      ground (arith, values-lookup k m (insert j c acc) h.2, lookup-insert j k c acc, eq_iff j k)

  has-remove : (k j : String) (m : Dict (Card Json)) → has j m ≡ false → has j (remove k m) ≡ false
  has-remove k j m h = ground (arith, lookup-remove k j m)

  remove-Keyed : (k : String) (m : Dict (Card Json)) → Keyed m → Keyed (remove k m)
  unfolding remove
  remove-Keyed k [] h = tt
  remove-Keyed k ((j, c) ∷ m) h = ground (arith, remove-Keyed k m h.2, has-remove k j m h.1)

  remove_all-Keyed : (l : List String) (m : Dict (Card Json)) → Keyed m → Keyed (remove_all l m)
  unfolding remove_all
  remove_all-Keyed [] m h = h
  remove_all-Keyed (k ∷ l) m h = remove_all-Keyed l (remove k m) (remove-Keyed k m h)

  card_map-Keyed : (base : List (Card Json)) (delta : Delta Json) → Keyed (card_map base delta)
  unfolding card_map
  card_map-Keyed base delta =
      store_cards-Keyed delta.added
        (store_cards delta.updated (remove_all delta.removed (index base)))
        (store_cards-Keyed delta.updated (remove_all delta.removed (index base))
          (remove_all-Keyed delta.removed (index base) (store_cards-Keyed base [] tt)))

  index-apply :
      (base : List (Card Json)) (delta : Delta Json) (k : String)
      → lookup k (index (apply_cards_delta base delta)) ≡ lookup k (card_map base delta)
  unfolding apply_cards_delta
  index-apply base delta k = ground (
    arith,
    values-lookup k (card_map base delta) [] (card_map-Keyed base delta),
    lookup-empty {V = Card Json} k,
  )

  -- The delta between two lists of cards, applied to the old list, gives a list that has for every
  -- id the card of the new one, up to its JSON text with sorted keys, and no other card with an id;
  -- and where the delta has nothing to apply, the cards of both lists have the same texts already.
  pub apply-compute_cards_delta :
      (dumps : Json → String) (base now : List (Card Json)) (k : String)
      → let delta = compute_cards_delta dumps base now in
        (text dumps (lookup k (index (apply_cards_delta base delta)))
          ≡ text dumps (lookup k (index now)))
        × (is_delta_applicable delta ≡ false
            → text dumps (lookup k (index base)) ≡ text dumps (lookup k (index now)))
  apply-compute_cards_delta dumps base now k =
      let delta = compute_cards_delta dumps base now in
      let same = map-lookup dumps base now k in
      (
        ap (text dumps) (index-apply base delta k) ∙ same,
        λ h. ap (λ m. text dumps (lookup k m)) (sym (nothing_applies base delta h)) ∙ same,
      )
