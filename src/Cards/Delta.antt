-- ===== src/Cards/Delta.antt =====
-- apps/ops/cache/etag_delta.py: the difference between two lists of cards, and its application. Both
-- snapshots are objects whose cards are lists.
pub mod RoundTrip
use decisionos.Common.{
  String, Bool, true, false, not, ◌||◌, Option, none, some, List, [], ◌∷◌, str_eq, is_some,
  if◌then◌else◌,
}
use decisionos.Common.Dict.{Dict, lookup, insert, remove, has, values}

-- An item of the list: `str(it["id"])`, none if it has no id or is no object, and all that it holds.
pub record Card (Json : Type 0) : Type 0 where
  pub id : Option String
  pub content : Json

pub record Delta (Json : Type 0) : Type 0 where
  pub added : List (Card Json)
  pub removed : List String
  pub updated : List (Card Json)

abbrev some_left : {A : Type 0} → List A → Bool
some_left [] = false
some_left (x ∷ l) = true

module _ {Json : Type 0} where
  -- `card_map[str(card["id"])] = card`
  abbrev pub store_card : Dict (Card Json) → Card Json → Option String → Dict (Card Json)
  store_card m c none = m
  store_card m c (some k) = insert k c m

  -- The loops that put cards into a map.
  unfoldable pub store_cards : List (Card Json) → Dict (Card Json) → Dict (Card Json)
  store_cards [] m = m
  store_cards (c ∷ l) m = store_cards l (store_card m c c.id)

  -- `_index`
  abbrev pub index : List (Card Json) → Dict (Card Json)
  index l = store_cards l []

  unfoldable pub added_from : Dict (Card Json) → Dict (Card Json) → List (Card Json)
  added_from bi [] = []
  added_from bi ((k, v) ∷ ni) = let rest = added_from bi ni in if has k bi then rest else v ∷ rest

  -- Whether two cards differ in `json.dumps` with sorted keys.
  abbrev pub differs : (Json → String) → Card Json → Option (Card Json) → Bool
  differs dumps v none = false
  differs dumps v (some b) = not (str_eq (dumps v.content) (dumps b.content))

  unfoldable pub updated_from :
      (Json → String) → Dict (Card Json) → Dict (Card Json) → List (Card Json)
  updated_from dumps bi [] = []
  updated_from dumps bi ((k, v) ∷ ni) =
      let rest = updated_from dumps bi ni in
      if differs dumps v (lookup k bi) then v ∷ rest else rest

  unfoldable pub removed_from : Dict (Card Json) → Dict (Card Json) → List String
  removed_from ni [] = []
  removed_from ni ((k, v) ∷ bi) =
      let rest = removed_from ni bi in if has k ni then rest else k ∷ rest

  unfoldable pub compute_cards_delta :
      (Json → String) → List (Card Json) → List (Card Json) → Delta Json
  compute_cards_delta dumps base now = record {
    added = added_from (index base) (index now);
    removed = removed_from (index now) (index base);
    updated = updated_from dumps (index base) (index now);
  }

  unfoldable pub remove_all : List String → Dict (Card Json) → Dict (Card Json)
  remove_all [] m = m
  remove_all (k ∷ l) m = remove_all l (remove k m)

  -- `card_map` once the delta is applied
  unfoldable pub card_map : List (Card Json) → Delta Json → Dict (Card Json)
  card_map base delta =
      store_cards delta.added (store_cards delta.updated (remove_all delta.removed (index base)))

  unfoldable pub apply_cards_delta : List (Card Json) → Delta Json → List (Card Json)
  apply_cards_delta base delta = values (card_map base delta)

  unfoldable pub is_delta_applicable : Delta Json → Bool
  is_delta_applicable d = some_left d.added || some_left d.removed || some_left d.updated
