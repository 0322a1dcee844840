-- ===== src/Cards/Tests.antt =====
-- The theorem on apps/ops/cache/etag_delta.py at a concrete input.
use decisionos.Common.{◌≡◌, String, false, some, List, [], ◌∷◌}
use decisionos.Common.Dict.{lookup}
use decisionos.Cards.Delta.{
  Card, index, compute_cards_delta, apply_cards_delta, is_delta_applicable,
}
use decisionos.Cards.Delta.RoundTrip.{text, apply-compute_cards_delta}

abbrev card : String → String → Card String
card id content = record { id = some id; content = content }

abbrev base : List (Card String)
base = card "a" "1" ∷ (card "b" "2" ∷ (card "c" "3" ∷ []))

abbrev now : List (Card String)
now = card "b" "5" ∷ (card "c" "3" ∷ (card "d" "4" ∷ []))

abbrev dumps : String → String
dumps s = s

apply-compute_cards_delta_example :
    (text dumps (lookup "b" (index (apply_cards_delta base (compute_cards_delta dumps base now))))
      ≡ text dumps (lookup "b" (index now)))
    × (is_delta_applicable (compute_cards_delta dumps base now) ≡ false
        → text dumps (lookup "b" (index base)) ≡ text dumps (lookup "b" (index now)))
apply-compute_cards_delta_example = apply-compute_cards_delta dumps base now "b"
