-- ===== src/Judge/Keys/Loader.antt =====
-- apps/judge/crypto.py: the state and the operations of `MultiKeyLoader`.
pub mod Reload
use decisionos.Common.{
  ℕ, suc, ◌-◌, ◌+◌, ◌≤◌, ◌∙◌, String, ◌≡◌, ◌≢◌, refl, Bool, true, false, not, ◌&&◌, ◌||◌, Option,
  none, some, List, [], ◌∷◌, ◌++◌, arith, ltb, ◌==◌, Option-cases, Bool-cases, inl, inr, str_eq,
  if◌then◌else◌,
}
use decisionos.Common.Dict.{Dict, lookup, insert, lookup-insert, lookup-empty, values}
use decisionos.Judge.Keys.Material.{Stdlib, KeyState, active, KeyMaterial, Item, to_material}

abbrev pub ttl : ℕ
ttl = 5

pub record Loader : Type 0 where
  pub cache_ts : ℕ
  pub keys : Dict KeyMaterial
  pub loaded_at : Option ℕ
  pub last_error : Option String
  pub source : Option (List Item)
  pub file_mtime : Option ℕ

-- What a call finds outside: the clock, the key file's time (`none` without a file), the lists in
-- the file and in the environment (`none` if unreadable), the legacy key, and the SSM plugin's list.
pub record World : Type 0 where
  pub now : ℕ
  pub mtime : Option ℕ
  pub file_items : Option (List Item)
  pub env_items : Option (List Item)
  pub legacy : Option String
  pub ssm_items : List Item

abbrev pub init : Loader
init = record {
  cache_ts = 0;
  keys = [];
  loaded_at = none;
  last_error = none;
  source = none;
  file_mtime = none;
}

abbrev or_empty : Option (List Item) → List Item
or_empty none = []
or_empty (some l) = l

abbrev is_empty : List Item → Bool
is_empty [] = true
is_empty (i ∷ l) = false

abbrev legacy_item : String → Item
legacy_item s = record {
  key_id = some "legacy";
  secret = some s;
  state = some "active";
  created_at = none;
  notes = none;
}

abbrev with_legacy : Option String → List Item → List Item
with_legacy none l = l
with_legacy (some s) l = if is_empty l && not (str_eq s "") then legacy_item s ∷ [] else l

-- `_read_source`: file, then environment, then the legacy key if neither has any, then the plugin
unfoldable pub read_source : World → List Item
read_source w = with_legacy w.legacy (or_empty w.file_items ++ or_empty w.env_items) ++ w.ssm_items

-- A change of the key file's time between two calls.
abbrev pub changed : Option ℕ → Option ℕ → Bool
changed (some a) (some b) = not (a == b)
changed _ _ = false

module _ {Payload : Type 0} (std : Stdlib Payload) where
  -- the loop over the entries: a later entry replaces an earlier one with its key id
  unfoldable pub load_items : Dict KeyMaterial → List Item → Option (Dict KeyMaterial)
  load_items m [] = some m
  load_items m (i ∷ l) = elim (to_material std i) [
    | none ↦ none
    | some km ↦ load_items (insert km.key_id km m) l
  ]

  -- `true` if the call raised; the new file time is kept even so
  unfoldable pub reload_if_needed : Bool → World → Loader → Bool × Loader
  reload_if_needed force w s =
      let t = record s { file_mtime = w.mtime } in
      if not (force || changed w.mtime s.file_mtime) && ltb (w.now - s.cache_ts) ttl
      then (false, t)
      else elim (load_items [] (read_source w)) [
        | none ↦ (true, t)
        | some m ↦ (
          false,
          record t {
            keys = m;
            cache_ts = w.now;
            loaded_at = some w.now;
            last_error = none;
            source = some (read_source w);
          },
        )
      ]

  unfoldable pub force_reload : World → Loader → Bool × Loader
  unfolding reload_if_needed
  force_reload w s = reload_if_needed true w (record s { cache_ts = 0 })

  -- `get`: `none` if the reload raised
  unfoldable pub get : World → String → Loader → Option (Option KeyMaterial) × Loader
  get w key_id s =
      let (raised, t) = reload_if_needed false w s in
      (if raised then none else some (lookup key_id t.keys), t)

abbrev is_active : KeyState → Bool
is_active active = true
is_active _ = false

-- the loop of `choose_active`
unfoldable pub first_active : List KeyMaterial → Option KeyMaterial
first_active [] = none
first_active (km ∷ l) = if is_active km.state then some km else first_active l

module _ {Payload : Type 0} (std : Stdlib Payload) where
  unfoldable pub choose_active : World → Loader → Option (Option KeyMaterial) × Loader
  choose_active w s =
      let (raised, t) = reload_if_needed std false w s in
      (if raised then none else some (first_active (values t.keys)), t)
