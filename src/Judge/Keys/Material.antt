-- ===== src/Judge/Keys/Material.antt =====
-- apps/judge/crypto.py: key material, the entries it is read from, and secrets.
use Prim.Native.String.{[], ◌∷◌}
use text.Mathlib.Text.{starts_with}
use decisionos.Common.{ℕ, zero, suc, String, Option, none, some, str_eq, if◌then◌else◌}

-- Functions of Python's standard library; `none` is a `ValueError`.
pub record Stdlib (Payload : Type 0) : Type 0 where
  pub from_hex : String → Option String
  pub b64_decode : String → Option String
  pub encode : String → String
  pub hmac_hex : String → String → String
  pub dumps : Payload → String

pub data KeyState : Type 0 where
  active grace retired : KeyState

pub record KeyMaterial : Type 0 where
  pub key_id : String
  pub secret : String
  pub state : KeyState
  pub created_at : Option ℕ
  pub notes : Option String

-- An entry of the JSON list that the keys are read from.
pub record Item : Type 0 where
  pub key_id : Option String
  pub secret : Option String
  pub state : Option String
  pub created_at : Option ℕ
  pub notes : Option String

-- `s[n:]`
abbrev drop_chars : ℕ → String → String
drop_chars zero s = s
drop_chars (suc n) [] = []
drop_chars (suc n) (c ∷ s) = drop_chars n s

module _ {Payload : Type 0} (std : Stdlib Payload) where
  unfoldable pub parse_secret : String → Option String
  parse_secret s =
      if starts_with s "hex:"
      then std.from_hex (drop_chars 4 s)
      else if starts_with s "b64:"
      then std.b64_decode (drop_chars 4 s)
      else some (std.encode s)

-- `item.get("state", "active")`; what is not a known state is retired
unfoldable pub parse_state : Option String → KeyState
parse_state none = KeyState.active
parse_state (some s) =
    if str_eq s "active"
    then KeyState.active
    else if str_eq s "grace"
    then KeyState.grace
    else KeyState.retired

-- The loop body of `_reload_if_needed`; `none` is a `KeyError` or a `ValueError`.
module _ {Payload : Type 0} (std : Stdlib Payload) where
  unfoldable pub to_material : Item → Option KeyMaterial
  unfolding parse_secret parse_state
  to_material i = elim i.key_id [
    | none ↦ none
    | some k ↦ elim i.secret [
      | none ↦ none
      | some raw ↦ elim (parse_secret std raw) [
        | none ↦ none
        | some s ↦ some (record {
          key_id = k;
          secret = s;
          state = parse_state i.state;
          created_at = i.created_at;
          notes = i.notes;
        })
      ]
    ]
  ]
