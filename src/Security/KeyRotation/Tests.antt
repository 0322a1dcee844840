-- ===== src/Security/KeyRotation/Tests.antt =====
-- Examples of scripts/ops/key_rotation.py.
use decisionos.Common.{
  ◌≡◌, ◌+◌, refl, inl, inr, String, true, false, none, some, List, [], ◌∷◌, str_eq, if◌then◌else◌,
  Among,
}
use decisionos.Security.KeyRotation.{
  Calendar, invalid, naive, aware, Key, Args, listed, absent, days, sort_key, sort_keys,
  check_key_expiry, rotate_key, retire_grace_keys, main,
}
use decisionos.Security.KeyRotation.Lifetime.{
  outgoing, incoming, worst, check_key_expiry_lem, rotation_lem,
}

-- A calendar that knows the end of a grace of one day from the time 5.
abbrev cal : Calendar
cal = record {
  parse = λ s.
      if str_eq s "tomorrow"
      then aware 86400000005
      else if str_eq s "yesterday"
      then aware 1
      else if str_eq s "noon"
      then naive
      else invalid;
  iso = λ t. "tomorrow";
}

abbrev key : String → String → Key
key id state = record {
  key_id = some id;
  state = some state;
  secret = some "s";
  expires_at = some "yesterday";
  grace_until = none;
}

abbrev ring : List Key
ring = key "k1" "active" ∷ key "k2" "pending" ∷ []

rotation_lem_example :
    Among
      (outgoing cal (5 + days 1) 90000000000 (key "k1" "active"))
      (retire_grace_keys cal 90000000000 (rotate_key cal 5 1 "k1" "k2" ring))
    × Among
        (incoming cal (key "k2" "pending"))
        (retire_grace_keys cal 90000000000 (rotate_key cal 5 1 "k1" "k2" ring))
rotation_lem_example =
    rotation_lem cal 5 90000000000 1 "k1" "k2" (key "k1" "active") (key "k2" "pending") ring refl
      refl refl (inl refl) refl refl (inr (inl refl)) refl refl

check_key_expiry_lem_example : check_key_expiry cal 5 7 ring ≡ worst cal 5 (5 + days 7) ring
check_key_expiry_lem_example = check_key_expiry_lem cal 5 7 ring

expired : check_key_expiry cal 5 7 ring ≡ some 2
unfolding check_key_expiry sort_keys sort_key
expired = refl

-- A date without a zone, as in "2026-01-01T12:00:00", ends the check with an exception.
no_zone :
    check_key_expiry cal 5 7 (record (key "k1" "active") { expires_at = some "noon" } ∷ ring) ≡ none
unfolding check_key_expiry sort_keys sort_key
no_zone = refl

abbrev args : Args
args = record {
  check_expiry = false;
  warn_days = 7;
  check_skew = false;
  max_skew = 10;
  rotate = true;
  old_key_id = some "k1";
  new_key_id = some "k9";
  grace_days = 1;
  retire_grace = false;
}

-- A rotation to a key that is not there takes the old key out of use all the same.
nothing_active : main cal 5 0 args (listed (key "k1" "active" ∷ [])) absent ≡ record {
  code = some 0;
  written = some (record (key "k1" "grace") { grace_until = some "tomorrow" } ∷ []);
}
unfolding main rotate_key
nothing_active = refl
