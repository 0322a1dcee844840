-- ===== src/Change/Tests.antt =====
-- The theorems on the governance of changes at concrete inputs.
use decisionos.Common.{
  ◌≡◌, ◌↔◌, ◌≤◌, ◌*◌, ◌%◌, ◌⊎◌, refl, String, true, false, Option, none, some, List, [], ◌∷◌, arith,
  str_eq, if◌then◌else◌,
}
use Prim.Native.String.{◌++◌ as ◌<>◌}
use decisionos.Common.Int.{pos}
use decisionos.Common.Dict.{lookup, insert}
use decisionos.Common.Text.{strip, lstrip, rstrip, split}
use decisionos.Judge.Keys.{Stdlib, parse_secret, parse_state, to_material}
use decisionos.Judge.Keys.Loader.{
  World, init, get, force_reload, reload_if_needed, load_items, read_source,
}
use decisionos.Judge.Keys.Verify.{hmac_sign}
use decisionos.Change.PolicyLoader.{
  Config, found, PolicyFile, parsed, ok, check_material, verify_signature, scope_allowed, load,
  load_named, get_loader,
}
use decisionos.Change.PolicyLoader.Trusted.{IsSigned, load_iff}
use decisionos.Change.BreakGlass.{
  read, Scene, has_valid_break_glass, check_manifest, fresh_loader, check_signature, Lifted,
  has_valid_break_glass_iff,
}
use decisionos.Change.Windows.{
  Calendar, FreezeWindow, weekday, has_day, minute_us, day_us, within, active_instant, evaluate,
  matches_service, allow, norm,
}
use decisionos.Change.Windows.Active.{recurring_iff}
use decisionos.Change.Windows.Parse.{
  Item as Entry, many, parse_windows, parse_item, parse_time, weekday_indexes,
}
use decisionos.Change.Freeze.{
  Env, Site, Query, is_freeze_active, held_by_file, by_windows, load_windows, first_blocking,
}

-- A library whose HMAC joins the key and the text.
abbrev std : Stdlib String
std = record {
  from_hex = λ s. some s;
  b64_decode = λ s. some s;
  encode = λ s. s;
  hmac_hex = λ k m. k <> m;
  dumps = λ p. p;
}

abbrev world : World
world = record {
  now = 1000;
  mtime = none;
  file_items = some [];
  env_items = some (
      record {
        key_id = some "k1";
        secret = some "s";
        state = some "retired";
        created_at = none;
        notes = none;
      }
      ∷ []);
  legacy = none;
  ssm_items = [];
}

abbrev config : Config
config = record { allowlist = "k0, k1"; allow_scopes = "ops"; fail_open = false }

abbrev policy_file : PolicyFile String
policy_file = parsed "data"

load_iff_example :
    ((load std config world policy_file (found (some "k1") (some "sdata")) (some "ops") init).0
      ≡ ok "data")
    ↔ ((scope_allowed config (some "ops") ≡ true)
        × (policy_file ≡ parsed "data")
        × IsSigned std config world "data" (found (some "k1") (some "sdata")) init)
load_iff_example =
    load_iff std config world policy_file (found (some "k1") (some "sdata")) (some "ops") init
      "data" refl

loaded :
    (load std config world policy_file (found (some "k1") (some "sdata")) (some "ops") init).0
    ≡ ok "data"
unfolding load verify_signature check_material get reload_if_needed load_items read_source
    to_material parse_secret parse_state insert lookup hmac_sign strip lstrip rstrip split
loaded = refl

abbrev scene : Scene String
scene = record {
  file = read (record {
    manifest = "m";
    token = some "t";
    expires_at = some (pos 2000);
    key_id = some "k1";
    hmac_sha256 = some "sm";
  });
  now = 1000;
  at_reload = world;
  at_get = world;
}

-- The key is retired, and the manifest is valid.
broken_glass : has_valid_break_glass std scene (some "t") ≡ some true
unfolding has_valid_break_glass check_manifest fresh_loader check_signature get force_reload
    reload_if_needed load_items read_source to_material parse_secret parse_state insert lookup
    hmac_sign
broken_glass = refl

has_valid_break_glass_iff_example :
    (has_valid_break_glass std scene (some "t") ≡ some true) ↔ Lifted std scene (some "t")
has_valid_break_glass_iff_example = has_valid_break_glass_iff std scene (some "t")

abbrev calendar : Calendar
calendar = record {
  instant = λ s. none;
  zone = λ s. none;
  int = λ s. none;
  lower = λ s. s;
  upper = λ s. s;
}

-- Friday from 22:00 to 02:00.
abbrev night : FreezeWindow
night = record {
  name = "night";
  services = "core" ∷ [];
  allow_tags = "exempt" ∷ [];
  from = none;
  until = none;
  days = 4 ∷ [];
  start_time = some 1320;
  end_time = some 120;
  wall = λ t. t;
}

-- Friday, 1970-01-02, at noon, and Saturday at one.
at_noon : active_instant night 129600000000 ≡ true
unfolding active_instant within
at_noon = refl

after_midnight : active_instant night 176400000000 ≡ false
unfolding active_instant within
after_midnight = refl

recurring_iff_example : (active_instant night 129600000000 ≡ true) ↔ (
    (has_day (weekday 129600000000) (4 ∷ []) ≡ true)
    × ((120 ≤ 1320)
        ⊎ ((1320 * minute_us ≤ 129600000000 % day_us) × (129600000000 % day_us ≤ 120 * minute_us))))
recurring_iff_example = recurring_iff night 1320 120 129600000000 refl refl refl (omega arith)

abbrev env : Env
env = record {
  change_labels = "";
  freeze_now = "";
  freeze = "0";
  freeze_file = "freeze.flag";
  service = "core";
}

abbrev site : Site String
site = record {
  env = env;
  clock = 129600000000;
  exists = λ p. true;
  glass = scene;
  keys = world;
  file = parsed "windows";
  sig = found (some "k1") (some "swindows");
}

abbrev query : Query
query = record { now = none; service = ""; labels = "exempt" ∷ [] }

abbrev windows_of : String → Option (List (Option Entry))
windows_of data' = some []

abbrev entry_night : Entry
entry_night = record {
  name = some "night";
  id = none;
  services = [];
  allow_tags = "exempt" ∷ [];
  timezone = none;
  start = none;
  end = none;
  days = some (many ("fri" ∷ []));
  weekday = none;
  start_time = none;
  end_time = none;
}

abbrev listing : String → Option (List (Option Entry))
listing data' = some (none ∷ some entry_night ∷ [])

-- A library that reads "00" and "23", and "59".
abbrev reading : Calendar
reading = record calendar {
  int = λ s.
      if str_eq s "00"
      then some 0
      else if str_eq s "23"
      then some 23
      else if str_eq s "59"
      then some 59
      else none;
}

blocked_at_noon :
    (is_freeze_active std reading config listing site
      (record { now = none; service = ""; labels = "other" ∷ [] })
      none).0
    ≡ some (true, "window:night")
unfolding is_freeze_active held_by_file by_windows has_valid_break_glass check_manifest fresh_loader
    check_signature get force_reload reload_if_needed load_items read_source to_material
    parse_secret parse_state insert lookup hmac_sign load_windows load_named get_loader load
    verify_signature check_material strip lstrip rstrip split parse_windows parse_item parse_time
    weekday_indexes first_blocking evaluate matches_service active_instant within allow norm
blocked_at_noon = refl

exempt_at_noon : (is_freeze_active std reading config listing site query none).0 ≡ some (false, "")
unfolding is_freeze_active held_by_file by_windows has_valid_break_glass check_manifest fresh_loader
    check_signature get force_reload reload_if_needed load_items read_source to_material
    parse_secret parse_state insert lookup hmac_sign load_windows load_named get_loader load
    verify_signature check_material strip lstrip rstrip split parse_windows parse_item parse_time
    weekday_indexes first_blocking evaluate matches_service active_instant within allow norm
exempt_at_noon = refl
