-- ===== src/Rollout/Tests.antt =====
-- The theorems on the rollout at concrete inputs.
use decisionos.Common.{
  ℕ, ◌≡◌, ◌≢◌, ◌⊎◌, refl, String, true, false, Option, none, some, List, [], ◌∷◌, arith, ltb,
  if◌then◌else◌,
}
use Prim.Native.String.{◌++◌ as ◌<>◌}
use decisionos.Common.Int.{pos}
use decisionos.Common.Dict.{lookup, insert}
use decisionos.Common.Text.{strip, lstrip, rstrip}
use decisionos.Judge.Keys.{Stdlib}
use decisionos.Judge.Keys.Loader.{World as KeyWorld}
use decisionos.Judge.Keys.Loader.{force_reload, load_items, read_source}
use decisionos.Change.Freeze.{
  Site, is_freeze_active, held_by_file, by_windows, load_windows, first_blocking,
}
use decisionos.Change.PolicyLoader.{load, Config, missing, parsed}
use decisionos.Change.BreakGlass.{absent}
use decisionos.Change.Windows.{Calendar}
use decisionos.Change.Windows.Parse.{Item}
use decisionos.Rollout.StageFile.{
  Crypto, StageEnv, StageState, Disk, write_stage_atomic, current_key, load_keys, add_entries,
  read_stage_with_hash, read_or_repair, read_text, guard_and_repair, verify_manifest,
}
use decisionos.Rollout.StageFile.Safe.{Genuine, read_stage_safe}
use decisionos.Rollout.StageFile.RoundTrip.{state_of, shown, read-write_stage}
use decisionos.Rollout.Controller.{
  World, holds, init, register_result, Hashing, passed, change_guard, promote, abort, cutover,
  Health, health_of, sorted_stages, place, closest_index, closest_from,
}
use decisionos.Rollout.Controller.Governed.{Permitted, changes_governed}
use decisionos.Rollout.Controller.Stages.{IsValid, IsNext}
use decisionos.Rollout.Controller.Results.{register_result_lem}

abbrev crypto : Crypto
crypto = record { sha = λ t. "#" <> t; hmac_hex = λ k t. k <> t }

abbrev env : StageEnv
env = record { keys_json = none; entries = []; key = some "s"; key_id = none }

-- The stage file was changed by hand after it was signed.
abbrev tampered : Disk
tampered = record {
  text = some ("promote\n", 5);
  manifest =
      some
        (record { token_sha256 = some "#canary"; sig_hmac = some "scanary"; key_id = some "k1" });
}

abbrev stable_state : ℕ → StageState
stable_state now = record { stage = "stable"; sha256 = "#stable"; mtime = now }

tampered_read : (read_stage_with_hash crypto env 9 tampered).0 ≡ some (stable_state 9)
unfolding read_stage_with_hash read_or_repair read_text guard_and_repair write_stage_atomic
    verify_manifest current_key load_keys add_entries lookup insert strip lstrip rstrip
tampered_read = refl

read_stage_safe_example :
    (◌≡◌ {A = String} (stable_state 9).stage "stable") ⊎ Genuine crypto env tampered "stable"
read_stage_safe_example = read_stage_safe crypto env 9 tampered (stable_state 9) tampered_read

canary_written :
    (write_stage_atomic crypto env 7 " canary" tampered).0
    ≡ some (record { stage = " canary"; sha256 = "#canary"; mtime = 7 })
unfolding write_stage_atomic current_key load_keys add_entries lookup insert strip lstrip rstrip
canary_written = refl

read-write_stage_example :
    read_stage_with_hash crypto env 8 (write_stage_atomic crypto env 7 " canary" tampered).1 ≡ (
      some (state_of crypto env (shown (strip " canary")) 7),
      (write_stage_atomic crypto env 7 " canary" tampered).1,
    )
read-write_stage_example =
    read-write_stage crypto env 7 8 " canary" tampered
      (record { stage = " canary"; sha256 = "#canary"; mtime = 7 }) canary_written

-- The canary at 10 of 0, 10, 50 and 100.
abbrev at_ten : World
at_ten = record {
  traffic = record {
    stages = 0 ∷ 10 ∷ 50 ∷ 100 ∷ [];
    hash_key = "header:X-Canary-Key";
    stage_pct = 10;
    stage_index = 1;
  };
  state_file = holds (pos 10);
  disk = tampered;
}

starts_there :
    (init (50 ∷ 10 ∷ 100 ∷ 50 ∷ []) "header:X-Canary-Key" (holds (pos 10)) tampered) ≡ at_ten
unfolding init sorted_stages place closest_index closest_from
starts_there = refl

at_ten-IsValid : IsValid at_ten.traffic (10 ∷ 50 ∷ 100 ∷ [])
unfolding closest_index closest_from
at_ten-IsValid = record {
  listed = refl;
  rising = omega arith;
  bounded = omega arith;
  indexed = refl;
}

register_result_lem_example :
    IsValid (register_result crypto env 3 true at_ten).traffic (10 ∷ 50 ∷ 100 ∷ [])
    × IsValid (register_result crypto env 3 false at_ten).traffic (10 ∷ 50 ∷ 100 ∷ [])
    × ((register_result crypto env 3 false at_ten).traffic.stage_pct ≡ 0)
    × (n : ℕ) × IsNext 10 10 (10 ∷ 50 ∷ 100 ∷ []) n
    × ((register_result crypto env 3 true at_ten).traffic.stage_pct
        ≡ (if ltb n 100 then n else 100))
register_result_lem_example =
    register_result_lem crypto env 3 at_ten (10 ∷ 50 ∷ 100 ∷ []) at_ten-IsValid

abbrev hashing : Hashing
hashing = record { digest32 = λ s. 7; lower = λ s. s }

abbrev std : Stdlib String
std = record {
  from_hex = λ s. some s;
  b64_decode = λ s. some s;
  encode = λ s. s;
  hmac_hex = λ k m. k <> m;
  dumps = λ p. p;
}

abbrev calendar : Calendar
calendar = record {
  instant = λ s. none;
  zone = λ s. none;
  int = λ s. none;
  lower = λ s. s;
  upper = λ s. s;
}

abbrev config : Config
config = record { allowlist = ""; allow_scopes = ""; fail_open = true }

abbrev keys : KeyWorld
keys = record {
  now = 1000;
  mtime = none;
  file_items = some [];
  env_items = some [];
  legacy = none;
  ssm_items = [];
}

abbrev site : Site String
site = record {
  env = record {
    change_labels = "";
    freeze_now = "";
    freeze = "0";
    freeze_file = "";
    service = "core";
  };
  clock = 1000;
  exists = λ p. false;
  glass = record { file = absent; now = 1000; at_reload = keys; at_get = keys };
  keys = keys;
  file = parsed "windows";
  sig = missing;
}

abbrev listing : String → Option (List (Option Item))
listing data' = some []

abbrev healthy : Health
healthy = record { blue = "ok"; green = "ok" }

changes_governed_example :
    ((promote std calendar config listing crypto env 3 false site none at_ten).1 ≢ at_ten
      → Permitted std calendar config listing site none)
    × ((abort std calendar config listing crypto env 3 false site none at_ten).1 ≢ at_ten
        → Permitted std calendar config listing site none)
    × ((cutover std calendar config listing false site healthy "green" true none "blue").0
          ≡ some (true, "Cutover from blue to green", "green")
        → Permitted std calendar config listing site none
          × (◌≡◌ {A = String} "green" "green")
          × ((◌≡◌ {A = String} "green" "blue") ⊎ (◌≡◌ {A = String} "green" "green"))
          × (true ≡ true → health_of healthy "green" ≡ "ok"))
changes_governed_example =
    changes_governed std calendar config listing crypto env 3 site none at_ten healthy "green" true
      "blue" "Cutover from blue to green" "green"

-- The guard passes where the signature file is missing and the loader fails open, and the stage changes.
promoted_passes :
    (promote std calendar config listing crypto env 3 false site none at_ten).0 ≡ passed
unfolding promote change_guard is_freeze_active held_by_file by_windows load_windows first_blocking
    load force_reload load_items read_source
promoted_passes = refl
