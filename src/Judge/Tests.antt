-- ===== src/Judge/Tests.antt =====
-- The theorems on apps/judge at concrete inputs.
use decisionos.Common.{String, ◌≡◌, ◌↔◌, refl, true, false, none, some, List, [], ◌∷◌, arith}
use decisionos.Common.Int.{pos, ◌-ℤ◌}
use Prim.Native.String.{◌++◌ as ◌<>◌}
use decisionos.Common.Dict.{lookup, insert}
use decisionos.Judge.Replay
use decisionos.Judge.Replay.{NonceLog, expired, recorded, purge}
use decisionos.Judge.NonceStore.{sqlite}
use decisionos.Judge.Keys.{Stdlib, Item, KeyMaterial, parse_secret, parse_state, to_material}
use decisionos.Judge.Keys.Loader.{World, init, get, reload_if_needed, load_items, read_source}
use decisionos.Judge.Keys.Verify.{
  verify_signature_safe, verify_signature_safe_iff, valid, hmac_sign, IsSigned, check_key,
  hmac_verify, verify_with_multikey,
}
use decisionos.Policy.Pep.{allowed, require, matches_wildcard, enforce, first_match, stripped}
use decisionos.Policy.Pep.Grants.{Grants}
use decisionos.Common.Text.{ends_with, drop_last, lstrip, rstrip, split, strip}
use decisionos.Judge.Server.{
  Parts, both, judged, admit, headers, judge, timed, verify, within_clock_skew, Request, Ambient,
  Server, post_judge,
}
use decisionos.Judge.Server.Effect.{is_judged}
use decisionos.Judge.Server.Once.{Clocked, serve, judged_once}
use decisionos.Judge.Server.Evaluated.{Found, evidence_and_slo, slo_parts, pass_authorised}
use decisionos.Judge.Slo.{pass, checks, evaluate}
use decisionos.Judge.Slo.Schema.{SloSpec, Evidence, DriftFile, missing}
use decisionos.Judge.Slo.Checks.{
  missing_blocks, check_witness, core, check_integrity, check_budget, forbidden, check_quota,
  check_anomaly, check_perf,
}
use decisionos.Judge.Slo.Blocks.{check_infra, check_canary, check_drift, check_saturation}
use decisionos.Judge.Slo.Meets.Parts.{AllThere}
use decisionos.Judge.Slo.Meets.Passes.{Meets}
use decisionos.Judge.Server.Unsigned.{fresh_nonce_judged}

-- A library whose HMAC joins the key and the text.
abbrev std : Stdlib String
std = record {
  from_hex = λ s. some s;
  b64_decode = λ s. some s;
  encode = λ s. s;
  hmac_hex = λ k m. k <> m;
  dumps = λ p. p;
}

abbrev entry : String → String → String → Item
entry id secret state = record {
  key_id = some id;
  secret = some secret;
  state = some state;
  created_at = none;
  notes = none;
}

-- Two keys in the environment, of which k2 is a grace key.
abbrev world : World
world = record {
  now = 1000;
  mtime = none;
  file_items = some [];
  env_items = some (entry "k1" "s" "active" ∷ (entry "k2" "old" "grace" ∷ []));
  legacy = none;
  ssm_items = [];
}

abbrev ambient : Ambient (Unit {0})
ambient = record {
  world = world;
  env = tt;
  skew_at = 1000000000;
  store_at = 1000000000;
  scopes = "judge:*";
}

abbrev request : Request String
request = record {
  payload = some "p";
  key_id = some "k1";
  signature = some "sp";
  nonce = some "n";
  ts_epoch = some (some (pos 1010));
}

abbrev server : Server NonceLog
server = record { keys = init; store = [] }

abbrev parts : String → Parts String
parts p = both (some p)

request-is_judged : is_judged (post_judge std sqlite parts ambient request server).0 ≡ true
unfolding post_judge verify_signature_safe get reload_if_needed load_items read_source to_material
    lookup insert check_key hmac_sign Replay.seen_or_insert recorded require allowed
    matches_wildcard ends_with drop_last ◌-ℤ◌ lstrip rstrip split strip parse_secret parse_state
    hmac_verify verify_with_multikey expired purge admit headers judge timed verify
    within_clock_skew enforce first_match stripped
request-is_judged = refl

clocked : Clocked 1000 ambient
clocked = record { later = omega arith; ordered = omega arith; prompt = omega arith }

-- A request with another nonce comes between.
abbrev between : List (Ambient (Unit {0}) × Request String)
between = (ambient, record request { nonce = some "m" }) ∷ []

judged_once_example :
    is_judged
      (post_judge std sqlite parts ambient request
        (serve std sqlite parts between (post_judge std sqlite parts ambient request server).1)).0
    ≡ false
judged_once_example =
    judged_once std sqlite parts ambient ambient request request "k1" "n" (pos 1010) between 1000
      server (record { key = refl; nonce = refl; ts = refl })
      (record { key = refl; nonce = refl; ts = refl }) clocked
      (record { later = omega arith; ordered = omega arith; prompt = omega arith }, tt)
      (record { later = omega arith; ordered = omega arith; prompt = omega arith })
      request-is_judged

fresh_nonce_judged_example :
    is_judged
      (post_judge std sqlite parts ambient
        (record request { nonce = some "m"; ts_epoch = some (some (pos 995)) })
        (post_judge std sqlite parts ambient request server).1).0
    ≡ true
unfolding post_judge verify_signature_safe get reload_if_needed load_items read_source to_material
    lookup insert check_key hmac_sign Replay.seen_or_insert recorded require allowed
    matches_wildcard ends_with drop_last ◌-ℤ◌ lstrip rstrip split strip parse_secret parse_state
    hmac_verify verify_with_multikey expired purge admit headers judge timed verify
    within_clock_skew enforce first_match stripped
fresh_nonce_judged_example =
    fresh_nonce_judged std sqlite parts ambient request server "m" (pos 995) request-is_judged refl
      refl refl

verify_signature_safe_iff_example :
    ((verify_signature_safe std world "p" "sp" "k1" true init).0 ≡ valid) ↔ (
      (km : KeyMaterial) × ((get std world "k1" init).0 ≡ some (some km))
      × IsSigned std "p" "sp" true km)
verify_signature_safe_iff_example = verify_signature_safe_iff std world "p" "sp" "k1" true init

-- Of two entries for one key id the later one counts.
abbrev two_entries : World
two_entries = record world { file_items = some (entry "k1" "file" "active" ∷ []) }

-- An SLO that asks for little, and evidence that meets it.
abbrev lax_spec : SloSpec
lax_spec = record {
  allow_levels = "ok" ∷ [];
  max_spent = none;
  forbid_actions = [];
  allow_spike = true;
  latency = record { max_p95_ms = some 50; max_p99_ms = none; min_samples = none };
  error = record { max_error_rate = none; min_samples = none };
  require_csv_sha256 = false;
  require_signature = false;
  judge_infra = none;
  canary = none;
  drift = none;
  saturation = none;
}

abbrev good_evidence : Evidence String
good_evidence = record {
  blocks =
      ("meta", "m")
      ∷ ("witness", "w")
      ∷ ("usage", "u")
      ∷ ("rating", "r")
      ∷ ("quota", "q")
      ∷ ("budget", "b")
      ∷ ("anomaly", "a")
      ∷ ("integrity", "i")
      ∷ [];
  csv_sha256 = none;
  signature_sha256 = none;
  level = some "ok";
  spent = none;
  actions = [];
  is_spike = true;
  perf = some (record {
    count = none;
    p95 = some 50;
    p99 = none;
    error_rate = none;
    availability = none;
    signature_error_rate = none;
  });
  perf_judge = none;
  canary = none;
  cpu_percent = none;
  mem_percent = none;
  qps = none;
}

abbrev find : String → Found String
find p = evidence_and_slo good_evidence (some lax_spec)

abbrev no_drift : String → DriftFile
no_drift p = missing

request_passes :
    (post_judge std sqlite
      (slo_parts (λ b. "") (λ b. false) no_drift find)
      ambient
      request
      server).0
    ≡ judged (pass, [])
unfolding post_judge verify_signature_safe get reload_if_needed load_items read_source to_material
    lookup insert check_key hmac_sign Replay.seen_or_insert recorded require allowed
    matches_wildcard ends_with drop_last ◌-ℤ◌ lstrip rstrip split strip parse_secret parse_state
    hmac_verify verify_with_multikey expired purge admit headers judge timed verify
    within_clock_skew enforce first_match stripped evaluate missing_blocks checks check_witness core
    check_integrity check_budget forbidden check_quota check_anomaly check_perf check_infra
    check_canary check_drift check_saturation
request_passes = refl

pass_authorised_example :
    (payload : String) × (sig : String) × (km : KeyMaterial) × (ev : Evidence String)
    × (spec : SloSpec) × (request.payload ≡ some payload)
    × (request.signature ≡ some sig)
    × (lookup "k1"
          (post_judge std sqlite
            (slo_parts (λ b. "") (λ b. false) no_drift find)
            ambient
            request
            server).1.keys.keys
        ≡ some km)
    × IsSigned std payload sig true km
    × Grants "judge:run" (allowed "judge:*")
    × (find payload ≡ evidence_and_slo ev (some spec))
    × AllThere ev.blocks
    × Meets (λ b. "") (λ b. false) no_drift spec ev
pass_authorised_example =
    pass_authorised std sqlite (λ b. "") (λ b. false) no_drift find ambient request server []
      request_passes
