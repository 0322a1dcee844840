-- ===== src/Rollout/Controller.antt =====
-- apps/experiment/controller.py: the canary router with its stages, and the switch of blue and green.
-- Percentages of the policy are numbers; the guard of changes is that of apps/ops/freeze.py.
pub mod Stages
pub mod Results
pub mod Governed
use decisionos.Common.{
  ℕ, zero, suc, ◌+◌, ◌%◌, String, Bool, true, false, not, ◌&&◌, ◌||◌, Option, none, some, List, [],
  ◌∷◌, map, ltb, leb, ◌==◌, str_eq, truthy, if◌then◌else◌,
}
use Prim.Native.String.{◌++◌ as ◌<>◌}
use decisionos.Common.Int.{ℤ, pos, negsuc}
use decisionos.Common.Dict.{Dict, lookup, insert}
use decisionos.Common.Text.{strip, split, split_once}
use decisionos.Judge.Keys.{Stdlib}
use decisionos.Judge.Keys.Loader.{Loader}
use decisionos.Change.PolicyLoader.{Config}
use decisionos.Change.BreakGlass.{has_valid_break_glass}
use decisionos.Change.Windows.{Calendar}
use decisionos.Change.Windows.Parse.{Item}
use decisionos.Change.Freeze.{Site, Query, is_freeze_active, labels_from_env}
use decisionos.Rollout.StageFile.{Crypto, StageEnv, Disk, write_stage_atomic}

-- What the guard says: the change may go on, it is refused, or the guard itself raised.
pub data Verdict : Type 0 where
  passed : Verdict
  refused : String → Verdict
  crashed : Verdict

abbrev pub guard_query : {Payload : Type 0} → Site Payload → Query
guard_query c = record {
  now = none;
  service = c.env.service;
  labels = labels_from_env c.env.change_labels;
}

module _ {Payload : Type 0} (std : Stdlib Payload) (cal : Calendar) (cfg : Config)
    (array : Payload → Option (List (Option Item))) where
  -- `_change_guard`; `off` is whether DECISIONOS_CHANGE_GOV_ENABLE is "0"
  unfoldable pub change_guard :
      Bool → Site Payload → String → Option Loader → Verdict × Option Loader
  change_guard true c action g = (passed, g)
  change_guard false c action g =
      let (result, g') = is_freeze_active std cal cfg array c (guard_query c) g in
      (
        elim result [
          | none ↦ crashed
          | some (blocked, reason) ↦
              if not blocked then passed else elim (has_valid_break_glass std c.glass none) [
                | none ↦ crashed
                | some b ↦
                    if b then passed else refused ("change_guard:" <> action <> ":" <> reason)
              ]
        ],
        g',
      )

-- `sorted(set(...))`: a percentage in its place among those that are larger
unfoldable pub place : ℕ → List ℕ → List ℕ
place p [] = p ∷ []
place p (q ∷ l) =
    let rest = place p l in if p == q then q ∷ l else if ltb p q then p ∷ q ∷ l else q ∷ rest

-- `sorted(set([0] + stages))`
unfoldable pub sorted_stages : List ℕ → List ℕ
unfolding place
sorted_stages [] = 0 ∷ []
sorted_stages (p ∷ l) = place p (sorted_stages l)

pub record Traffic : Type 0 where
  pub stages : List ℕ
  pub hash_key : String
  pub stage_pct : ℕ
  pub stage_index : ℕ

-- the loop of `_closest_index`, from the index `i` with the answer so far
unfoldable pub closest_from : ℕ → ℕ → ℕ → List ℕ → ℕ
closest_from pct i idx [] = idx
closest_from pct i idx (v ∷ l) = closest_from pct (i + 1) (if leb v pct then i else idx) l

unfoldable pub closest_index : ℕ → List ℕ → ℕ
unfolding closest_from
closest_index pct stages = closest_from pct 0 0 stages

-- `max(0, min(100, pct))`
abbrev pub clamp : ℤ → ℕ
clamp (negsuc n) = 0
clamp (pos n) = if ltb n 100 then n else 100

-- The state file: not there, unreadable, or its percentage.
pub data StateFile : Type 0 where
  missing broken : StateFile
  holds : ℤ → StateFile

abbrev pub loaded_pct : StateFile → ℕ
loaded_pct missing = 0
loaded_pct broken = 0
loaded_pct (holds pct) = clamp pct

-- The controller with the two files that it writes.
pub record World : Type 0 where
  pub traffic : Traffic
  pub state_file : StateFile
  pub disk : Disk

-- `__init__` with `_load_state`, on the stages and the hash key of the policy
unfoldable pub init : List ℕ → String → StateFile → Disk → World
unfolding sorted_stages closest_index
init stages hash_key file d =
    let all = sorted_stages stages in
    record {
      traffic = record {
        stages = all;
        hash_key = hash_key;
        stage_pct = loaded_pct file;
        stage_index = closest_index (loaded_pct file) all;
      };
      state_file = elim file [ missing ↦ holds (pos 0) | broken ↦ broken | holds p ↦ holds p ];
      disk = d;
    }

abbrev pub token_for : ℕ → String
token_for pct = if ltb 0 pct then "canary" else "stable"

-- `self.stages[i:]`
abbrev pub from_index : ℕ → List ℕ → List ℕ
from_index zero l = l
from_index (suc i) [] = []
from_index (suc i) (_ ∷ l) = from_index i l

abbrev pub first_or : ℕ → List ℕ → ℕ
first_or d [] = d
first_or d (v ∷ l) = v

module _ (crypto : Crypto) (env : StageEnv) (now : ℕ) where
  -- `_write_stage`, with the plain write where the signed one raises
  unfoldable pub write_stage : String → Disk → Disk
  write_stage token d =
      let (written, d') = write_stage_atomic crypto env now token d in
      elim written [ none ↦ record d' { text = some (token <> "\n", now) } | some _ ↦ d' ]

  unfoldable pub set_stage : ℤ → World → World
  unfolding write_stage closest_index
  set_stage percent w =
      let pct = clamp percent in
      record {
        traffic = record w.traffic {
          stage_pct = pct;
          stage_index = closest_index pct w.traffic.stages;
        };
        state_file = holds (pos pct);
        disk = write_stage (token_for pct) w.disk;
      }

  -- `register_result`
  unfoldable pub register_result : Bool → World → World
  unfolding set_stage
  register_result true w =
      set_stage
        (pos
          (first_or w.traffic.stage_pct (from_index (suc w.traffic.stage_index) w.traffic.stages)))
        w
  register_result false w = set_stage (pos 0) w

-- The first four bytes of `sha256(value)` as a number, and `str.lower`.
pub record Hashing : Type 0 where
  pub digest32 : String → ℕ
  pub lower : String → String

module _ (hashing : Hashing) where
  -- `_sha_bucket`
  abbrev pub sha_bucket : String → ℕ
  sha_bucket value = hashing.digest32 value % 100

  -- `{k.lower(): v for k, v in headers.items()}`
  unfoldable pub lowered : Dict String → Dict String → Dict String
  lowered [] out = out
  lowered ((k, v) ∷ headers) out = lowered headers (insert (hashing.lower k) v out)

  -- the loop over the parts of a cookie
  unfoldable pub cookie_value : String → List String → Option String
  cookie_value value [] = none
  cookie_value value (part ∷ parts) =
      let rest = cookie_value value parts in
      elim (split_once b'=' (strip part)) [
        | none ↦ rest
        | some (name, val) ↦ if str_eq (strip name) value then some (strip val) else rest
      ]

  abbrev or_else : Option String → String → String
  or_else none d = d
  or_else (some s) d = s

  abbrev cookie_header : Dict String → Option String
  cookie_header headers =
      if truthy (lookup "cookie" headers) then lookup "cookie" headers else lookup "Cookie" headers

  abbrev or_default : String → String
  or_default value = if str_eq value "" then "default" else value

  -- `_hash_key_value` for a specification of a kind and a value
  unfoldable pub key_of : String → String → Dict String → String
  unfolding lowered cookie_value split
  key_of kind value headers =
      if str_eq kind "header"
      then or_else (lookup (hashing.lower value) (lowered headers [])) ("header:" <> value)
      else if str_eq kind "cookie" && truthy (cookie_header headers)
      then or_else (cookie_value value (split b';' (or_else (cookie_header headers) "")))
          (or_default value)
      else or_default value

  unfoldable pub hash_key_value : String → Dict String → String
  unfolding key_of split_once
  hash_key_value spec headers = elim (split_once b':' spec) [
    | none ↦ key_of "header" spec headers
    | some (kind, value) ↦ key_of kind value headers
  ]

  -- `route`: whether the request goes to the canary
  unfoldable pub route : Traffic → Dict String → Bool
  unfolding hash_key_value
  route t headers =
      if leb t.stage_pct 0
      then false
      else ltb (sha_bucket (hash_key_value t.hash_key headers)) t.stage_pct

module _ {Payload : Type 0} (std : Stdlib Payload) (cal : Calendar) (cfg : Config)
    (array : Payload → Option (List (Option Item))) (crypto : Crypto) (env : StageEnv) (now : ℕ)
    (off : Bool) where
  -- `promote`: a refused change raises, and nothing is written
  unfoldable pub promote : Site Payload → Option Loader → World → Verdict × World × Option Loader
  promote c g w =
      let (verdict, g') = change_guard std cal cfg array off c "promote" g in
      (
        verdict,
        elim verdict [
          | passed ↦ record w { disk = write_stage crypto env now "promote" w.disk }
          | _ ↦ w
        ],
        g',
      )

  -- `abort`
  unfoldable pub abort : Site Payload → Option Loader → World → Verdict × World × Option Loader
  abort c g w =
      let (verdict, g') = change_guard std cal cfg array off c "abort" g in
      (
        verdict,
        elim verdict [
          | passed ↦ record {
            traffic = record w.traffic { stage_pct = 0; stage_index = 0 };
            state_file = holds (pos 0);
            disk = write_stage crypto env now "abort" w.disk;
          }
          | _ ↦ w
        ],
        g',
      )

-- HEALTH_BLUE and HEALTH_GREEN, "ok" where they are not set.
pub record Health : Type 0 where
  pub blue : String
  pub green : String

abbrev pub health_of : Health → String → String
health_of h stage = if str_eq stage "blue" then h.blue else h.green

module _ {Payload : Type 0} (std : Stdlib Payload) (cal : Calendar) (cfg : Config)
    (array : Payload → Option (List (Option Item))) (off : Bool) where
  abbrev after_guard : Health → Bool → String → String → Bool × String × String
  after_guard h check target current =
      if not (str_eq target "blue" || str_eq target "green")
      then (false, "invalid stage", current)
      else if check && not (str_eq (health_of h target) "ok")
      then (false, target <> " unhealthy: " <> health_of h target, current)
      else (true, "Cutover from " <> current <> " to " <> target, target)

  -- `cutover`: whether it was done, what it says, and the stage then; `none` if the guard raised
  -- another exception than its own
  unfoldable pub cutover :
      Site Payload
      → Health
      → String
      → Bool
      → Option Loader
      → String
      → Option (Bool × String × String) × Option Loader
  cutover c h target check g current =
      let (verdict, g') = change_guard std cal cfg array off c ("cutover:" <> target) g in
      (
        elim verdict [
          | passed ↦ some (after_guard h check target current)
          | refused reason ↦ some (false, reason, current)
          | crashed ↦ none
        ],
        g',
      )

  unfoldable pub rollback :
      Site Payload
      → Health
      → Option Loader
      → String
      → Option (Bool × String × String) × Option Loader
  unfolding cutover
  rollback c h g current =
      cutover c h (if str_eq current "blue" then "green" else "blue") false g current
