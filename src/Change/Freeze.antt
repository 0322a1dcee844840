-- ===== src/Change/Freeze.antt =====
-- apps/ops/freeze.py: `is_freeze_active`, the guard of every change, and its command line.
pub mod Guarded
use decisionos.Common.{
  ℕ, String, Bool, true, false, not, ◌&&◌, ◌||◌, Option, none, some, List, [], ◌∷◌, ◌++◌, ◌==◌, map,
  str_eq, truthy, contains, if◌then◌else◌,
}
use Prim.Native.String.{◌++◌ as ◌<>◌}
use decisionos.Common.Text.{strip, words, is_space}
use decisionos.Judge.Keys.{Stdlib}
use decisionos.Judge.Keys.Loader.{Loader, World}
use decisionos.Change.PolicyLoader.{Config, SigFile, PolicyFile, ok, err, load_named}
use decisionos.Change.BreakGlass.{Scene, has_valid_break_glass}
use decisionos.Change.Windows.{Calendar, FreezeWindow, evaluate}
use decisionos.Change.Windows.Parse.{Item, parse_windows}

-- `_labels_from_env`: the words between commas and spaces. They have no spaces to strip.
unfoldable pub labels_from_env : String → List String
unfolding words
labels_from_env value = words (λ n. n == b',' || is_space n) value

-- CHANGE_LABELS, _FREEZE_NOW, DECISIONOS_FREEZE, DECISIONOS_FREEZE_FILE and DECISIONOS_SERVICE, with
-- the defaults of the code where they are not set.
pub record Env : Type 0 where
  pub change_labels : String
  pub freeze_now : String
  pub freeze : String
  pub freeze_file : String
  pub service : String

-- What a call meets: the files, the clock and the key sources.
pub record Site (Payload : Type 0) : Type 0 where
  pub env : Env
  pub clock : ℕ
  pub exists : String → Bool
  pub glass : Scene Payload
  pub keys : World
  pub file : PolicyFile Payload
  pub sig : SigFile

-- The arguments of `is_freeze_active`. The default of `service` is "*"; an empty one stands for the
-- service of the environment.
pub record Query : Type 0 where
  pub now : Option ℕ
  pub service : String
  pub labels : List String

-- Whether a change is blocked, with the reason; `none` if the call raised.
abbrev pub Blocked : Type 0
Blocked = Option (Bool × String)

abbrev pub labels_of : Env → List String → List String
labels_of env [] = labels_from_env env.change_labels
labels_of env (l ∷ ls) = l ∷ ls

abbrev pub exempt : List String → Bool
exempt [] = false
exempt (l ∷ ls) = if str_eq l "urgent" || str_eq l "hotfix" then true else exempt ls

abbrev pub flagged : Env → List String → Bool
flagged env labels =
    (str_eq env.freeze "1" || str_eq env.freeze "true" || str_eq env.freeze "True")
    && not (exempt labels)

abbrev pub service_of : Env → String → String
service_of env service = if str_eq service "" then env.service else service

-- the loop over the windows
unfoldable pub first_blocking :
    Calendar → List FreezeWindow → ℕ → String → List String → Bool × String
first_blocking cal [] now service labels = (false, "")
first_blocking cal (w ∷ ws) now service labels =
    let (blocked, reason) = evaluate cal w now service labels in
    if blocked then (true, reason) else first_blocking cal ws now service labels

-- `now`, from the argument, the override or the clock; `none` if the override is no date
abbrev pub instant_of : {Payload : Type 0} → Calendar → Site Payload → Query → Option ℕ
instant_of cal c q = elim q.now [
  | some t ↦ some t
  | none ↦ if str_eq c.env.freeze_now "" then some c.clock else cal.instant c.env.freeze_now
]

-- `flag_path and Path(flag_path).exists() and not has_valid_break_glass()`
unfoldable pub held_by_file : {Payload : Type 0} → Stdlib Payload → Site Payload → Option Bool
unfolding has_valid_break_glass
held_by_file std c =
    if not (str_eq c.env.freeze_file "") && c.exists c.env.freeze_file
    then elim (has_valid_break_glass std c.glass none) [ none ↦ none | some b ↦ some (not b) ]
    else some false

module _ {Payload : Type 0} (std : Stdlib Payload) (cal : Calendar) (cfg : Config)
    (array : Payload → Option (List (Option Item))) where
  -- `load_windows`: `none` if it raised
  unfoldable pub load_windows :
      Site Payload → Option Loader → Option (List FreezeWindow) × Option Loader
  unfolding load_named parse_windows
  load_windows c g =
      let (result, g') = load_named std cfg array c.keys c.file c.sig g in
      (elim result [ err _ ↦ none | ok items ↦ parse_windows cal items ], g')

  -- once the flag and the flag file do not block
  unfoldable pub by_windows : Site Payload → Query → ℕ → Option Loader → Blocked × Option Loader
  unfolding first_blocking load_windows
  by_windows c q now g =
      let (windows, g') = load_windows c g in
      (
        elim windows [
          | none ↦ none
          | some ws ↦
              some
                (first_blocking cal ws now (service_of c.env q.service) (labels_of c.env q.labels))
        ],
        g',
      )

  unfoldable pub is_freeze_active : Site Payload → Query → Option Loader → Blocked × Option Loader
  is_freeze_active c q g = elim (instant_of cal c q) [
    | none ↦ (none, g)
    | some now ↦
        if flagged c.env (labels_of c.env q.labels)
        then (some (true, "env:flag"), g)
        else elim (held_by_file std c) [
          | none ↦ (none, g)
          | some true ↦ (some (true, "file:" <> c.env.freeze_file), g)
          | some false ↦ by_windows c q now g
        ]
  ]

  -- `cli`: the exit code, `none` if it raised
  unfoldable pub cli : Site Payload → Query → Bool → Option Loader → Option ℕ × Option Loader
  unfolding is_freeze_active
  cli c q allow_breakglass g =
      let (result, g') = is_freeze_active c q g in
      (
        elim result [
          | none ↦ none
          | some (blocked, _) ↦
              if not blocked
              then some 0
              else if not allow_breakglass
              then some 2
              else elim (has_valid_break_glass std c.glass none) [
                | none ↦ none
                | some b ↦ some (if b then 0 else 2)
              ]
        ],
        g',
      )
