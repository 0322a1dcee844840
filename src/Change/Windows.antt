-- ===== src/Change/Windows.antt =====
-- apps/ops/freeze.py: freeze windows, how they are read, and when they block a change. Instants are
-- microseconds since 1970; the wall clock of a time zone, the texts of dates and `str.lower` are
-- Python's own, a parameter here, and texts of instants carry an offset.
pub mod Parse
pub mod Active
pub mod Blocks
use decisionos.Common.{
  ℕ, zero, suc, ◌+◌, ◌-◌, ◌*◌, ◌/◌, ◌%◌, String, Bool, true, false, not, ◌&&◌, ◌||◌, Option, none,
  some, List, [], ◌∷◌, ◌++◌, ltb, leb, ◌==◌, str_eq, contains, truthy, if◌then◌else◌,
}
use decisionos.Common.Text.{strip, split}
use Prim.Native.String.{◌++◌ as ◌<>◌}

-- `datetime.fromisoformat` after the "Z" is replaced, `ZoneInfo`, `int` on what is not below 0, where
-- `none` is the exception, `str.lower` and `str.upper`.
pub record Calendar : Type 0 where
  pub instant : String → Option ℕ
  pub zone : String → Option (ℕ → ℕ)
  pub int : String → Option ℕ
  pub lower : String → String
  pub upper : String → String

-- Times of the day are minutes; `wall` is the wall clock of `tz` at an instant.
pub record FreezeWindow : Type 0 where
  pub name : String
  pub services : List String
  pub allow_tags : List String
  pub from : Option ℕ
  pub until : Option ℕ
  pub days : List ℕ
  pub start_time : Option ℕ
  pub end_time : Option ℕ
  pub wall : ℕ → ℕ

abbrev pub minute_us : ℕ
minute_us = 60000000

abbrev pub day_us : ℕ
day_us = 86400000000

-- `local.weekday()`: 1970-01-01 was a Thursday, 3.
abbrev pub weekday : ℕ → ℕ
weekday wall = (wall / day_us + 3) % 7

abbrev pub has_day : ℕ → List ℕ → Bool
has_day d [] = false
has_day d (e ∷ l) = if d == e then true else has_day d l

-- the test of the time of the day, on the wall clock
unfoldable pub within : ℕ → ℕ → ℕ → Bool
within start_time end_time now =
    let midnight = now / day_us * day_us in
    let start_dt = midnight + start_time * minute_us in
    let end_dt = midnight + end_time * minute_us in
    if leb end_dt start_dt
    then leb (if ltb now start_dt then start_dt - day_us else start_dt) now
      && leb now (end_dt + day_us)
    else leb start_dt now && leb now end_dt

abbrev pub weekly : FreezeWindow → ℕ → Option ℕ → Option ℕ → Bool
weekly w now (some s) (some e) =
    if has_day (weekday (w.wall now)) w.days then within s e (w.wall now) else false
weekly w now _ _ = false

-- `_active_instant`; with no days no weekday is among them
unfoldable pub active_instant : FreezeWindow → ℕ → Bool
unfolding within
active_instant w now = elim w.from [
  | none ↦ weekly w now w.start_time w.end_time
  | some s ↦ elim w.until [
    | none ↦ weekly w now w.start_time w.end_time
    | some e ↦ leb s now && leb now e
  ]
]

unfoldable pub matches_service : FreezeWindow → String → Bool
matches_service w service = contains "*" w.services || contains service w.services

-- `{label.strip().lower() for label in labels if label}`
unfoldable pub norm : Calendar → List String → List String
norm cal [] = []
norm cal (l ∷ labels) =
    let rest = norm cal labels in if str_eq l "" then rest else cal.lower (strip l) ∷ rest

abbrev pub any_tag : Calendar → List String → List String → Bool
any_tag cal names [] = false
any_tag cal names (t ∷ tags) = if contains (cal.lower t) names then true else any_tag cal names tags

unfoldable pub allow : Calendar → FreezeWindow → List String → Bool
unfolding norm
allow cal w labels = any_tag cal (norm cal labels) w.allow_tags

-- `evaluate`: whether the change is blocked, and the reason
unfoldable pub evaluate : Calendar → FreezeWindow → ℕ → String → List String → Bool × String
unfolding active_instant matches_service allow
evaluate cal w now service labels =
    if not (matches_service w service)
    then (false, "")
    else if not (active_instant w now)
    then (false, "")
    else if allow cal w labels
    then (false, "window:" <> w.name <> ":allowed")
    else (true, "window:" <> w.name)
