-- ===== src/Change/Windows/Parse.antt =====
-- apps/ops/freeze.py, `_parse_windows`: the freeze windows that a policy lists.
use decisionos.Common.{
  ℕ, ◌+◌, ◌*◌, String, Bool, true, false, ◌&&◌, Option, none, some, List, [], ◌∷◌, ◌++◌, ltb,
  str_eq, truthy, if◌then◌else◌,
}
use decisionos.Common.Text.{split}
use decisionos.Change.Windows.{Calendar, FreezeWindow}

-- An entry of the policy's list, where a key that is not there is `none`.
pub data Days : Type 0 where
  one : String → Days
  many : List String → Days

pub record Item : Type 0 where
  pub name : Option String
  pub id : Option String
  pub services : List String
  pub allow_tags : List String
  pub timezone : Option String
  pub start : Option String
  pub end : Option String
  pub days : Option Days
  pub weekday : Option Days
  pub start_time : Option String
  pub end_time : Option String

-- `_weekday_index`, on the lower-case name; `none` is a `KeyError`
abbrev weekday_number : String → Option ℕ
weekday_number d =
    if str_eq d "mon"
    then some 0
    else if str_eq d "tue"
    then some 1
    else if str_eq d "wed"
    then some 2
    else if str_eq d "thu"
    then some 3
    else if str_eq d "fri"
    then some 4
    else if str_eq d "sat"
    then some 5
    else if str_eq d "sun"
    then some 6
    else none

module _ (cal : Calendar) where
  unfoldable pub weekday_indexes : List String → Option (List ℕ)
  weekday_indexes [] = some []
  weekday_indexes (d ∷ l) = elim (weekday_number (cal.lower d)) [
    | none ↦ none
    | some n ↦ elim (weekday_indexes l) [ none ↦ none | some ns ↦ some (n ∷ ns) ]
  ]

  -- the hours and minutes of `_parse_time`; `none` is a `ValueError`
  abbrev minutes : Option ℕ → Option ℕ → Option ℕ
  minutes (some h) (some m) = if ltb h 24 && ltb m 60 then some (h * 60 + m) else none
  minutes _ _ = none

  abbrev two_parts : List String → Option ℕ
  two_parts (h ∷ m ∷ []) = minutes (cal.int h) (cal.int m)
  two_parts _ = none

  -- `_parse_time`, in minutes
  unfoldable pub parse_time : String → Option ℕ
  unfolding split
  parse_time value = two_parts (split b':' value)

  abbrev text_or : String → Option String → String
  text_or d none = d
  text_or d (some s) = s

  abbrev is_utc : String → Bool
  is_utc zone_name = str_eq (cal.upper zone_name) "UTC"

  -- the zone's wall clock; that of UTC where there is no such zone
  abbrev wall_clock : String → ℕ → ℕ
  wall_clock zone_name =
      if is_utc zone_name
      then (λ t. t)
      else elim (cal.zone zone_name) [ none ↦ (λ t. t) | some wall ↦ wall ]

  abbrev day_names : Option Days → List String
  day_names none = []
  day_names (some (one d)) = if str_eq d "" then [] else d ∷ []
  day_names (some (many l)) = l

  abbrev first_days : List String → List String → List String
  first_days [] l = l
  first_days (d ∷ ds) l = d ∷ ds

  abbrev no_names : List String → Bool
  no_names [] = true
  no_names (_ ∷ _) = false

  abbrev or_all : List String → List String
  or_all [] = "*" ∷ []
  or_all (s ∷ l) = s ∷ l

  abbrev window_name : Item → String
  window_name i =
      if truthy i.name then text_or "" i.name else if truthy i.id then text_or "" i.id else "freeze"

  abbrev dated : Item → Option ℕ → Option ℕ → Option (List FreezeWindow)
  dated i (some s) (some e) = some (
      record {
        name = window_name i;
        services = or_all i.services;
        allow_tags = i.allow_tags;
        from = some s;
        until = some e;
        days = [];
        start_time = none;
        end_time = none;
        wall = λ t. t;
      }
      ∷ [])
  dated i _ _ = none

  abbrev recurring : Item → Option (List ℕ) → Option ℕ → Option ℕ → Option (List FreezeWindow)
  recurring i (some ns) (some s) (some e) = some (
      record {
        name = window_name i;
        services = or_all i.services;
        allow_tags = i.allow_tags;
        from = none;
        until = none;
        days = ns;
        start_time = some s;
        end_time = some e;
        wall = wall_clock (text_or "UTC" i.timezone);
      }
      ∷ [])
  recurring i _ _ _ = none

  -- The loop body of `_parse_windows`: the window of an entry, no window, or `none` for an exception.
  unfoldable pub parse_item : Item → Option (List FreezeWindow)
  unfolding weekday_indexes parse_time
  parse_item i =
      let start = text_or "" i.start in
      let names = first_days (day_names i.days) (day_names i.weekday) in
      if truthy i.start
      then dated i (cal.instant start) (cal.instant (text_or start i.end))
      else if no_names names
      then some []
      else recurring i (weekday_indexes names) (parse_time (text_or "00:00" i.start_time))
          (parse_time (text_or "23:59" i.end_time))

  -- `_parse_windows`, where an entry that is no dictionary is `none`
  unfoldable pub parse_windows : List (Option Item) → Option (List FreezeWindow)
  unfolding parse_item
  parse_windows [] = some []
  parse_windows (none ∷ l) = parse_windows l
  parse_windows (some i ∷ l) = elim (parse_item i) [
    | none ↦ none
    | some ws ↦ elim (parse_windows l) [ none ↦ none | some rest ↦ some (ws ++ rest) ]
  ]
