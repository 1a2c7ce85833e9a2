-- ===== src/TimeRange.antt =====
-- The saved form of a time range: serializeTimeRange and deserializeTimeRange of
-- src/lib/time-range-utils.ts. Numbers, dates and the parser of typed ranges are parameters.
mod Tests
pub mod Roundtrip
use celery_insights.Common.{
  ℕ, ◌≡◌, Bool, true, false, Option, some, none, List, [], ◌∷◌, ◌++◌, String, if◌then◌else◌, length,
  drop, nat_eq, ◌==◌, Eq-List, Eq-ℕ,
}
use celery_insights.Common.Split.{join_with}
use celery_insights.Common.Text.{codes, split, strip}
use mathlib.Core.Option

pub data RangeUnit : Type 0 where
  minute hour day week month : RangeUnit

pub data CalendarUnit : Type 0 where
  day week month : CalendarUnit

pub data LiveRange (N : Type 0) : Type 0 where
  relative : (value : N) → (unit : RangeUnit) → LiveRange N
  calendar_start : (unit : CalendarUnit) → (week_starts_on : Option N) → LiveRange N
  anchored : LiveRange N

pub data TimeRange (N D : Type 0) : Type 0 where
  live : (start end : D) → LiveRange N → TimeRange N D
  static : (start end : D) → TimeRange N D

-- `String()` and `Number()` (none where not finite, or not an integer), `toISOString()` and
-- `new Date()` (none where invalid), and `parseTimeRange`.
pub record Texts (N D : Type 0) : Type 0 where
  pub number_text : N → List ℕ
  pub finite : List ℕ → Option N
  pub integer : List ℕ → Option N
  pub iso : D → List ℕ
  pub date : List ℕ → Option D
  pub parse_range : List ℕ → D → Option (TimeRange N D)

abbrev pub unit_text : RangeUnit → List ℕ
unit_text minute = codes "minute"
unit_text hour = codes "hour"
unit_text RangeUnit.day = codes "day"
unit_text RangeUnit.week = codes "week"
unit_text RangeUnit.month = codes "month"

abbrev pub calendar_text : CalendarUnit → List ℕ
calendar_text CalendarUnit.day = codes "day"
calendar_text CalendarUnit.week = codes "week"
calendar_text CalendarUnit.month = codes "month"

abbrev pub colon : ℕ
colon = 58

abbrev pub bar : ℕ
bar = 124

abbrev pub nth : ℕ → List (List ℕ) → Option (List ℕ)
nth n pieces = elim (drop n pieces) [ [] ↦ none | piece ∷ rest ↦ some piece ]

-- The units of a relative range.
unfoldable pub unit_of : List ℕ → Option RangeUnit
unit_of text =
    if text == codes "minute"
    then some minute
    else if text == codes "hour"
    then some hour
    else if text == codes "day"
    then some RangeUnit.day
    else if text == codes "week"
    then some RangeUnit.week
    else if text == codes "month"
    then some RangeUnit.month
    else none

-- Those of a calendar range.
unfoldable pub calendar_unit : List ℕ → Option CalendarUnit
calendar_unit text =
    if text == codes "day"
    then some CalendarUnit.day
    else if text == codes "week"
    then some CalendarUnit.week
    else if text == codes "month"
    then some CalendarUnit.month
    else none

module _ {N D : Type 0} (texts : Texts N D) where
  open texts use {number_text, finite, integer, iso, date, parse_range}

  abbrev pub week_text : Option N → List ℕ
  week_text none = codes "default"
  week_text (some n) = number_text n

  unfoldable pub serialize : TimeRange N D → List ℕ
  serialize (live start end (relative value unit)) =
      codes "v1:relative:" ++ number_text value ++ colon ∷ unit_text unit
  serialize (live start end (calendar_start unit starts)) =
      codes "v1:calendar:" ++ calendar_text unit ++ colon ∷ week_text starts
  serialize (live start end anchored) = codes "v1:anchored:" ++ iso start
  serialize (static start end) = codes "v1:static:" ++ iso start ++ bar ∷ iso end

  abbrev pub both : {A B C : Type 0} → (A → B → C) → Option A → Option B → Option C
  both f (some a) (some b) = some (f a b)
  both f _ _ = none

  unfoldable pub read_relative : D → List (List ℕ) → Option (TimeRange N D)
  read_relative now (value ∷ unit ∷ rest) =
      both (λ n u. live now now (relative n u)) (finite value) (unit_of unit)
  read_relative now _ = none

  -- `rawWeekStartsOn`, undefined where it is missing or no integer.
  abbrev pub week_of : Option (List ℕ) → Option N
  week_of none = none
  week_of (some raw) = if raw == codes "default" then none else integer raw

  unfoldable pub read_calendar : D → List (List ℕ) → Option (TimeRange N D)
  read_calendar now [] = none
  read_calendar now (unit ∷ rest) =
      Option.map (λ u. live now now (calendar_start u (week_of (nth 0 rest)))) (calendar_unit unit)

  unfoldable pub read_anchored : D → List (List ℕ) → Option (TimeRange N D)
  read_anchored now rest =
      Option.map (λ start. live start now anchored) (date (join_with colon rest))

  abbrev pub date_at : Option (List ℕ) → Option D
  date_at none = none
  date_at (some text) = date text

  unfoldable pub read_static : List ℕ → Option (TimeRange N D)
  read_static value =
      let tokens = split bar (drop (length (codes "v1:static:")) value) in
      both static (date_at (nth 0 tokens)) (date_at (nth 1 tokens))

  -- The branches on the mode, the second piece.
  unfoldable pub read_mode : List ℕ → D → List (List ℕ) → Option (TimeRange N D)
  read_mode value now (version ∷ mode ∷ rest) =
      if mode == codes "relative"
      then read_relative now rest
      else if mode == codes "calendar"
      then read_calendar now rest
      else if mode == codes "anchored"
      then read_anchored now rest
      else if mode == codes "static"
      then read_static value
      else parse_range value now
  read_mode value now _ = parse_range value now

  unfoldable pub deserialize : List ℕ → D → Option (TimeRange N D)
  deserialize value now = elim (strip (codes "v1:") value) [
    | none ↦ parse_range value now
    | some rest ↦ read_mode value now (split colon value)
  ]
