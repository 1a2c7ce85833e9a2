-- ===== src/TimeRange/Roundtrip.antt =====
-- The round trip of a saved time range.
use celery_insights.Common.{
  ℕ, ◌≡◌, refl, ◌∙◌, ap, true, false, Option, some, none, List, [], ◌∷◌, ◌++◌, drop, nat_eq, all,
  ◌==◌, Eq-List, Eq-ℕ, list_eq, Bool-cases, inl, inr,
}
use celery_insights.Common.Text.{codes, split, strip, add_first}
use celery_insights.Common.Split.{join_with, lacks, split-lacks, split-append}
use celery_insights.TimeRange.{
  RangeUnit, minute, hour, CalendarUnit, calendar_text, relative, calendar_start, anchored,
  TimeRange, live, static, Texts, unit_text, colon, bar, unit_of, calendar_unit, week_text,
  serialize, deserialize, read_relative, read_calendar, read_anchored, read_static, read_mode,
  week_of,
}

-- What a saved range reads back as: the bounds of a relative or calendar range are those of now.
abbrev pub restored : {N D : Type 0} → D → TimeRange N D → TimeRange N D
restored now (live start end anchored) = live start now anchored
restored now (live start end range) = live now now range
restored now (static start end) = static start end

-- What is relied on of the parameters: texts read back, and the separators are not in them.
pub record ReadsBack {N D : Type 0} (texts : Texts N D) : Type 0 where
  pub finite : (n : N) → texts.finite (texts.number_text n) ≡ some n
  pub integer : (n : N) → texts.integer (texts.number_text n) ≡ some n
  pub date : (d : D) → texts.date (texts.iso d) ≡ some d
  pub plain_number : (n : N) → lacks colon (texts.number_text n) ≡ true
  pub other_number : (n : N) → (texts.number_text n == codes "default") ≡ false
  pub plain_date : (d : D) → lacks bar (texts.iso d) ≡ true

unit_of-text : (unit : RangeUnit) → unit_of (unit_text unit) ≡ some unit
unfolding unit_of list_eq
unit_of-text minute = refl
unit_of-text hour = refl
unit_of-text RangeUnit.day = refl
unit_of-text RangeUnit.week = refl
unit_of-text RangeUnit.month = refl

calendar_unit-text : (unit : CalendarUnit) → calendar_unit (calendar_text unit) ≡ some unit
unfolding calendar_unit list_eq
calendar_unit-text CalendarUnit.day = refl
calendar_unit-text CalendarUnit.week = refl
calendar_unit-text CalendarUnit.month = refl

lacks-unit : (unit : RangeUnit) → lacks colon (unit_text unit) ≡ true
unfolding all
lacks-unit minute = refl
lacks-unit hour = refl
lacks-unit RangeUnit.day = refl
lacks-unit RangeUnit.week = refl
lacks-unit RangeUnit.month = refl

lacks-calendar : (unit : CalendarUnit) → lacks colon (calendar_text unit) ≡ true
unfolding all
lacks-calendar CalendarUnit.day = refl
lacks-calendar CalendarUnit.week = refl
lacks-calendar CalendarUnit.month = refl

-- `join` undoes `split`.
join_with-add_first :
    (separator c : ℕ) (pieces : List (List ℕ))
    → join_with separator (add_first c pieces) ≡ c ∷ join_with separator pieces
unfolding join_with
join_with-add_first separator c [] = refl
join_with-add_first separator c (piece ∷ []) = refl
join_with-add_first separator c (piece ∷ next ∷ pieces) = refl

split-cons :
    (separator : ℕ) (text : List ℕ)
    → (piece : List ℕ) × (pieces : List (List ℕ)) × (split separator text ≡ piece ∷ pieces)
unfolding split
split-cons separator [] = ([], [], refl)
split-cons separator (c ∷ text) =
    let (piece, pieces, same) = split-cons separator text in
    elim (Bool-cases (nat_eq c separator)) [
      | inl at ↦ ([], split separator text, rw at refl)
      | inr inside ↦ (c ∷ piece, pieces, rw (inside, same) refl)
    ]

join_with-empty :
    (separator : ℕ) (text : List ℕ)
    → join_with separator ([] ∷ split separator text)
      ≡ separator ∷ join_with separator (split separator text)
unfolding join_with
join_with-empty separator text =
    let (piece, pieces, same) = split-cons separator text in rw same refl

join_with-split :
    (separator : ℕ) (text : List ℕ) → join_with separator (split separator text) ≡ text
unfolding split join_with
join_with-split separator [] = refl
join_with-split separator (c ∷ text) =
    let rest = join_with-split separator text in
    elim (Bool-cases (nat_eq c separator)) [
      | inl at ↦
          rw at (join_with-empty separator text ∙ cc (rest, (Eq-ℕ.equals_iff c separator).0 at))
      | inr inside ↦
          rw inside
            (join_with-add_first separator c (split separator text) ∙ ap (λ xs. c ∷ xs) rest)
    ]

-- The pieces of a saved range.
split-relative :
    (rest : List ℕ)
    → split colon (codes "v1:relative:" ++ rest) ≡ codes "v1" ∷ codes "relative" ∷ split colon rest
unfolding split
split-relative rest = refl

split-calendar :
    (rest : List ℕ)
    → split colon (codes "v1:calendar:" ++ rest) ≡ codes "v1" ∷ codes "calendar" ∷ split colon rest
unfolding split
split-calendar rest = refl

split-anchored :
    (rest : List ℕ)
    → split colon (codes "v1:anchored:" ++ rest) ≡ codes "v1" ∷ codes "anchored" ∷ split colon rest
unfolding split
split-anchored rest = refl

split-static :
    (rest : List ℕ)
    → split colon (codes "v1:static:" ++ rest) ≡ codes "v1" ∷ codes "static" ∷ split colon rest
unfolding split
split-static rest = refl

split-pair :
    (separator : ℕ) (a b : List ℕ)
    → lacks separator a ≡ true
    → lacks separator b ≡ true
    → split separator (a ++ separator ∷ b) ≡ a ∷ b ∷ []
split-pair separator a b h k =
    split-append separator a b h ∙ ap (λ x. a ∷ x) (split-lacks separator b k)

module _ {N D : Type 0} (texts : Texts N D) (reads : ReadsBack texts) (now : D) where
  deserialize-relative :
      (start end : D) (n : N) (unit : RangeUnit)
      → deserialize texts (serialize texts (live start end (relative n unit))) now
        ≡ some (live now now (relative n unit))
  unfolding serialize deserialize strip read_mode read_relative list_eq
  deserialize-relative start end n unit =
      rw
        (
          split-relative (texts.number_text n ++ colon ∷ unit_text unit),
          split-pair colon (texts.number_text n) (unit_text unit) (reads.plain_number n)
              (lacks-unit unit),
          reads.finite n,
          unit_of-text unit,
        )
        refl

  lacks-week : (starts : Option N) → lacks colon (week_text texts starts) ≡ true
  unfolding all
  lacks-week none = refl
  lacks-week (some n) = reads.plain_number n

  week_of-text : (starts : Option N) → week_of texts (some (week_text texts starts)) ≡ starts
  unfolding list_eq
  week_of-text none = refl
  week_of-text (some n) = rw (reads.other_number n) (reads.integer n)

  deserialize-calendar :
      (start end : D) (unit : CalendarUnit) (starts : Option N)
      → deserialize texts (serialize texts (live start end (calendar_start unit starts))) now
        ≡ some (live now now (calendar_start unit starts))
  unfolding serialize deserialize strip read_mode read_calendar list_eq drop
  deserialize-calendar start end unit starts =
      rw
        (
          split-calendar (calendar_text unit ++ colon ∷ week_text texts starts),
          split-pair colon (calendar_text unit) (week_text texts starts) (lacks-calendar unit)
              (lacks-week starts),
          calendar_unit-text unit,
        )
        (ap (λ s. some (live now now (calendar_start unit s))) (week_of-text starts))

  deserialize-anchored :
      (start end : D)
      → deserialize texts (serialize texts (live start end anchored)) now
        ≡ some (live start now anchored)
  unfolding serialize deserialize strip read_mode read_anchored list_eq
  deserialize-anchored start end =
      rw
        (
          split-anchored (texts.iso start),
          join_with-split colon (texts.iso start),
          reads.date start,
        )
        refl

  deserialize-static :
      (start end : D)
      → deserialize texts (serialize texts (static start end)) now ≡ some (static start end)
  unfolding serialize deserialize strip read_mode read_static list_eq drop
  deserialize-static start end =
      rw
        (
          split-static (texts.iso start ++ bar ∷ texts.iso end),
          split-pair bar (texts.iso start) (texts.iso end) (reads.plain_date start)
              (reads.plain_date end),
          reads.date start,
          reads.date end,
        )
        refl

  -- A saved time range reads back as itself, where a live one gets its moving bounds from the
  -- present: both for a relative or calendar range, the end for an anchored one. This holds if the
  -- texts of numbers and dates read back, no number's text has a colon or is "default", and no
  -- date's text has a bar.
  pub deserialize-serialize :
      (range : TimeRange N D)
      → deserialize texts (serialize texts range) now ≡ some (restored now range)
  deserialize-serialize (live start end (relative n unit)) = deserialize-relative start end n unit
  deserialize-serialize (live start end (calendar_start unit starts)) =
      deserialize-calendar start end unit starts
  deserialize-serialize (live start end anchored) = deserialize-anchored start end
  deserialize-serialize (static start end) = deserialize-static start end
