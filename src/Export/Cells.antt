-- ===== src/Export/Cells.antt =====
-- What a reader of CSV makes of one written cell. The reader follows RFC 4180, with a row that ends
-- at a line feed and a carriage return before it passed over.
use celery_insights.Common.{
  ℕ, ◌≡◌, refl, ◌∙◌, ap, false, List, [], ◌∷◌, ◌++◌, if◌then◌else◌, includes, flat_map, nat_eq,
  nat_eq_iff, Eq-ℕ, arith, Bool-cases, inl, inr, ◌⊎◌,
}
use celery_insights.Export.{
  Text, Value, csv_text, quote, double, quoted, needs_quotes, escape_csv_value, csv_cell,
}
use mathlib.Core.List.{append_assoc, append-nil}

pub data Place : Type 0 where
  outside inside closing : Place

-- Where the reader is, the cell and the row that it is in, and the rows before.
pub record State : Type 0 where
  pub place : Place
  pub cell : Text
  pub row : List Text
  pub rows : List (List Text)

abbrev pub start : List Text → List (List Text) → State
start row rows = record { place = outside; cell = []; row = row; rows = rows }

abbrev pub add : Place → ℕ → State → State
add place c s = record { place = place; cell = s.cell ++ c ∷ []; row = s.row; rows = s.rows }

abbrev pub move : Place → State → State
move place s = record { place = place; cell = s.cell; row = s.row; rows = s.rows }

-- After a cell, outside of quotes.
abbrev pub step_outside : State → ℕ → State
step_outside s c =
    if nat_eq c b','
    then start (s.row ++ s.cell ∷ []) s.rows
    else if nat_eq c 10
    then start [] (s.rows ++ (s.row ++ s.cell ∷ []) ∷ [])
    else if nat_eq c 13
    then s
    else add outside c s

unfoldable pub step : State → ℕ → State
step s c = elim s.place [
  | outside ↦ if nat_eq c quote then move inside s else step_outside s c
  | inside ↦ if nat_eq c quote then move closing s else add inside c s
  | closing ↦ if nat_eq c quote then add inside c s else step_outside s c
]

unfoldable pub run : State → Text → State
run s [] = s
run s (c ∷ cs) = run (step s c) cs

pub run-append : (s : State) (a b : Text) → run s (a ++ b) ≡ run (run s a) b
unfolding run
run-append s [] b = refl
run-append s (c ∷ a) b = run-append (step s c) a b

step-double :
    (c : ℕ) (cell rest : Text) (row : List Text) (rows : List (List Text))
    → run (record { place = inside; cell = cell; row = row; rows = rows }) (double c ++ rest)
      ≡ run (record { place = inside; cell = cell ++ c ∷ []; row = row; rows = rows }) rest
unfolding run step
step-double c cell rest row rows = elim (Bool-cases (nat_eq c quote)) [
  | inl same ↦ ground (arith, same, (nat_eq_iff c quote).0 same)
  | inr apart ↦ ground (arith, apart)
]

run-double :
    (s cell rest : Text) (row : List Text) (rows : List (List Text))
    → run
        (record { place = inside; cell = cell; row = row; rows = rows })
        (flat_map double s ++ rest)
      ≡ run (record { place = inside; cell = cell ++ s; row = row; rows = rows }) rest
unfolding flat_map
run-double [] cell rest row rows = rw append-nil refl
run-double (c ∷ s) cell rest row rows =
    ap (run (record { place = inside; cell = cell; row = row; rows = rows }))
      (append_assoc (double c) (flat_map double s) rest)
    ∙ step-double c cell (flat_map double s ++ rest) row rows
    ∙ run-double s (cell ++ c ∷ []) rest row rows
    ∙ ap (λ whole. run (record { place = inside; cell = whole; row = row; rows = rows }) rest)
        (append_assoc cell (c ∷ []) s)

step-plain :
    (c : ℕ) (s cell : Text) (row : List Text) (rows : List (List Text))
    → needs_quotes (c ∷ s) ≡ false
    → step (record { place = outside; cell = cell; row = row; rows = rows }) c
      ≡ record { place = outside; cell = cell ++ c ∷ []; row = row; rows = rows }
unfolding includes step
step-plain c s cell row rows h = ground (arith, h)

run-plain :
    (s cell : Text) (row : List Text) (rows : List (List Text))
    → needs_quotes s ≡ false
    → run (record { place = outside; cell = cell; row = row; rows = rows }) s
      ≡ record { place = outside; cell = cell ++ s; row = row; rows = rows }
unfolding run includes
run-plain [] cell row rows h = rw append-nil refl
run-plain (c ∷ s) cell row rows h =
    ap (λ state. run state s) (step-plain c s cell row rows h)
    ∙ run-plain s (cell ++ c ∷ []) row rows (ground (arith, h))
    ∙ ap (λ whole. record { place = outside; cell = whole; row = row; rows = rows })
        (append_assoc cell (c ∷ []) s)

-- The reader has read a cell, and is not inside of quotes.
abbrev pub Reads : Text → Text → Type 0
Reads written cell =
    (row : List Text) (rows : List (List Text))
    → (run (start row rows) written
        ≡ record { place = outside; cell = cell; row = row; rows = rows })
      ⊎ (run (start row rows) written
          ≡ record { place = closing; cell = cell; row = row; rows = rows })

Reads-quoted : (s : Text) → Reads (quoted s) s
unfolding quoted run step
Reads-quoted s row rows = inr (run-double s [] (quote ∷ []) row rows)

-- Both ways of writing a cell give the text of its value back.
pub Reads-escape_csv_value : (v : Value) → Reads (escape_csv_value v) (csv_text v)
unfolding escape_csv_value
Reads-escape_csv_value v row rows = elim (Bool-cases (needs_quotes (csv_text v))) [
  | inl special ↦ rw special (Reads-quoted (csv_text v) row rows)
  | inr plain ↦ inl (rw plain (run-plain (csv_text v) [] row rows plain))
]

pub Reads-csv_cell : (v : Value) → Reads (csv_cell v) (csv_text v)
unfolding csv_cell
Reads-csv_cell v row rows = Reads-quoted (csv_text v) row rows
