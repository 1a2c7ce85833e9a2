-- ===== src/Export/Rows.antt =====
-- What a reader of CSV makes of whole exports.
use celery_insights.Common.{
  ◌≡◌, refl, ◌∙◌, ap, sym, subst, Bool, true, not, ◌||◌, List, [], ◌∷◌, ◌++◌, map, all, drop,
  String, includes, flat_map, arith, inl, inr, ◌⊎◌,
}
use celery_insights.Common.Text.{codes}
use celery_insights.Common.Split.{join_with}
use celery_insights.Export.{
  Text, Value, text, csv_text, escape_csv_value, Task, field_value, csv_fields, task_to_csv_row,
  tasks_to_csv, needs_quotes, opens_formula, opens_control,
}
use celery_insights.Export.Cells.{
  outside, closing, State, start, step, run, run-append, Reads, Reads-escape_csv_value,
}
use mathlib.Core.List.{append_assoc, append-nil}

-- The last row ends where the text does, unless it is empty.
abbrev pub end_rows : List Text → Text → List (List Text) → List (List Text)
end_rows [] [] rows = rows
end_rows row cell rows = rows ++ (row ++ cell ∷ []) ∷ []

unfoldable pub read_csv : Text → List (List Text)
read_csv s = let end = run (start [] []) s in end_rows end.row end.cell end.rows

-- The reader is outside of quotes, with a whole row but for its end.
pub record HasRow (end : State) (cells : List Text) (rows : List (List Text)) : Type 0 where
  settled : (end.place ≡ outside) ⊎ (end.place ≡ closing)
  whole : end.row ++ end.cell ∷ [] ≡ cells
  before : end.rows ≡ rows

step-comma :
    (end : State) (cells : List Text) (rows : List (List Text))
    → HasRow end cells rows
    → step end b',' ≡ start cells rows
unfolding step
step-comma end cells rows h = elim h.settled [
  | inl at_start ↦ ground (arith, at_start, h.whole, h.before)
  | inr at_quote ↦ ground (arith, at_quote, h.whole, h.before)
]

step-line :
    (end : State) (cells : List Text) (rows : List (List Text))
    → HasRow end cells rows
    → step end 10 ≡ start [] (rows ++ cells ∷ [])
unfolding step
step-line end cells rows h = elim h.settled [
  | inl at_start ↦ ground (arith, at_start, h.whole, h.before)
  | inr at_quote ↦ ground (arith, at_quote, h.whole, h.before)
]

module _ {V : Type 0} (write : V → Text) (cell : V → Text)
    (reads : (v : V) → Reads (write v) (cell v)) where
  HasRow-cell :
      (v : V) (row : List Text) (rows : List (List Text))
      → HasRow (run (start row rows) (write v)) (row ++ cell v ∷ []) rows
  HasRow-cell v row rows = elim (reads v row rows) [
    | inl plain ↦
        subst (λ end. HasRow end (row ++ cell v ∷ []) rows) (sym plain)
          (record { settled = inl refl; whole = refl; before = refl })
    | inr quoted ↦
        subst (λ end. HasRow end (row ++ cell v ∷ []) rows) (sym quoted)
          (record { settled = inr refl; whole = refl; before = refl })
  ]

  HasRow-join_with :
      (v : V) (vs : List V) (row : List Text) (rows : List (List Text))
      → HasRow
          (run (start row rows) (join_with b',' (map write (v ∷ vs))))
          (row ++ map cell (v ∷ vs))
          rows
  unfolding join_with run
  HasRow-join_with v [] row rows = HasRow-cell v row rows
  HasRow-join_with v (w ∷ vs) row rows =
      let rest = join_with b',' (map write (w ∷ vs)) in
      subst (λ end. HasRow end (row ++ cell v ∷ map cell (w ∷ vs)) rows)
        (sym (
          run-append (start row rows) (write v) (b',' ∷ rest)
          ∙ ap (λ end. run end rest)
              (step-comma (run (start row rows) (write v)) (row ++ cell v ∷ []) rows
                (HasRow-cell v row rows))))
        (subst (λ cells. HasRow (run (start (row ++ cell v ∷ []) rows) rest) cells rows)
          (append_assoc row (cell v ∷ []) (map cell (w ∷ vs)))
          (HasRow-join_with w vs (row ++ cell v ∷ []) rows))

  -- A table's lines, joined by line feeds, each with at least two values.
  abbrev pub line_of : V × (V × List V) → Text
  line_of (v, (w, vs)) = join_with b',' (map write (v ∷ w ∷ vs))

  abbrev pub cells_of : V × (V × List V) → List Text
  cells_of (v, (w, vs)) = map cell (v ∷ w ∷ vs)

  end_rows-HasRow :
      (row : List Text) (last : Text) (before rows : List (List Text)) (a b : Text)
      (cells : List Text)
      → row ++ last ∷ [] ≡ a ∷ b ∷ cells
      → before ≡ rows
      → end_rows row last before ≡ rows ++ (a ∷ b ∷ cells) ∷ []
  end_rows-HasRow [] last before rows a b cells h k = cc
  end_rows-HasRow (x ∷ row) last before rows a b cells h k = rw k (rw h refl)

  pub run-lines :
      (r : V × (V × List V)) (rs : List (V × (V × List V))) (rows : List (List Text))
      → let end = run (start [] rows) (join_with 10 (map line_of (r ∷ rs))) in
        end_rows end.row end.cell end.rows ≡ rows ++ map cells_of (r ∷ rs)
  unfolding join_with run
  run-lines (v, (w, vs)) [] rows =
      let end = run (start [] rows) (line_of (v, (w, vs))) in
      let h = HasRow-join_with v (w ∷ vs) [] rows in
      end_rows-HasRow end.row end.cell end.rows rows (cell v) (cell w) (map cell vs) h.whole
        h.before
  run-lines (v, (w, vs)) (next ∷ rs) rows =
      let rest = join_with 10 (map line_of (next ∷ rs)) in
      ap (λ (end : State). end_rows end.row end.cell end.rows)
        (run-append (start [] rows) (line_of (v, (w, vs))) (10 ∷ rest)
          ∙ ap (λ end. run end rest)
              (step-line (run (start [] rows) (line_of (v, (w, vs)))) (cells_of (v, (w, vs))) rows
                (HasRow-join_with v (w ∷ vs) [] rows)))
      ∙ run-lines next rs (rows ++ cells_of (v, (w, vs)) ∷ [])
      ∙ append_assoc rows (cells_of (v, (w, vs)) ∷ []) (map cells_of (next ∷ rs))

  -- Lines that end with a carriage return and a line feed.
  abbrev pub ended : V × (V × List V) → Text
  ended r = line_of r ++ 13 ∷ 10 ∷ []

  step-return :
      (end : State) (cells : List Text) (rows : List (List Text))
      → HasRow end cells rows
      → HasRow (step end 13) cells rows
  unfolding step
  step-return end cells rows h = elim h.settled [
    | inl at_start ↦ subst (λ e. HasRow e cells rows) (ground (arith, at_start)) h
    | inr at_quote ↦ subst (λ e. HasRow e cells rows) (ground (arith, at_quote)) h
  ]

  pub run-ended :
      (rs : List (V × (V × List V))) (rows : List (List Text))
      → run (start [] rows) (flat_map ended rs) ≡ start [] (rows ++ map cells_of rs)
  unfolding flat_map run
  run-ended [] rows = rw append-nil refl
  run-ended ((v, (w, vs)) ∷ rs) rows =
      let r : V × (V × List V) = (v, (w, vs)) in
      let end = run (start [] rows) (line_of r) in
      run-append (start [] rows) (ended r) (flat_map ended rs)
      ∙ ap (λ e. run e (flat_map ended rs))
          (run-append (start [] rows) (line_of r) (13 ∷ 10 ∷ [])
            ∙ step-line (step end 13) (cells_of r) rows
                (step-return end (cells_of r) rows (HasRow-join_with v (w ∷ vs) [] rows)))
      ∙ run-ended rs (rows ++ cells_of r ∷ [])
      ∙ ap (start []) (append_assoc rows (cells_of r ∷ []) (map cells_of rs))

pub map-map :
    {A B C : Type 0} (f : B → C) (g : A → B) (xs : List A)
    → map f (map g xs) ≡ map (λ x. f (g x)) xs
map-map f g [] = refl
map-map f g (x ∷ xs) = ap (λ ys. f (g x) ∷ ys) (map-map f g xs)

-- A name that is written as it is.
abbrev pub is_plain : String → Bool
is_plain name =
    not (needs_quotes (codes name) || (opens_formula (codes name) || opens_control (codes name)))

pub plain_cell :
    (name : String)
    → is_plain name ≡ true
    → (escape_csv_value (text (codes name)) ≡ codes name)
      × (csv_text (text (codes name)) ≡ codes name)
unfolding escape_csv_value csv_text
plain_cell name h = (ground (arith, h), ground (arith, h))

pub plain_cells :
    (names : List String)
    → all is_plain names ≡ true
    → (map escape_csv_value (map (λ name. text (codes name)) names) ≡ map codes names)
      × (map csv_text (map (λ name. text (codes name)) names) ≡ map codes names)
unfolding all
plain_cells [] h = (refl, refl)
plain_cells (name ∷ names) h =
    let (written, shown) = plain_cell name (ground (arith, h)) in
    let (rest_written, rest_shown) = plain_cells names (ground (arith, h)) in
    (rw written (rw rest_written refl), rw shown (rw rest_shown refl))

abbrev pub Line : Type 0
Line = Value × (Value × List Value)

module _ (f g : String) (fs : List String) where
  -- A line of the fields `f`, `g` and `fs`, by field.
  abbrev line_by : (String → Value) → Line
  line_by value = (value f, (value g, map value fs))

  abbrev row_text : Task → Text
  row_text task =
      join_with b',' (map (λ field. escape_csv_value (field_value task field)) (f ∷ g ∷ fs))

  row_text-line_by :
      (task : Task)
      → row_text task
        ≡ line_of escape_csv_value csv_text Reads-escape_csv_value (line_by (field_value task))
  row_text-line_by task =
      ap
        (λ cells.
          join_with b','
            (escape_csv_value (field_value task f) ∷ escape_csv_value (field_value task g) ∷ cells))
        (sym (map-map escape_csv_value (field_value task) fs))

  map-row_text :
      (tasks : List Task)
      → map row_text tasks
        ≡ map
            (line_of escape_csv_value csv_text Reads-escape_csv_value)
            (map (λ task. line_by (field_value task)) tasks)
  map-row_text [] = refl
  map-row_text (task ∷ tasks) = rw (row_text-line_by task) (rw (map-row_text tasks) refl)

  map-cells_of :
      (tasks : List Task)
      → map
          (cells_of escape_csv_value csv_text Reads-escape_csv_value)
          (map (λ task. line_by (field_value task)) tasks)
        ≡ map (λ task. map (λ field. csv_text (field_value task field)) (f ∷ g ∷ fs)) tasks
  map-cells_of [] = refl
  map-cells_of (task ∷ tasks) =
      rw (map-cells_of tasks) (rw (map-map csv_text (field_value task) fs) refl)

  read_csv-rows :
      (tasks : List Task)
      → all is_plain (f ∷ g ∷ fs) ≡ true
      → read_csv (join_with 10 (join_with b',' (map codes (f ∷ g ∷ fs)) ∷ map row_text tasks))
        ≡ map codes (f ∷ g ∷ fs)
          ∷ map (λ task. map (λ field. csv_text (field_value task field)) (f ∷ g ∷ fs)) tasks
  unfolding read_csv
  read_csv-rows tasks plain =
      let (written, shown) = plain_cells (f ∷ g ∷ fs) plain in
      let lines = map (λ task. line_by (field_value task)) tasks in
      ap (λ s. read_csv (join_with 10 s))
        (ap (λ cells. join_with b',' cells ∷ map row_text tasks) (sym written)
          ∙ ap
              (λ rows.
                line_of escape_csv_value csv_text Reads-escape_csv_value
                  (line_by (λ name. text (codes name)))
                ∷ rows)
              (map-row_text tasks))
      ∙ run-lines escape_csv_value csv_text Reads-escape_csv_value
          (line_by (λ name. text (codes name))) lines []
      ∙ ap (λ cells. cells ∷ map (cells_of escape_csv_value csv_text Reads-escape_csv_value) lines)
          shown
      ∙ ap (λ rows. map codes (f ∷ g ∷ fs) ∷ rows) (map-cells_of tasks)

-- A reader of an export of tasks finds the header and, for each task in order, one row with a cell
-- for each field: the text of its value, with an apostrophe before a text that opens like a formula.
pub read_csv-tasks_to_csv :
    (tasks : List Task)
    → read_csv (tasks_to_csv tasks)
      ≡ map codes csv_fields
        ∷ map (λ task. map (λ field. csv_text (field_value task field)) csv_fields) tasks
unfolding tasks_to_csv task_to_csv_row csv_fields drop all opens_formula includes
read_csv-tasks_to_csv tasks = read_csv-rows "id" "type" (drop 2 csv_fields) tasks refl
