-- ===== src/Export/Server.antt =====
-- The text of an export by the server: the end of `exportCsv` in runtime/observation-api.ts.
use celery_insights.Common.{
  ℕ, suc, ◌≡◌, refl, ◌∙◌, ap, sym, Option, some, List, [], ◌∷◌, ◌++◌, map, drop, String,
  if◌then◌else◌, includes, flat_map, Eq-ℕ, Eq-String,
}
use celery_insights.Common.Text.{codes, index_of}
use celery_insights.Common.Split.{join_with}
use celery_insights.Export.{Text, Value, missing, text, other, csv_text, csv_cell}
use celery_insights.Export.Cells.{State, Reads-csv_cell}
use celery_insights.Export.Rows.{
  end_rows, read_csv, Line, line_of, cells_of, ended, run-ended, map-map,
}
use mathlib.Core.List.{reverse, append_assoc, append-nil}

-- A value of a row: an object is shown as its JSON.
pub data Field : Type 0 where
  scalar : Value → Field
  object : (json : Text) → (string : Text) → Field

-- `String(value ?? "")`.
abbrev pub string_of : Field → Text
string_of (scalar missing) = []
string_of (scalar (text s)) = s
string_of (scalar (other s)) = s
string_of (object json s) = s

-- `replace(/^[^:]+:/, "")`.
abbrev pub after_colon : Text → Option ℕ → Text
after_colon s (some (suc i)) = drop (suc (suc i)) s
after_colon s _ = s

-- The first character is dropped when it is among these.
abbrev pub drop_first : Text → Text → Text
drop_first marks [] = []
drop_first marks (c ∷ s) = if includes marks c then s else c ∷ s

-- `idString`.
unfoldable pub id_string : Field → Text
id_string field =
    let key = after_colon (string_of field) (index_of b':' (string_of field)) in
    let opened = drop_first (10216 ∷ b'<' ∷ b'\'' ∷ b'"' ∷ []) key in
    reverse (drop_first (10217 ∷ b'>' ∷ b'\'' ∷ b'"' ∷ []) (reverse opened))

pub data Table : Type 0 where
  task workflow event : Table

-- `fields[table]`.
unfoldable pub fields : Table → List String
fields task =
    "id" ∷ "type" ∷ "state" ∷ "worker" ∷ "sent_at" ∷ "received_at" ∷ "started_at" ∷ "succeeded_at"
    ∷ "failed_at" ∷ "retried_at" ∷ "runtime" ∷ "last_updated" ∷ "retries" ∷ "exchange"
    ∷ "routing_key" ∷ "root_id" ∷ "workflow_id" ∷ "parent_id" ∷ "result" ∷ "exception" ∷ []
fields workflow =
    "id" ∷ "root_task_id" ∷ "root_task_type" ∷ "aggregate_state" ∷ "first_seen_at" ∷ "last_updated"
    ∷ "task_count" ∷ "completed_count" ∷ "failure_count" ∷ "retry_count" ∷ "active_count"
    ∷ "worker_count" ∷ "latest_exception_preview" ∷ []
fields event = "id" ∷ "timestamp" ∷ "event_type" ∷ "task_id" ∷ "hostname" ∷ "data" ∷ []

abbrev pub id_fields : List String
id_fields = "id" ∷ "root_task_id" ∷ "task_id" ∷ []

abbrev pub json_of : Field → Value
json_of (scalar v) = v
json_of (object json s) = text json

-- The value of a cell.
unfoldable pub cell_value : (String → Field) → String → Value
cell_value row field =
    if includes id_fields field then text (id_string (row field)) else json_of (row field)

unfoldable pub line : (String → Value) → List String → Text
line value columns = join_with b',' (map (λ column. csv_cell (value column)) columns)

-- `lines.join("\r\n")`.
unfoldable pub join_lines : List Text → Text
join_lines [] = []
join_lines (s ∷ []) = s
join_lines (s ∷ next ∷ lines) = s ++ 13 ∷ 10 ∷ join_lines (next ∷ lines)

-- The content of the response.
unfoldable pub csv_content : Table → List (String → Field) → Text
csv_content table rows =
    join_lines (
      line (λ column. text (codes column)) (fields table)
      ∷ map (λ row. line (cell_value row) (fields table)) rows)
    ++ 13 ∷ 10 ∷ []

join_lines-flat_map :
    (s : Text) (lines : List Text)
    → join_lines (s ∷ lines) ++ 13 ∷ 10 ∷ [] ≡ flat_map (λ l. l ++ 13 ∷ 10 ∷ []) (s ∷ lines)
unfolding join_lines flat_map
join_lines-flat_map s [] = sym (append-nil _)
join_lines-flat_map s (next ∷ lines) =
    append_assoc s (13 ∷ 10 ∷ join_lines (next ∷ lines)) (13 ∷ 10 ∷ [])
    ∙ ap (λ rest. s ++ 13 ∷ 10 ∷ rest) (join_lines-flat_map next lines)
    ∙ sym (append_assoc s (13 ∷ 10 ∷ []) (flat_map (λ l. l ++ 13 ∷ 10 ∷ []) (next ∷ lines)))

flat_map-map :
    {A B C : Type 0} (f : B → List C) (g : A → B) (xs : List A)
    → flat_map f (map g xs) ≡ flat_map (λ x. f (g x)) xs
unfolding flat_map
flat_map-map f g [] = refl
flat_map-map f g (x ∷ xs) = ap (λ ys. f (g x) ++ ys) (flat_map-map f g xs)

module _ (f g : String) (fs : List String) where
  abbrev by_column : (String → Value) → Line
  by_column value = (value f, (value g, map value fs))

  line-by_column :
      (value : String → Value)
      → line value (f ∷ g ∷ fs) ≡ line_of csv_cell csv_text Reads-csv_cell (by_column value)
  unfolding line
  line-by_column value =
      ap (λ cells. join_with b',' (csv_cell (value f) ∷ csv_cell (value g) ∷ cells))
        (sym (map-map csv_cell value fs))

  flat_map-lines :
      (values : List (String → Value))
      → flat_map (λ l. l ++ 13 ∷ 10 ∷ []) (map (λ value. line value (f ∷ g ∷ fs)) values)
        ≡ flat_map (ended csv_cell csv_text Reads-csv_cell) (map by_column values)
  unfolding flat_map
  flat_map-lines [] = refl
  flat_map-lines (value ∷ values) = rw (line-by_column value) (rw (flat_map-lines values) refl)

  map-by_column :
      (values : List (String → Value))
      → map (cells_of csv_cell csv_text Reads-csv_cell) (map by_column values)
        ≡ map (λ value. map (λ column. csv_text (value column)) (f ∷ g ∷ fs)) values
  map-by_column [] = refl
  map-by_column (value ∷ values) = rw (map-by_column values) (rw (map-map csv_text value fs) refl)

  read_csv-lines :
      (first : String → Value) (values : List (String → Value))
      → read_csv
          (join_lines (map (λ value. line value (f ∷ g ∷ fs)) (first ∷ values)) ++ 13 ∷ 10 ∷ [])
        ≡ map (λ value. map (λ column. csv_text (value column)) (f ∷ g ∷ fs)) (first ∷ values)
  unfolding read_csv
  read_csv-lines first values =
      let lines = map by_column (first ∷ values) in
      ap read_csv (
        join_lines-flat_map (line first (f ∷ g ∷ fs))
          (map (λ value. line value (f ∷ g ∷ fs)) values)
        ∙ flat_map-lines (first ∷ values))
      ∙ ap (λ (end : State). end_rows end.row end.cell end.rows)
          (run-ended csv_cell csv_text Reads-csv_cell lines [])
      ∙ map-by_column (first ∷ values)

-- The cells of a row, and of all rows of an export.
abbrev pub cells_of_row : Table → (String → Value) → List Text
cells_of_row table value = map (λ column. csv_text (value column)) (fields table)

content-table :
    (f g : String) (fs : List String) (table : Table)
    → fields table ≡ f ∷ g ∷ fs
    → (rows : List (String → Field))
    → read_csv (csv_content table rows)
      ≡ cells_of_row table (λ column. text (codes column))
        ∷ map (λ row. cells_of_row table (cell_value row)) rows
unfolding csv_content
content-table f g fs table same rows = rw same (
    ap
      (λ lines.
        read_csv
          (join_lines (line (λ column. text (codes column)) (f ∷ g ∷ fs) ∷ lines) ++ 13 ∷ 10 ∷ []))
      (sym (map-map (λ value. line value (f ∷ g ∷ fs)) cell_value rows))
    ∙ read_csv-lines f g fs (λ column. text (codes column)) (map cell_value rows)
    ∙ ap (λ cells. map (λ column. csv_text (text (codes column))) (f ∷ g ∷ fs) ∷ cells)
        (map-map (λ value. map (λ column. csv_text (value column)) (f ∷ g ∷ fs)) cell_value rows))

-- A reader of an export by the server finds a row of the columns' names and, for each record in
-- order, one row with a cell for each column: the text of its value, with an apostrophe before a
-- text that opens like a formula.
pub read_csv-csv_content :
    (table : Table) (rows : List (String → Field))
    → read_csv (csv_content table rows)
      ≡ cells_of_row table (λ column. text (codes column))
        ∷ map (λ row. cells_of_row table (cell_value row)) rows
unfolding fields drop
read_csv-csv_content task rows = content-table "id" "type" (drop 2 (fields task)) task refl rows
read_csv-csv_content workflow rows =
    content-table "id" "root_task_id" (drop 2 (fields workflow)) workflow refl rows
read_csv-csv_content event rows =
    content-table "id" "timestamp" (drop 2 (fields event)) event refl rows
