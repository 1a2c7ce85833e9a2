-- ===== src/Export.antt =====
-- CSV exports: src/lib/csv.ts, src/lib/export-tasks.ts, and `csvCell` of runtime/observation-api.ts.
-- Texts are their characters.
pub mod Rows
pub mod Cells
pub mod Inert
mod Tests
pub mod Server
use celery_insights.Common.{
  ℕ, Bool, true, false, not, ◌&&◌, ◌||◌, Option, some, none, List, [], ◌∷◌, ◌++◌, String, map,
  if◌then◌else◌, includes, any, flat_map, leb, nat_eq, ◌==◌, Eq-ℕ, Eq-String,
}
use celery_insights.Common.Text.{codes}
use celery_insights.Common.Split.{join_with}

abbrev pub Text : Type 0
Text = List ℕ

-- A value of a record: a string, or another value with its `String()`; null and undefined are empty.
pub data Value : Type 0 where
  missing : Value
  text : Text → Value
  other : (string : Text) → Value

-- `\s` and the control characters.
abbrev pub is_blank : ℕ → Bool
is_blank c =
    leb c 32
    || (includes (160 ∷ 5760 ∷ 8232 ∷ 8233 ∷ 8239 ∷ 8287 ∷ 12288 ∷ 65279 ∷ []) c
        || (leb 8192 c && leb c 8202))

-- `=`, `+`, `-` and `@`.
abbrev pub is_marker : ℕ → Bool
is_marker c = nat_eq c b'=' || (nat_eq c b'+' || (nat_eq c b'-' || nat_eq c b'@'))

-- `/^[\s\u0000-\u001f]*[=+\-@]/`.
unfoldable pub opens_formula : Text → Bool
opens_formula [] = false
opens_formula (c ∷ cs) = is_marker c || (is_blank c && opens_formula cs)

-- `/^[\t\r\n]/`.
abbrev pub opens_control : Text → Bool
opens_control [] = false
opens_control (c ∷ cs) = nat_eq c 9 || (nat_eq c 13 || nat_eq c 10)

-- `csvText`.
unfoldable pub csv_text : Value → Text
csv_text missing = []
csv_text (other s) = s
csv_text (text s) = if opens_formula s || opens_control s then b'\'' ∷ s else s

abbrev pub quote : ℕ
quote = b'"'

-- `text.replace(/"/g, '""')`.
abbrev pub double : ℕ → Text
double c = if nat_eq c quote then quote ∷ quote ∷ [] else c ∷ []

unfoldable pub quoted : Text → Text
quoted s = quote ∷ flat_map double s ++ quote ∷ []

abbrev pub needs_quotes : Text → Bool
needs_quotes s = includes s b',' || (includes s quote || (includes s 10 || includes s 13))

-- `escapeCsvValue`.
unfoldable pub escape_csv_value : Value → Text
escape_csv_value v = let s = csv_text v in if needs_quotes s then quoted s else s

-- `csvCell`.
unfoldable pub csv_cell : Value → Text
csv_cell v = quoted (csv_text v)

-- `CSV_FIELDS`.
unfoldable pub csv_fields : List String
csv_fields =
    "id" ∷ "type" ∷ "state" ∷ "worker" ∷ "sent_at" ∷ "received_at" ∷ "started_at" ∷ "succeeded_at"
    ∷ "failed_at" ∷ "retried_at" ∷ "revoked_at" ∷ "rejected_at" ∷ "runtime" ∷ "last_updated"
    ∷ "args" ∷ "kwargs" ∷ "eta" ∷ "expires" ∷ "retries" ∷ "exchange" ∷ "routing_key" ∷ "root_id"
    ∷ "parent_id" ∷ "children" ∷ "result" ∷ "result_truncated" ∷ "exception" ∷ "traceback" ∷ []

-- The task that a row is written from: its extracted id, its children, and its other fields.
pub record Task : Type 0 where
  pub extracted_id : Text
  pub children : Option (List Text)
  pub field : String → Value

abbrev pub or_empty : Option (List Text) → List Text
or_empty none = []
or_empty (some texts) = texts

-- The value of a field.
unfoldable pub field_value : Task → String → Value
field_value task field =
    if field == "id"
    then text task.extracted_id
    else if field == "children"
    then text (join_with b';' (or_empty task.children))
    else task.field field

unfoldable pub task_to_csv_row : Task → Text
task_to_csv_row task =
    join_with b',' (map (λ field. escape_csv_value (field_value task field)) csv_fields)

-- `tasksToCsv`.
unfoldable pub tasks_to_csv : List Task → Text
tasks_to_csv tasks =
    join_with 10 (join_with b',' (map codes csv_fields) ∷ map task_to_csv_row tasks)
