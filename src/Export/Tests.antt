-- ===== src/Export/Tests.antt =====
-- A task whose type is a formula and whose result has a quote and a line break.
use celery_insights.Common.{
  ◌≡◌, refl, ◌⊎◌, some, [], ◌∷◌, map, drop, String, flat_map, includes, if◌then◌else◌, ◌==◌,
  Eq-String,
}
use celery_insights.Common.Text.{codes, index_of}
use celery_insights.Export.{
  missing, text, Task, csv_text, csv_cell, escape_csv_value, field_value, csv_fields, tasks_to_csv,
  opens_formula, quoted,
}
use celery_insights.Export.Rows.{read_csv, read_csv-tasks_to_csv}
use celery_insights.Export.Server.{Field, scalar, id_string}
use celery_insights.Export.Inert.{IsInert, csv_text-IsInert}

abbrev formula : Task
formula = record {
  extracted_id = codes "a";
  children = some (codes "b" ∷ codes "c" ∷ []);
  field = λ name.
      if name == "type"
      then text (codes "=1+1")
      else if name == "result"
      then text (codes "say \"x\"\n")
      else missing;
}

read_csv-tasks_to_csv_example :
    read_csv (tasks_to_csv (formula ∷ []))
    ≡ map codes csv_fields ∷ map (λ field. csv_text (field_value formula field)) csv_fields ∷ []
read_csv-tasks_to_csv_example = read_csv-tasks_to_csv (formula ∷ [])

escaped : escape_csv_value (text (codes "say \"x\"\n")) ≡ codes "\"say \"\"x\"\"\n\""
unfolding escape_csv_value csv_text opens_formula quoted flat_map includes
escaped = refl

guarded : csv_cell (text (codes " =1")) ≡ codes "\"' =1\""
unfolding csv_cell csv_text opens_formula quoted flat_map includes
guarded = refl

csv_text-IsInert_example :
    IsInert (csv_text (text (codes "\t=1+1")))
    × ((csv_text (text (codes "\t=1+1")) ≡ codes "\t=1+1")
        ⊎ (csv_text (text (codes "\t=1+1")) ≡ b'\'' ∷ codes "\t=1+1"))
csv_text-IsInert_example = csv_text-IsInert (codes "\t=1+1")

abbrev seen : String → Field
seen name = if name == "id" then scalar (text (codes "event:⟨7⟩")) else scalar missing

plain_id : id_string (scalar (text (codes "event:⟨7⟩"))) ≡ codes "7"
unfolding id_string index_of drop includes
plain_id = refl
