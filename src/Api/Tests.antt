-- ===== src/Api/Tests.antt =====
-- Examples: two workflows with a task each, a backup of one task, and requests.
use celery_insights.Common.{
  ℕ, Option, lookup, false, String, flat_map, ◌≤◌, ◌<◌, ◌≡◌, refl, true, some, none, List, [], ◌∷◌,
  all, filter, includes, length, Eq-String, ok, err, http_error,
}
use celery_insights.Common.Json.{null}
use celery_insights.Common.Text.{join, strip}
use celery_insights.TaskSearch.{SearchCode, trim_query, drop_spaces}
use celery_insights.Api.Statement.{
  Export, export_statement, export_sql, search_of, conditions_of, mappings, allowed_sort,
}
use celery_insights.Api.Statement.Shape.{
  SameExport, NamesSame-none, sortable, export_statement-same,
}
use celery_insights.Api.Cleanup.{
  Retention, Workflow, Store, cleanup, remove_excess, remove_workflows, remove_workers, over_count,
  over_age,
}
use celery_insights.Api.Cleanup.Shortest.{IsOldest, over_count-IsOldest}
use celery_insights.Api.Ordering.{insert, sort, order_by, order_by-Orders}
use celery_insights.Api.Cleanup.Connected.{IsConnected, cleanup-IsConnected}
use celery_insights.Api.Backup.{
  Backup, Row, Cell, import_backup, of_tasks, check_backup, creates, create, dated, plan_times,
  date_fields,
}
use celery_insights.Api.Backup.Accepted.{is_sent, is_thrown}
use celery_insights.Api.Bodies.{Request, Schemas, bounded_body, json, read_chunks}
use celery_insights.Api.Calls.{Api, clear}
use celery_insights.Api.Requests.{cleared, clear_tables, handle, csv, export_csv}
use celery_insights.Api.Requests.Replay.{Change, request_of, IsUntouched, handle-IsUntouched}

abbrev old : Workflow
old = record { id = "w1"; task_count = some 1; last_updated = 5 }

abbrev young : Workflow
young = record { id = "w2"; task_count = some 1; last_updated = 9 }

abbrev store : Store
store = record {
  workflows = young ∷ old ∷ [];
  tasks = record { id = "a"; workflow_id = "w1" } ∷ record { id = "b"; workflow_id = "w2" } ∷ [];
  events = record { id = "1"; task_id = "a" } ∷ record { id = "2"; task_id = "b" } ∷ [];
  edges = record { from = "w1"; out = "a" } ∷ record { from = "w2"; out = "b" } ∷ [];
  workers = [];
}

abbrev at_most_one : Retention
at_most_one = record {
  cleanup_interval_seconds = 60;
  task_max_count = some 1;
  task_retention_hours = none;
  dead_worker_retention_hours = some 24;
}

connected : IsConnected store
unfolding all includes
connected = record { of_workflows = refl; of_tasks = refl; ends = refl }

cleanup-IsConnected_example : IsConnected (cleanup order_by 100 at_most_one store)
cleanup-IsConnected_example = cleanup-IsConnected order_by 100 at_most_one store connected

one_left :
    (cleanup order_by 100 at_most_one store).tasks ≡ record { id = "b"; workflow_id = "w2" } ∷ []
unfolding cleanup remove_workflows remove_workers over_count over_age remove_excess filter includes
    insert sort
one_left = refl

over_count-IsOldest_example :
    (1 < length store.tasks → IsOldest 1 store (over_count order_by (some 1) store))
    × (length store.tasks ≤ 1 → over_count order_by (some 1) store ≡ [])
over_count-IsOldest_example = over_count-IsOldest order_by 1 store order_by-Orders

abbrev backup_of : List Row → Backup
backup_of tasks = record { tasks = tasks; events = []; workers = [] }

abbrev one_task : Row
one_task = record { id = some "task:a"; content = ("sent_at", Cell.text "2024-01-01") ∷ [] }

one_sent : is_sent (import_backup (λ s. true) (backup_of (one_task ∷ []))) ≡ true
unfolding import_backup check_backup creates create dated plan_times date_fields includes lookup
    strip
one_sent = refl

-- A number for `last_updated`.
abbrev timeless : Row
timeless = record { id = some "task:a"; content = ("last_updated", Cell.other) ∷ [] }

one_thrown : is_thrown (import_backup (λ s. true) (backup_of (timeless ∷ []))) ≡ true
unfolding import_backup check_backup creates create dated plan_times date_fields includes lookup
    strip
one_thrown = refl

abbrev schemas : Schemas
schemas = record {
  parse_json = λ bytes. some null;
  parse_retention = λ j. none;
  read_upload = λ bytes. none;
  parse_backup = λ j. none;
  is_export = λ j. true;
  is_date = λ s. true;
}

abbrev api : Api
api = record { retention = at_most_one; saved = none; writes = [] }

abbrev export_request : Request
export_request = record {
  method = "POST";
  pathname = "/api/exports/csv";
  body = some ((1 ∷ []) ∷ (2 ∷ []) ∷ []);
}

export_answered : handle schemas export_request true api ≡ (ok csv, api)
unfolding handle export_csv json bounded_body read_chunks
export_answered = refl

handle-IsUntouched_example :
    ((request : Request) (api : Api) → IsUntouched api (handle schemas request true api))
    × ((change : Change) (body : Option (List (List ℕ))) (api : Api)
        → handle schemas (request_of change body) true api
          ≡ (err (http_error 403 "Snapshot is read-only"), api))
handle-IsUntouched_example = handle-IsUntouched schemas

clear_writes :
    handle schemas
      (record { method = "POST"; pathname = "/api/settings/clear"; body = none })
      false
      api
    ≡ (ok cleared, record { retention = at_most_one; saved = none; writes = clear ∷ [] })
unfolding handle clear_tables
clear_writes = refl

abbrev search_code : SearchCode
search_code = record {
  to_lower_case = λ s. s;
  patterns = λ s. none;
  tokenizes = "";
  malformed = "";
  search_term = λ s. none;
}

abbrev failures : (sort : String) → List String → Export
failures sort types = record {
  raw_events = false;
  workflows = false;
  from = "2024-01-01";
  to = "2024-02-01";
  query = [];
  states = "FAILURE" ∷ [];
  types = types;
  workers = [];
  workflow_states = [];
  root_types = [];
  sort_field = sort;
  descending = true;
}

same_kind :
    SameExport search_code
      (λ s. s)
      (failures "id; DELETE task" ("a" ∷ []))
      (failures "x" ("b" ∷ "c" ∷ []))
unfolding includes
same_kind = record {
  raw_events = refl;
  workflows = refl;
  states = refl;
  types = refl;
  workers = refl;
  workflow_states = refl;
  root_types = refl;
  sorts = NamesSame-none (sortable false) "id; DELETE task" "x" refl refl;
  descending = refl;
  queried = refl;
  trimmed = refl;
  search = record { keyword = refl; short = refl };
}

export_statement-same_example :
    (export_statement search_code (λ s. s) (failures "id; DELETE task" ("a" ∷ []))).sql
    ≡ (export_statement search_code (λ s. s) (failures "x" ("b" ∷ "c" ∷ []))).sql
export_statement-same_example =
    export_statement-same search_code (λ s. s) (failures "id; DELETE task" ("a" ∷ []))
      (failures "x" ("b" ∷ "c" ∷ [])) same_kind

failures_by_update :
    (export_statement search_code (λ s. s) (failures "id; DELETE task" [])).sql
    ≡ "SELECT * FROM task WHERE last_updated >= <datetime>$from AND last_updated <= <datetime>$to AND state IN $state ORDER BY last_updated DESC"
unfolding export_statement export_sql search_of conditions_of mappings trim_query drop_spaces
    flat_map join allowed_sort includes
failures_by_update = refl
