-- ===== src/Api/Statement.antt =====
-- The statement of an export: `exportCsv` of runtime/observation-api.ts, on a request that its schema
-- accepts. `trim` of a text is a parameter.
pub mod Shape
use celery_insights.Common.{
  ℕ, Bool, true, false, not, Option, some, none, List, [], ◌∷◌, ◌++◌, String, map, flat_map,
  if◌then◌else◌, includes, Eq-String,
}
use celery_insights.Common.Text.{◌<>◌, join}
use celery_insights.TaskSearch.{
  Binding, text, texts, characters, Bindings, SearchCode, TaskSearch, trim_query,
  build_indexed_task_search, build_indexed_workflow_search,
}
use celery_insights.Export.Server.{Table, task, workflow, event}

-- The request, by its kind and mode, with its query as characters.
pub record Export : Type 0 where
  pub raw_events : Bool
  pub workflows : Bool
  pub from : String
  pub to : String
  pub query : List ℕ
  pub states : List String
  pub types : List String
  pub workers : List String
  pub workflow_states : List String
  pub root_types : List String
  pub sort_field : String
  pub descending : Bool

pub record Statement : Type 0 where
  pub sql : String
  pub bindings : Bindings

abbrev pub table_of : Export → Table
table_of e = if e.raw_events then event else if e.workflows then workflow else task

abbrev pub table_name : Table → String
table_name task = "task"
table_name workflow = "workflow"
table_name event = "event"

abbrev pub time_field : Table → String
time_field event = "timestamp"
time_field _ = "last_updated"

-- `mappings`.
unfoldable pub mappings : Table → Export → List (String × List String)
mappings task e = ("state", e.states) ∷ ("type", e.types) ∷ ("worker", e.workers) ∷ []
mappings workflow e = ("aggregate_state", e.workflow_states) ∷ ("root_task_type", e.root_types) ∷ []
mappings event e = ("event_type", e.types) ∷ []

abbrev pub is_empty : {A : Type 0} → List A → Bool
is_empty [] = true
is_empty (x ∷ xs) = false

abbrev pub condition_of : String × List String → List String
condition_of (field, items) = if is_empty items then [] else (field <> " IN $" <> field) ∷ []

abbrev pub binding_of : String × List String → Bindings
binding_of (field, items) = if is_empty items then [] else (field, texts items) ∷ []

abbrev pub event_condition : String
event_condition =
    "("
    <> join " OR " (
        map
          (λ field.
            "string::contains(string::lowercase(string::concat('', " <> field
            <> " ?? '')), $query)")
          ("event_type" ∷ "task_id" ∷ "hostname" ∷ "data" ∷ []))
    <> ")"

-- `allowedSort`.
unfoldable pub allowed_sort : Table → List String
allowed_sort task =
    "last_updated" ∷ "state" ∷ "type" ∷ "worker" ∷ "runtime" ∷ "sent_at" ∷ "started_at" ∷ []
allowed_sort _ =
    "last_updated" ∷ "aggregate_state" ∷ "root_task_type" ∷ "task_count" ∷ "failure_count"
    ∷ "active_count" ∷ "worker_count" ∷ []

abbrev pub sort_of : Table → Export → String
sort_of event e = "timestamp"
sort_of table e =
    if includes (allowed_sort table) e.sort_field then e.sort_field else "last_updated"

abbrev pub direction_of : Table → Export → String
direction_of event e = "DESC"
direction_of table e = if e.descending then "DESC" else "ASC"

-- What the query adds: the statements before, the source, a condition and bindings.
pub record Search : Type 0 where
  pub prelude : List String
  pub source : String
  pub conditions : List String
  pub bindings : Bindings

abbrev pub no_search : Table → Search
no_search table = record { prelude = []; source = table_name table; conditions = []; bindings = [] }

abbrev pub searched : TaskSearch → Search
searched search = record {
  prelude = search.prelude;
  source = search.source;
  conditions = ("(" <> search.clause <> ")") ∷ [];
  bindings = search.bindings;
}

module _ (code : SearchCode) (trim : List ℕ → List ℕ) where
  unfoldable pub search_of : Table → Export → Search
  search_of task e =
      if is_empty (trim_query e.query)
      then no_search task
      else searched (build_indexed_task_search code e.query)
  search_of workflow e =
      if is_empty (trim_query e.query)
      then no_search workflow
      else searched (build_indexed_workflow_search code e.query)
  search_of event e = if is_empty (trim e.query) then no_search event else record {
    prelude = [];
    source = "event";
    conditions = event_condition ∷ [];
    bindings = ("query", characters (code.to_lower_case (trim e.query))) ∷ [];
  }

  unfoldable pub conditions_of : Table → Export → List String
  conditions_of table e =
      (time_field table <> " >= <datetime>$from")
        ∷ (time_field table <> " <= <datetime>$to")
        ∷ flat_map condition_of (mappings table e)
      ++ (search_of table e).conditions

  -- The text of the statement.
  unfoldable pub export_sql : Table → Export → String
  export_sql table e =
      join "" (search_of table e).prelude
      <> "SELECT * FROM "
      <> (search_of table e).source
      <> " WHERE "
      <> join " AND " (conditions_of table e)
      <> " ORDER BY "
      <> sort_of table e
      <> " "
      <> direction_of table e

  -- The statement with its bindings: those of the search come before.
  unfoldable pub export_statement : Export → Statement
  export_statement e = record {
    sql = export_sql (table_of e) e;
    bindings =
        (search_of (table_of e) e).bindings
        ++ flat_map binding_of (mappings (table_of e) e)
        ++ ("from", text e.from) ∷ ("to", text e.to) ∷ [];
  }
