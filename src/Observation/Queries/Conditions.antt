-- ===== src/Observation/Queries/Conditions.antt =====
-- The names and the conditions of a read: the first part of `compileRead`.
use celery_insights.Common.{
  ℕ, Bool, true, false, not, ◌&&◌, Option, some, none, List, [], ◌∷◌, ◌++◌, map, String,
  if◌then◌else◌, ◌==◌, Eq-String,
}
use celery_insights.Common.Text.{codes, ◌<>◌, join}
use celery_insights.TaskSearch.{trim_query}
use celery_insights.Observation.Queries.{
  ReadRequest, Operation, list, export, explorer, events, search, home, analytics, exceptions,
  task_workflow, counts, Table, task, worker, workflow, event, SortField, last_updated, state, type,
  runtime, sent_at, started_at, aggregate_state, root_task_type, task_count, failure_count,
  active_count, worker_count,
}

abbrev pub operation_name : Operation → String
operation_name list = "list"
operation_name export = "export"
operation_name explorer = "explorer"
operation_name events = "events"
operation_name search = "search"
operation_name home = "home"
operation_name analytics = "analytics"
operation_name exceptions = "exceptions"
operation_name task_workflow = "task-workflow"
operation_name counts = "counts"

abbrev pub table_name : Table → String
table_name task = "task"
table_name worker = "worker"
table_name workflow = "workflow"
table_name event = "event"

abbrev pub field_name : SortField → String
field_name last_updated = "last_updated"
field_name state = "state"
field_name type = "type"
field_name SortField.worker = "worker"
field_name runtime = "runtime"
field_name sent_at = "sent_at"
field_name started_at = "started_at"
field_name aggregate_state = "aggregate_state"
field_name root_task_type = "root_task_type"
field_name task_count = "task_count"
field_name failure_count = "failure_count"
field_name active_count = "active_count"
field_name worker_count = "worker_count"

-- `if (value)` on an optional text, and `if (values.length)`.
abbrev pub is_given : Option String → Bool
is_given none = false
is_given (some value) = not (value == "")

abbrev pub is_listed : List String → Bool
is_listed [] = false
is_listed (value ∷ values) = true

abbrev pub if_given : Bool → List String → List String
if_given true conditions = conditions
if_given false conditions = []

-- `table`, which an event browser fixes.
abbrev pub read_table : ReadRequest → Table
read_table p = elim p.operation [ events ↦ event | _ ↦ p.table ]

abbrev pub is_event : Table → Bool
is_event event = true
is_event _ = false

abbrev pub time_field : Table → String
time_field table = if is_event table then "timestamp" else "last_updated"

-- The conditions of the loop over the lists of the table.
unfoldable pub list_conditions : Table → ReadRequest → List String
list_conditions task p =
    if_given (is_listed p.states) ("state IN $states" ∷ [])
    ++ (if_given (is_listed p.types) ("type IN $types" ∷ [])
        ++ if_given (is_listed p.workers) ("worker IN $workers" ∷ []))
list_conditions workflow p =
    if_given (is_listed p.workflow_states) ("aggregate_state IN $workflowStates" ∷ [])
    ++ if_given (is_listed p.root_types) ("root_task_type IN $rootTypes" ∷ [])
list_conditions worker p = if_given (is_listed p.types) ("event_type IN $types" ∷ [])
list_conditions event p = if_given (is_listed p.types) ("event_type IN $types" ∷ [])

unfoldable pub filter_conditions : Table → ReadRequest → List String
filter_conditions table p =
    if_given (is_given p.from && is_given p.to)
      ((time_field table <> " >= <datetime>$from") ∷ (time_field table <> " <= <datetime>$to") ∷ [])
    ++ (if_given (is_given p.id) ("id = $rid" ∷ [])
        ++ (if_given (is_given p.task_id) ("task_id = $taskId" ∷ [])
            ++ (if_given (is_given p.worker_id) ("worker = $workerId" ∷ [])
                ++ (if_given (is_given p.workflow_id) ("workflow_id = $workflowId" ∷ [])
                    ++ (if_given (is_listed p.workflow_ids) ("workflow_id IN $workflowIds" ∷ [])
                        ++ (if_given (is_given p.task_type) ("type = $type" ∷ [])
                            ++ (if_given p.failure ("(state = 'FAILURE' OR exception != NONE)" ∷ [])
                                ++ (if_given p.online ("status = 'online'" ∷ [])
                                    ++ list_conditions table p))))))))

-- The operations whose rows a query text filters.
abbrev pub takes_query : Operation → Bool
takes_query list = true
takes_query export = true
takes_query explorer = true
takes_query events = true
takes_query _ = false

abbrev pub is_nonempty_text : List ℕ → Bool
is_nonempty_text [] = false
is_nonempty_text (c ∷ cs) = true

abbrev pub is_searched : ReadRequest → Bool
is_searched p = is_nonempty_text (trim_query (codes p.query)) && takes_query p.operation

unfoldable pub event_clause : String
event_clause =
    "("
    <> join " OR " (
        map
          (λ field.
            "string::contains(string::lowercase(string::concat('', " <> field <> " ?? '')), $q)")
          ("event_type" ∷ "task_id" ∷ "hostname" ∷ "data" ∷ []))
    <> ")"
