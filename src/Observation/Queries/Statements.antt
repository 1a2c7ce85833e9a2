-- ===== src/Observation/Queries/Statements.antt =====
-- The statements of each operation of `compileRead`, and the time limit that `buildRead` adds.
use celery_insights.Common.{
  ℕ, suc, Bool, not, ◌&&◌, List, [], ◌∷◌, ◌++◌, map, String, if◌then◌else◌, includes, Eq-String,
}
use celery_insights.Common.Text.{◌<>◌, join, contains}
use celery_insights.TaskSearch.{TaskSearch, text}
use celery_insights.Observation.Queries.{ReadRequest, Table, task, workflow, SortField}
use package.text.Mathlib.Text.{starts_with}
use celery_insights.Observation.Queries.Conditions.{field_name, read_table, is_event}

-- ` WHERE ` with the conditions, or nothing.
unfoldable pub where_clause : List String → String
where_clause [] = ""
where_clause (c ∷ cs) = " WHERE " <> join " AND " (c ∷ cs)

abbrev pub sort_fields : Table → List String
sort_fields task =
    "last_updated" ∷ "state" ∷ "type" ∷ "worker" ∷ "runtime" ∷ "sent_at" ∷ "started_at" ∷ []
sort_fields workflow =
    "last_updated" ∷ "aggregate_state" ∷ "root_task_type" ∷ "task_count" ∷ "failure_count"
    ∷ "active_count" ∷ "worker_count" ∷ []
sort_fields _ = "last_updated" ∷ []

unfoldable pub sort_column : Table → SortField → String
sort_column table field =
    if is_event table
    then "timestamp"
    else if includes (sort_fields table) (field_name field)
    then field_name field
    else "last_updated"

abbrev pub direction : Bool → String
direction descending = if descending then "DESC" else "ASC"

-- What the statements of a request are made of.
pub record Parts : Type 0 where
  pub prelude : List String
  pub source : String
  pub conditions : List String

unfoldable pub select_rows : ReadRequest → Parts → String
select_rows p parts =
    "SELECT * FROM "
    <> parts.source
    <> where_clause parts.conditions
    <> " ORDER BY "
    <> sort_column (read_table p) p.sort_field
    <> " "
    <> direction p.descending
    <> " LIMIT $limit START $offset TIMEOUT 2s"

unfoldable pub count_rows : Parts → String
count_rows parts =
    "SELECT count() AS count FROM "
    <> parts.source
    <> where_clause parts.conditions
    <> " GROUP ALL TIMEOUT 2s"

abbrev pub with_condition : Parts → String → String
with_condition parts extra = where_clause (parts.conditions ++ extra ∷ [])

unfoldable pub facet : Parts → String → String
facet parts field =
    "SELECT "
    <> field
    <> ", count() AS count FROM "
    <> parts.source
    <> with_condition parts (field <> " != NONE")
    <> " GROUP BY "
    <> field

abbrev pub explorer_fields : Table → List String
explorer_fields workflow = "aggregate_state" ∷ "root_task_type" ∷ []
explorer_fields _ = "state" ∷ "type" ∷ "worker" ∷ []

abbrev pub first_field : Table → String
first_field workflow = "aggregate_state"
first_field _ = "state"

unfoldable pub explorer_statements : ReadRequest → Parts → List String
explorer_statements p parts =
    parts.prelude
    ++ select_rows p parts
      ∷ count_rows parts
      ∷ (map (facet parts) (explorer_fields (read_table p))
          ++ ("SELECT time::format(time::floor(last_updated, <duration>$bucketDuration), '%Y-%m-%dT%H:%M') AS bucket, "
              <> first_field (read_table p)
              <> ", count() AS count FROM "
              <> parts.source
              <> where_clause parts.conditions
              <> " GROUP BY bucket, "
              <> first_field (read_table p)
              <> " ORDER BY bucket ASC")
            ∷ [])

unfoldable pub event_statements : ReadRequest → Parts → List String
event_statements p parts =
    select_rows p parts
    ∷ count_rows parts
    ∷ ("SELECT event_type, count() AS count FROM event"
        <> where_clause parts.conditions
        <> " GROUP BY event_type")
    ∷ ("SELECT time::format(time::floor(timestamp, <duration>$bucketDuration), '%Y-%m-%dT%H:%M') AS bucket, count() AS count FROM event"
        <> where_clause parts.conditions
        <> " GROUP BY bucket ORDER BY bucket ASC")
    ∷ []

unfoldable pub search_statements : TaskSearch → List String
search_statements found =
    found.prelude
    ++ ("SELECT *, (SELECT root_task_type,aggregate_state,task_count FROM workflow WHERE id = type::record('workflow', workflow_id))[0] AS workflow FROM "
        <> found.source <> " WHERE (" <> found.clause
        <> ") ORDER BY last_updated DESC LIMIT $limit")
      ∷ "SELECT * FROM worker WHERE string::contains(string::lowercase(string::concat('',id)),$q) ORDER BY last_updated DESC LIMIT $limit"
      ∷ []

abbrev pub count_statements : List String
count_statements =
    "SELECT count() AS count FROM task GROUP ALL" ∷ "SELECT count() AS count FROM event GROUP ALL"
    ∷ "SELECT count() AS count FROM worker GROUP ALL" ∷ []

abbrev pub exception_statements : List String
exception_statements =
    "SELECT exception,count() AS count FROM task WHERE exception != NONE GROUP BY exception ORDER BY count DESC"
    ∷ []

abbrev pub task_workflow_statements : List String
task_workflow_statements =
    "LET $task = (SELECT * FROM type::record('task',$taskId) TIMEOUT 2s)[0]"
    ∷ "LET $workflowId = $task.workflow_id ?? $task.root_id ?? $taskId"
    ∷ "RETURN {task:$task,workflow:(SELECT * FROM type::record('workflow',$workflowId) TIMEOUT 2s)[0],members:SELECT * FROM task WHERE workflow_id = $workflowId ORDER BY last_updated DESC LIMIT 1000 TIMEOUT 2s}"
    ∷ []

abbrev pub home_statements : List String
home_statements =
    "SELECT count() AS recent_task_count FROM task WHERE last_updated > time::now() - 3600s GROUP ALL"
    ∷ "SELECT count() AS recent_failure_count FROM task WHERE last_updated > time::now() - 3600s AND (state = 'FAILURE' OR exception != NONE) GROUP ALL"
    ∷ "SELECT last_updated FROM task ORDER BY last_updated DESC LIMIT 1"
    ∷ "SELECT time::format(time::floor(last_updated,600s),'%Y-%m-%dT%H:%M:%SZ') AS bucket,count() AS count FROM task WHERE last_updated > time::now() - 3600s GROUP BY bucket ORDER BY bucket ASC"
    ∷ "SELECT time::format(time::floor(last_updated,600s),'%Y-%m-%dT%H:%M:%SZ') AS bucket,count() AS count FROM task WHERE last_updated > time::now() - 3600s AND (state = 'FAILURE' OR exception != NONE) GROUP BY bucket ORDER BY bucket ASC"
    ∷ []

unfoldable pub analytics_statements : Parts → List String
analytics_statements parts =
    ("SELECT time::format(time::floor(last_updated,<duration>$bucketDuration),'%Y-%m-%dT%H:%M') AS bucket,count() AS count FROM task"
      <> where_clause parts.conditions
      <> " GROUP BY bucket ORDER BY bucket ASC")
    ∷ ("SELECT time::format(time::floor(last_updated,<duration>$bucketDuration),'%Y-%m-%dT%H:%M') AS bucket,math::sum(IF state='SUCCESS' THEN 1 ELSE 0 END) AS success,math::sum(IF state='FAILURE' THEN 1 ELSE 0 END) AS failure,count() AS total,math::sum(IF state='FAILURE' THEN 1 ELSE 0 END)/count()*100 AS failure_rate FROM task"
        <> with_condition parts "state IN ['SUCCESS','FAILURE']"
        <> " GROUP BY bucket ORDER BY bucket ASC")
    ∷ ("SELECT type,math::mean(runtime) AS avg_runtime,math::min(runtime) AS min_runtime,math::max(runtime) AS max_runtime,count() AS count FROM task"
        <> with_condition parts "runtime != NONE AND type != NONE"
        <> " GROUP BY type ORDER BY count DESC LIMIT 15")
    ∷ ("SELECT worker,count() AS count FROM task"
        <> with_condition parts "worker != NONE"
        <> " GROUP BY worker ORDER BY worker")
    ∷ []

-- The map of `buildRead`: a statement that selects and has no time limit gets one.
unfoldable pub limit_statement : String → String
limit_statement statement =
    if starts_with statement "SELECT " && not (contains statement "TIMEOUT")
    then statement <> " TIMEOUT 2s"
    else statement

-- `findIndex` of the first statement that is no `LET`.
unfoldable pub result_offset : List String → ℕ
result_offset [] = 0
result_offset (statement ∷ statements) =
    let rest = result_offset statements in if starts_with statement "LET " then suc rest else 0
