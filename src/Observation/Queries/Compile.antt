-- ===== src/Observation/Queries/Compile.antt =====
-- `compileRead` and `buildRead`: the statements of a request and their bindings.
pub mod Shape
use celery_insights.Common.{
  ℕ, zero, suc, Bool, true, false, not, ◌||◌, ◌&&◌, Option, some, none, List, [], ◌∷◌, ◌++◌, map,
  String, if◌then◌else◌, is_some, includes, ◌==◌, Eq-String, nat_eq, length,
}
use celery_insights.Common.Text.{codes, ◌<>◌, join, contains}
use celery_insights.TaskSearch.{
  Binding, Bindings, TaskSearch, SearchCode, text, characters, texts, number, flag, record_id,
  trim_query, build_indexed_task_search, build_indexed_workflow_search,
}
use celery_insights.Observation.Queries.{
  ReadRequest, Operation, list, export, explorer, events, search, home, analytics, exceptions,
  task_workflow, counts, Table, task, worker, workflow, event, SortField, last_updated, state, type,
  runtime, sent_at, started_at, aggregate_state, root_task_type, task_count, failure_count,
  active_count, worker_count,
}
use package.text.Mathlib.Text.{starts_with}
use celery_insights.Observation.Queries.Conditions.{
  operation_name, table_name, field_name, is_given, is_listed, if_given, read_table, is_event,
  time_field, list_conditions, filter_conditions, takes_query, is_nonempty_text, is_searched,
  event_clause,
}
use celery_insights.Observation.Queries.Statements.{
  where_clause, sort_fields, sort_column, direction, Parts, select_rows, count_rows, with_condition,
  facet, explorer_fields, first_field, explorer_statements, event_statements, search_statements,
  count_statements, exception_statements, task_workflow_statements, home_statements,
  analytics_statements, limit_statement, result_offset,
}

pub record Read : Type 0 where
  pub statements : List String
  pub bindings : Bindings
  pub offset : ℕ

abbrev optional_text : String → Option String → Bindings
optional_text key none = []
optional_text key (some value) = (key, text value) ∷ []

abbrev id_binding : Table → Option String → Bindings
id_binding table none = []
id_binding table (some value) =
    if value == "" then [] else ("rid", record_id (table_name table) value) ∷ []

module _ (code : SearchCode) where
  abbrev pub task_search : ReadRequest → TaskSearch
  task_search p = build_indexed_task_search code (codes p.query)

  abbrev pub workflow_search : ReadRequest → TaskSearch
  workflow_search p = build_indexed_workflow_search code (codes p.query)

  abbrev pub searched_parts : List String → TaskSearch → Parts
  searched_parts conditions found = record {
    prelude = found.prelude;
    source = found.source;
    conditions = conditions ++ ("(" <> found.clause <> ")") ∷ [];
  }

  -- The parts of a request with a query text, by its table.
  unfoldable pub query_parts : Table → ReadRequest → Parts
  unfolding event_clause
  query_parts task p = searched_parts (filter_conditions task p) (task_search p)
  query_parts workflow p = searched_parts (filter_conditions workflow p) (workflow_search p)
  query_parts table p = record {
    prelude = [];
    source = table_name table;
    conditions = filter_conditions table p ++ event_clause ∷ [];
  }

  unfoldable pub read_parts : ReadRequest → Parts
  read_parts p =
      let table = read_table p in
      if is_searched p then query_parts table p else record {
        prelude = [];
        source = table_name table;
        conditions = filter_conditions table p;
      }

  -- The statements of `compileRead`, by its operation.
  unfoldable pub compile_statements : Operation → ReadRequest → List String
  compile_statements list p = (read_parts p).prelude ++ select_rows p (read_parts p) ∷ []
  compile_statements export p = (read_parts p).prelude ++ select_rows p (read_parts p) ∷ []
  compile_statements explorer p = explorer_statements p (read_parts p)
  compile_statements events p = event_statements p (read_parts p)
  compile_statements search p = search_statements (task_search p)
  compile_statements counts p = count_statements
  compile_statements exceptions p = exception_statements
  compile_statements task_workflow p = task_workflow_statements
  compile_statements home p = home_statements
  compile_statements analytics p = analytics_statements (read_parts p)

  -- The bindings that a query text adds.
  unfoldable pub search_bindings : Table → ReadRequest → Bindings
  search_bindings task p = (task_search p).bindings
  search_bindings workflow p = (workflow_search p).bindings
  search_bindings table p = []

  unfoldable pub added_bindings : Operation → ReadRequest → Bindings
  added_bindings search p = (task_search p).bindings
  added_bindings operation p = if is_searched p then search_bindings (read_table p) p else []

  unfoldable pub request_bindings : ReadRequest → Bindings
  request_bindings p =
      ("q", characters (code.to_lower_case (codes p.query)))
      ∷ ("operation", text (operation_name p.operation))
      ∷ ("table", text (table_name p.table))
      ∷ ("workflowIds", texts p.workflow_ids)
      ∷ ("states", texts p.states)
      ∷ ("types", texts p.types)
      ∷ ("workers", texts p.workers)
      ∷ ("workflowStates", texts p.workflow_states)
      ∷ ("rootTypes", texts p.root_types)
      ∷ ("query", text p.query)
      ∷ ("bucketDuration", text p.bucket_duration)
      ∷ ("sortField", text (field_name p.sort_field))
      ∷ ("sortDirection", text (direction p.descending))
      ∷ ("limit", number p.limit)
      ∷ ("offset", number p.offset)
      ∷ ("failure", flag p.failure)
      ∷ ("online", flag p.online)
      ∷ (optional_text "taskName" p.task_type
          ++ (optional_text "type" p.task_type
              ++ (optional_text "id" p.id
                  ++ (optional_text "taskId" p.task_id
                      ++ (optional_text "workerId" p.worker_id
                          ++ (optional_text "workflowId" p.workflow_id
                              ++ (optional_text "from" p.from ++ optional_text "to" p.to)))))))

  unfoldable pub build_read : ReadRequest → Read
  build_read p =
      let statements = map limit_statement (compile_statements p.operation p) in
      record {
        statements = statements;
        bindings =
            added_bindings p.operation p ++ (id_binding (read_table p) p.id ++ request_bindings p);
        offset = result_offset statements;
      }
