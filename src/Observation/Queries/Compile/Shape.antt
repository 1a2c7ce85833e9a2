-- ===== src/Observation/Queries/Compile/Shape.antt =====
-- What of a request the text of its statements depends on.
use celery_insights.Common.{◌≡◌, refl, ap, ◌&&◌, List, ℕ, arith}
use celery_insights.Common.Text.{codes}
use celery_insights.TaskSearch.{
  TaskSearch, SearchCode, is_keyword, is_short, build_task_search, build_workflow_search,
  build_indexed_task_search, build_indexed_workflow_search, member_prelude,
}
use celery_insights.Observation.Queries.{
  ReadRequest, Operation, list, export, explorer, events, search, home, analytics, exceptions,
  task_workflow, counts, Table, task, worker, workflow, event,
}
use celery_insights.Observation.Queries.Conditions.{
  is_given, is_listed, is_searched, read_table, list_conditions, filter_conditions,
}
use celery_insights.Observation.Queries.Statements.{
  Parts, select_rows, explorer_statements, event_statements, search_statements,
}
use celery_insights.Observation.Queries.Compile.{
  read_parts, query_parts, compile_statements, build_read,
}

-- Two requests for the same columns of the same table, with the same kinds of conditions. The
-- values of these conditions may differ.
pub record SameConditions (p q : ReadRequest) : Type 0 where
  pub ranged : (is_given p.from && is_given p.to) ≡ (is_given q.from && is_given q.to)
  pub id : is_given p.id ≡ is_given q.id
  pub task_id : is_given p.task_id ≡ is_given q.task_id
  pub worker_id : is_given p.worker_id ≡ is_given q.worker_id
  pub workflow_id : is_given p.workflow_id ≡ is_given q.workflow_id
  pub workflow_ids : is_listed p.workflow_ids ≡ is_listed q.workflow_ids
  pub task_type : is_given p.task_type ≡ is_given q.task_type
  pub states : is_listed p.states ≡ is_listed q.states
  pub types : is_listed p.types ≡ is_listed q.types
  pub workers : is_listed p.workers ≡ is_listed q.workers
  pub workflow_states : is_listed p.workflow_states ≡ is_listed q.workflow_states
  pub root_types : is_listed p.root_types ≡ is_listed q.root_types
  pub failure : p.failure ≡ q.failure
  pub online : p.online ≡ q.online

list_conditions-same :
    (table : Table) (p q : ReadRequest)
    → SameConditions p q
    → list_conditions table p ≡ list_conditions table q
unfolding list_conditions
list_conditions-same task p q h = rw (h.states, h.types, h.workers) refl
list_conditions-same worker p q h = rw (h.types) refl
list_conditions-same workflow p q h = rw (h.workflow_states, h.root_types) refl
list_conditions-same event p q h = rw (h.types) refl

filter_conditions-same :
    (table : Table) (p q : ReadRequest)
    → SameConditions p q
    → filter_conditions table p ≡ filter_conditions table q
unfolding filter_conditions
filter_conditions-same table p q h =
    rw
      (
        list_conditions-same table p q h,
        h.ranged,
        h.id,
        h.task_id,
        h.worker_id,
        h.workflow_id,
        h.workflow_ids,
        h.task_type,
        h.failure,
        h.online,
      )
      refl

module _ (code : SearchCode) where
  -- Two query texts for which the same kind of search is made.
  pub record SameSearch (c d : List ℕ) : Type 0 where
    pub keyword : is_keyword code c ≡ is_keyword code d
    pub short : is_short code c ≡ is_short code d

  -- Two searches with the same text of SQL.
  abbrev pub SameText : TaskSearch → TaskSearch → Type 0
  SameText a b = (a.prelude ≡ b.prelude) × (a.source ≡ b.source) × (a.clause ≡ b.clause)

  build_task_search-same :
      (c d : List ℕ)
      → SameSearch c d
      → SameText (build_task_search code c) (build_task_search code d)
  unfolding build_task_search
  build_task_search-same c d h = rw (h.keyword) (refl, refl, refl)

  build_workflow_search-same :
      (c d : List ℕ)
      → SameSearch c d
      → SameText (build_workflow_search code c) (build_workflow_search code d)
  unfolding build_workflow_search build_task_search
  build_workflow_search-same c d h = ground (arith, build_task_search-same c d h)

  pub build_indexed_task_search-same :
      (c d : List ℕ)
      → SameSearch c d
      → SameText (build_indexed_task_search code c) (build_indexed_task_search code d)
  unfolding build_indexed_task_search
  build_indexed_task_search-same c d h = ground (arith, build_task_search-same c d h)

  member_prelude-same :
      (c d : List ℕ) → SameSearch c d → member_prelude code c ≡ member_prelude code d
  unfolding member_prelude
  member_prelude-same c d h = ground (arith, build_indexed_task_search-same c d h)

  pub build_indexed_workflow_search-same :
      (c d : List ℕ)
      → SameSearch c d
      → SameText (build_indexed_workflow_search code c) (build_indexed_workflow_search code d)
  unfolding build_indexed_workflow_search
  build_indexed_workflow_search-same c d h =
      ground (arith, build_workflow_search-same c d h, member_prelude-same c d h)

  -- Two requests of the same kind: what may differ is the values that callers give.
  pub record SameRequest (p q : ReadRequest) : Type 0 where
    pub operation : p.operation ≡ q.operation
    pub table : p.table ≡ q.table
    pub sort_field : p.sort_field ≡ q.sort_field
    pub descending : p.descending ≡ q.descending
    pub conditions : SameConditions p q
    pub searched : is_searched p ≡ is_searched q
    pub search : SameSearch (codes p.query) (codes q.query)

  query_parts-same :
      (t : Table) (p q : ReadRequest)
      → SameRequest p q
      → query_parts code t p ≡ query_parts code t q
  unfolding query_parts
  query_parts-same task p q h = ground (
    arith,
    filter_conditions-same task p q h.conditions,
    build_indexed_task_search-same (codes p.query) (codes q.query) h.search,
  )
  query_parts-same workflow p q h = ground (
    arith,
    filter_conditions-same workflow p q h.conditions,
    build_indexed_workflow_search-same (codes p.query) (codes q.query) h.search,
  )
  query_parts-same worker p q h = ground (arith, filter_conditions-same worker p q h.conditions)
  query_parts-same event p q h = ground (arith, filter_conditions-same event p q h.conditions)

  read_table-same : (p q : ReadRequest) → SameRequest p q → read_table p ≡ read_table q
  read_table-same p q h = ground (arith, h.operation, h.table)

  read_parts-same : (p q : ReadRequest) → SameRequest p q → read_parts code p ≡ read_parts code q
  unfolding read_parts
  read_parts-same p q h = ground (
    arith,
    h.searched,
    read_table-same p q h,
    query_parts-same (read_table p) p q h,
    filter_conditions-same (read_table p) p q h.conditions,
  )

  select_rows-same :
      (p q : ReadRequest) (parts : Parts)
      → SameRequest p q
      → select_rows p parts ≡ select_rows q parts
  unfolding select_rows
  select_rows-same p q parts h = cc (read_table-same p q h, h.sort_field, h.descending)

  compile_statements-same :
      (op : Operation) (p q : ReadRequest)
      → SameRequest p q
      → compile_statements code op p ≡ compile_statements code op q
  unfolding compile_statements explorer_statements event_statements search_statements
  compile_statements-same list p q h =
      cc (read_parts-same p q h, select_rows-same p q (read_parts code p) h)
  compile_statements-same export p q h =
      cc (read_parts-same p q h, select_rows-same p q (read_parts code p) h)
  compile_statements-same explorer p q h =
      cc (read_parts-same p q h, select_rows-same p q (read_parts code p) h, read_table-same p q h)
  compile_statements-same events p q h =
      cc (read_parts-same p q h, select_rows-same p q (read_parts code p) h)
  compile_statements-same search p q h =
      let same = build_indexed_task_search-same (codes p.query) (codes q.query) h.search in
      cc (same.0, same.1, same.2)
  compile_statements-same home p q h = refl
  compile_statements-same analytics p q h = cc (read_parts-same p q h)
  compile_statements-same exceptions p q h = refl
  compile_statements-same task_workflow p q h = refl
  compile_statements-same counts p q h = refl

  -- The statements of a read do not depend on the values that callers give: two requests of the
  -- same kind (operation, table, order, and which conditions are there) give the same SQL text and
  -- the same number of skipped results, and differ in their bindings only.
  pub build_read-same :
      (p q : ReadRequest)
      → SameRequest p q
      → ((build_read code p).statements ≡ (build_read code q).statements)
        × ((build_read code p).offset ≡ (build_read code q).offset)
  unfolding build_read
  build_read-same p q h =
      let same = compile_statements-same p.operation p q h in
      let moved = ap (λ op. compile_statements code op q) h.operation in
      (cc (same, moved), cc (same, moved))
