-- ===== src/Observation/Tests.antt =====
-- Runs of reads, of the live queue and of a socket at concrete inputs.
use celery_insights.Common.{ℕ, ◌≤◌, ◌≡◌, refl, true, false, some, none, List, [], ◌∷◌, ◌++◌, ok}
use celery_insights.Common.Json.{null, string}
use celery_insights.Security.Permissions.{Principal, viewer}
use celery_insights.Security.ReadScope.{ReadScope, empty_scope}
use celery_insights.TaskSearch.{
  build_indexed_task_search, candidate_source, build_task_search, plain_text_clause, SearchCode,
  trim_query, drop_spaces, is_space, is_keyword, is_short,
}
use celery_insights.Observation.Queries.{ReadRequest, list, task, last_updated}
use celery_insights.Observation.Queries.Compile.{build_read}
use celery_insights.Observation.Queries.Compile.Shape.{build_read-same}
use celery_insights.Observation.Live.{
  Event, enqueues, starts, settles, allowed, refused, empty, run as run_queue,
}
use celery_insights.Observation.Live.Order.{arrivals, run-delivered}
use celery_insights.Common.{includes, any, drop, distinct, list_eq}
use celery_insights.Common.Text.{strip, join}
use celery_insights.Security.ReadScope.{intersect_scopes, intersect_selector}
use celery_insights.Observation.Queries.Conditions.{filter_conditions, list_conditions}
use celery_insights.Observation.Queries.Statements.{
  select_rows, result_offset, limit_statement, where_clause, sort_column,
}
use celery_insights.Observation.Queries.Compile.{compile_statements, read_parts, query_parts}
use celery_insights.Observation.Rpc.Answer.{
  call, query, is_live, is_bound_live, bound_live, kill_or_read, kill_id, read_only, read_rows,
  scope_at, same_scope, Envelope, World, Setup, rows, answer, exit, session_scope,
}
use celery_insights.Observation.Rpc.Answer.Laws.{IsAuthorized, answer-rows}
use celery_insights.Observation.Rpc.Post.{PostWorld, PostRequest, post_read, post_rows, read_chunks}
use celery_insights.Observation.Rpc.Post.Rows.{IsPosted, post_read-rows}
use celery_insights.Observation.Rpc.Socket.{
  Message, State, received, receives, ticks, begins, finishes, opened, run,
}
use celery_insights.Observation.Rpc.Socket.Bounds.{IsBounded, run-IsBounded}
use celery_insights.Observation.Rpc.Socket.Closed.{IsSilent, run-IsSilent}

abbrev code : SearchCode
code = record {
  to_lower_case = λ cs. cs;
  patterns = λ cs. none;
  tokenizes = "t";
  malformed = "m";
  search_term = λ cs. none;
}

abbrev one_worker : ReadRequest
one_worker = record {
  operation = list;
  table = task;
  id = none;
  task_id = none;
  worker_id = none;
  workflow_id = none;
  workflow_ids = [];
  task_type = none;
  states = [];
  types = [];
  workers = "celery@a" ∷ [];
  workflow_states = [];
  root_types = [];
  query = "mail";
  from = none;
  to = none;
  bucket_duration = "600s";
  sort_field = last_updated;
  descending = true;
  limit = 100;
  offset = 0;
  failure = false;
  online = false;
}

-- The same read with a text that looks like SQL.
abbrev hostile : ReadRequest
hostile = record one_worker { workers = "x'; REMOVE TABLE task" ∷ []; query = "') OR (true" }

build_read-same_example :
    ((build_read code one_worker).statements ≡ (build_read code hostile).statements)
    × ((build_read code one_worker).offset ≡ (build_read code hostile).offset)
unfolding trim_query drop_spaces is_space is_keyword is_short
build_read-same_example = build_read-same code one_worker hostile (record {
  operation = refl;
  table = refl;
  sort_field = refl;
  descending = refl;
  conditions = record {
    ranged = refl;
    id = refl;
    task_id = refl;
    worker_id = refl;
    workflow_id = refl;
    workflow_ids = refl;
    task_type = refl;
    states = refl;
    types = refl;
    workers = refl;
    workflow_states = refl;
    root_types = refl;
    failure = refl;
    online = refl;
  };
  searched = refl;
  search = record { keyword = refl; short = refl };
})

abbrev ann : Principal
ann = record { account_id = "ann"; display_name = none; roles = viewer ∷ [] }

abbrev events : List (Event ℕ)
events =
    enqueues 1 ∷ starts ∷ enqueues 2 ∷ settles allowed ∷ starts ∷ settles refused ∷ enqueues 3 ∷ []

run-delivered_example :
    ((rest : List ℕ) × ((run_queue events empty).delivered ++ rest ≡ arrivals events))
    × ((run_queue events empty).stopped ≡ false → (run_queue events empty).pending ≤ 64)
run-delivered_example = run-delivered events

abbrev setup : Setup
setup = record {
  parse_request = λ bindings. some one_worker;
  table_text = λ value. "task";
  sort_names = λ names. names;
  sort_actions = λ actions. actions;
  search = code;
  initial_scope = empty_scope;
  replay = false;
}

-- Every decision is the empty scope, and a read gives three results, the first that of a `LET`.
abbrev world : World ℕ
world = record {
  principal = λ moment. ok ann;
  check = λ moment principal actions context replay. ok empty_scope;
  run_read = λ read scope. ok (6 ∷ 7 ∷ 8 ∷ []);
  fresh_id = 1 ∷ [];
}

abbrev reads : Envelope
reads = record {
  id = null;
  method = "query";
  params = string "observation:read" ∷ null ∷ [];
  has_transaction = false;
}

answer-rows_example :
    ((input : ReadRequest) × IsAuthorized setup world input (rows (7 ∷ 8 ∷ [])))
    × (last : ReadScope) × (session_scope setup world exit ≡ ok last)
unfolding answer call query is_live any is_bound_live bound_live strip kill_or_read kill_id
    read_only read_rows scope_at same_scope intersect_scopes intersect_selector distinct list_eq
    drop build_read compile_statements read_parts select_rows filter_conditions list_conditions
    result_offset limit_statement trim_query drop_spaces is_space query_parts
    build_indexed_task_search is_short candidate_source where_clause join build_task_search
    is_keyword plain_text_clause sort_column includes
answer-rows_example = answer-rows setup world reads [] (7 ∷ 8 ∷ []) refl

abbrev one_byte : Message ℕ → ℕ
one_byte message = 1

run-IsBounded_example : IsBounded setup one_byte (
    run setup one_byte
      (receives 40 (some reads) ∷ begins ∷ ticks ∷ finishes world ∷ begins ∷ finishes world ∷ [])
      opened)
run-IsBounded_example =
    run-IsBounded setup one_byte
      (receives 40 (some reads) ∷ begins ∷ ticks ∷ finishes world ∷ begins ∷ finishes world ∷ [])

-- A socket that was stopped while it worked on a read.
abbrev left : State ℕ
left = record opened {
  closed = true;
  pending = 1;
  queue = received (some reads) ∷ [];
  working = true;
}

run-IsSilent_example : IsSilent left (run setup one_byte (finishes world ∷ ticks ∷ []) left)
run-IsSilent_example = run-IsSilent setup one_byte (finishes world ∷ ticks ∷ []) left refl

-- The same read over HTTP, in two chunks.
abbrev post_world : PostWorld ℕ
post_world = record {
  principal = ok ann;
  scope = empty_scope;
  parse = λ bytes. some one_worker;
  check = λ moment principal actions context replay. ok empty_scope;
  run_read = λ read scope. ok (6 ∷ 7 ∷ 8 ∷ []);
}

abbrev posted : PostRequest
posted = record {
  method = "POST";
  content_length = 4;
  body = some ((1 ∷ 2 ∷ []) ∷ (3 ∷ 4 ∷ []) ∷ []);
}

post_read-rows_example : IsPosted setup post_world posted (7 ∷ 8 ∷ [])
unfolding post_read post_rows read_chunks same_scope intersect_scopes intersect_selector distinct
    list_eq drop build_read compile_statements read_parts select_rows filter_conditions
    list_conditions result_offset limit_statement trim_query drop_spaces is_space query_parts
    build_indexed_task_search is_short candidate_source where_clause join build_task_search
    is_keyword plain_text_clause sort_column includes
post_read-rows_example = post_read-rows setup post_world posted (7 ∷ 8 ∷ []) refl
