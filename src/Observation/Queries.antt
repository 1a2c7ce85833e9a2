-- ===== src/Observation/Queries.antt =====
-- Typed observation reads: runtime/observation/queries.ts. A request is what its schema gives,
-- with the defaults in place. The SQL text is kept as its statements, without the `;` that ends
-- each.
pub mod Actions
pub mod Compile
pub mod Conditions
pub mod Statements
use celery_insights.Common.{
  ℕ, ◌≡◌, Bool, true, false, not, ◌||◌, ◌&&◌, Option, some, none, List, [], ◌∷◌, ◌++◌, String,
  if◌then◌else◌, is_some, filter, includes, distinct, ◌==◌, Eq-String,
}
use celery_insights.Security.Permissions.{
  Permission, task_metadata_read, task_input_read, task_result_read, task_failure_read,
  event_raw_read, worker_metadata_read, worker_inspect_read, analytics_read, task_export,
  Eq-Permission, Principal, grants,
}

pub data Operation : Type 0 where
  list export explorer events search home analytics exceptions task_workflow counts : Operation

pub data Table : Type 0 where
  task worker workflow event : Table

pub data SortField : Type 0 where
  last_updated state type worker runtime sent_at started_at aggregate_state root_task_type :
      SortField
  task_count failure_count active_count worker_count : SortField

pub record ReadRequest : Type 0 where
  pub operation : Operation
  pub table : Table
  pub id : Option String
  pub task_id : Option String
  pub worker_id : Option String
  pub workflow_id : Option String
  pub workflow_ids : List String
  pub task_type : Option String
  pub states : List String
  pub types : List String
  pub workers : List String
  pub workflow_states : List String
  pub root_types : List String
  pub query : String
  pub from : Option String
  pub to : Option String
  pub bucket_duration : String
  pub sort_field : SortField
  pub descending : Bool
  pub limit : ℕ
  pub offset : ℕ
  pub failure : Bool
  pub online : Bool

-- The table that a request of an operation without a table of its own reads.
abbrev pub payload_table : Operation → Table → Table
payload_table home table = task
payload_table analytics table = task
payload_table exceptions table = task
payload_table task_workflow table = task
payload_table events table = event
payload_table _ table = table

abbrev pub task_payloads : List Permission
task_payloads = task_input_read ∷ task_result_read ∷ task_failure_read ∷ []

-- The payloads of a table that a request may show.
unfoldable pub table_payloads : Table → String → List Permission
table_payloads task query = task_payloads
table_payloads worker query = worker_inspect_read ∷ []
table_payloads event query = event_raw_read ∷ []
table_payloads workflow query = if query == "" then task_failure_read ∷ [] else task_payloads

-- `payloads` in `readPermissions`.
unfoldable pub payloads : Operation → Table → String → List Permission
payloads search table query = task_payloads ++ worker_inspect_read ∷ []
payloads list table query = table_payloads table query
payloads explorer table query = table_payloads table query
payloads export table query = table_payloads table query
payloads task_workflow table query = table_payloads table query
payloads events table query = []
payloads home table query = []
payloads analytics table query = []
payloads exceptions table query = []
payloads counts table query = []

-- The end of `operationPermissions`, where the table decides.
abbrev pub table_permissions : Table → List Permission
table_permissions event = task_metadata_read ∷ event_raw_read ∷ []
table_permissions worker = worker_metadata_read ∷ []
table_permissions _ = task_metadata_read ∷ []

unfoldable pub operation_permissions : Operation → Table → List Permission
operation_permissions export table = task_export ∷ table_permissions table
operation_permissions search table = task_metadata_read ∷ worker_metadata_read ∷ []
operation_permissions counts table = analytics_read ∷ []
operation_permissions home table = analytics_read ∷ []
operation_permissions analytics table = analytics_read ∷ []
operation_permissions task_workflow table = task_metadata_read ∷ []
operation_permissions exceptions table = task_metadata_read ∷ task_failure_read ∷ []
operation_permissions events table = task_metadata_read ∷ event_raw_read ∷ []
operation_permissions list table = table_permissions table
operation_permissions explorer table = table_permissions table

unfoldable pub read_permissions : ReadRequest → Principal → List Permission
read_permissions input principal =
    let required = operation_permissions input.operation input.table in
    let shown = payloads input.operation (payload_table input.operation input.table) input.query in
    distinct (required ++ filter (includes (grants principal)) shown)
