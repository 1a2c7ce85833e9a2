-- ===== src/Security/ReadScope.antt =====
-- Read scopes and the database view that they leave: runtime/security/read-scope.ts. An absent
-- selector is `none`. The SQL text that the file writes is kept by its parts: the columns that a
-- source selects and the conditions of its WHERE clause, read on a row of the table.
pub mod Laws
pub mod Columns
use celery_insights.Common.{
  ◌≡◌, Bool, true, false, not, ◌||◌, ◌&&◌, Option, some, none, List, [], ◌∷◌, ◌++◌, String, is_some,
  if◌then◌else◌, any, all, filter, includes, distinct, Eq-String, Result, ok, throw_if, http_error,
}
use celery_insights.Security.Permissions.{
  Permission, task_input_read, task_result_read, task_failure_read, event_raw_read,
  worker_inspect_read, diagnostics_export, backup_import, history_clear, retention_update,
  cleanup_run, Eq-Permission, Principal, grants,
}

abbrev pub payload_actions : List Permission
payload_actions =
    task_input_read ∷ task_result_read ∷ task_failure_read ∷ event_raw_read ∷ worker_inspect_read
    ∷ []

pub record ReadScope : Type 0 where
  pub task_ids : Option (List String)
  pub task_types : Option (List String)
  pub task_workers : Option (List String)
  pub worker_hostnames : Option (List String)
  pub deny_fields : List Permission

abbrev pub empty_scope : ReadScope
empty_scope = record {
  task_ids = none;
  task_types = none;
  task_workers = none;
  worker_hostnames = none;
  deny_fields = [];
}

abbrev pub is_nonempty {ℓ} : {A : Type ℓ} → List A → Bool
is_nonempty [] = false
is_nonempty (x ∷ xs) = true

unfoldable pub row_scoped : ReadScope → Bool
row_scoped scope =
    is_some scope.task_ids
    || is_some scope.task_types
    || is_some scope.task_workers
    || is_some scope.worker_hostnames

unfoldable pub task_scoped : ReadScope → Bool
task_scoped scope = is_some scope.task_ids || is_some scope.task_types || is_some scope.task_workers

unfoldable pub restricted : ReadScope → Bool
restricted scope = row_scoped scope || is_nonempty scope.deny_fields

-- One round of the loop over the selector keys in `intersectScopes`.
unfoldable pub intersect_selector :
    Option (List String) → Option (List String) → Option (List String)
intersect_selector none right = right
intersect_selector (some left) none = some left
intersect_selector (some left) (some right) = some (filter (includes right) left)

unfoldable pub intersect_scopes : ReadScope → ReadScope → ReadScope
intersect_scopes a b = record {
  task_ids = intersect_selector a.task_ids b.task_ids;
  task_types = intersect_selector a.task_types b.task_types;
  task_workers = intersect_selector a.task_workers b.task_workers;
  worker_hostnames = intersect_selector a.worker_hostnames b.worker_hostnames;
  deny_fields = distinct (a.deny_fields ++ b.deny_fields);
}

unfoldable pub principal_scope : Principal → ReadScope → ReadScope
principal_scope principal scope = intersect_scopes scope (record empty_scope {
  deny_fields = filter (λ action. not (includes (grants principal) action)) payload_actions;
})

abbrev pub unrestricted_only : List Permission
unrestricted_only =
    diagnostics_export ∷ backup_import ∷ history_clear ∷ retention_update ∷ cleanup_run ∷ []

unfoldable pub require_unrestricted : ReadScope → List Permission → Result (Unit {0})
require_unrestricted scope actions =
    throw_if (restricted scope && any (includes unrestricted_only) actions)
      (http_error 403 "Operation requires unrestricted observation access")

-- A task record, as far as the conditions read it. NONE is no member of a list.
pub record TaskRow : Type 0 where
  pub id : String
  pub type : Option String
  pub worker : Option String

pub data TaskExpression : Type 0 where
  record_id type_field worker_field : TaskExpression

-- `expression IN values`.
pub record Condition : Type 0 where
  pub expression : TaskExpression
  pub values : List String

abbrev pub evaluate : TaskExpression → TaskRow → Option String
evaluate record_id row = some row.id
evaluate type_field row = row.type
evaluate worker_field row = row.worker

abbrev pub is_in : Option String → List String → Bool
is_in none values = false
is_in (some value) values = includes values value

unfoldable pub holds : TaskRow → Condition → Bool
holds row c = is_in (evaluate c.expression row) c.values

abbrev pub condition : TaskExpression → Option (List String) → List Condition
condition expression none = []
condition expression (some values) = record { expression = expression; values = values } ∷ []

-- `taskConditions`.
unfoldable pub task_conditions : ReadScope → List Condition
task_conditions scope =
    condition record_id scope.task_ids
    ++ condition type_field scope.task_types
    ++ condition worker_field scope.task_workers

-- A column that is read from the record, or a constant under that name.
pub data Column : Type 0 where
  stored : String → Column
  constant : String → Column

abbrev pub stored_columns : List String → List Column
stored_columns [] = []
stored_columns (name ∷ names) = stored name ∷ stored_columns names

abbrev pub task_metadata : List Column
task_metadata = stored_columns (
    "id" ∷ "type" ∷ "state" ∷ "sent_at" ∷ "received_at" ∷ "started_at" ∷ "execution_active"
    ∷ "execution_observed_at" ∷ "execution_active_at" ∷ "succeeded_at" ∷ "failed_at" ∷ "retried_at"
    ∷ "revoked_at" ∷ "rejected_at" ∷ "runtime" ∷ "last_updated" ∷ "last_updated_observed"
    ∷ "first_observed_at" ∷ "had_error" ∷ "eta" ∷ "expires" ∷ "retries" ∷ "exchange" ∷ "routing_key"
    ∷ "worker" ∷ [])

abbrev pub denies : ReadScope → Permission → Bool
denies scope = includes scope.deny_fields

-- `taskFields`.
unfoldable pub task_fields : ReadScope → List Column
task_fields scope =
    task_metadata
    ++ (constant "restricted_fields"
        ∷ constant "relationships_restricted"
        ∷ ((if task_scoped scope
              then constant "children" ∷ []
              else stored_columns ("root_id" ∷ "parent_id" ∷ "workflow_id" ∷ "children" ∷ []))
            ++ ((if denies scope task_input_read
                  then []
                  else stored_columns ("args" ∷ "kwargs" ∷ []))
                ++ ((if denies scope task_result_read
                      then []
                      else stored_columns ("result" ∷ "result_truncated" ∷ []))
                    ++ (if denies scope task_failure_read
                        then []
                        else stored_columns ("exception" ∷ "traceback" ∷ []))))))

-- What `sources.task` gives of a row: `none` where the WHERE clause drops it. An unrestricted
-- scope keeps the database itself.
pub data View : Type 0 where
  whole : View
  columns : List Column → View

unfoldable pub task_view : ReadScope → TaskRow → Option View
task_view scope row =
    if restricted scope
    then (if all (holds row) (task_conditions scope)
        then some (columns (task_fields scope))
        else none)
    else some whole

-- `sources.workflow` and `sources.workflow_task` keep all rows or none.
unfoldable pub workflow_visible : ReadScope → Bool
workflow_visible scope = not (restricted scope) || not (task_scoped scope)

-- The WHERE clause of `sources.worker`, on the record id.
unfoldable pub worker_visible : ReadScope → String → Bool
worker_visible scope hostname = elim scope.worker_hostnames [
  | none ↦ true
  | some hostnames ↦ includes hostnames hostname
]

worker_metadata : List Column
worker_metadata = stored_columns (
    "id" ∷ "hostname" ∷ "pid" ∷ "software_identity" ∷ "software_version" ∷ "software_sys"
    ∷ "last_updated" ∷ "heartbeat_expires" ∷ "cpu_load" ∷ "status" ∷ "missed_polls" ∷ [])

-- The columns of `sources.worker`.
unfoldable pub worker_fields : ReadScope → List Column
unfolding worker_metadata
worker_fields scope =
    worker_metadata
    ++ ((if restricted scope then constant "restricted_fields" ∷ [] else [])
        ++ ((if row_scoped scope
              then []
              else stored_columns ("active_tasks" ∷ "processed_tasks" ∷ []))
            ++ (if not (denies scope worker_inspect_read) && not (restricted scope)
                then stored_columns ("inspect" ∷ [])
                else [])))

-- The subquery of `sources.event`, over the task table.
unfoldable pub event_visible : ReadScope → List TaskRow → Option String → Bool
event_visible scope tasks task_id =
    if task_scoped scope
    then any (λ row. all (holds row) (task_conditions scope) && is_in task_id (row.id ∷ [])) tasks
    else true
