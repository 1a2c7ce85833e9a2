-- ===== src/Security/Tests.antt =====
-- Runs of the authorization layer, and its theorems at inputs that meet their hypotheses.
use celery_insights.Common.{
  ℕ, ◌≡◌, refl, true, false, ◌&&◌, Option, some, none, List, [], ◌∷◌, String, any, all, is_some,
  lookup, includes, distinct, filter, flat_map, Eq-ℕ, Eq-List, Eq-String, Eq-Option, ok, err,
}
use celery_insights.Common.Json.{Json, boolean, string, array, object, nil, cons, field, end, get}
use celery_insights.Security.Permissions.{
  task_metadata_read, task_input_read, task_failure_read, history_clear, viewer, administrator,
  Principal, Eq-Permission, grants, role_permissions, authorize, denied, refuses,
}
use celery_insights.Security.ReadScope.{
  ReadScope, empty_scope, TaskRow, restricted, row_scoped, task_scoped, intersect_scopes,
  intersect_selector, principal_scope, require_unrestricted, task_view, task_fields,
  task_conditions, holds, worker_visible, workflow_visible,
}
use celery_insights.Security.ReadScope.Laws.{intersect_scopes-meet}
use celery_insights.Security.ReadScope.Columns.{view_reads, reads}
use celery_insights.Security.Policy.{
  PolicyContext, PolicyInput, Reply, unreachable, response, done, chunk, http, read_body,
  decide_reply, decide_decision, decide_result, parse_scope, ask_policy, catch_unavailable, check,
}

abbrev reader : Principal
reader = record { account_id = "ann"; display_name = none; roles = viewer ∷ [] }

abbrev chief : Principal
chief = record { account_id = "bob"; display_name = none; roles = administrator ∷ [] }

authorize_runs :
    (authorize reader (task_metadata_read ∷ []) false ≡ ok tt)
    × (authorize reader (task_input_read ∷ []) false ≡ err denied)
    × (authorize chief (history_clear ∷ []) false ≡ ok tt)
    × (authorize chief (history_clear ∷ []) true ≡ err denied)
unfolding authorize grants role_permissions flat_map distinct filter includes refuses
authorize_runs = (refl, refl, refl, refl)

-- A scope of one task type, and one of two workers.
abbrev mail_scope : ReadScope
mail_scope = record empty_scope { task_types = some ("mail" ∷ []) }

abbrev host_scope : ReadScope
host_scope = record empty_scope {
  worker_hostnames = some ("w1" ∷ "w2" ∷ []);
  deny_fields = task_failure_read ∷ [];
}

abbrev mail_row : TaskRow
mail_row = record { id = "t1"; type = some "mail"; worker = some "w1" }

intersect_scopes-meet_example :
    (is_some (task_view (intersect_scopes mail_scope host_scope) mail_row)
      ≡ (is_some (task_view mail_scope mail_row) && is_some (task_view host_scope mail_row)))
    × (worker_visible (intersect_scopes mail_scope host_scope) "w1"
        ≡ (worker_visible mail_scope "w1" && worker_visible host_scope "w1"))
    × (workflow_visible (intersect_scopes mail_scope host_scope)
        ≡ (workflow_visible mail_scope && workflow_visible host_scope))
intersect_scopes-meet_example = intersect_scopes-meet mail_scope host_scope mail_row "w1"

-- A policy server that narrows every decision to the mail tasks.
abbrev allow_mail : Json
allow_mail = object (
    field "result"
      (object (
        field "allow" (boolean true)
          (field "scope" (object (field "task_types" (array (cons (string "mail") nil)) end)) end)))
      end)

abbrev serve : PolicyInput → Reply
serve input = response true (some (chunk (1 ∷ []) done))

abbrev no_server : PolicyInput → Reply
no_server input = unreachable

abbrev parse : List ℕ → Option Json
parse bytes = some allow_mail

abbrev get_config : PolicyContext
get_config = record {
  method = "GET";
  path = "/api/config";
  transport = http;
  tool = none;
  operation = none;
}

abbrev policy_url : Option String
policy_url = some "https://opa/v1/data/app"

check_runs :
    check serve parse policy_url chief (task_metadata_read ∷ []) get_config false
    ≡ ok (principal_scope chief mail_scope)
unfolding check authorize grants role_permissions flat_map distinct filter includes refuses
    ask_policy catch_unavailable decide_reply read_body decide_decision decide_result parse_scope
    get lookup all require_unrestricted restricted row_scoped any principal_scope intersect_scopes
    intersect_selector
check_runs = refl

view_runs : view_reads "args" (task_view (principal_scope chief mail_scope) mail_row) ≡ true
unfolding view_reads reads task_view restricted row_scoped any all holds task_conditions task_fields
    task_scoped includes principal_scope intersect_scopes intersect_selector grants role_permissions
    flat_map distinct filter
view_runs = refl

refused_run : check serve parse policy_url reader (history_clear ∷ []) get_config false ≡ err denied
unfolding check authorize grants role_permissions flat_map distinct filter includes refuses
refused_run = refl
