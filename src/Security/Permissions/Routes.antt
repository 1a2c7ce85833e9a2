-- ===== src/Security/Permissions/Routes.antt =====
-- The permissions of each HTTP route: `payloadPermissions` and `routePermissions` of
-- runtime/security/permissions.ts.
use celery_insights.Common.{
  ◌≡◌, refl, Bool, true, false, ◌||◌, inl, inr, List, [], ◌∷◌, String, some, arith, any, all, All,
  Bool-cases, includes, lookup, All-lookup, Eq-String, err,
}
use celery_insights.Security.Permissions.{
  Permission, task_metadata_read, task_input_read, task_result_read, task_failure_read,
  event_raw_read, worker_metadata_read, worker_inspect_read, analytics_read, task_export,
  backup_export, backup_import, history_clear, retention_update, cleanup_run, diagnostics_export,
  metrics_read, Role, viewer, operator, administrator, Principal, denied, authorize,
}
use celery_insights.Security.Permissions.Laws.{least_role, role_holds, may, authorize-may}

abbrev pub payload_permissions : List Permission
payload_permissions =
    task_metadata_read ∷ task_input_read ∷ task_result_read ∷ task_failure_read ∷ event_raw_read
    ∷ worker_metadata_read ∷ worker_inspect_read ∷ []

abbrev pub route_permissions : List (String × List Permission)
route_permissions =
    ("GET /api/config", task_metadata_read ∷ [])
    ∷ ("GET /api/settings/info", diagnostics_export ∷ [])
    ∷ ("GET /api/settings/debug-snapshot", diagnostics_export ∷ [])
    ∷ (
      "POST /api/settings/download-debug-bundle",
      diagnostics_export ∷ backup_export ∷ payload_permissions,
    )
    ∷ ("POST /api/settings/clear", history_clear ∷ [])
    ∷ ("GET /api/settings/export", backup_export ∷ payload_permissions)
    ∷ ("POST /api/settings/import", backup_import ∷ [])
    ∷ ("GET /api/settings/retention", analytics_read ∷ [])
    ∷ ("PUT /api/settings/retention", retention_update ∷ analytics_read ∷ [])
    ∷ ("POST /api/settings/cleanup", cleanup_run ∷ analytics_read ∷ [])
    ∷ ("GET /metrics", metrics_read ∷ [])
    ∷ (
      "GET /metrics/verbose",
      metrics_read ∷ task_metadata_read ∷ worker_metadata_read ∷ task_failure_read ∷ [],
    )
    ∷ ("GET /metrics/system", metrics_read ∷ [])
    ∷ ("POST /api/exports/csv", task_export ∷ payload_permissions)
    ∷ []

-- The routes that a principal below administrator may reach.
abbrev pub open_routes : List String
open_routes =
    "GET /api/config" ∷ "GET /api/settings/retention" ∷ "PUT /api/settings/retention"
    ∷ "POST /api/settings/cleanup" ∷ []

unfoldable pub is_administrator : Role → Bool
is_administrator administrator = true
is_administrator _ = false

unfoldable pub needs_administrator : Permission → Bool
unfolding least_role is_administrator
needs_administrator a = is_administrator (least_role a)

-- The table: a route is open, or one of its actions is an administrator's.
abbrev Guarded : String → List Permission → Type 0
Guarded key actions = (includes open_routes key || any needs_administrator actions) ≡ true

route_permissions-Guarded : All (λ entry. Guarded entry.0 entry.1) route_permissions
unfolding includes any needs_administrator
route_permissions-Guarded = ground arith

pub payload_permissions-needs_administrator : any needs_administrator payload_permissions ≡ true
unfolding any needs_administrator
payload_permissions-needs_administrator = refl

pub lookup-needs_administrator :
    (route : String) (actions : List Permission)
    → lookup route route_permissions ≡ some actions
    → includes open_routes route ≡ false
    → any needs_administrator actions ≡ true
lookup-needs_administrator route actions found closed =
    let guarded : Guarded route actions =
      All-lookup Guarded route route_permissions route_permissions-Guarded found in
    ground arith

role_holds_below :
    (a : Permission) (roles : List Role)
    → needs_administrator a ≡ true
    → any is_administrator roles ≡ false
    → any (role_holds a) roles ≡ false
unfolding any needs_administrator role_holds is_administrator
role_holds_below a [] h below = refl
role_holds_below a (viewer ∷ roles) h below = ground (arith, role_holds_below a roles h below)
role_holds_below a (operator ∷ roles) h below = ground (arith, role_holds_below a roles h below)
role_holds_below a (administrator ∷ roles) h below = cc

pub all-may_below :
    (p : Principal) (replay : Bool) (actions : List Permission)
    → any needs_administrator actions ≡ true
    → any is_administrator p.roles ≡ false
    → all (may p replay) actions ≡ false
unfolding all may any
all-may_below p replay [] h below = cc
all-may_below p replay (a ∷ actions) h below = elim (Bool-cases (needs_administrator a)) [
  | inl top ↦ ground (arith, role_holds_below a p.roles top below)
  | inr rest ↦ ground (arith, all-may_below p replay actions)
]

-- Of the routes in the table, a principal without the administrator role is let through only to
-- the configuration, the retention settings and the cleanup; every other one throws 403.
pub authorize_below_administrator :
    (p : Principal) (replay : Bool) (route : String) (actions : List Permission)
    → any is_administrator p.roles ≡ false
    → lookup route route_permissions ≡ some actions
    → includes open_routes route ≡ false
    → authorize p actions replay ≡ err denied
authorize_below_administrator p replay route actions below found closed =
    let top = lookup-needs_administrator route actions found closed in
    rw (authorize-may, all-may_below p replay actions top below)
