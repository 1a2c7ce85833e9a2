-- ===== src/Security/Permissions/Laws.antt =====
-- `authorize` against a table that names the least role of each permission.
use celery_insights.Common.{
  ℕ, ◌≡◌, refl, Bool, true, false, ◌&&◌, not, List, [], ◌∷◌, arith, any, all, leb, flat_map,
  if◌then◌else◌, includes, includes-append, includes-distinct, ◌==◌, ok, err,
}
use celery_insights.Security.Permissions.{
  Permission, task_metadata_read, worker_metadata_read, analytics_read, retention_update,
  cleanup_run, diagnostics_secrets_export, backup_import, history_clear, Role, viewer, operator,
  administrator, Principal, Eq-Permission, role_permissions, grants, denied, replay_refused,
  refuses, authorize_from, authorize,
}

abbrev pub role_rank : Role → ℕ
role_rank viewer = 0
role_rank operator = 1
role_rank administrator = 2

-- The least role that holds a permission.
unfoldable pub least_role : Permission → Role
least_role task_metadata_read = viewer
least_role worker_metadata_read = viewer
least_role analytics_read = viewer
least_role retention_update = operator
least_role cleanup_run = operator
least_role _ = administrator

unfoldable pub role_holds : Permission → Role → Bool
role_holds a r = leb (role_rank (least_role a)) (role_rank r)

-- Actions that change stored data.
unfoldable pub is_mutation : Permission → Bool
is_mutation backup_import = true
is_mutation history_clear = true
is_mutation retention_update = true
is_mutation cleanup_run = true
is_mutation _ = false

unfoldable pub may : Principal → Bool → Permission → Bool
may p replay a =
    any (role_holds a) p.roles
    && not (a == diagnostics_secrets_export)
    && not (replay && is_mutation a)

includes-role_permissions :
    (r : Role) (a : Permission) → includes (role_permissions r) a ≡ role_holds a r
unfolding includes role_permissions role_holds least_role
includes-role_permissions viewer task_metadata_read = refl
includes-role_permissions viewer a = refl
includes-role_permissions operator task_metadata_read = refl
includes-role_permissions operator a = refl
includes-role_permissions administrator task_metadata_read = refl
includes-role_permissions administrator a = refl

includes-flat_map :
    (roles : List Role) (a : Permission)
    → includes (flat_map role_permissions roles) a ≡ any (role_holds a) roles
unfolding flat_map any
includes-flat_map [] a = unfold includes in refl
includes-flat_map (r ∷ roles) a = ground (
  arith,
  includes-append (role_permissions r) (flat_map role_permissions roles) a,
  includes-role_permissions r a,
  includes-flat_map roles a,
)

-- A principal is granted an action exactly when one of its roles is at least the action's role.
pub includes-grants :
    (p : Principal) (a : Permission) → includes (grants p) a ≡ any (role_holds a) p.roles
unfolding grants
includes-grants p a =
    ground
      (arith, includes-distinct (flat_map role_permissions p.roles) a, includes-flat_map p.roles a)

includes-replay_refused : (a : Permission) → includes replay_refused a ≡ is_mutation a
unfolding includes is_mutation
includes-replay_refused task_metadata_read = refl
includes-replay_refused a = refl

refuses-may :
    (p : Principal) (replay : Bool) (a : Permission)
    → refuses (grants p) replay a ≡ not (may p replay a)
unfolding refuses may
refuses-may p replay a = ground (arith, includes-grants p a, includes-replay_refused a)

authorize_from-may :
    (p : Principal) (actions : List Permission) (replay : Bool)
    → authorize_from (grants p) actions replay
      ≡ (if all (may p replay) actions then ok tt else err denied)
unfolding authorize_from all
authorize_from-may p [] replay = refl
authorize_from-may p (a ∷ actions) replay =
    ground (arith, refuses-may p replay a, authorize_from-may p actions replay)

-- `authorize` passes when, for each action, some role of the principal is at least the action's
-- least role, the action is not the export of secrets, and no mutation is asked of a replayed
-- snapshot; in every other case it throws 403 "Access denied".
pub authorize-may :
    (p : Principal) (actions : List Permission) (replay : Bool)
    → authorize p actions replay ≡ (if all (may p replay) actions then ok tt else err denied)
unfolding authorize
authorize-may p actions replay = authorize_from-may p actions replay
