-- ===== src/Security/Permissions.antt =====
-- Permissions, roles and the role ceiling: runtime/security/permissions.ts. A `Set` of permissions
-- is a list without repetition, in insertion order.
pub mod Laws
pub mod Routes
use celery_insights.Common.{
  ℕ, ◌≡◌, refl, ◌↔◌, ap, Bool, true, false, ◌||◌, ◌&&◌, not, Option, some, List, [], ◌∷◌, ◌++◌,
  String, get_elem?, flat_map, nat_eq, nat_eq_iff, Eq, ◌==◌, includes, distinct, Result, ok, err,
  Failure, http_error, ◌>>◌, throw_if,
}

pub data Permission : Type 0 where
  task_metadata_read task_input_read task_result_read task_failure_read event_raw_read : Permission
  worker_metadata_read worker_inspect_read analytics_read task_export backup_export : Permission
  backup_import history_clear retention_update cleanup_run diagnostics_export : Permission
  diagnostics_secrets_export metrics_read : Permission

pub data Role : Type 0 where
  viewer operator administrator : Role

pub record Principal : Type 0 where
  pub account_id : String
  pub display_name : Option String
  pub roles : List Role

abbrev pub permissions : List Permission
permissions =
    task_metadata_read ∷ task_input_read ∷ task_result_read ∷ task_failure_read ∷ event_raw_read
    ∷ worker_metadata_read ∷ worker_inspect_read ∷ analytics_read ∷ task_export ∷ backup_export
    ∷ backup_import ∷ history_clear ∷ retention_update ∷ cleanup_run ∷ diagnostics_export
    ∷ diagnostics_secrets_export ∷ metrics_read ∷ []

-- The place of a permission in `permissions`: its identity for `===`.
abbrev pub rank : Permission → ℕ
rank task_metadata_read = 0
rank task_input_read = 1
rank task_result_read = 2
rank task_failure_read = 3
rank event_raw_read = 4
rank worker_metadata_read = 5
rank worker_inspect_read = 6
rank analytics_read = 7
rank task_export = 8
rank backup_export = 9
rank backup_import = 10
rank history_clear = 11
rank retention_update = 12
rank cleanup_run = 13
rank diagnostics_export = 14
rank diagnostics_secrets_export = 15
rank metrics_read = 16

get_elem?-rank : (p : Permission) → get_elem? permissions (rank p) ≡ some p
get_elem?-rank task_metadata_read = refl
get_elem?-rank task_input_read = refl
get_elem?-rank p = refl

rank-injective : (p q : Permission) → rank p ≡ rank q → p ≡ q
rank-injective p q e = cc (get_elem?-rank p, get_elem?-rank q, ap (get_elem? permissions) e)

pub Permission-equals_iff : (p q : Permission) → (nat_eq (rank p) (rank q) ≡ true) ↔ (p ≡ q)
Permission-equals_iff p q =
    (λ h. rank-injective p q ((nat_eq_iff _ _).0 h), λ h. (nat_eq_iff _ _).1 (ap rank h))

instance abbrev pub Eq-Permission : Eq Permission
Eq-Permission = record {
  equals = λ p q. nat_eq (rank p) (rank q);
  equals_iff = Permission-equals_iff;
}

abbrev pub viewer_permissions : List Permission
viewer_permissions = task_metadata_read ∷ worker_metadata_read ∷ analytics_read ∷ []

-- The callback of `flatMap` in `grants`.
unfoldable pub role_permissions : Role → List Permission
role_permissions administrator = permissions
role_permissions operator = viewer_permissions ++ retention_update ∷ cleanup_run ∷ []
role_permissions viewer = viewer_permissions

unfoldable pub grants : Principal → List Permission
grants principal = distinct (flat_map role_permissions principal.roles)

abbrev pub denied : Failure
denied = http_error 403 "Access denied"

-- The actions that a replayed snapshot refuses.
abbrev pub replay_refused : List Permission
replay_refused = backup_import ∷ history_clear ∷ retention_update ∷ cleanup_run ∷ []

-- The test of the loop in `authorize`.
unfoldable pub refuses : List Permission → Bool → Permission → Bool
refuses allowed replay action =
    not (includes allowed action)
    || action == diagnostics_secrets_export
    || (replay && includes replay_refused action)

authorize_from : List Permission → List Permission → Bool → Result (Unit {0})
authorize_from allowed [] replay = ok tt
authorize_from allowed (action ∷ actions) replay =
    throw_if (refuses allowed replay action) denied >> authorize_from allowed actions replay

unfoldable pub authorize : Principal → List Permission → Bool → Result (Unit {0})
unfolding authorize_from
authorize principal actions replay = authorize_from (grants principal) actions replay
