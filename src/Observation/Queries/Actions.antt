-- ===== src/Observation/Queries/Actions.antt =====
-- The actions that a read asks for, against the role ceiling.
use celery_insights.Common.{
  ◌≡◌, refl, Bool, true, not, ◌&&◌, List, [], ◌∷◌, ◌++◌, String, all, filter, includes, distinct,
  arith, all-append, all-distinct, ◌==◌,
}
use celery_insights.Security.Permissions.{
  Permission, Principal, grants, diagnostics_secrets_export, authorize, Eq-Permission,
}
use celery_insights.Security.Permissions.Laws.{may, is_mutation, includes-grants, authorize-may}
use celery_insights.Observation.Queries.{
  ReadRequest, Operation, list, export, explorer, events, search, home, analytics, exceptions,
  task_workflow, counts, Table, task, worker, workflow, event, payload_table, payloads,
  table_payloads, operation_permissions, read_permissions,
}

-- Neither the export of secrets nor a mutation.
abbrev is_plain : Permission → Bool
is_plain a = not (a == diagnostics_secrets_export) && not (is_mutation a)

all-table_payloads :
    (table : Table) (query : String) → all is_plain (table_payloads table query) ≡ true
unfolding all table_payloads is_mutation
all-table_payloads task query = refl
all-table_payloads worker query = refl
all-table_payloads workflow query = ground arith
all-table_payloads event query = refl

all-payloads :
    (op : Operation) (table : Table) (query : String)
    → all is_plain (payloads op table query) ≡ true
unfolding all payloads is_mutation
all-payloads search table query = refl
all-payloads list table query = all-table_payloads table query
all-payloads explorer table query = all-table_payloads table query
all-payloads export table query = all-table_payloads table query
all-payloads task_workflow table query = all-table_payloads table query
all-payloads events table query = refl
all-payloads home table query = refl
all-payloads analytics table query = refl
all-payloads exceptions table query = refl
all-payloads counts table query = refl

-- A granted payload is never refused.
all-may_granted :
    (p : Principal) (replay : Bool) (actions : List Permission)
    → all is_plain actions ≡ true
    → all (may p replay) (filter (includes (grants p)) actions) ≡ true
unfolding all filter may
all-may_granted p replay [] h = refl
all-may_granted p replay (a ∷ actions) h =
    ground (arith, all-may_granted p replay actions, includes-grants p a)

-- The payloads that a read adds to its required actions never cost a reader the read: the role
-- ceiling admits all of its actions exactly when it admits the required ones.
pub authorize-read_permissions :
    (p : Principal) (r : ReadRequest) (replay : Bool)
    → authorize p (read_permissions r p) replay
      ≡ authorize p (operation_permissions r.operation r.table) replay
unfolding read_permissions
authorize-read_permissions p r replay =
    let required = operation_permissions r.operation r.table in
    let shown = payloads r.operation (payload_table r.operation r.table) r.query in
    let granted = filter (includes (grants p)) shown in
    let same : all (may p replay) (distinct (required ++ granted)) ≡ all (may p replay) required =
      ground (
        arith,
        all-distinct (may p replay) (required ++ granted),
        all-append (may p replay) required granted,
        all-may_granted p replay shown,
        all-payloads r.operation (payload_table r.operation r.table) r.query,
      ) in
    ground (
      arith,
      authorize-may p (distinct (required ++ granted)) replay,
      authorize-may p required replay,
      same,
    )
