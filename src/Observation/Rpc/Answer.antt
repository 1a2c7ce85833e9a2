-- ===== src/Observation/Rpc/Answer.antt =====
-- What one message is answered: `scope` and the body of `receive`. The account, the decisions,
-- the database, the decoders of requests and record ids, and fresh ids are parameters; a decision
-- may differ from one moment to the next. At a moment the account is one, though the code looks it up
-- once for the actions of a read and once for the decision on them.
pub mod Laws
use celery_insights.Common.{
  ℕ, zero, suc, Bool, true, false, not, ◌||◌, ◌&&◌, Option, some, none, List, [], ◌∷◌, ◌++◌, String,
  if◌then◌else◌, is_some, any, filter, find, get_elem?, length, drop, leb, ltb, nat_eq, includes,
  ◌==◌, Eq-String, Eq-List, Eq-Option, Eq-ℕ, Result, ok, err, http_error, other_error, ◌>>=◌, ◌>>◌,
  throw_if,
}
use celery_insights.Common.Json.{Json, object, string, fields}
use celery_insights.Common.Text.{codes, strip, is_upper, is_lower, is_digit, ◌<>◌}
use celery_insights.Security.Permissions.{Permission, task_metadata_read, Principal, Eq-Permission}
use celery_insights.Security.ReadScope.{ReadScope, intersect_scopes}
use celery_insights.Security.Policy.{PolicyContext, websocket}
use celery_insights.TaskSearch.{SearchCode}
use celery_insights.Observation.Queries.{Operation, ReadRequest, read_permissions}
use celery_insights.Observation.Queries.Conditions.{operation_name}
use celery_insights.Observation.Queries.Compile.{Read, build_read}
use mathlib.Core.Option

-- The moments at which `Authorization.check` is asked.
pub data Moment : Type 0 where
  entry before after exit : Moment

abbrev pub rpc_context : Option Operation → PolicyContext
rpc_context operation = record {
  method = "GET";
  path = "/api/observation/rpc";
  transport = websocket;
  tool = none;
  operation = Option.map operation_name operation;
}

-- `envelope`, as far as it is read.
pub record Envelope : Type 0 where
  pub id : Json
  pub method : String
  pub params : List Json
  pub has_transaction : Bool

-- `^LIVE SELECT \* FROM (task|worker|workflow|event);?$`
abbrev pub live_tables : List String
live_tables = "task" ∷ "worker" ∷ "workflow" ∷ "event" ∷ []

unfoldable pub is_live : String → Bool
is_live sql =
    any
      (λ table.
        sql == "LIVE SELECT * FROM " <> table || sql == "LIVE SELECT * FROM " <> table <> ";")
      live_tables

-- What may follow at the end of a statement: `;?$`.
abbrev ends : List ℕ → Bool
ends [] = true
ends (c ∷ []) = nat_eq c b';'
ends (c ∷ d ∷ cs) = false

is_name : ℕ → Bool
is_name c = is_upper c || is_lower c || is_digit c || nat_eq c b'_'

-- `[A-Za-z0-9_]*;?$`, with the characters before the end.
name_rest : List ℕ → Option (List ℕ)
name_rest [] = some []
name_rest (c ∷ cs) =
    let rest = name_rest cs in
    if is_name c
    then Option.map (λ name. c ∷ name) rest
    else if ends (c ∷ cs)
    then some []
    else none

name_group : List ℕ → Option (List ℕ)
unfolding name_rest is_name
name_group [] = none
name_group (c ∷ cs) =
    if is_name c && not (is_digit c) then Option.map (λ name. c ∷ name) (name_rest cs) else none

-- `^LIVE SELECT \* FROM (\$[A-Za-z_][A-Za-z0-9_]*);?$`: the name behind the `$`.
unfoldable pub bound_live : String → Option (List ℕ)
unfolding name_group
bound_live sql = elim (strip (codes "LIVE SELECT * FROM $") (codes sql)) [
  | none ↦ none
  | some rest ↦ name_group rest
]

is_hex_or_dash : ℕ → Bool
is_hex_or_dash c = is_digit c || (leb b'a' c && leb c b'f') || nat_eq c b'-'

is_quote : ℕ → Bool
is_quote c = nat_eq c 34 || nat_eq c 39

-- `[0-9a-f-]{n}["'];?$`, with the characters of the id.
id_group : ℕ → List ℕ → Option (List ℕ)
unfolding is_hex_or_dash is_quote
id_group n [] = none
id_group zero (c ∷ cs) = if is_quote c && ends cs then some [] else none
id_group (suc n) (c ∷ cs) =
    let rest = id_group n cs in if is_hex_or_dash c then Option.map (λ id. c ∷ id) rest else none

quoted_id : List ℕ → Option (List ℕ)
unfolding id_group is_quote
quoted_id [] = none
quoted_id (c ∷ cs) = if is_quote c then id_group 36 cs else none

-- `^KILL u["']([0-9a-f-]{36})["'];?$`: the id.
unfoldable pub kill_id : String → Option (List ℕ)
unfolding quoted_id
kill_id sql = elim (strip (codes "KILL u") (codes sql)) [ none ↦ none | some rest ↦ quoted_id rest ]

-- Subscriptions are kept by the code points of their ids.
abbrev pub Subscriptions : Type 0
Subscriptions = List (List ℕ)

pub data Answer (R : Type 0) : Type 0 where
  version : Answer R
  nothing : Answer R
  subscribed : List ℕ → Answer R
  killed : Answer R
  rows : List R → Answer R

-- What the RPC asks of its environment while it answers.
pub record World (R : Type 0) : Type 0 where
  pub principal : Moment → Result Principal
  pub check : Moment → Principal → List Permission → PolicyContext → Bool → Result ReadScope
  pub run_read : Read → ReadScope → Result (List R)
  pub fresh_id : List ℕ

-- The fixed parts: the decoder of `observation:read` bindings, `String()` of a bound table, the
-- order in which `scopeFingerprint` sorts, and the search builders' code.
pub record Setup : Type 0 where
  pub parse_request : Option Json → Option ReadRequest
  pub table_text : Json → String
  pub sort_names : List String → List String
  pub sort_actions : List Permission → List Permission
  pub search : SearchCode
  pub initial_scope : ReadScope
  pub replay : Bool

-- Equality of `scopeFingerprint`s.
unfoldable pub same_scope : Setup → ReadScope → ReadScope → Bool
same_scope setup a b =
    Option.map setup.sort_names a.task_ids == Option.map setup.sort_names b.task_ids
    && Option.map setup.sort_names a.task_types == Option.map setup.sort_names b.task_types
    && Option.map setup.sort_names a.task_workers == Option.map setup.sort_names b.task_workers
    && Option.map setup.sort_names a.worker_hostnames
      == Option.map setup.sort_names b.worker_hostnames
    && setup.sort_actions a.deny_fields == setup.sort_actions b.deny_fields

abbrev pub or_refuse {ℓ} : {A : Type ℓ} → Option A → Result A
or_refuse none = err other_error
or_refuse (some a) = ok a

-- `bindings[name]`, where the bindings are an object.
abbrev bound_value : List ℕ → Option Json → Option Json
bound_value name (some (object fs)) =
    Option.map (λ entry. entry.1) (find (λ entry. codes entry.0 == name) (fields fs))
bound_value name bindings = none

-- `boundLive && tables.has(boundTable)`.
is_bound_to : Setup → Option (List ℕ) → Option Json → Bool
is_bound_to setup none bindings = false
is_bound_to setup (some name) bindings = elim (bound_value name bindings) [
  | none ↦ false
  | some value ↦ includes live_tables (setup.table_text value)
]

unfoldable pub is_bound_live : Setup → String → Option Json → Bool
unfolding is_bound_to
is_bound_live setup sql bindings = is_bound_to setup (bound_live sql) bindings

module _ {R : Type 0} (setup : Setup) (world : World R) where
  -- `scope`, at one of the moments.
  unfoldable pub scope_at : Moment → Option Operation → List Permission → Result ReadScope
  scope_at moment operation actions = do
    principal ← world.principal moment
    current ← world.check moment principal actions (rpc_context operation) setup.replay
    throw_if (not (is_some operation) && not (same_scope setup current setup.initial_scope))
        (http_error 403 "Read scope changed")
    ok (intersect_scopes setup.initial_scope current)

  -- `this.scope()`.
  abbrev pub session_scope : Moment → Result ReadScope
  session_scope moment = scope_at moment none (task_metadata_read ∷ [])

  -- The branch of `observation:read`.
  unfoldable pub read_rows : ReadRequest → Result (Answer R)
  read_rows input = do
    principal ← world.principal before
    scope ← scope_at before (some input.operation) (read_permissions input principal)
    result ← world.run_read (build_read setup.search input) scope
    again ← world.principal after
    fresh ← scope_at after (some input.operation) (read_permissions input again)
    throw_if (not (same_scope setup scope fresh)) (http_error 403 "Read scope changed")
    ok (rows (drop (build_read setup.search input).offset result))

  -- `Map.set` of a fresh id, unless there are 32 subscriptions.
  unfoldable pub subscribe : Subscriptions → Subscriptions × Result (Answer R)
  subscribe subscriptions =
      if leb 32 (length subscriptions)
      then (subscriptions, err (http_error 403 "Too many subscriptions"))
      else (
        if includes subscriptions world.fresh_id
            then subscriptions
            else subscriptions ++ world.fresh_id ∷ [],
        ok (subscribed world.fresh_id),
      )

  -- The branch that is neither a live query nor a kill.
  unfoldable pub read_only : String → Option Json → Result (Answer R)
  read_only sql bindings =
      if not (sql == "observation:read")
      then err (http_error 403 "Only typed observation reads are available")
      else or_refuse (setup.parse_request bindings) >>= read_rows

  unfoldable pub kill_or_read :
      Option (List ℕ) → String → Option Json → Subscriptions → Subscriptions × Result (Answer R)
  kill_or_read none sql bindings subscriptions = (subscriptions, read_only sql bindings)
  kill_or_read (some id) sql bindings subscriptions =
      if includes subscriptions id
      then (filter (λ other. not (other == id)) subscriptions, ok killed)
      else (subscriptions, read_only sql bindings)

  -- The case "query".
  unfoldable pub query :
      Option Json → Option Json → Subscriptions → Subscriptions × Result (Answer R)
  query (some (string sql)) bindings subscriptions =
      if is_live sql || is_bound_live setup sql bindings
      then subscribe subscriptions
      else kill_or_read (kill_id sql) sql bindings subscriptions
  query sql bindings subscriptions =
      (subscriptions, err (http_error 403 "Typed observation request required"))

  -- The `switch` on the method.
  unfoldable pub call : Envelope → Subscriptions → Subscriptions × Result (Answer R)
  call rpc subscriptions =
      if rpc.method == "version"
      then (subscriptions, ok version)
      else if rpc.method == "ping" || rpc.method == "health"
      then (subscriptions, ok nothing)
      else if rpc.method == "query"
      then query (get_elem? rpc.params 0) (get_elem? rpc.params 1) subscriptions
      else (subscriptions, err (http_error 403 "RPC method is not available"))

  -- The inner `try` block, up to `send`.
  unfoldable pub answer : Envelope → Subscriptions → Subscriptions × Result (Answer R)
  answer rpc subscriptions =
      if rpc.has_transaction
      then (subscriptions, err (http_error 403 "Transactions are not available"))
      else let called = call rpc subscriptions in
        (called.0, called.1 >>= λ result. session_scope exit >>= λ _. ok result)
