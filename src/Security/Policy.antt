-- ===== src/Security/Policy.antt =====
-- The authorization decision: runtime/security/opa.ts, with the schema of a read scope from
-- runtime/security/read-scope.ts. The policy server, and what `JSON.parse` makes of its bytes,
-- are parameters.
pub mod Body
pub mod Laws
use celery_insights.Common.{
  ℕ, ◌+◌, ◌≡◌, Bool, true, false, not, ◌||◌, ◌&&◌, Option, some, none, List, [], ◌∷◌, ◌++◌, String,
  if◌then◌else◌, is_some, any, all, map, length, leb, ltb, includes, lookup, ◌==◌, Eq-String,
  Result, ok, err, Failure, http_error, other_error, ◌>>=◌, ◌>>◌, throw_if,
}
use celery_insights.Common.Json.{
  Json, null, boolean, number, string, array, object, Items, items, Fields, fields, get,
  utf16_length,
}
use celery_insights.Security.Permissions.{
  Permission, task_input_read, task_result_read, task_failure_read, event_raw_read,
  worker_inspect_read, Role, Principal, authorize,
}
use celery_insights.Security.ReadScope.{
  ReadScope, empty_scope, principal_scope, require_unrestricted,
}

pub data Transport : Type 0 where
  http websocket mcp : Transport

pub record PolicyContext : Type 0 where
  pub method : String
  pub path : String
  pub transport : Transport
  pub tool : Option String
  pub operation : Option String

-- The body of the request to the policy server.
pub record PolicyInput : Type 0 where
  pub version : ℕ
  pub account_id : String
  pub roles : List Role
  pub actions : List Permission
  pub request : PolicyContext
  pub replay : Bool

-- What the reader of a response body gives, read by read.
pub data Stream : Type 0 where
  done : Stream
  broken : Stream
  chunk : List ℕ → Stream → Stream

-- The response: none where `fetch` throws (no connection, a redirect, the timeout).
pub data Reply : Type 0 where
  unreachable : Reply
  response : (ok : Bool) → (body : Option Stream) → Reply

-- The reading loop: `size` bytes were read, and `chunks` holds them.
read_body_from : ℕ → List ℕ → Stream → Result (List ℕ)
read_body_from size chunks done = ok chunks
read_body_from size chunks broken = err other_error
read_body_from size chunks (chunk value rest) =
    let size' = size + length value in
    let more = read_body_from size' (chunks ++ value) rest in
    if ltb 16384 size' then err other_error else more

unfoldable pub read_body : Stream → Result (List ℕ)
unfolding read_body_from
read_body stream = read_body_from 0 [] stream

-- `selectors`, on the value of a key.
parse_selector : Json → Option String
parse_selector (string s) =
    if leb 1 (utf16_length s) && leb (utf16_length s) 256 then some s else none
parse_selector _ = none

traverse {ℓ} : {A : Type ℓ} → (Json → Option A) → List Json → Option (List A)
traverse f [] = some []
traverse f (v ∷ vs) = elim (f v) [
  | none ↦ none
  | some a ↦ elim (traverse f vs) [ none ↦ none | some as' ↦ some (a ∷ as') ]
]

-- `z.array(...).max(most)`.
parse_array {ℓ} : {A : Type ℓ} → (Json → Option A) → ℕ → Json → Option (List A)
unfolding traverse
parse_array f most (array vs) = if leb (length (items vs)) most then traverse f (items vs) else none
parse_array f most _ = none

-- `selectors.optional()`: the outer option is the parser's.
parse_selectors : Option Json → Option (Option (List String))
unfolding parse_array parse_selector
parse_selectors none = some none
parse_selectors (some v) = elim (parse_array parse_selector 100 v) [
  | none ↦ none
  | some names ↦ some (some names)
]

parse_action : Json → Option Permission
parse_action (string s) = lookup s (
    ("task.input.read", task_input_read)
    ∷ ("task.result.read", task_result_read)
    ∷ ("task.failure.read", task_failure_read)
    ∷ ("event.raw.read", event_raw_read)
    ∷ ("worker.inspect.read", worker_inspect_read)
    ∷ [])
parse_action _ = none

parse_deny_fields : Option Json → Option (List Permission)
unfolding parse_array parse_action
parse_deny_fields none = some []
parse_deny_fields (some v) = parse_array parse_action 5 v

scope_keys : List String
scope_keys = "task_ids" ∷ "task_types" ∷ "task_workers" ∷ "worker_hostnames" ∷ "deny_fields" ∷ []

has_only : List String → Fields → Bool
has_only keys fs = all (λ entry. includes keys entry.0) (fields fs)

or_throw {ℓ} : {A : Type ℓ} → Option A → Result A
or_throw none = err other_error
or_throw (some a) = ok a

-- `readScopeSchema.parse`.
unfoldable pub parse_scope : Json → Result ReadScope
unfolding parse_selectors parse_deny_fields has_only or_throw scope_keys
parse_scope (object fs) = do
  throw_if (not (has_only scope_keys fs)) other_error
  ids ← or_throw (parse_selectors (get "task_ids" fs))
  types ← or_throw (parse_selectors (get "task_types" fs))
  workers ← or_throw (parse_selectors (get "task_workers" fs))
  hostnames ← or_throw (parse_selectors (get "worker_hostnames" fs))
  deny ← or_throw (parse_deny_fields (get "deny_fields" fs))
  ok (record {
    task_ids = ids;
    task_types = types;
    task_workers = workers;
    worker_hostnames = hostnames;
    deny_fields = deny;
  })
parse_scope _ = err other_error

abbrev pub policy_denied : Failure
policy_denied = http_error 403 "Access denied by policy"

-- `result.allow` of a decision object, which must be a Boolean.
decide_allow : Option Json → Result (Unit {0})
decide_allow (some (boolean true)) = ok tt
decide_allow (some (boolean false)) = err policy_denied
decide_allow _ = err other_error

-- The scope that `decision.result` leaves.
unfoldable pub decide_result : Json → Result ReadScope
unfolding has_only decide_allow or_throw
decide_result (boolean true) = ok empty_scope
decide_result (boolean false) = err policy_denied
decide_result (object fs) = do
  throw_if (not (has_only ("allow" ∷ "scope" ∷ []) fs)) other_error
  decide_allow (get "allow" fs)
  parse_scope (← or_throw (get "scope" fs))
decide_result _ = err other_error

unfoldable pub decide_decision : Option Json → Result ReadScope
unfolding or_throw
decide_decision (some (object fs)) = do decide_result (← or_throw (get "result" fs))
decide_decision _ = err other_error

abbrev pub unavailable : Failure
unavailable = http_error 503 "Authorization policy unavailable"

-- The `catch` clause of `check`.
unfoldable pub catch_unavailable {ℓ} : {A : Type ℓ} → Result A → Result A
catch_unavailable (ok a) = ok a
catch_unavailable (err (http_error status message)) = err (http_error status message)
catch_unavailable (err other_error) = err unavailable

-- `Boolean(opaDecisionUrl)`.
abbrev pub is_set : Option String → Bool
is_set none = false
is_set (some url) = not (url == "")

module _ (fetch_decision : PolicyInput → Reply) (parse_json : List ℕ → Option Json) where
  -- The reply, from its status to the scope.
  unfoldable pub decide_reply : Reply → Result ReadScope
  decide_reply unreachable = err other_error
  decide_reply (response true (some stream)) = do
    bytes ← read_body stream
    decide_decision (parse_json bytes)
  decide_reply (response _ _) = err other_error

  abbrev pub policy_input : Principal → List Permission → PolicyContext → Bool → PolicyInput
  policy_input principal actions request replay = record {
    version = 1;
    account_id = principal.account_id;
    roles = principal.roles;
    actions = actions;
    request = request;
    replay = replay;
  }

  -- The `try` block of `check`.
  unfoldable pub ask_policy : Principal → List Permission → PolicyContext → Bool → Result ReadScope
  ask_policy principal actions request replay = do
    scope ← decide_reply (fetch_decision (policy_input principal actions request replay))
    require_unrestricted scope actions
    ok (principal_scope principal scope)

  unfoldable pub check :
      Option String → Principal → List Permission → PolicyContext → Bool → Result ReadScope
  check url principal actions request replay = do
    authorize principal actions replay
    if is_set url
        then catch_unavailable (ask_policy principal actions request replay)
        else ok (principal_scope principal empty_scope)
