-- ===== src/Security/Policy/Laws.antt =====
-- What a decision can and cannot give.
use celery_insights.Common.{
  ℕ, ◌+◌, ◌≡◌, refl, ◌⊎◌, inl, inr, Bool, true, false, ◌&&◌, Option, some, List, [], ◌++◌, length,
  String, arith, all, any, includes, Eq-String, if◌then◌else◌, Option-cases, Result-cases, Result,
  ok, err, Failure, http_error, other_error,
}
use celery_insights.Security.Permissions.{Permission, Principal, Eq-Permission, grants}
use celery_insights.Security.Permissions.Laws.{may, authorize-may}
use celery_insights.Security.ReadScope.{
  ReadScope, TaskRow, empty_scope, restricted, row_scoped, principal_scope, require_unrestricted,
  unrestricted_only, task_view,
}
use celery_insights.Security.ReadScope.Columns.{
  view_reads, payload_columns, task_view-principal_scope,
}
use celery_insights.Security.Policy.{
  PolicyInput, PolicyContext, Reply, unreachable, response, catch_unavailable, is_set, decide_reply,
  policy_input, ask_policy, check, unavailable, policy_denied, parse_scope, decide_result,
  decide_decision, Stream, done, broken, chunk, read_body_from, read_body, decide_allow,
}
use celery_insights.Common.Json.{Json, object, boolean, null, get}

restricted-empty : restricted empty_scope ≡ false
unfolding restricted row_scoped
restricted-empty = refl

-- The status of the response to a failure; 0 stands for an error that is no `HttpError`.
abbrev pub status_of : Failure → ℕ
status_of (http_error status message) = status
status_of other_error = 0

-- Parsing and reading throw no `HttpError`.
parse_scope-throws : (v : Json) (f : Failure) → parse_scope v ≡ err f → f ≡ other_error
unfolding parse_scope
parse_scope-throws (object fs) f h = ground arith
parse_scope-throws v f h = cc

read_body_from-throws :
    (size : ℕ) (chunks : List ℕ) (stream : Stream) (f : Failure)
    → read_body_from size chunks stream ≡ err f
    → f ≡ other_error
unfolding read_body_from
read_body_from-throws size chunks done f h = cc
read_body_from-throws size chunks broken f h = cc
read_body_from-throws size chunks (chunk value stream) f h =
    ground (arith, read_body_from-throws (size + length value) (chunks ++ value) stream f)

read_body-throws : (stream : Stream) (f : Failure) → read_body stream ≡ err f → f ≡ other_error
unfolding read_body
read_body-throws stream f h = read_body_from-throws 0 [] stream f h

abbrev IsPolicyFailure : Failure → Type 0
IsPolicyFailure f = (f ≡ other_error) ⊎ (f ≡ policy_denied)

decide_allow-throws : (v : Option Json) (f : Failure) → decide_allow v ≡ err f → IsPolicyFailure f
unfolding decide_allow
decide_allow-throws (some (boolean b)) f h = ground arith
decide_allow-throws (some null) f h = ground arith
decide_allow-throws v f h = ground arith

decide_result-throws : (v : Json) (f : Failure) → decide_result v ≡ err f → IsPolicyFailure f
unfolding decide_result
decide_result-throws (object fs) f h = elim (Option-cases (get "scope" fs)) [
  | inl missing ↦ ground (arith, decide_allow-throws (get "allow" fs) f)
  | inr (v, found) ↦ ground (arith, decide_allow-throws (get "allow" fs) f, parse_scope-throws v f)
]
decide_result-throws (boolean b) f h = ground arith
decide_result-throws v f h = ground arith

decide_decision-throws :
    (v : Option Json) (f : Failure) → decide_decision v ≡ err f → IsPolicyFailure f
unfolding decide_decision
decide_decision-throws (some (object fs)) f h = elim (Option-cases (get "result" fs)) [
  | inl missing ↦ ground arith
  | inr (v, found) ↦ ground (arith, decide_result-throws v f)
]
decide_decision-throws (some null) f h = ground arith
decide_decision-throws v f h = ground arith

module _ (fetch_decision : PolicyInput → Reply) (parse_json : List ℕ → Option Json) where
  -- The scope that the policy contributes: none of its own where no server is configured.
  unfoldable pub policy_scope :
      Option String → Principal → List Permission → PolicyContext → Bool → Result ReadScope
  policy_scope url p actions request replay =
      if is_set url
      then decide_reply fetch_decision parse_json
          (fetch_decision (policy_input fetch_decision parse_json p actions request replay))
      else ok empty_scope

  -- A decision is given only if the role ceiling admits every action, the policy server, where
  -- one is configured, answered with a valid scope, and no action that needs unrestricted access
  -- comes with a restricted scope; the result is then the principal's part of the policy's scope.
  pub check-ok :
      (url : Option String) (p : Principal) (actions : List Permission) (request : PolicyContext)
      (replay : Bool) {scope : ReadScope}
      → check fetch_decision parse_json url p actions request replay ≡ ok scope
      → (all (may p replay) actions ≡ true)
        × ((s : ReadScope) × (policy_scope url p actions request replay ≡ ok s)
            × ((restricted s && any (includes unrestricted_only) actions) ≡ false)
            × (scope ≡ principal_scope p s))
  unfolding check policy_scope ask_policy catch_unavailable require_unrestricted
  check-ok url p actions request replay {scope} h =
      go (policy_scope url p actions request replay) refl
    where
      go :
          (r : Result ReadScope)
          → policy_scope url p actions request replay ≡ r
          → (all (may p replay) actions ≡ true)
            × ((s : ReadScope) × (policy_scope url p actions request replay ≡ ok s)
                × ((restricted s && any (includes unrestricted_only) actions) ≡ false)
                × (scope ≡ principal_scope p s))
      go (ok s) e = (
        ground (arith, authorize-may p actions replay),
        (
          s,
          e,
          ground (arith, authorize-may p actions replay, restricted-empty),
          ground (arith, authorize-may p actions replay),
        ),
      )
      go (err other_error) e = ground (arith, authorize-may p actions replay)
      go (err (http_error status message)) e = ground (arith, authorize-may p actions replay)

  -- Whatever the policy server answers, the view of a decided scope reads a payload column of a
  -- task only if a role of the principal grants the column's action.
  pub check-view_reads :
      (url : Option String) (p : Principal) (actions : List Permission) (request : PolicyContext)
      (replay : Bool) (scope : ReadScope) (row : TaskRow) (action : Permission) (name : String)
      → check fetch_decision parse_json url p actions request replay ≡ ok scope
      → includes (payload_columns action) name ≡ true
      → view_reads name (task_view scope row) ≡ true
      → includes (grants p) action ≡ true
  check-view_reads url p actions request replay scope row action name h column seen =
      let decided = check-ok url p actions request replay h in
      let s = decided.1.0 in
      let seen' : view_reads name (task_view (principal_scope p s) row) ≡ true =
        rw decided.1.3 at seen in
      ground (arith, task_view-principal_scope p s row action name column)

  decide_reply-throws :
      (reply : Reply) (f : Failure)
      → decide_reply fetch_decision parse_json reply ≡ err f
      → IsPolicyFailure f
  unfolding decide_reply
  decide_reply-throws unreachable f h = ground arith
  decide_reply-throws (response true (some stream)) f h = elim (Result-cases (read_body stream)) [
    | inl (bytes, e) ↦ ground (arith, decide_decision-throws (parse_json bytes) f)
    | inr (g, e) ↦ ground (arith, read_body-throws stream g)
  ]
  decide_reply-throws (response good body) f h = ground arith

  -- Every refusal is an `HttpError` of status 403 or 503: no other error leaves `check`.
  pub check-refusal :
      (url : Option String) (p : Principal) (actions : List Permission) (request : PolicyContext)
      (replay : Bool) (f : Failure)
      → check fetch_decision parse_json url p actions request replay ≡ err f
      → (status_of f ≡ 403) ⊎ (status_of f ≡ 503)
  unfolding check ask_policy require_unrestricted catch_unavailable
  check-refusal url p actions request replay f h =
      let reply =
        fetch_decision (policy_input fetch_decision parse_json p actions request replay) in
      elim (Result-cases (decide_reply fetch_decision parse_json reply)) [
        | inl (s, e) ↦ ground (arith, authorize-may p actions replay)
        | inr (g, e) ↦ ground (arith, authorize-may p actions replay, decide_reply-throws reply g)
      ]

  -- With the role ceiling passed, an answer of the policy server that is neither a refusal nor a
  -- valid scope (no connection, an error status, a broken or oversized body, another JSON value)
  -- gives 503 "Authorization policy unavailable".
  pub check-unavailable :
      (url : Option String) (p : Principal) (actions : List Permission) (request : PolicyContext)
      (replay : Bool)
      → is_set url ≡ true
      → all (may p replay) actions ≡ true
      → policy_scope url p actions request replay ≡ err other_error
      → check fetch_decision parse_json url p actions request replay ≡ err unavailable
  unfolding check policy_scope ask_policy catch_unavailable
  check-unavailable url p actions request replay set allowed failed =
      ground (arith, authorize-may p actions replay)
