-- ===== src/Security/Http/Gate.antt =====
-- The gate of an API request.
use celery_insights.Common.{
  ℕ, ◌≡◌, ◌⊎◌, inl, inr, Bool, true, false, Option, some, List, [], ◌∷◌, String, arith, any, ◌==◌,
  Eq-ℕ, Eq-List, Eq-String, Eq-Option, option_eq_iff, includes, Bool-cases, Option-cases, Result,
  ok,
}
use celery_insights.Security.Permissions.{Permission, Principal}
use celery_insights.Security.ReadScope.{ReadScope}
use celery_insights.Security.Policy.{PolicyContext, PolicyInput, Reply, check}
use celery_insights.Security.Policy.Laws.{check-ok}
use celery_insights.Security.Permissions.Routes.{
  open_routes, is_administrator, needs_administrator, payload_permissions,
  payload_permissions-needs_administrator, lookup-needs_administrator, all-may_below,
}
use celery_insights.Common.Json.{Json}
use Prim.Native.String
use celery_insights.Security.Http.{
  Snapshot, Request, is_websocket, request_header, check_origin, route_actions, gate_context, gate,
}

check_origin-ok :
    (snapshot : Snapshot) (request : Request)
    → check_origin snapshot request ≡ ok tt
    → ((request.header "origin" ≡ some snapshot.public_origin)
        ⊎ ((is_websocket request ≡ false) × (includes ("GET" ∷ "HEAD" ∷ []) request.method ≡ true)))
      × ((request.header request_header ≡ some "1")
          ⊎ ((is_websocket request ≡ true)
              ⊎ (includes ("GET" ∷ "HEAD" ∷ []) request.method ≡ true)))
unfolding check_origin
check_origin-ok snapshot request h =
    let origin = option_eq_iff (request.header "origin") (some snapshot.public_origin) in
    let marked = option_eq_iff (request.header request_header) (some "1") in
    (ground (arith, origin), ground (arith, marked))

module _ (decide : Principal → List Permission → PolicyContext → Bool → Result ReadScope) where
  -- What the gate lets through: the route is known, the decision is the one of `check` for the
  -- route's actions and is kept with the principal, a request by another method than GET and HEAD
  -- and a WebSocket upgrade carry the application's origin, and the former carries the request
  -- header too.
  pub gate-ok :
      (snapshot : Snapshot) (p : Principal) (request : Request) (pathname : String) (replay : Bool)
      (admitted : Principal × ReadScope)
      → gate decide snapshot p request pathname replay ≡ ok admitted
      → ((actions : List Permission) × (route_actions request pathname ≡ some actions)
          × (decide p actions (gate_context request pathname) replay ≡ ok admitted.1)
          × (admitted.0 ≡ p))
        × ((request.header "origin" ≡ some snapshot.public_origin)
            ⊎ ((is_websocket request ≡ false)
                × (includes ("GET" ∷ "HEAD" ∷ []) request.method ≡ true)))
        × ((request.header request_header ≡ some "1")
            ⊎ ((is_websocket request ≡ true)
                ⊎ (includes ("GET" ∷ "HEAD" ∷ []) request.method ≡ true)))
  unfolding gate
  gate-ok snapshot p request pathname replay admitted h =
      let origin = check_origin-ok snapshot request (ground arith) in
      (
        elim (Option-cases (route_actions request pathname)) [
          | inl unknown ↦ absurd (ground arith)
          | inr (actions, known) ↦ (actions, known, ground arith, ground arith)
        ],
        origin.0,
        origin.1,
      )

-- The key of `routePermissions` for a request.
abbrev pub route_key : Request → String → String
route_key request pathname = String.◌++◌ request.method (String.◌++◌ " " pathname)

route_actions-needs_administrator :
    (request : Request) (pathname : String) (actions : List Permission)
    → route_actions request pathname ≡ some actions
    → (pathname == "/api/observation/rpc") ≡ false
    → includes open_routes (route_key request pathname) ≡ false
    → any needs_administrator actions ≡ true
unfolding route_actions
route_actions-needs_administrator request pathname actions known other closed =
    elim (Bool-cases (pathname == "/mcp")) [
      | inl mcp ↦
          let same : payload_permissions ≡ actions = ground arith in
          rw (← same) payload_permissions-needs_administrator
      | inr route ↦
          lookup-needs_administrator (route_key request pathname) actions (ground arith) closed
    ]

-- Composed with the decision of `Authorization.check`, the gate admits a principal without the
-- administrator role to the observation RPC and the four open routes only, whatever the policy
-- server answers.
pub gate_below_administrator :
    (fetch_decision : PolicyInput → Reply) (parse_json : List ℕ → Option Json) (url : Option String)
    (snapshot : Snapshot) (p : Principal) (request : Request) (pathname : String) (replay : Bool)
    (admitted : Principal × ReadScope)
    → any is_administrator p.roles ≡ false
    → (pathname == "/api/observation/rpc") ≡ false
    → includes open_routes (route_key request pathname) ≡ false
    → ¬ (
        gate (check fetch_decision parse_json url) snapshot p request pathname replay ≡ ok admitted)
gate_below_administrator fetch_decision parse_json url snapshot p request pathname replay admitted
      below other closed h =
    let facts =
      gate-ok (check fetch_decision parse_json url) snapshot p request pathname replay admitted h in
    let actions = facts.0.0 in
    let allowed =
      (check-ok fetch_decision parse_json url p actions (gate_context request pathname) replay
        facts.0.2).0 in
    let top = route_actions-needs_administrator request pathname actions facts.0.1 other closed in
    cc (allowed, all-may_below p replay actions top below)
