-- ===== src/Security/Entry.antt =====
-- The entry of every application request: `secureApplicationRequest`, `noStore` and `authFailure`
-- of runtime/security/http.ts, and the headers of `accessPage` (runtime/security/login-page.ts).
-- A body is what it is made from; the application's own handler is a parameter.
pub mod Laws
use celery_insights.Common.{
  ℕ, ◌+◌, ◌≡◌, Bool, true, false, not, ◌||◌, ◌&&◌, Option, some, none, List, [], ◌∷◌, ◌++◌, String,
  if◌then◌else◌, is_some, any, includes, lookup, nat_eq, ◌==◌, Eq-String, Eq-Option, Eq-ℕ, Result,
  ok, err, Failure, http_error, other_error, ◌>>=◌, ◌>>◌, throw_if,
}
use celery_insights.Common.Text.{contains, drop_prefix}
use celery_insights.Security.Permissions.{Permission, Principal, grants}
use celery_insights.Security.ReadScope.{ReadScope}
use celery_insights.Security.Policy.{PolicyContext, http}
use celery_insights.Security.Http.{Request, origin_denied}
use text.Mathlib.Text.{starts_with}
use Prim.Native.String
use mathlib.Core.Option

pub data Body : Type 0 where
  no_body : Body
  detail : String → Body
  identity_of : Principal → (permissions : List Permission) → Body
  access_page_of : (prefix destination : String) → (status : ℕ) → Body
  content : String → Body

pub record Response : Type 0 where
  pub status : ℕ
  pub headers : List (String × String)
  pub body : Body

-- `headers.set(name, value)`.
unfoldable pub set_header : String → String → List (String × String) → List (String × String)
set_header name value [] = (name, value) ∷ []
set_header name value ((n, v) ∷ headers) =
    if n == name then (name, value) ∷ headers else (n, v) ∷ set_header name value headers

abbrev frame_policy : List (String × String) → List (String × String)
frame_policy headers =
    if is_some (lookup "Content-Security-Policy" headers)
    then headers
    else set_header "Content-Security-Policy" "frame-ancestors 'none'" headers

unfoldable pub no_store : Response → Response
no_store response = record response {
  headers = frame_policy (set_header "Cache-Control" "no-store" response.headers);
}

-- The status and message that a client sees of an error.
abbrev pub seen_status : Failure → ℕ
seen_status (http_error status message) = status
seen_status other_error = 503

abbrev pub seen_message : Failure → String
seen_message (http_error status message) = message
seen_message other_error = "Authentication unavailable"

unfoldable pub auth_failure : Failure → Response
auth_failure error =
    no_store
      (record { status = seen_status error; headers = []; body = detail (seen_message error) })

unfoldable pub access_page : String → String → ℕ → Response
access_page prefix destination status = record {
  status = status;
  headers =
      ("Content-Type", "text/html; charset=utf-8")
      ∷ ("Cache-Control", "no-store")
      ∷ (
        "Content-Security-Policy",
        "default-src 'none'; style-src 'unsafe-inline'; frame-ancestors 'none'; base-uri 'none'",
      )
      ∷ ("Referrer-Policy", "same-origin")
      ∷ ("X-Content-Type-Options", "nosniff")
      ∷ [];
  body = access_page_of prefix destination status;
}

-- What the entry uses of `AuthenticationHttp`.
pub record Authentication : Type 0 where
  pub origin : String
  pub handle : Request → String → Result (Option Response)
  pub authenticate : Request → Result Principal
  pub check : Principal → List Permission → PolicyContext → Bool → Result ReadScope
  pub gate : Principal → Request → String → Bool → Result (Principal × ReadScope)

abbrev is_probe : String → Bool
is_probe = includes ("/health" ∷ "/ready" ∷ [])

-- The first test: with a prefix, the request is for another application.
unfoldable pub is_foreign : String → String → Bool
is_foreign prefix pathname =
    not (prefix == "")
    && not (pathname == prefix)
    && not (is_probe pathname)
    && not (starts_with pathname (String.◌++◌ prefix "/"))

unfoldable pub normalize : String → String → String
normalize prefix pathname = if is_probe pathname then pathname else drop_prefix prefix pathname

-- `/^\/(assets\/|favicon\.|robots\.txt$)/`, and the probes.
unfoldable pub is_public : String → Bool
is_public path =
    is_probe path
    || starts_with path "/assets/"
    || starts_with path "/favicon."
    || path == "/robots.txt"

abbrev is_below : String → String → Bool
is_below path name = path == name || starts_with path (String.◌++◌ name "/")

-- `/^\/(api|metrics|surreal|mcp|ws)(?:\/|$)/`.
unfoldable pub is_api : String → Bool
is_api path = any (is_below path) ("/api" ∷ "/metrics" ∷ "/surreal" ∷ "/mcp" ∷ "/ws" ∷ [])

abbrev accepts_html : Option String → Bool
accepts_html none = false
accepts_html (some accept) = contains accept "text/html"

-- A request that a person makes by navigating.
unfoldable pub is_navigation : Request → Bool
is_navigation request =
    request.method == "GET"
    && (request.header "sec-fetch-mode" == some "navigate"
        || accepts_html (request.header "accept"))

unfoldable pub foreign_origin : Authentication → Request → Bool
foreign_origin auth request =
    (is_some (request.header "origin") && not (request.header "origin" == some auth.origin))
    || (request.header "sec-fetch-site" == some "cross-site"
        && not (request.header "sec-fetch-mode" == some "navigate"))

abbrev pub http_context : Request → String → PolicyContext
http_context request path = record {
  method = request.method;
  path = path;
  transport = http;
  tool = none;
  operation = none;
}

-- `Response.json` of the identity and the sorted permissions.
abbrev pub identity_response : Principal → Response
identity_response principal = record {
  status = 200;
  headers = [];
  body = identity_of principal (grants principal);
}

-- The end of the `try` block before `dispatch`: a response of its own, or none.
unfoldable pub decide :
    Authentication → Principal → Request → String → Bool → Result (Option Response)
decide auth principal request path replay =
    let identity = auth.check principal [] (http_context request path) replay >>= λ _.
    ok (some (no_store (identity_response principal))) in
    let api = auth.gate principal request path replay >>= λ _. ok none in
    let page = auth.check principal [] (http_context request path) replay >>= λ _. ok none in
    if path == "/api/auth/identity" && request.method == "GET"
    then identity
    else if is_api path
    then api
    else page

-- The `try` block before `dispatch`: a response of its own, or none where the request goes on.
unfoldable pub admit : Option Authentication → Request → String → Bool → Result (Option Response)
admit none request path replay = err (http_error 503 "Authentication unavailable")
admit (some auth) request path replay = do
  handled ← auth.handle request path
  elim handled [
    | some response ↦ ok (some (no_store response))
    | none ↦ do
      throw_if (foreign_origin auth request) origin_denied
      principal ← auth.authenticate request
      decide auth principal request path replay
  ]

-- `auth && …`: the access page names the application's origin.
unfoldable pub recover_page : String → Option Authentication → String → ℕ → Failure → Response
recover_page prefix none path status error = auth_failure error
recover_page prefix (some auth) path status error =
    access_page prefix (String.◌++◌ auth.origin path) status

abbrev is_unauthorized : Failure → Bool
is_unauthorized (http_error status message) = nat_eq status 401
is_unauthorized other_error = false

-- The response of the `try` block before `dispatch`, or that of `dispatch`.
unfoldable pub or_dispatch : Option Response → Result (Option Response) → Result (Option Response)
or_dispatch (some own) dispatch = ok (some own)
or_dispatch none dispatch = dispatch >>= λ answer. ok (Option.map no_store answer)

-- `try { … } catch (error) { return handler(error) }`.
unfoldable pub caught : (Failure → Response) → Result (Option Response) → Result (Option Response)
caught handler (ok answer) = ok answer
caught handler (err error) = ok (some (handler error))

-- `pathname + url.search`.
abbrev pub target : Request → String
target request = String.◌++◌ request.pathname request.search

unfoldable pub login_redirect : (encode : String → String) → String → Request → Response
login_redirect encode prefix request = no_store (record {
  status = 303;
  headers =
      ("Location", String.◌++◌ prefix (String.◌++◌ "/login?returnTo=" (encode (target request))))
      ∷ [];
  body = no_body;
})

-- The `catch` clause. `encode` is `encodeURIComponent`.
unfoldable pub recover :
    (encode : String → String)
    → String
    → Option Authentication
    → Request
    → String
    → Failure
    → Response
recover encode prefix auth request path error =
    let status = seen_status error in
    if is_unauthorized error && is_navigation request
    then login_redirect encode prefix request
    else if (nat_eq status 403 || nat_eq status 503) && not (is_api path) && is_navigation request
    then recover_page prefix auth (target request) status error
    else auth_failure error

-- `secureApplicationRequest`; `dispatch` is what the application's handler gives.
unfoldable pub secure :
    (encode : String → String)
    → Request
    → String
    → Option Authentication
    → Bool
    → (dispatch : Result (Option Response)) → Result (Option Response)
secure encode request prefix auth replay dispatch =
    let path = normalize prefix request.pathname in
    let tried = admit auth request path replay >>= λ own. or_dispatch own dispatch in
    if is_foreign prefix request.pathname || is_public path
    then dispatch
    else caught (recover encode prefix auth request path) tried
