-- ===== src/Security/Http.antt =====
-- Authentication and the authorization gate of an HTTP request: `AuthenticationHttp` of
-- runtime/security/http.ts. A request is its method, the path and query of its URL and its
-- headers. Base64 and UTF-8 are parameters, as is what the session cookie holds
-- (runtime/security/sessions.ts).
pub mod Basic
pub mod Gate
use celery_insights.Common.{
  ℕ, zero, suc, ◌+◌, ◌-◌, ◌≡◌, Bool, true, false, not, ◌||◌, ◌&&◌, Option, some, none, List, [],
  ◌∷◌, ◌++◌, String, if◌then◌else◌, is_some, any, all, map, length, take, drop, replicate, find,
  leb, ltb, includes, lookup, ◌==◌, Eq-String, Eq-List, Eq-ℕ, Eq-Option, Result, ok, err, Failure,
  http_error, other_error, ◌>>=◌, ◌>>◌, throw_if,
}
use celery_insights.Common.Text.{
  codes, to_lower, is_lower, is_digit, is_upper, lower_case, index_of, contains,
}
use celery_insights.Security.Permissions.{Permission, task_metadata_read, Role, Principal, denied}
use celery_insights.Security.Permissions.Routes.{payload_permissions, route_permissions}
use celery_insights.Security.ReadScope.{ReadScope}
use celery_insights.Security.Policy.{PolicyContext, http, websocket}
use mathlib.Core.Option
use Prim.Native.String

pub record Request : Type 0 where
  pub method : String
  pub pathname : String
  pub search : String
  pub header : String → Option String

pub data Mode : Type 0 where
  basic oidc : Mode

pub record Account : Type 0 where
  pub username : String
  pub password : String
  pub roles : List Role

-- `AuthenticationSnapshot`, as far as this file reads it. `sessions` tells whether a session
-- secret is configured.
pub record Snapshot : Type 0 where
  pub mode : Option Mode
  pub public_origin : String
  pub sessions : Bool
  pub accounts : List Account

abbrev pub is_oidc : Option Mode → Bool
is_oidc (some oidc) = true
is_oidc _ = false

abbrev pub sign_in_required : Failure
sign_in_required = http_error 401 "Sign in required"

abbrev pub authentication_required : Failure
authentication_required = http_error 401 "Authentication required"

-- `[A-Za-z0-9+/]`.
abbrev is_base64 : ℕ → Bool
is_base64 c = is_upper c || is_lower c || is_digit c || c == b'+' || c == b'/'

-- `={0,2}$`.
abbrev is_padding : List ℕ → Bool
is_padding [] = true
is_padding (c ∷ []) = c == b'='
is_padding (c ∷ d ∷ []) = c == b'=' && d == b'='
is_padding (c ∷ d ∷ e ∷ rest) = false

-- `[A-Za-z0-9+/]*={0,2}$`.
is_base64_text : List ℕ → Bool
is_base64_text [] = true
is_base64_text (c ∷ cs) = is_padding (c ∷ cs) || (is_base64 c && is_base64_text cs)

base64_group : List ℕ → Option (List ℕ)
unfolding is_base64_text
base64_group [] = none
base64_group (c ∷ cs) = if is_base64 c && is_base64_text cs then some (c ∷ cs) else none

-- `/^Basic ([A-Za-z0-9+/]+={0,2})$/i`: the group.
unfoldable pub basic_group : List ℕ → Option (List ℕ)
unfolding base64_group
basic_group header =
    if lower_case (take 6 header) == codes "basic " then base64_group (drop 6 header) else none

-- `Buffer.alloc(4096)` after a copy into it.
unfoldable pub fill_buffer : List ℕ → List ℕ
fill_buffer bytes = take 4096 (bytes ++ replicate 4096 0)

abbrev pub or_throw {ℓ} : {A : Type ℓ} → Option A → Failure → Result A
or_throw none f = err f
or_throw (some a) f = ok a

-- `accountPrincipal`, on an account that was found.
abbrev pub account_principal : Account → Principal
account_principal account = record {
  account_id = account.username;
  display_name = none;
  roles = account.roles;
}

unfoldable pub find_account : Snapshot → List ℕ → Option Account
find_account snapshot username = find (λ entry. codes entry.username == username) snapshot.accounts

abbrev pub expected_password : (List ℕ → List ℕ) → Option Account → List ℕ
expected_password utf8_encode none = []
expected_password utf8_encode (some account) = utf8_encode (codes account.password)

-- The tail of `basicPrincipal`, from the decoded text on: the comparison of the password.
unfoldable pub verify :
    (List ℕ → List ℕ) → Snapshot → (username : List ℕ) → (supplied : List ℕ) → Result Principal
verify utf8_encode snapshot username supplied =
    let account = find_account snapshot username in
    let expected = expected_password utf8_encode account in
    let matches = fill_buffer supplied == fill_buffer expected in
    do
      throw_if
          (not matches
            || not (is_some account)
            || not (length supplied == length expected)
            || ltb 4096 (length supplied))
          authentication_required
      found ← or_throw account authentication_required
      ok (account_principal found)

-- What the file takes from the platform: base64 and UTF-8 on bytes and code points.
pub record Codec : Type 0 where
  pub base64_decode : List ℕ → List ℕ
  pub base64_encode : List ℕ → List ℕ
  pub utf8_decode : List ℕ → Option (List ℕ)
  pub utf8_encode : List ℕ → List ℕ

abbrev header_or_empty : Option String → String
header_or_empty none = ""
header_or_empty (some value) = value

-- `basicPrincipal`. A separator at 0, or none, is refused after the comparison, with the error of
-- every other refusal.
unfoldable pub basic_principal : Codec → Snapshot → Request → Result Principal
basic_principal codec snapshot request = do
  throw_if (is_oidc snapshot.mode) sign_in_required
  let header = codes (header_or_empty (request.header "authorization"))
  throw_if (ltb 6000 (length header)) authentication_required
  encoded ← or_throw (basic_group header) authentication_required
  let bytes = codec.base64_decode encoded
  throw_if (not (codec.base64_encode bytes == encoded)) authentication_required
  decoded ← or_throw (codec.utf8_decode bytes) authentication_required
  separator ← or_throw (index_of b':' decoded) authentication_required
  throw_if (ltb separator 1) authentication_required
  verify codec.utf8_encode snapshot (take separator decoded)
      (codec.utf8_encode (drop (separator + 1) decoded))

-- `cookie?.includes("__Secure-insights-")`.
unfoldable pub has_session_cookie : Option String → Bool
has_session_cookie none = false
has_session_cookie (some cookie) = contains cookie "__Secure-insights-"

-- `authenticate`; `session_principal` is `Sessions.principal`.
unfoldable pub authenticate :
    Codec → (Request → Result Principal) → Snapshot → Request → Result Principal
authenticate codec session_principal snapshot request =
    let cookie = has_session_cookie (request.header "cookie") in
    do
      throw_if (snapshot.sessions && is_some (request.header "sec-fetch-site") && not cookie)
          sign_in_required
      if snapshot.sessions && cookie
          then session_principal request
          else basic_principal codec snapshot request

-- `upgrade?.toLowerCase() === "websocket"`.
unfoldable pub is_websocket : Request → Bool
is_websocket request = elim (request.header "upgrade") [
  | none ↦ false
  | some value ↦ lower_case (codes value) == codes "websocket"
]

abbrev pub origin_denied : Failure
origin_denied = http_error 403 "Request origin denied"

abbrev pub request_header : String
request_header = "x-celery-insights-request"

-- The checks of `gate` on a request that may change state.
unfoldable pub check_origin : Snapshot → Request → Result (Unit {0})
check_origin snapshot request =
    let mutating = is_websocket request || not (includes ("GET" ∷ "HEAD" ∷ []) request.method) in
    do
      throw_if (mutating && not (request.header "origin" == some snapshot.public_origin))
          origin_denied
      throw_if
          (mutating
            && (not (is_websocket request) && not (request.header request_header == some "1")))
          (http_error 403 "Request header required")

-- The actions that `gate` requires of a route.
unfoldable pub route_actions : Request → String → Option (List Permission)
route_actions request pathname =
    if pathname == "/mcp"
    then some payload_permissions
    else if pathname == "/api/observation/rpc" && includes ("GET" ∷ "POST" ∷ []) request.method
    then some (task_metadata_read ∷ [])
    else lookup (String.◌++◌ request.method (String.◌++◌ " " pathname)) route_permissions

abbrev pub gate_context : Request → String → PolicyContext
gate_context request pathname = record {
  method = request.method;
  path = pathname;
  transport = if is_websocket request then websocket else http;
  tool = none;
  operation = none;
}

-- `gate`: the principal and the decision that is kept for the request. `check` is
-- `Authorization.check`.
unfoldable pub gate :
    (Principal → List Permission → PolicyContext → Bool → Result ReadScope)
    → Snapshot
    → Principal
    → Request
    → String
    → Bool
    → Result (Principal × ReadScope)
gate check snapshot principal request pathname replay = do
  check_origin snapshot request
  actions ← or_throw (route_actions request pathname) denied
  scope ← check principal actions (gate_context request pathname) replay
  ok (principal, scope)
