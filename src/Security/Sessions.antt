-- ===== src/Security/Sessions.antt =====
-- Browser sessions: runtime/security/sessions.ts. Cookies and paths are code points. The
-- encryption of tokens, the identity provider and the URL parser are parameters; `revision`,
-- `prefix` and the cookies' names are what the constructor computes.
pub mod Callback
pub mod Cookies
pub mod Payload
pub mod Redirect
pub mod Roundtrip
use celery_insights.Common.{
  ℕ, ◌+◌, Bool, true, false, not, ◌||◌, ◌&&◌, Option, some, none, List, [], ◌∷◌, ◌++◌, map, String,
  if◌then◌else◌, is_some, any, all, filter, find, flat_map, distinct, length, drop, leb, ltb,
  nat_eq, includes, ◌==◌, Eq-String, Eq-List, Eq-ℕ, Result, ok, err, Failure, http_error, ◌>>=◌,
  ◌>>◌, throw_if,
}
use celery_insights.Common.Json.{
  Json, Items, Fields, null, boolean, number, string, array, object, nil, cons, end, field, items,
  get, utf16_length,
}
use celery_insights.Common.Text.{codes, split, strip, ◌<>◌}
use celery_insights.Security.Permissions.{Role, viewer, operator, administrator, Principal, rank}
use celery_insights.Security.Http.{
  Account, Snapshot, is_oidc, sign_in_required, or_throw, account_principal,
}
use mathlib.Core.List.{reverse}
use mathlib.Core.Option
use Prim.Native.Char.{code}
use Prim.Native.String

pub record RoleMapping : Type 0 where
  pub claim : String
  pub value : String
  pub roles : List Role

pub record Sessions : Type 0 where
  pub config : Snapshot
  pub session_seconds : Option ℕ
  pub role_mappings : List RoleMapping
  pub prefix : List ℕ
  pub revision : String
  pub cookie_name : List ℕ
  pub transaction_name : List ℕ

-- A `Set-Cookie` header by its parts; it is HttpOnly, Secure and SameSite=Lax always.
pub record Cookie : Type 0 where
  pub name : List ℕ
  pub value : List ℕ
  pub path : List ℕ
  pub max_age : ℕ

-- `EncryptJWT` and `jwtDecrypt` with the session key, at a time in seconds.
pub record Jose : Type 0 where
  pub encrypt : (issuer : String) (audience : List ℕ) (now seconds : ℕ) (payload : Fields) → List ℕ
  pub decrypt : (issuer : String) (audience : List ℕ) (now : ℕ) (token : List ℕ) → Option Fields

abbrev pub is_blank : ℕ → Bool
is_blank c = (leb 9 c && leb c 13) || nat_eq c 32 || nat_eq c 160

unfoldable pub drop_blanks : List ℕ → List ℕ
drop_blanks [] = []
drop_blanks (c ∷ cs) = let rest = drop_blanks cs in if is_blank c then rest else c ∷ cs

-- `trim()` on a header's characters.
unfoldable pub trim : List ℕ → List ℕ
trim text = reverse (drop_blanks (reverse (drop_blanks text)))

-- The values of the pieces that start with `prefix`.
unfoldable pub values_of : List ℕ → List (List ℕ) → List (List ℕ)
values_of prefix [] = []
values_of prefix (piece ∷ pieces) = elim (strip prefix piece) [
  | none ↦ values_of prefix pieces
  | some value ↦ value ∷ values_of prefix pieces
]

abbrev pub only : List (List ℕ) → Option (List ℕ)
only (value ∷ []) = some value
only _ = none

abbrev pub or_empty : Option (List ℕ) → List ℕ
or_empty none = []
or_empty (some text) = text

-- `readCookie`, on the request's Cookie header.
unfoldable pub read_cookie : Option (List ℕ) → List ℕ → Option (List ℕ)
read_cookie header name =
    only (values_of (name ++ b'=' ∷ []) (map trim (split b';' (or_empty header))))

abbrev pub cookie : Sessions → List ℕ → List ℕ → ℕ → Cookie
cookie s name value seconds = record {
  name = name;
  value = value;
  path = s.prefix ++ b'/' ∷ [];
  max_age = seconds;
}

abbrev pub audience : Sessions → List ℕ
audience s = elim s.prefix [ [] ↦ b'/' ∷ [] | _ ↦ s.prefix ]

-- `object[name] = value`, or a property of a spread that overrides.
unfoldable pub set_field : String → Json → Fields → Fields
set_field name value end = field name value end
set_field name value (field key old rest) =
    if key == name then field name value rest else field key old (set_field name value rest)

-- The payload that `seal` encrypts.
unfoldable pub sealed : Sessions → Fields → String → Fields
sealed s payload purpose =
    set_field "purpose" (string purpose) (set_field "revision" (string s.revision) payload)

abbrev pub is_text : String → Option Json → Bool
is_text text (some (string value)) = value == text
is_text text value = false

abbrev pub text_of : Option Json → Option String
text_of (some (string value)) = some value
text_of value = none

abbrev pub is_truthy : Option Json → Bool
is_truthy none = false
is_truthy (some null) = false
is_truthy (some (boolean b)) = b
is_truthy (some (number n)) = not (nat_eq n 0)
is_truthy (some (string text)) = not (text == "")
is_truthy (some value) = true

abbrev pub role_name : Role → String
role_name viewer = "viewer"
role_name operator = "operator"
role_name administrator = "administrator"

abbrev pub role_of : Json → Option Role
role_of (string name) =
    if name == "viewer"
    then some viewer
    else if name == "operator"
    then some operator
    else if name == "administrator"
    then some administrator
    else none
role_of value = none

-- The roles of a list of values, if each is a role.
unfoldable pub roles_of : Items → Option (List Role)
roles_of nil = some []
roles_of (cons value rest) = elim (role_of value) [
  | none ↦ none
  | some role ↦ Option.map (λ roles. role ∷ roles) (roles_of rest)
]

-- A list of roles that is not empty.
abbrev pub some_roles : Option (List Role) → Option (List Role)
some_roles (some (role ∷ roles)) = some (role ∷ roles)
some_roles roles = none

unfoldable pub session_roles : Option Json → Option (List Role)
session_roles (some (array values)) = some_roles (roles_of values)
session_roles value = none

-- `replace(/^oidc:/, "")`, in two steps.
unfoldable pub after_prefix : String → String → Option String
after_prefix String.[] text = some text
after_prefix (String.◌∷◌ p prefix) String.[] = none
after_prefix (String.◌∷◌ p prefix) (String.◌∷◌ c text) =
    let rest = after_prefix prefix text in if code p == code c then rest else none

unfoldable pub subject : String → String
subject id = elim (after_prefix "oidc:" id) [ none ↦ id | some rest ↦ rest ]

abbrev pub role_items : List Role → Items
role_items [] = nil
role_items (role ∷ roles) = cons (string (role_name role)) (role_items roles)

abbrev pub named : Option String → Fields
named none = end
named (some name) = field "display_name" (string name) end

-- The payload of a session.
unfoldable pub session_payload : Sessions → Principal → Fields
session_payload s p = field "sub" (string (subject p.account_id)) (
    if is_oidc s.config.mode
    then field "roles" (array (role_items p.roles)) (named p.display_name)
    else end)

abbrev pub seconds_of : Sessions → ℕ
seconds_of s = elim s.session_seconds [ none ↦ 28800 | some seconds ↦ seconds ]

module _ (jose : Jose) (s : Sessions) where
  unfoldable pub seal : ℕ → Fields → String → ℕ → List ℕ
  seal now payload purpose seconds =
      jose.encrypt s.config.public_origin (audience s) now seconds (sealed s payload purpose)

  abbrev pub checked : String → Fields → Result Fields
  checked purpose payload =
      if is_text purpose (get "purpose" payload)
        && is_text s.revision (get "revision" payload)
        && is_truthy (get "exp" payload)
      then ok payload
      else err sign_in_required

  -- `open`.
  unfoldable pub open_token : ℕ → Option (List ℕ) → String → Result Fields
  open_token now none purpose = err sign_in_required
  open_token now (some token) purpose =
      if nat_eq (length token) 0 || ltb 4096 (length token)
      then err sign_in_required
      else or_throw (jose.decrypt s.config.public_origin (audience s) now token) sign_in_required
        >>= checked purpose

  abbrev pub account_session : String → Result Principal
  account_session sub =
      or_throw
        (Option.map account_principal (find (λ account. account.username == sub) s.config.accounts))
        sign_in_required

  abbrev pub or_organization : Option String → String
  or_organization none = "Organization account"
  or_organization (some name) = name

  abbrev pub provider_session : String → Fields → Result Principal
  provider_session sub payload = do
    roles ← or_throw (session_roles (get "roles" payload)) sign_in_required
    ok (record {
      account_id = "oidc:" <> sub;
      display_name = some (or_organization (text_of (get "display_name" payload)));
      roles = roles;
    })

  -- `principal`, on the request's Cookie header.
  unfoldable pub session_principal : ℕ → Option (List ℕ) → Result Principal
  session_principal now header = do
    payload ← open_token now (read_cookie header s.cookie_name) "session"
    sub ← or_throw (text_of (get "sub" payload)) sign_in_required
    if is_oidc s.config.mode then provider_session sub payload else account_session sub

  -- `issue`.
  unfoldable pub issue : ℕ → Principal → Result Cookie
  issue now p =
      let token = seal now (session_payload s p) "session" (seconds_of s) in
      if ltb 3800 (length token)
      then err (http_error 403 "Identity is too large")
      else ok (cookie s s.cookie_name token (seconds_of s))

unfoldable pub logout : Sessions → Cookie
logout s = cookie s s.cookie_name [] 0
