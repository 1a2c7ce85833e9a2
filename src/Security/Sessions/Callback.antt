-- ===== src/Security/Sessions/Callback.antt =====
-- Signing in with an identity provider: `start` and `callback`. The provider's discovery and token
-- exchange, fresh random values, and trimming a display name are parameters.
pub mod Admission
use celery_insights.Common.{
  ℕ, ◌≡◌, ◌↔◌, refl, ap, Bool, true, false, not, ◌||◌, ◌&&◌, Option, some, none, List, [], ◌∷◌,
  ◌++◌, String, if◌then◌else◌, is_some, any, filter, find, flat_map, distinct, includes, nat_eq,
  ltb, ◌==◌, Eq, Eq-String, Result, ok, err, Failure, http_error, other_error, ◌>>=◌, ◌>>◌,
  throw_if, after-ok, arith, nat_eq_iff,
}
use celery_insights.Common.Json.{Json, Fields, end, field, string, array, items, get, utf16_length}
use celery_insights.Common.Text.{codes, ◌<>◌}
use celery_insights.Security.Permissions.{Role, viewer, operator, administrator, Principal}
use celery_insights.Security.Http.{sign_in_required, or_throw}
use celery_insights.Security.Sessions.{
  Sessions, Cookie, Jose, RoleMapping, cookie, read_cookie, text_of, is_text, seal, open_token,
  issue,
}
use celery_insights.Security.Sessions.Redirect.{Url, return_path}

-- What the provider's library gives: whether its discovery succeeds, and the claims of the ID
-- token for a callback's query, checked against the verifier, the state and the nonce.
pub record Provider : Type 0 where
  pub discovered : Result (Unit {0})
  pub grant : (search : List ℕ) (verifier state nonce : String) → Result (Option Fields)
  pub trimmed : String → String
  pub shortened : String → String
  pub text : List ℕ → String

pub record Fresh : Type 0 where
  pub verifier : String
  pub state : String
  pub nonce : String

-- The parameters of the authorization URL that the request determines.
pub record Authorization : Type 0 where
  pub redirect_path : List ℕ
  pub verifier : String
  pub state : String
  pub nonce : String
  pub transaction : Cookie

pub record Landing : Type 0 where
  pub status : ℕ
  pub cookies : List Cookie
  pub destination : List ℕ

-- The rank of a role: its identity for `Set`.
abbrev pub role_rank : Role → ℕ
role_rank viewer = 0
role_rank operator = 1
role_rank administrator = 2

role_rank-injective : (a b : Role) → role_rank a ≡ role_rank b → a ≡ b
role_rank-injective viewer viewer h = refl
role_rank-injective operator operator h = refl
role_rank-injective administrator administrator h = refl
role_rank-injective viewer operator h = ground arith
role_rank-injective viewer administrator h = ground arith
role_rank-injective operator viewer h = ground arith
role_rank-injective operator administrator h = ground arith
role_rank-injective administrator viewer h = ground arith
role_rank-injective administrator operator h = ground arith

pub Role-equals_iff : (a b : Role) → (nat_eq (role_rank a) (role_rank b) ≡ true) ↔ (a ≡ b)
Role-equals_iff a b =
    (λ h. role_rank-injective a b ((nat_eq_iff _ _).0 h), λ h. (nat_eq_iff _ _).1 (ap role_rank h))

instance abbrev pub Eq-Role : Eq Role
Eq-Role = record {
  equals = λ a b. nat_eq (role_rank a) (role_rank b);
  equals_iff = Role-equals_iff;
}

abbrev pub matches : RoleMapping → Option Json → Bool
matches mapping (some (array values)) =
    any (λ value. is_text mapping.value (some value)) (items values)
matches mapping claim = is_text mapping.value claim

-- The callback of `flatMap`.
abbrev pub mapped : Fields → RoleMapping → List Role
mapped claims mapping = if matches mapping (get mapping.claim claims) then mapping.roles else []

unfoldable pub mapped_roles : Sessions → Fields → List Role
mapped_roles s claims = distinct (flat_map (mapped claims) s.role_mappings)

abbrev pub is_empty : List Role → Bool
is_empty [] = true
is_empty (role ∷ roles) = false

abbrev pub unauthorized : Failure
unauthorized = http_error 403 "Account is not authorized"

abbrev pub sign_in_failed : Failure
sign_in_failed = http_error 401 "Sign in failed"

module _ (jose : Jose) (parse : List ℕ → Option Url) (s : Sessions) (provider : Provider) where
  abbrev pub named_claim : Option Json → Option String
  named_claim (some (string value)) = if provider.trimmed value == "" then none else some value
  named_claim value = none

  -- The first name that is a text and not blank, trimmed and cut at 128 units.
  unfoldable pub display_name : Fields → String
  display_name claims = elim (named_claim (get "preferred_username" claims)) [
    | some name ↦ provider.shortened (provider.trimmed name)
    | none ↦ elim (named_claim (get "name" claims)) [
      | some name ↦ provider.shortened (provider.trimmed name)
      | none ↦ "Organization account"
    ]
  ]

  abbrev pub transaction_payload : Fresh → Option (List ℕ) → Fields
  transaction_payload fresh return_to = field "verifier" (string fresh.verifier) (
      field "state" (string fresh.state) (
        field "nonce" (string fresh.nonce)
          (field "returnTo" (string (provider.text (return_path parse s return_to))) end)))

  -- `start`.
  unfoldable pub start : ℕ → Fresh → Option (List ℕ) → Result Authorization
  start now fresh return_to = do
    provider.discovered
    ok (record {
      redirect_path = s.prefix ++ codes "/api/auth/callback";
      verifier = fresh.verifier;
      state = fresh.state;
      nonce = fresh.nonce;
      transaction =
          cookie s s.transaction_name
            (seal jose s now (transaction_payload fresh return_to) "oidc" 300) 300;
    })

  -- The subject of the claims, where it is fit for an account.
  unfoldable pub claimed_subject : Option Fields → Result String
  claimed_subject none = err unauthorized
  claimed_subject (some claims) = do
    sub ← or_throw (text_of (get "sub" claims)) unauthorized
    throw_if (sub == "" || ltb 512 (utf16_length sub)) unauthorized
    ok sub

  abbrev pub claims_of : Option Fields → Fields
  claims_of none = end
  claims_of (some claims) = claims

  -- The principal of the claims, where they are authorized.
  unfoldable pub admitted : Option Fields → Result Principal
  admitted claims = do
    sub ← claimed_subject claims
    throw_if (is_empty (mapped_roles s (claims_of claims))) unauthorized
    ok (record {
      account_id = "oidc:" <> sub;
      display_name = some (display_name (claims_of claims));
      roles = mapped_roles s (claims_of claims);
    })

  -- The exchange of the code: the claims for a transaction.
  unfoldable pub exchange : List ℕ → Fields → Result (Option Fields)
  exchange search transaction = do
    verifier ← or_throw (text_of (get "verifier" transaction)) sign_in_failed
    state ← or_throw (text_of (get "state" transaction)) sign_in_failed
    nonce ← or_throw (text_of (get "nonce" transaction)) sign_in_failed
    provider.discovered
    provider.grant search verifier state nonce

  abbrev pub requested : Fields → Option (List ℕ)
  requested transaction = elim (text_of (get "returnTo" transaction)) [
    | none ↦ none
    | some path ↦ some (codes path)
  ]

  -- The `try` block of `callback`: the session's cookie and the destination.
  unfoldable pub sign_in : ℕ → Option (List ℕ) → List ℕ → Result (Cookie × List ℕ)
  sign_in now header search = do
    transaction ← open_token jose s now (read_cookie header s.transaction_name) "oidc"
    claims ← exchange search transaction
    principal ← admitted claims
    session ← issue jose s now principal
    ok (session, return_path parse s (requested transaction))

  abbrev pub cleared : Cookie
  cleared = cookie s s.transaction_name [] 0

  abbrev pub reason : Failure → List ℕ
  reason (http_error status message) = if nat_eq status 403 then codes "denied" else codes "oidc"
  reason other_error = codes "oidc"

  -- The end of `callback`.
  unfoldable pub land : Result (Cookie × List ℕ) → Landing
  land (ok (session, destination)) = record {
    status = 200;
    cookies = cleared ∷ session ∷ [];
    destination = destination;
  }
  land (err failure) = record {
    status = 303;
    cookies = cleared ∷ [];
    destination = s.prefix ++ codes "/login?error=" ++ reason failure;
  }

  unfoldable pub callback : ℕ → Option (List ℕ) → List ℕ → Landing
  callback now header search = land (sign_in now header search)
