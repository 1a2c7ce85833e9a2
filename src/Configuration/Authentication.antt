-- ===== src/Configuration/Authentication.antt =====
-- `authenticationConfig` of runtime/authentication-config.ts, on a configuration that its schema
-- accepts. The URL parser and `split(/\s+/)` are parameters, and a role mapping is of any type.
pub mod Usable
use celery_insights.Common.{
  ℕ, Bool, true, false, not, ◌&&◌, ◌||◌, Option, some, none, List, [], ◌∷◌, String, map,
  if◌then◌else◌, includes, distinct, ◌==◌, Eq-String, nat_eq, length, is_some, Result, ok, err,
  other_error, throw_if, ◌>>◌, ◌>>=◌,
}
use celery_insights.Security.Http.{Account, Mode, basic, oidc}

pub record Url : Type 0 where
  pub protocol : String
  pub username : String
  pub password : String
  pub search : String
  pub hash : String
  pub pathname : String
  pub origin : String

pub record Config (R : Type 0) : Type 0 where
  pub public_url : Option String
  pub url_prefix : String
  pub mode : Mode
  pub accounts : List Account
  pub session_secret : Option String
  pub session_seconds : ℕ
  pub issuer : Option String
  pub client_id : Option String
  pub client_secret : Option String
  pub scopes : String
  pub role_mappings : List R

pub record Provider (R : Type 0) : Type 0 where
  pub issuer : String
  pub client_id : String
  pub client_secret : Option String
  pub scopes : String
  pub role_mappings : List R

-- `AuthenticationSnapshot`.
pub record Snapshot (R : Type 0) : Type 0 where
  pub public_origin : String
  pub public_url : String
  pub mode : Mode
  pub accounts : List Account
  pub session_secret : String
  pub session_seconds : ℕ
  pub provider : Option (Provider R)

-- A text that is missing or empty is falsy.
abbrev pub or_throw : Option String → Result String
or_throw none = err other_error
or_throw (some s) = throw_if (s == "") other_error >> ok s

abbrev pub is_text : Option String → Bool
is_text none = false
is_text (some s) = not (s == "")

abbrev pub is_empty : {A : Type 0} → List A → Bool
is_empty [] = true
is_empty (x ∷ xs) = false

abbrev pub is_oidc : Mode → Bool
is_oidc basic = false
is_oidc oidc = true

-- `path.replace(/\/$/, "")`.
unfoldable pub drop_slash : String → String
drop_slash String.[] = ""
drop_slash (String.◌∷◌ c s) =
    let rest = drop_slash s in if String.◌∷◌ c s == "/" then "" else String.◌∷◌ c rest

-- A URL with HTTPS and nothing but a host and a path.
abbrev pub is_plain_https : Url → Bool
is_plain_https url = not (
    not (url.protocol == "https:")
    || (not (url.username == "")
        || (not (url.password == "") || (not (url.search == "") || not (url.hash == "")))))

-- `new URL(text)`.
abbrev pub url_of : (String → Option Url) → String → Result Url
url_of parse_url s = elim (parse_url s) [ none ↦ err other_error | some url ↦ ok url ]

-- `new Set(usernames).size !== length`.
abbrev pub has_duplicates : List Account → Bool
has_duplicates accounts =
    let usernames = map (λ (account : Account). account.username) accounts in
    not (nat_eq (length (distinct usernames)) (length accounts))

module _ {R : Type 0} (parse_url : String → Option Url) (words : String → List String) where
  -- With OIDC mode.
  unfoldable pub oidc_provider : Config R → Result (Option (Provider R))
  oidc_provider config = do
    throw_if (not (is_empty config.accounts)) other_error
    issuer ← or_throw config.issuer
    client_id ← or_throw config.client_id
    throw_if (is_empty config.role_mappings) other_error
    url ← url_of parse_url issuer
    throw_if (not (is_plain_https url)) other_error
    throw_if (not (includes (words config.scopes) "openid")) other_error
    ok (
        some (record {
          issuer = issuer;
          client_id = client_id;
          client_secret = config.client_secret;
          scopes = config.scopes;
          role_mappings = config.role_mappings;
        }))

  -- Without it.
  unfoldable pub no_provider : Config R → Result (Option (Provider R))
  no_provider config = do
    throw_if
        (is_text config.issuer
          || (is_text config.client_id
              || (is_text config.client_secret || not (is_empty config.role_mappings))))
        other_error
    ok none

  unfoldable pub provider_of : Config R → Result (Option (Provider R))
  provider_of config = if is_oidc config.mode then oidc_provider config else no_provider config

  unfoldable pub authentication_config : Config R → Result (Snapshot R)
  authentication_config config = do
    public_url ← or_throw config.public_url
    url ← url_of parse_url public_url
    throw_if (not (is_plain_https url)) other_error
    throw_if (not (drop_slash url.pathname == config.url_prefix)) other_error
    throw_if (not (is_oidc config.mode) && is_empty config.accounts) other_error
    throw_if (has_duplicates config.accounts) other_error
    session_secret ← or_throw config.session_secret
    provider ← provider_of config
    ok (record {
      public_origin = url.origin;
      public_url = public_url;
      mode = config.mode;
      accounts = config.accounts;
      session_secret = session_secret;
      session_seconds = config.session_seconds;
      provider = provider;
    })
