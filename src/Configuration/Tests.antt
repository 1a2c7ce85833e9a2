-- ===== src/Configuration/Tests.antt =====
-- Examples of configurations.
use celery_insights.Common.{
  All, ℕ, ◌≡◌, refl, true, false, not, ◌||◌, Option, some, none, List, [], ◌∷◌, String, filter, any,
  all, includes, distinct, lookup, if◌then◌else◌, ◌==◌, Eq-String, arith, Result, ok, err,
  other_error,
}
use celery_insights.Configuration.Values.{
  flat_of, flatten, flatten_value, boolean, Table, validate_celery_data, Value, text, number,
  boolean, array, table, Values, nil, cons, end, entry, flatten, drop_newline, validate_celery_data,
  items, entries,
}
use celery_insights.Configuration.Registry.{Setting, settings}
use celery_insights.Configuration.Loader.{
  Host, Env, Loaded, resolve_values, resolve_setting, convert, check_legacy, from_toml, from_legacy,
  origin, content_of, finish,
}
use celery_insights.Configuration.Loader.Environment.{Stands, resolve_values-Stands}
use celery_insights.Configuration.Loader.Entries.{no_repeat, keys, paths}
use celery_insights.Configuration.Accounts.{
  resolve_accounts, is_identifier, is_printable, env_password, password_of, check_password,
  resolve_account, map_accounts,
}
use celery_insights.Configuration.Authentication.{
  Url, Config, Snapshot, authentication_config, drop_slash, no_provider, provider_of,
}
use celery_insights.Configuration.Authentication.Usable.{IsUsable, authentication_config-IsUsable}
use celery_insights.Configuration.Describe.{LooksSame, describe_config, describe_config-same}
use celery_insights.Configuration.Database
use celery_insights.Configuration.Database.{embedded, canonical_values, place}
use celery_insights.Configuration.Database.Placed.{IsPlaced, canonical_values-IsPlaced}
use celery_insights.Security.Http.{Account, basic}
use celery_insights.Security.Permissions.{viewer}

abbrev host : Host
host = record {
  resolve_path = λ directory file. file;
  file_directory = "/etc/celery-insights";
  cwd = "/app";
  read = λ file. some "from file\n";
  byte_length = λ s. 9;
  finite_number = λ s. if s == "7000" then some 7000 else none;
}

abbrev no_accounts : Value → Result Value
no_accounts v = err other_error

-- The port in its legacy variable.
abbrev env : Env
env name = if name == "PORT" then some "7000" else none

abbrev says_8000 : String → Option Value
says_8000 key = if key == "server.port" then some (number 8000) else none

abbrev says_nothing : String → Option Value
says_nothing key = none

abbrev port : Setting
port = record {
  path = "server.port";
  key = "port";
  kind = celery_insights.Configuration.Values.of_number;
  env = some "CELERY_INSIGHTS_PORT";
  legacy = some "PORT";
  secret = false;
  file_path = false;
}

abbrev debug : Setting
debug = record {
  path = "server.debug";
  key = "debug";
  kind = celery_insights.Configuration.Values.of_boolean;
  env = none;
  legacy = some "DEBUG";
  secret = false;
  file_path = false;
}

abbrev loaded : Loaded
loaded = record {
  values = ("port", number 7000) ∷ [];
  provenance = ("server.port", ("env:PORT", false)) ∷ ("server.debug", ("default", false)) ∷ [];
  warnings = "PORT is deprecated; use CELERY_INSIGHTS_PORT" ∷ [];
}

port_loaded : resolve_values host env says_8000 no_accounts (port ∷ debug ∷ []) ≡ ok loaded
unfolding resolve_values resolve_setting convert check_legacy from_toml from_legacy origin
    content_of finish
port_loaded = refl

registry_distinct : no_repeat (keys settings) ≡ true
unfolding includes
registry_distinct = refl

registry_paths : no_repeat (paths settings) ≡ true
unfolding includes
registry_paths = refl

resolve_values-Stands_example :
    All (Stands host env says_8000 no_accounts loaded) (port ∷ debug ∷ [])
unfolding includes
resolve_values-Stands_example =
    resolve_values-Stands host env says_8000 no_accounts (port ∷ debug ∷ []) loaded refl refl
      port_loaded

-- The port in its own variable, and another one in the document.
abbrev own_env : Env
own_env name = if name == "CELERY_INSIGHTS_PORT" then some "7000" else none

own_loaded :
    resolve_values host own_env says_8000 no_accounts (port ∷ [])
    ≡ ok (record {
      values = ("port", number 7000) ∷ [];
      provenance = ("server.port", ("env:CELERY_INSIGHTS_PORT", false)) ∷ [];
      warnings = [];
    })
unfolding resolve_values resolve_setting convert check_legacy from_toml from_legacy origin
    content_of finish
own_loaded = refl

abbrev account : Value
account = table (
    entry "username" (text "ada")
      (entry "roles" (array (cons (text "viewer") nil)) (entry "password_env" (text "ADA") end)))

abbrev resolved : Value
resolved = table (
    entry "username" (text "ada")
      (entry "roles" (array (cons (text "viewer") nil)) (entry "password" (text "secret") end)))

abbrev secrets : Env
secrets name = if name == "ADA" then some "secret" else none

account-resolved :
    resolve_accounts host secrets (array (cons account nil)) ≡ ok (array (cons resolved nil))
unfolding resolve_accounts map_accounts resolve_account check_password password_of env_password
    is_identifier is_printable filter any all includes lookup
account-resolved = refl

-- Both a password and a reference.
two_sources :
    resolve_accounts host secrets (
      array
        (cons (table (entry "password" (text "x") (entry "password_env" (text "ADA") end))) nil))
    ≡ err other_error
unfolding resolve_accounts map_accounts resolve_account filter any includes lookup
two_sources = refl

abbrev parse_url : String → Option Url
parse_url s = some (record {
  protocol = "https:";
  username = "";
  password = "";
  search = "";
  hash = "";
  pathname = "/insights/";
  origin = "https://tasks.example.org";
})

abbrev ada : Account
ada = record { username = "ada"; password = "secret"; roles = viewer ∷ [] }

abbrev config : Config ℕ
config = record {
  public_url = some "https://tasks.example.org/insights/";
  url_prefix = "/insights";
  mode = basic;
  accounts = ada ∷ [];
  session_secret = some "0123456789abcdef";
  session_seconds = 3600;
  issuer = none;
  client_id = none;
  client_secret = none;
  scopes = "";
  role_mappings = [];
}

abbrev snapshot : Snapshot ℕ
snapshot = record {
  public_origin = "https://tasks.example.org";
  public_url = "https://tasks.example.org/insights/";
  mode = basic;
  accounts = ada ∷ [];
  session_secret = "0123456789abcdef";
  session_seconds = 3600;
  provider = none;
}

authentication_config-IsUsable_example : IsUsable parse_url (λ s. s ∷ []) config snapshot
unfolding authentication_config provider_of no_provider drop_slash distinct filter
authentication_config-IsUsable_example =
    authentication_config-IsUsable parse_url (λ s. s ∷ []) config snapshot refl

abbrev token_a : String → Option Value
token_a key = if key == "mcpCursorSecret" then some (text "a") else some (text "v")

abbrev token_b : String → Option Value
token_b key = if key == "mcpCursorSecret" then some (text "b") else some (text "v")

tokens-LooksSame :
    (some_settings : List Setting)
    → all (λ s. s.secret || not (s.key == "mcpCursorSecret")) some_settings ≡ true
    → LooksSame [] token_a token_b some_settings
unfolding all
tokens-LooksSame [] h = tt
tokens-LooksSame (s ∷ rest) h =
    (λ shown. ground (arith, h, shown), tokens-LooksSame rest (ground (arith, h)))

-- Two secrets of the cursors, under the whole registry.
describe_config-same_example :
    describe_config [] settings token_a false ≡ describe_config [] settings token_b false
unfolding all
describe_config-same_example =
    describe_config-same [] settings token_a token_b false (tokens-LooksSame settings refl)

abbrev empty_values : celery_insights.Configuration.Database.Values
empty_values = record {
  url = none;
  external_url = none;
  port = some (number 9000);
  config_file = none;
  broker_url = none;
  result_backend = none;
  debug_bundle_path = none;
}

abbrev placed_values : celery_insights.Configuration.Database.Values
placed_values = record {
  url = some (text "ws://localhost:9000/rpc");
  external_url = none;
  port = some (number 9000);
  config_file = some (text "");
  broker_url = none;
  result_backend = none;
  debug_bundle_path = none;
}

canonical_values-IsPlaced_example :
    IsPlaced (λ v. "9000") (some embedded) none false empty_values placed_values
unfolding canonical_values place
canonical_values-IsPlaced_example =
    canonical_values-IsPlaced (λ v. "9000") (some embedded) none false empty_values placed_values
      refl

-- The mode is embedded, and the legacy variable names another database.
embedded_elsewhere :
    canonical_values (λ v. "9000") (some embedded) (some "ws://other:8000/rpc") false empty_values
    ≡ ok (record {
      url = none;
      external_url = some (text "ws://other:8000/rpc");
      port = some (number 9000);
      config_file = some (text "");
      broker_url = none;
      result_backend = none;
      debug_bundle_path = none;
    })
unfolding canonical_values place
embedded_elsewhere = refl

abbrev document_table : Table
document_table =
    entry "schema_version" (number 1)
      (entry "server" (table (entry "port" (number 8000) (entry "debug" (boolean true) end))) end)

nested : flat_of document_table "server.port" ≡ some (number 8000)
unfolding flat_of flatten lookup
nested = refl

invalid_name : validate_celery_data 0 (table (entry "constructor" (number 1) end)) ≡ err other_error
unfolding validate_celery_data includes
invalid_name = refl
