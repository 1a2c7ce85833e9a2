-- ===== src/Configuration/Database.antt =====
-- The database that `resolveConfig` of runtime/config-loader.ts settles on when the configuration
-- is canonical: there is a file, or a variable of the application is set.
pub mod Placed
use celery_insights.Common.{
  ℕ, ◌≡◌, ◌≢◌, refl, ◌∙◌, ap, sym, subst, Bool, true, false, not, ◌&&◌, ◌||◌, Option, some, none,
  List, [], ◌∷◌, String, map, any, is_some, if◌then◌else◌, ◌==◌, nat_eq, Eq-String, lookup, Result,
  ok, err, other_error, throw_if, ◌>>=◌, ◌>>◌, after-ok, arith, Bool-cases, inl, inr, ◌⊎◌,
}
use celery_insights.Common.Text.{◌<>◌, codes, strip}
use celery_insights.Configuration.Values.{
  Value, text, number, not_finite, boolean, null, array, table, date,
}

-- `Object.keys(env).some(…)` and `hasFile`.
unfoldable pub is_canonical : Bool → List (String × Option String) → Bool
is_canonical has_file env =
    has_file
    || any
        (λ variable.
          is_some (strip (codes "CELERY_INSIGHTS_") (codes variable.0))
          && (not (variable.0 == "CELERY_INSIGHTS_CONFIG_FILE") && is_some variable.1))
        env

-- The values that the function reads and writes.
pub record Values : Type 0 where
  pub url : Option Value
  pub external_url : Option Value
  pub port : Option Value
  pub config_file : Option Value
  pub broker_url : Option Value
  pub result_backend : Option Value
  pub debug_bundle_path : Option Value

-- `database.observation.mode`.
pub data Mode : Type 0 where
  embedded external : Mode

unfoldable pub read_mode : Option Value → Result (Option Mode)
read_mode none = ok none
read_mode (some (text s)) =
    if s == "embedded"
    then ok (some embedded)
    else if s == "external"
    then ok (some external)
    else err other_error
read_mode (some _) = err other_error

abbrev pub is_mode : Mode → Option Mode → Bool
is_mode embedded (some embedded) = true
is_mode external (some external) = true
is_mode _ _ = false

-- A value is truthy.
abbrev pub is_truthy : Option Value → Bool
is_truthy none = false
is_truthy (some (text s)) = not (s == "")
is_truthy (some (number n)) = not (nat_eq n 0)
is_truthy (some not_finite) = true
is_truthy (some (boolean b)) = b
is_truthy (some null) = false
is_truthy (some _) = true

abbrev pub or_else : Option Value → Option Value → Option Value
or_else none b = b
or_else (some v) b = some v

abbrev pub text_value : Option String → Option Value
text_value none = none
text_value (some s) = some (text s)

abbrev pub or_empty : Option Value → Option Value
or_empty none = some (text "")
or_empty (some v) = some v

-- `port_text` is a value in a template; `legacy` is `SURREALDB_EXTERNAL_URL`; `options` tells
-- whether the document has options for Celery.
module _ (port_text : Value → String) (mode : Option Mode) (legacy : Option String)
    (options : Bool) where
  abbrev pub is_external : Values → Bool
  is_external v = is_some v.url || (is_mode external mode || is_truthy (text_value legacy))

  abbrev port_of : Option Value → String
  port_of none = "8557"
  port_of (some v) = port_text v

  unfoldable pub place : Values → Values
  place v = record {
    url =
        if is_external v
        then v.url
        else some (text ("ws://localhost:" <> port_of v.port <> "/rpc"));
    external_url = if is_external v then or_else v.url (text_value legacy) else v.external_url;
    port = v.port;
    config_file = or_empty v.config_file;
    broker_url = v.broker_url;
    result_backend = v.result_backend;
    debug_bundle_path = v.debug_bundle_path;
  }

  unfoldable pub canonical_values : Values → Result Values
  canonical_values v = do
    throw_if (is_mode embedded mode && is_some v.url) other_error
    throw_if (is_mode external mode && (not (is_some v.url) && not (is_truthy (text_value legacy))))
        other_error
    throw_if
        (is_truthy (place v).config_file
          && (is_some v.broker_url || (is_some v.result_backend || options)))
        other_error
    throw_if (is_truthy v.debug_bundle_path && is_truthy (place v).external_url) other_error
    ok (place v)
