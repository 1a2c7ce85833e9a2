-- ===== src/Api/Requests.antt =====
-- `handle` of runtime/observation-api.ts. The contents of the replies that only read the database are
-- left out. What a request writes to the database is kept in order, also when it throws after that.
pub mod Replay
pub mod Body
use celery_insights.Common.{
  ℕ, ◌*◌, Bool, not, ◌&&◌, Option, some, none, List, [], ◌∷◌, ◌++◌, String, if◌then◌else◌, is_some,
  ◌==◌, Eq-String, Result, ok, err, http_error, throw_if,
}
use celery_insights.Common.Json.{Json}
use celery_insights.Common.Text.{codes, strip}
use celery_insights.Api.Cleanup.{Retention}
use celery_insights.Api.Backup.{Backup, Checked, invalid, valid, Imported, import_backup}
use celery_insights.Api.Bodies.{Request, Schemas, bounded_body, or_unprocessable, json}
use celery_insights.Api.Calls.{
  Write, save_retention, clean_up, clear, import_all, Api, Call, pure, lift, gets, modify, ◌>>=◌,
  ◌>>◌,
}

pub data Reply : Type 0 where
  info cleaned cleared backup csv metrics : Reply
  retention_reply : Retention → Reply
  import_failed : (error : String) → Reply
  import_done : Imported → Reply
  unhandled : Reply

abbrev pub write : Write → Api → Api
write w api = record { retention = api.retention; saved = api.saved; writes = api.writes ++ w ∷ [] }

-- `PUT` of the settings.
abbrev pub save : Retention → Api → Api
save settings api = record {
  retention = settings;
  saved = some settings;
  writes = api.writes ++ save_retention settings ∷ [];
}

-- `refreshRetention`.
abbrev pub refresh : Api → Api
refresh api = record {
  retention = elim api.saved [ none ↦ api.retention | some settings ↦ settings ];
  saved = api.saved;
  writes = api.writes;
}

abbrev pub starts_with : String → String → Bool
starts_with prefix s = is_some (strip (codes prefix) (codes s))

abbrev pub is_route : Request → String → String → Bool
is_route request path method = request.pathname == path && request.method == method

abbrev pub read_only : Bool → Call (Unit {0})
read_only replay = lift (throw_if replay (http_error 403 "Snapshot is read-only"))

-- `cleanup` begins with `refreshRetention`.
unfoldable pub clean_tables : Bool → Call Reply
clean_tables replay = do read_only replay; modify refresh; modify (write clean_up); pure cleaned

unfoldable pub clear_tables : Bool → Call Reply
clear_tables replay = do read_only replay; modify (write clear); pure cleared

module _ (schemas : Schemas) where
  unfoldable pub put_retention : Request → Bool → Call (Unit {0})
  put_retention request replay = do
    read_only replay
    body ← lift (json schemas request)
    settings ← lift (or_unprocessable "Invalid retention settings" (schemas.parse_retention body))
    modify (save settings)

  unfoldable pub retention_settings : Request → Bool → Call Reply
  retention_settings request replay = do
    (if request.method == "PUT" then put_retention request replay else pure tt)
    modify refresh
    settings ← gets (λ api. api.retention)
    pure (retention_reply settings)

  -- The reply and the write of a checked backup.
  abbrev pub import_checked : Checked Imported → Call Reply
  import_checked (invalid error) = pure (import_failed error)
  import_checked (valid imported) =
      modify (write (import_all imported)) >> pure (import_done imported)

  abbrev pub import_data : Option Backup → Call Reply
  import_data none = pure (import_failed "Invalid backup format")
  import_data (some data_read) = lift (import_backup schemas.is_date data_read) >>= import_checked

  abbrev pub import_file : Option Json → Call Reply
  import_file none = pure (import_failed "Invalid JSON file")
  import_file (some value) = import_data (schemas.parse_backup value)

  unfoldable pub import_upload : Request → Bool → Call Reply
  import_upload request replay = do
    read_only replay
    bytes ← lift (bounded_body (101 * 1024 * 1024) request.body)
    import_file (schemas.read_upload bytes)

  unfoldable pub export_csv : Request → Call Reply
  export_csv request = do
    body ← lift (json schemas request)
    lift (throw_if (not (schemas.is_export body)) (http_error 422 "Invalid export request"))
    pure csv

  -- `handle`, for null `unhandled`.
  unfoldable pub handle : Request → Bool → Call Reply
  handle request replay =
      if is_route request "/api/settings/info" "GET"
      then pure info
      else if request.pathname == "/api/settings/retention"
      then retention_settings request replay
      else if is_route request "/api/settings/cleanup" "POST"
      then clean_tables replay
      else if is_route request "/api/settings/clear" "POST"
      then clear_tables replay
      else if is_route request "/api/settings/export" "GET"
      then pure backup
      else if is_route request "/api/settings/import" "POST"
      then import_upload request replay
      else if is_route request "/api/exports/csv" "POST"
      then export_csv request
      else if starts_with "/metrics" request.pathname && request.method == "GET"
      then pure metrics
      else pure unhandled
