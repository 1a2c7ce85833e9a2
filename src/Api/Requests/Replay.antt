-- ===== src/Api/Requests/Replay.antt =====
-- A server that shows a snapshot.
use celery_insights.Common.{
  ℕ, ◌≡◌, refl, ◌∙◌, Bool, true, false, not, if◌then◌else◌, Option, List, Result, ok, err,
  http_error, throw_if, ◌==◌, Eq-String, ◌&&◌,
}
use celery_insights.Api.Bodies.{Request, Schemas, json}
use celery_insights.Api.Calls.{Api, Call, pure, lift, ◌>>=◌, then_call}
use celery_insights.Api.Requests.{
  starts_with, put_retention, retention_settings, clean_tables, clear_tables, import_upload,
  export_csv, is_route, handle, csv,
}

-- The requests that change something, as their routes name them.
pub data Change : Type 0 where
  save_settings clean clear import_backup : Change

abbrev pub request_of : Change → Option (List (List ℕ)) → Request
request_of save_settings body = record {
  method = "PUT";
  pathname = "/api/settings/retention";
  body = body;
}
request_of clean body = record { method = "POST"; pathname = "/api/settings/cleanup"; body = body }
request_of clear body = record { method = "POST"; pathname = "/api/settings/clear"; body = body }
request_of import_backup body = record {
  method = "POST";
  pathname = "/api/settings/import";
  body = body;
}

-- A call that writes nothing to the database and keeps the saved settings, if it throws too.
abbrev pub IsUntouched : {A : Type 0} → Api → Result A × Api → Type 0
IsUntouched api (result, after) = (after.writes ≡ api.writes) × (after.saved ≡ api.saved)

IsUntouched-if :
    {A : Type 0} (api : Api) (test : Bool) (left right : Call A)
    → IsUntouched api (left api)
    → IsUntouched api (right api)
    → IsUntouched api ((if test then left else right) api)
IsUntouched-if api true left right h k = h
IsUntouched-if api false left right h k = k

-- A call that only fails or gives a value, and one after it that touches nothing.
IsUntouched-lift :
    {A B : Type 0} (api : Api) (result : Result A) (next : A → Call B)
    → ((a : A) → IsUntouched api (next a api))
    → IsUntouched api ((lift result >>= next) api)
IsUntouched-lift api (ok a) next h = h a
IsUntouched-lift api (err failure) next h = (refl, refl)

-- A call that touches nothing, and then one that touches nothing.
IsUntouched-then_call :
    {A B : Type 0} (api : Api) (done : Result A × Api) (next : A → Call B)
    → IsUntouched api done
    → ((a : A) (after : Api) → IsUntouched after (next a after))
    → IsUntouched api (then_call done next)
IsUntouched-then_call api (ok a, after) next h k =
    let (writes, saved) = k a after in (writes ∙ h.0, saved ∙ h.1)
IsUntouched-then_call api (err failure, after) next h k = h

module _ (schemas : Schemas) where
  IsUntouched-retention_settings :
      (request : Request) (api : Api)
      → IsUntouched api (retention_settings schemas request true api)
  unfolding retention_settings put_retention
  IsUntouched-retention_settings request api =
      IsUntouched-then_call api _ _
        (IsUntouched-if api (request.method == "PUT") (put_retention schemas request true) (pure tt)
          (refl, refl) (refl, refl))
        (λ u after. (refl, refl))

  IsUntouched-export_csv :
      (request : Request) (api : Api) → IsUntouched api (export_csv schemas request api)
  unfolding export_csv
  IsUntouched-export_csv request api = IsUntouched-lift api (json schemas request) _ (λ body.
      IsUntouched-lift api
        (throw_if (not (schemas.is_export body)) (http_error 422 "Invalid export request"))
        (λ _. pure csv) (λ _. (refl, refl)))

  IsUntouched-handle :
      (request : Request) (api : Api) → IsUntouched api (handle schemas request true api)
  unfolding handle import_upload clean_tables clear_tables
  IsUntouched-handle request api =
      IsUntouched-if api (is_route request "/api/settings/info" "GET") _ _ (refl, refl)
        (IsUntouched-if api (request.pathname == "/api/settings/retention") _ _
          (IsUntouched-retention_settings request api)
          (IsUntouched-if api (is_route request "/api/settings/cleanup" "POST") _ _ (refl, refl)
            (IsUntouched-if api (is_route request "/api/settings/clear" "POST") _ _ (refl, refl)
              (IsUntouched-if api (is_route request "/api/settings/export" "GET") _ _ (refl, refl)
                (IsUntouched-if api (is_route request "/api/settings/import" "POST") _ _
                  (refl, refl)
                  (IsUntouched-if api (is_route request "/api/exports/csv" "POST") _ _
                    (IsUntouched-export_csv request api)
                    (IsUntouched-if api
                      (starts_with "/metrics" request.pathname && request.method == "GET") _ _
                      (refl, refl) (refl, refl))))))))

  refused :
      (change : Change) (body : Option (List (List ℕ))) (api : Api)
      → handle schemas (request_of change body) true api
        ≡ (err (http_error 403 "Snapshot is read-only"), api)
  unfolding handle retention_settings put_retention import_upload clean_tables clear_tables
  refused save_settings body api = refl
  refused clean body api = refl
  refused clear body api = refl
  refused import_backup body api = refl

  -- A server that shows a snapshot writes nothing to the database and keeps the saved settings,
  -- whatever request it answers or refuses: what was written before a throw counts as written. The
  -- requests that save settings, clean up, clear or import are refused with status 403, whatever
  -- their body, before they change anything in the server either.
  pub handle-IsUntouched :
      ((request : Request) (api : Api) → IsUntouched api (handle schemas request true api))
      × ((change : Change) (body : Option (List (List ℕ))) (api : Api)
          → handle schemas (request_of change body) true api
            ≡ (err (http_error 403 "Snapshot is read-only"), api))
  handle-IsUntouched = (IsUntouched-handle, refused)
