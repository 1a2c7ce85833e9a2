-- ===== src/Api/Bodies.antt =====
-- Requests and their bodies: `boundedBody` and `json` of runtime/observation-api.ts. The schemas,
-- `JSON.parse` and the reading of an uploaded file are parameters.
use celery_insights.Common.{
  ℕ, ◌+◌, Bool, Option, some, none, List, [], ◌∷◌, ◌++◌, String, if◌then◌else◌, length, ltb, Result,
  ok, err, http_error, ◌>>=◌,
}
use celery_insights.Common.Json.{Json}
use celery_insights.Api.Cleanup.{Retention}
use celery_insights.Api.Backup.{Backup}

pub record Request : Type 0 where
  pub method : String
  pub pathname : String
  pub body : Option (List (List ℕ))

pub record Schemas : Type 0 where
  pub parse_json : List ℕ → Option Json
  pub parse_retention : Json → Option Retention
  pub read_upload : List ℕ → Option Json
  pub parse_backup : Json → Option Backup
  pub is_export : Json → Bool
  pub is_date : String → Bool

-- The loop of `boundedBody`: too large a body is refused at the chunk that exceeds the limit.
unfoldable pub read_chunks : ℕ → ℕ → List ℕ → List (List ℕ) → Result (List ℕ)
read_chunks limit size parts [] = ok parts
read_chunks limit size parts (chunk ∷ chunks) =
    let rest = read_chunks limit (size + length chunk) (parts ++ chunk) chunks in
    if ltb limit (size + length chunk) then err (http_error 413 "Request too large") else rest

unfoldable pub bounded_body : ℕ → Option (List (List ℕ)) → Result (List ℕ)
bounded_body limit none = err (http_error 422 "Request body required")
bounded_body limit (some chunks) = read_chunks limit 0 [] chunks

abbrev pub or_unprocessable : {A : Type 0} → String → Option A → Result A
or_unprocessable message none = err (http_error 422 message)
or_unprocessable message (some a) = ok a

-- `json`.
unfoldable pub json : Schemas → Request → Result Json
json schemas request = do
  bytes ← bounded_body 65536 request.body
  or_unprocessable "Invalid request" (schemas.parse_json bytes)
