-- ===== src/Observation/Rpc/Post.antt =====
-- Observation reads over HTTP: the POST branch of "/api/observation/rpc" in bun-entry.ts. The
-- decisions, the database and the decoder of bodies (JSON.parse and the schema) are parameters.
pub mod Rows
use celery_insights.Common.{
  ℕ, ◌+◌, Bool, true, false, not, Option, some, none, List, [], ◌∷◌, ◌++◌, String, if◌then◌else◌,
  length, drop, ltb, ◌==◌, Eq-String, Result, ok, err, http_error, ◌>>=◌, ◌>>◌, throw_if,
}
use celery_insights.Security.Permissions.{Permission, Principal}
use celery_insights.Security.ReadScope.{ReadScope, intersect_scopes}
use celery_insights.Security.Policy.{PolicyContext, http}
use celery_insights.Observation.Queries.{Operation, ReadRequest, read_permissions}
use celery_insights.Observation.Queries.Conditions.{operation_name}
use celery_insights.Observation.Queries.Compile.{Read, build_read}
use celery_insights.Observation.Rpc.Answer.{Setup, Moment, before, after, same_scope}
use mathlib.Core.Option

-- A request by what the branch reads of it: `Number()` of its length header (0 where that is not a
-- number), and the chunks of its body.
pub record PostRequest : Type 0 where
  pub method : String
  pub content_length : ℕ
  pub body : Option (List (List ℕ))

pub data Reply (R : Type 0) : Type 0 where
  status : ℕ → Reply R
  rows : List R → Reply R

pub record PostWorld (R : Type 0) : Type 0 where
  pub principal : Result Principal
  pub scope : ReadScope
  pub parse : List ℕ → Option ReadRequest
  pub check : Moment → Principal → List Permission → PolicyContext → Bool → Result ReadScope
  pub run_read : Read → ReadScope → Result (List R)

abbrev pub body_limit : ℕ
body_limit = 65536

abbrev pub post_context : Operation → PolicyContext
post_context operation = record {
  method = "POST";
  path = "/api/observation/rpc";
  transport = http;
  tool = none;
  operation = some (operation_name operation);
}

-- The loop over the reader: the bytes of the body, or none once they exceed the limit.
unfoldable pub read_chunks : ℕ → List (List ℕ) → Option (List ℕ)
read_chunks size [] = some []
read_chunks size (chunk ∷ chunks) =
    let rest = read_chunks (size + length chunk) chunks in
    if ltb body_limit (size + length chunk) then none else Option.map (λ bytes. chunk ++ bytes) rest

module _ {R : Type 0} (setup : Setup) (world : PostWorld R) where
  -- The read, from the parsed request on.
  unfoldable pub post_rows : ReadRequest → Result (Reply R)
  post_rows input = do
    principal ← world.principal
    decision ←
        world.check before principal (read_permissions input principal)
          (post_context input.operation) setup.replay
    result ← world.run_read (build_read setup.search input) (intersect_scopes world.scope decision)
    fresh ←
        world.check after principal (read_permissions input principal)
          (post_context input.operation) setup.replay
    throw_if (not (same_scope setup decision fresh)) (http_error 403 "Read scope changed")
    ok (rows (drop (build_read setup.search input).offset result))

  abbrev pub post_parsed : Option ReadRequest → Result (Reply R)
  post_parsed none = ok (status 422)
  post_parsed (some input) = post_rows input

  abbrev pub post_bytes : Option (List ℕ) → Result (Reply R)
  post_bytes none = ok (status 413)
  post_bytes (some bytes) = post_parsed (world.parse bytes)

  abbrev pub post_body : Option (List (List ℕ)) → Result (Reply R)
  post_body none = ok (status 422)
  post_body (some chunks) = post_bytes (read_chunks 0 chunks)

  unfoldable pub post_read : PostRequest → Result (Reply R)
  post_read request =
      if not (request.method == "POST")
      then ok (status 405)
      else if ltb body_limit request.content_length
      then ok (status 413)
      else post_body request.body
