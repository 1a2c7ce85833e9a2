-- ===== src/Api/Requests/Body.antt =====
-- The body of a request that comes in chunks.
use celery_insights.Common.{
  ℕ, ◌+◌, ◌≤◌, ◌≡◌, some, List, [], ◌∷◌, ◌++◌, if◌then◌else◌, length, length-append, ltb, ok, err,
  http_error, arith, Bool-cases, inl, inr,
}
use celery_insights.Api.Bodies.{read_chunks, bounded_body}
use mathlib.Core.List.{append_assoc, append-nil}

abbrev pub concat : List (List ℕ) → List ℕ
concat [] = []
concat (chunk ∷ chunks) = chunk ++ concat chunks

read_chunks-concat :
    (limit : ℕ) (size : ℕ) (parts : List ℕ) (chunks : List (List ℕ))
    → size ≤ limit
    → read_chunks limit size parts chunks ≡ (
        if ltb limit (size + length (concat chunks))
        then err (http_error 413 "Request too large")
        else ok (parts ++ concat chunks))
unfolding read_chunks
read_chunks-concat limit size parts [] h = ground (arith, h, append-nil parts)
read_chunks-concat limit size parts (chunk ∷ chunks) h =
    let whole = length-append chunk (concat chunks) in
    elim (Bool-cases (ltb limit (size + length chunk))) [
      | inl over ↦ ground (arith, over, whole)
      | inr fits ↦
          let rest =
            read_chunks-concat limit (size + length chunk) (parts ++ chunk) chunks
              (ground (arith, fits)) in
          ground (arith, fits, whole, rest, append_assoc parts chunk (concat chunks))
    ]

-- A body is read whole when all its chunks together are within the limit, and is refused otherwise,
-- however it is cut into chunks.
pub bounded_body-concat :
    (limit : ℕ) (chunks : List (List ℕ))
    → bounded_body limit (some chunks) ≡ (
        if ltb limit (length (concat chunks))
        then err (http_error 413 "Request too large")
        else ok (concat chunks))
unfolding bounded_body
bounded_body-concat limit chunks =
    let whole = read_chunks-concat limit 0 [] chunks (omega arith) in ground (arith, whole)
