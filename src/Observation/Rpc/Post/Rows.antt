-- ===== src/Observation/Rpc/Post/Rows.antt =====
-- What rows over HTTP have been checked against.
use celery_insights.Common.{
  ℕ, ◌+◌, ◌≤◌, ◌≡◌, refl, ◌∙◌, ap, sym, true, Option, some, none, List, [], ◌∷◌, ◌++◌, length,
  length-append, drop, flat_map, ok, arith, after-ok, Option-cases, Bool-cases, ◌==◌, Eq-String,
  inl, inr,
}
use celery_insights.Security.Permissions.{Principal}
use celery_insights.Security.ReadScope.{ReadScope, intersect_scopes}
use celery_insights.Observation.Queries.{ReadRequest, read_permissions}
use celery_insights.Observation.Queries.Compile.{build_read}
use celery_insights.Observation.Rpc.Answer.{Setup, before, after, same_scope}
use celery_insights.Observation.Rpc.Post.{
  PostRequest, rows, PostWorld, post_context, read_chunks, post_rows, post_bytes, post_body,
  post_read,
}

-- The body whole.
abbrev pub whole : List (List ℕ) → List ℕ
whole = flat_map (λ chunk. chunk)

read_chunks-whole :
    (size : ℕ) (chunks : List (List ℕ)) (bytes : List ℕ)
    → read_chunks size chunks ≡ some bytes
    → size ≤ 65536
    → (bytes ≡ whole chunks) × (size + length bytes ≤ 65536)
unfolding read_chunks flat_map
read_chunks-whole size [] bytes h k = (ground (arith, h), ground (arith, h, k))
read_chunks-whole size (chunk ∷ chunks) bytes h k =
    elim (Option-cases (read_chunks (size + length chunk) chunks)) [
      | inl refused ↦ absurd (ground (arith, h, refused))
      | inr (rest, found) ↦
          let (same, bound) =
            read_chunks-whole (size + length chunk) chunks rest found (ground (arith, h)) in
          let joined : bytes ≡ chunk ++ rest = ground (arith, h, found) in
          (
            joined ∙ ap (λ xs. chunk ++ xs) same,
            omega (arith, bound, ap length joined, length-append chunk rest),
          )
    ]

module _ {R : Type 0} (setup : Setup) (world : PostWorld R) where
  pub record IsPosted (request : PostRequest) (shown : List R) : Type 0 where
    pub chunks : List (List ℕ)
    pub input : ReadRequest
    pub principal : Principal
    pub decision : ReadScope
    pub fresh : ReadScope
    pub result : List R
    pub method : request.method ≡ "POST"
    pub body : request.body ≡ some chunks
    pub bound : length (whole chunks) ≤ 65536
    pub parsed : world.parse (whole chunks) ≡ some input
    pub known : world.principal ≡ ok principal
    pub allowed :
        world.check before principal
          (read_permissions input principal)
          (post_context input.operation)
          setup.replay
        ≡ ok decision
    pub scoped :
        world.run_read (build_read setup.search input) (intersect_scopes world.scope decision)
        ≡ ok result
    pub again :
        world.check after principal
          (read_permissions input principal)
          (post_context input.operation)
          setup.replay
        ≡ ok fresh
    pub unchanged : same_scope setup decision fresh ≡ true
    pub rows_shown : shown ≡ drop (build_read setup.search input).offset result

  post_bytes-rows :
      (found : Option (List ℕ)) (shown : List R)
      → post_bytes setup world found ≡ ok (rows shown)
      → (bytes : List ℕ) × (input : ReadRequest) × (found ≡ some bytes)
        × (world.parse bytes ≡ some input)
        × (post_rows setup world input ≡ ok (rows shown))
  post_bytes-rows none shown h = absurd (cc h)
  post_bytes-rows (some bytes) shown h = elim (Option-cases (world.parse bytes)) [
    | inl invalid ↦ absurd (cc (rw invalid at h))
    | inr (input, parsed) ↦ (bytes, input, refl, parsed, rw parsed at h)
  ]

  post_rows-IsPosted :
      (request : PostRequest) (chunks : List (List ℕ)) (input : ReadRequest) (shown : List R)
      → request.method ≡ "POST"
      → request.body ≡ some chunks
      → length (whole chunks) ≤ 65536
      → world.parse (whole chunks) ≡ some input
      → post_rows setup world input ≡ ok (rows shown)
      → IsPosted request shown
  unfolding post_rows
  post_rows-IsPosted request chunks input shown method body bound parsed h =
      let (p, known, h1) = after-ok world.principal h in
      let (decision, allowed, h2) =
        after-ok
          (world.check before p (read_permissions input p) (post_context input.operation)
            setup.replay)
          h1 in
      let (result, scoped, h3) =
        after-ok
          (world.run_read (build_read setup.search input) (intersect_scopes world.scope decision))
          h2 in
      let (fresh, again, h4) =
        after-ok
          (world.check after p (read_permissions input p) (post_context input.operation)
            setup.replay)
          h3 in
      record {
        chunks = chunks;
        input = input;
        principal = p;
        decision = decision;
        fresh = fresh;
        result = result;
        method = method;
        body = body;
        bound = bound;
        parsed = parsed;
        known = known;
        allowed = allowed;
        scoped = scoped;
        again = again;
        unchanged = ground (arith, h4);
        rows_shown = ground (arith, h4);
      }

  post_body-IsPosted :
      (request : PostRequest) (body : Option (List (List ℕ))) (shown : List R)
      → request.method ≡ "POST"
      → request.body ≡ body
      → post_body setup world body ≡ ok (rows shown)
      → IsPosted request shown
  post_body-IsPosted request none shown method same h = absurd (cc h)
  post_body-IsPosted request (some chunks) shown method same h =
      let (bytes, input, found, parsed, h1) = post_bytes-rows (read_chunks 0 chunks) shown h in
      let (joined, bound) = read_chunks-whole 0 chunks bytes found (omega arith) in
      post_rows-IsPosted request chunks input shown method same
        (omega (arith, bound, ap length joined)) (ap world.parse (sym joined) ∙ parsed) h1

  -- Rows are answered over HTTP only to a POST whose body has at most 65536 bytes in all, whatever
  -- its chunks and its length header say, and reads as a request; and only after a decision for
  -- the request's own actions under whose scope, cut to the request's, the database was read, with
  -- a second decision of the same fingerprint after it.
  pub post_read-rows :
      (request : PostRequest) (shown : List R)
      → post_read setup world request ≡ ok (rows shown)
      → IsPosted request shown
  unfolding post_read
  post_read-rows request shown h = elim (Bool-cases (request.method == "POST")) [
    | inl posted ↦
        post_body-IsPosted request request.body shown
          ((Eq-String.equals_iff request.method "POST").0 posted) refl (ground (arith, h, posted))
    | inr other ↦ absurd (cc (rw other at h))
  ]
