-- ===== src/Observation/Rpc/Answer/Laws.antt =====
-- What an answer with rows has been checked against.
use celery_insights.Common.{
  ℕ, ◌≡◌, ◌∙◌, true, not, Option, some, none, List, drop, ok, ◌>>=◌, throw_if, http_error, arith,
  after-ok, subst, ◌>>◌, ◌||◌, includes, get_elem?, Eq-List, Eq-ℕ, String, ◌==◌, Eq-String,
  Bool-cases, inl, inr,
}
use celery_insights.Common.Json.{Json, string}
use celery_insights.Security.Permissions.{Permission, Principal}
use celery_insights.Security.ReadScope.{ReadScope, intersect_scopes}
use celery_insights.Observation.Queries.{Operation, ReadRequest, read_permissions}
use celery_insights.Observation.Queries.Compile.{build_read}
use celery_insights.Observation.Rpc.Answer.{
  Envelope, Subscriptions, is_live, is_bound_live, kill_id, read_only, or_refuse, kill_or_read,
  query, call, answer, subscribe, World, Setup, Moment, before, after, exit, Answer, rows,
  rpc_context, same_scope, scope_at, session_scope, read_rows,
}

module _ {R : Type 0} (setup : Setup) (world : World R) where
  -- The decisions behind the rows of a read.
  pub record IsAuthorized (input : ReadRequest) (answered : Answer R) : Type 0 where
    pub principal : Principal
    pub decision : ReadScope
    pub fresh : ReadScope
    pub result : List R
    pub known : world.principal before ≡ ok principal
    pub allowed :
        world.check before principal
          (read_permissions input principal)
          (rpc_context (some input.operation))
          setup.replay
        ≡ ok decision
    pub scoped :
        world.run_read
          (build_read setup.search input)
          (intersect_scopes setup.initial_scope decision)
        ≡ ok result
    pub later : Principal
    pub known_later : world.principal after ≡ ok later
    pub again :
        scope_at setup world after (some input.operation) (read_permissions input later) ≡ ok fresh
    pub unchanged : same_scope setup (intersect_scopes setup.initial_scope decision) fresh ≡ true
    pub shown : answered ≡ rows (drop (build_read setup.search input).offset result)

  scope_at-operation :
      (m : Moment) (op : Operation) (actions : List Permission) (p : Principal) (scope : ReadScope)
      → world.principal m ≡ ok p
      → scope_at setup world m (some op) actions ≡ ok scope
      → (decision : ReadScope) × (world.check m p actions (rpc_context (some op)) setup.replay
          ≡ ok decision)
        × (scope ≡ intersect_scopes setup.initial_scope decision)
  unfolding scope_at
  scope_at-operation m op actions p scope known h =
      let (p', known', h1) = after-ok (world.principal m) h in
      let (decision, allowed, h2) =
        after-ok (world.check m p' actions (rpc_context (some op)) setup.replay) h1 in
      (decision, ground (arith, known, known', allowed), ground (arith, h2))

  -- What follows the database's answer.
  read_again :
      (input : ReadRequest) (scope : ReadScope) (result : List R) (a : Answer R)
      → (world.principal after >>= λ again.
          scope_at setup world after (some input.operation) (read_permissions input again)
          >>= λ fresh.
              throw_if (not (same_scope setup scope fresh)) (http_error 403 "Read scope changed")
              >> ok (rows (drop (build_read setup.search input).offset result)))
        ≡ ok a
      → (later : Principal) × (fresh : ReadScope) × (world.principal after ≡ ok later)
        × (scope_at setup world after (some input.operation) (read_permissions input later)
            ≡ ok fresh)
        × (same_scope setup scope fresh ≡ true)
        × (a ≡ rows (drop (build_read setup.search input).offset result))
  read_again input scope result a h =
      let (later, known, h1) = after-ok (world.principal after) h in
      let (fresh, again, h2) =
        after-ok (scope_at setup world after (some input.operation) (read_permissions input later))
          h1 in
      (later, fresh, known, again, ground (arith, h2), ground (arith, h2))

  read_rows-IsAuthorized :
      (input : ReadRequest) (a : Answer R)
      → read_rows setup world input ≡ ok a
      → IsAuthorized input a
  unfolding read_rows
  read_rows-IsAuthorized input a h =
      let (p, known, h1) = after-ok (world.principal before) h in
      let (scope, scoped, h2) =
        after-ok (scope_at setup world before (some input.operation) (read_permissions input p))
          h1 in
      let (result, found, h3) =
        after-ok (world.run_read (build_read setup.search input) scope) h2 in
      let (later, fresh, known_later, again, unchanged, shown) =
        read_again input scope result a h3 in
      let (decision, allowed, is_scope) =
        scope_at-operation before input.operation (read_permissions input p) p scope known scoped in
      record {
        principal = p;
        decision = decision;
        fresh = fresh;
        result = result;
        known = known;
        allowed = allowed;
        scoped =
            subst (λ s. world.run_read (build_read setup.search input) s ≡ ok result) is_scope
              found;
        later = later;
        known_later = known_later;
        again = again;
        unchanged = subst (λ s. same_scope setup s fresh ≡ true) is_scope unchanged;
        shown = shown;
      }

  read_only-rows :
      (sql : String) (bindings : Option Json) (a : Answer R)
      → read_only setup world sql bindings ≡ ok a
      → (input : ReadRequest) × IsAuthorized input a
  unfolding read_only
  read_only-rows sql bindings a h = elim (Bool-cases (sql == "observation:read")) [
    | inl typed ↦
        let (input, parsed, found) =
          after-ok (or_refuse (setup.parse_request bindings)) (rw typed at h) in
        (input, read_rows-IsAuthorized input a found)
    | inr other ↦ absurd (cc (rw other at h))
  ]

  -- An authorized read that gave these rows.
  abbrev ReadOf : List R → Type 0
  ReadOf shown = (input : ReadRequest) × IsAuthorized input (rows shown)

  subscribe-rows :
      (subs : Subscriptions) (shown : List R) → (subscribe setup world subs).1 ≡ ok (rows shown) → ⊥
  unfolding subscribe
  subscribe-rows subs shown h = ground arith

  kill_or_read-rows :
      (id : Option (List ℕ)) (sql : String) (bindings : Option Json) (subs : Subscriptions)
      (shown : List R)
      → (kill_or_read setup world id sql bindings subs).1 ≡ ok (rows shown)
      → ReadOf shown
  unfolding kill_or_read
  kill_or_read-rows none sql bindings subs shown h = read_only-rows sql bindings (rows shown) h
  kill_or_read-rows (some id) sql bindings subs shown h = elim (Bool-cases (includes subs id)) [
    | inl known ↦ absurd (cc (rw known at h))
    | inr unknown ↦ read_only-rows sql bindings (rows shown) (rw unknown at h)
  ]

  query-rows :
      (sql bindings : Option Json) (subs : Subscriptions) (shown : List R)
      → (query setup world sql bindings subs).1 ≡ ok (rows shown)
      → ReadOf shown
  unfolding query
  query-rows (some (string sql)) bindings subs shown h =
      elim (Bool-cases (is_live sql || is_bound_live setup sql bindings)) [
        | inl live ↦ absurd (subscribe-rows subs shown (rw live at h))
        | inr other ↦ kill_or_read-rows (kill_id sql) sql bindings subs shown (rw other at h)
      ]
  query-rows none bindings subs shown h = absurd (cc h)
  query-rows (some value) bindings subs shown h = absurd (cc h)

  call-rows :
      (rpc : Envelope) (subs : Subscriptions) (shown : List R)
      → (call setup world rpc subs).1 ≡ ok (rows shown)
      → (query setup world (get_elem? rpc.params 0) (get_elem? rpc.params 1) subs).1
        ≡ ok (rows shown)
  unfolding call
  call-rows rpc subs shown h = ground arith

  -- Rows are answered only to a read that was decided on for its own actions, both before and
  -- after the database read the statements under the decided scope, cut to the socket's first
  -- scope. The two decided scopes have one fingerprint, and at the end the session's scope still
  -- has that of the first one.
  pub answer-rows :
      (rpc : Envelope) (subs : Subscriptions) (shown : List R)
      → (answer setup world rpc subs).1 ≡ ok (rows shown)
      → (ReadOf shown) × (last : ReadScope) × (session_scope setup world exit ≡ ok last)
  unfolding answer call
  answer-rows rpc subs shown h = elim (Bool-cases rpc.has_transaction) [
    | inl refused ↦ absurd (cc (rw refused at h))
    | inr fine ↦
        let (a, called, h1) = after-ok (call setup world rpc subs).1 (rw fine at h) in
        let (last, ended, h2) = after-ok (session_scope setup world exit) h1 in
        (
          query-rows (get_elem? rpc.params 0) (get_elem? rpc.params 1) subs shown
              (call-rows rpc subs shown (called ∙ h2)),
          last,
          ended,
        )
  ]
