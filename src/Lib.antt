-- ===== src/Lib.antt =====
-- Celery Insights: the parts of the dashboard and its server that decide what may be seen, done
-- and shown.
--
-- The Bun server (bun-entry.ts) takes every HTTP request through `secureApplicationRequest`
-- (runtime/security/http.ts), which authenticates it and asks `AuthenticationHttp.gate` for the
-- actions of its route. `Authorization.check` (runtime/security/opa.ts) decides on them by the
-- role ceiling of runtime/security/permissions.ts and by the policy server, and returns a read
-- scope (runtime/security/read-scope.ts), under which the observation queries
-- (runtime/observation) read the tables for the sockets and the requests of the dashboard. Browsers
-- sign in by the cookies of runtime/security/sessions.ts. One instance at a time ingests the events
-- of Celery: runtime/leader-election.ts holds a lock record in the database for it, and the leader
-- keeps a Python process running (bun-entry.ts). The dashboard (src/) keeps its lists up to date by
-- live messages, and draws the phases of each task and the graph of each workflow.
--
-- Files, and the code that each models:
--   Common                shared lists, equality, texts, JSON values and results of calls that may
--                         throw
--   Common/Split          splitting and joining of texts
--   Api                   runtime/observation-api.ts: Cleanup, Backup, Bodies, Calls (its state),
--                         Requests, Statement (of an export)
--   Backfill              runtime/surreal-schema.ts: planWorkflowBackfill
--   Configuration         runtime/config-registry.ts, config-loader.ts, authentication-config.ts
--   Export                src/lib/csv.ts, src/lib/export-tasks.ts; Server: exportCsv of
--                         observation-api.ts
--   FlowGraph             src/components/workflow/flow-chart.tsx: getFlowGraph
--   Leader                runtime/leader-election.ts: the methods of LeaderElection, cut at `await`
--   Leader/Lock           the statements of runtime/leader-election.ts on the lock record
--   Leader/Node, Serial   interleavings of the parts of one instance
--   Literal               src/lib/task-search.ts: the literal parser, kwargsSearchTerms
--   LiveQuery             src/hooks/use-live-query.ts: handleLiveMessage, applyOrderAndLimit
--   Mcp                   runtime/mcp/common.ts: Results.page, Results.finish; Mcp/Cursors: Cursors
--   Migration             runtime/surreal-schema.ts: runSchemaMigration
--   Observation/Queries   runtime/observation/queries.ts: readPermissions, compileRead, buildRead
--   Observation/Rpc       runtime/observation/rpc.ts: ObservationRpc; Rpc/Post: its HTTP form in
--                         bun-entry.ts
--   Observation/Live      runtime/security/live.ts: LiveAuthorizationQueue
--   SearchIndex           runtime/search-indexes.ts: the lease, the marks of readiness, the walk
--   Security/Permissions  runtime/security/permissions.ts: roles, grants, authorize,
--                         routePermissions
--   Security/ReadScope    runtime/security/read-scope.ts: intersectScopes, principalScope,
--                         scopedDatabase
--   Security/Policy       runtime/security/opa.ts: Authorization.check and its body reader
--   Security/Http         runtime/security/http.ts: basicPrincipal, authenticate, gate
--   Security/Sessions     runtime/security/sessions.ts: Sessions
--   Security/Entry        runtime/security/http.ts: secureApplicationRequest, authFailure, noStore
--   Supervisor            bun-entry.ts: spawnPython, the election's callbacks, the start of
--                         shutdown
--   TaskPhases            src/utils/task-phases.ts, src/utils/task-execution.ts
--   TaskSearch            src/lib/task-search.ts, src/lib/indexed-search.ts: the clauses of a
--                         search
--   TimeRange             src/lib/time-range-utils.ts: serializeTimeRange, deserializeTimeRange
-- Below each, Laws and the modules named for a subject hold the proofs; Tests holds examples.
--
-- Conventions. A definition keeps the name of the code in snake case. A throw is `err` of
-- `Result`, with the status and message of an `HttpError`. In Api a call that throws keeps what it
-- wrote before. Numbers are naturals: times are milliseconds (seconds in Leader/Lock). A list of
-- Boolean tests stands for a set. An SQL view is kept as its columns and its row conditions, not
-- as text; the statements of an observation query are kept as their text. Code with `await` is cut
-- there, and what runs in between is a sequence of events. Loops recur on a list, except these, on
-- fuel: the one of `Results.page` takes the number of its items, for each round drops one item and
-- it ends at the latest when none is left; the recursion of `getFlowGraph` takes the number of
-- tasks, for it visits each at most once; the walk of the search indexes takes one round more than
-- there are records, for each round but the last takes at least one; the loop of
-- `runSchemaMigration` takes any number of rounds from five on, since the code makes at most five
-- attempts; the literal parser takes twice the length of the text and one.
--
-- Parameters, with what the code relies on where a theorem needs it: the policy server's reply and
-- JSON.parse, the session check and the OIDC endpoints in Security/Http and Security/Entry, jose
-- and openid-client in Security/Sessions, the URL parser, encodeURIComponent, timingSafeEqual on
-- buffers as equality of bytes, `===` and String() of record ids, Array.prototype.sort, the schema
-- of observation requests, the database's rows, toLowerCase, the patterns of a keyword search, the
-- texts of numbers and dates, the JSON, base64url and HMAC of cursors, the files, paths and
-- Number() of the configuration, localeCompare, trim, the schemas of the observation API, and the
-- `ORDER BY` of the database. The database runs each statement of the lock alone, and its clock
-- does not go back.
--
-- Not modelled: React components and hooks apart from the parts above, which present data; the
-- Python server; the dispatch of the sign-in endpoints and the HTML of the pages; logging; the MCP
-- tools themselves; the patterns of the literal parser and keywordSearchTerm; of the configuration
-- the schema of runtime/config.ts, the check of unknown keys and the limits of the retention; of
-- the observation API its metrics; the projections of the search indexes, which are functions of
-- the database; the files an export is downloaded as; of bun-entry.ts the SurrealDB process, the
-- rest of the dispatch of requests and the start sequence.
pub mod Api
pub mod Backfill
pub mod Common
pub mod Configuration
pub mod Export
pub mod FlowGraph
pub mod Leader
pub mod Literal
pub mod LiveQuery
pub mod Mcp
pub mod Migration
pub mod Observation
pub mod SearchIndex
pub mod Security
pub mod Supervisor
pub mod TaskPhases
pub mod TaskSearch
pub mod TimeRange
