-- ===== src/Lib.antt =====
-- The core of mcp4openapi, a server of the Model Context Protocol that offers the operations of an
-- OpenAPI document as tools, in front of an HTTP API with OAuth. The parts modelled here are the
-- state that the server keeps between requests and the policies that decide over it:
--
--   Cache            src/transport/in-memory-cache-store.ts: the cache of upstream responses. `read`,
--                    `write`, `delete_key` and `clear` are the methods get, set, delete and clear;
--                    `evict_until_within_budget` is the private method of that name.
--   RefreshRotation  src/auth/refresh-rotation-store.ts: the rotation of refresh tokens.
--                    `begin_rotation` is beginRotation, `commit` and `fail` are the closures of the
--                    lease it returns, which run at a later time on the store as it is then.
--   Clients          src/auth/client-store/: the registered OAuth clients (Clients.antt), the records
--                    (Clients/Types.antt) and the eviction policy (Clients/Policy.antt).
--   Redirects        src/auth/unregistered-client-redirect-policy.ts: which redirect URIs may be
--                    registered, and which are approved for a client that is not registered. The
--                    client store calls it in the validation of a registration.
--   ToolFilter       src/tool-filter/: which tools a server offers. Detector.antt has the categories
--                    of an operation and of a tool (operation/), Rules.antt the rules and the engine
--                    (filter/filter-rules.ts, filter/filter-engine.ts), Global.antt and Session.antt
--                    the two filters that build an engine from a configuration or from a request.
--                    The session filter runs on the tools that the global filter allowed. Parsing.antt
--                    parses the header X-Mcp4-Tools (config/header-config-parser.ts) and compiles
--                    expressions (regex/), Parsing/Variables.antt reads the variables
--                    (config/env-config-parser.ts).
--   Workflow         src/automation/agent-workflow-state.ts: the states that the labels of issues and
--                    pull requests stand for, and the changes of labels that the agents plan.
--   Reconsent        src/transport/reconsent-tracker.ts: which subjects had a session invalidated for
--                    want of consent, and whose next restored session is to be rejected once.
--   Dag              src/tooling/dag-executor.ts: the levels in which the steps of a composite tool
--                    run. Edges.antt has the edges that the steps stand for, Degrees.antt the graph
--                    that the first loops build, Release.antt and Levels.antt the queue and one
--                    level, Runs.antt the loop over the levels, Order.antt the whole analysis,
--                    Sort.antt and Acyclic.antt what it returns. The fuel of the loop is the number
--                    of steps: a level takes at least one node, and no node is queued twice.
--   Requests         src/transport/interceptors.ts: what a request to the upstream API passes through.
--                    RateLimit.antt has the token buckets, counted in parts of one in 60000 so that a
--                    refill per millisecond is whole; requests do not overlap in the model. Retry.antt
--                    has the attempts, Redirect.antt the redirects, Status.antt the errors that
--                    statuses become. fetch, new URL, setTimeout and the SSRF validator are
--                    parameters on a state of the world. The fuel of the redirects is the code's own
--                    limit, that of the retries max_attempts.
--   Composite        src/tooling/composite-executor.ts: the steps of a composite tool run level by
--                    level, in the order of Dag, and their results are stored under dotted paths.
--                    The requests of a level are a parameter on a state of the world.
--   PendingConsent   src/auth/pending-consent-store.ts: the consents that wait for the user's answer,
--                    in memory. The cipher, the hash and JSON are parameters with the law that what
--                    was sealed can be opened.
--   InboundTokens    src/auth/inbound-auth-token-store.ts: the tokens that were issued to clients, with
--                    their expiry and the limit on their number.
--   Consent          src/auth/consent-gate.ts, src/auth/consent-evidence-store.ts, src/auth/issuer.ts:
--                    the gate before every tool call of a profile that asks for consent, and the
--                    evidence of consents and revocations that it looks up. File.antt has the store in
--                    a file, line by line. Times of different writers are taken as given.
--   Upstream         src/upstream/: the connections of sessions to upstream MCP servers, with the keys
--                    of their heartbeats (upstream-connection-manager.ts, upstream-heartbeat.ts), and
--                    the queue of notifications (upstream-notification-queue.ts). What an asynchronous
--                    method does between two waits is one step, and the steps of all calls interleave
--                    in any order: `get_or_connect` is getOrConnect up to its first wait, `settle` and
--                    `finish` are the rest, `begin_close`, `stop_all` and `end_close` are closeAll.
--   ResponseCache    src/transport/: the policy of the response cache. Headers.antt reads the headers
--                    (cache-header-utils.ts), Policy.antt decides over requests and responses
--                    (cache-policy-evaluator.ts), Interceptor.antt is the interceptor over the store of
--                    Cache (response-cache-interceptor.ts, cache-revalidation-utils.ts): `begin` is a
--                    request up to the next handler, `finish_fetch` and `finish_bypass` are the rest,
--                    and the requests interleave.
--   Prelude          what the parts share: tests on numbers and lists, maps as association lists in
--                    the order of insertion (Prelude/Maps.antt, Prelude/MapOrder.antt), the numbers
--                    of options and variables (Prelude/Numbers.antt).
--
-- Each part is one file (the tool filter: several) with its state as a record and one function for
-- each operation, which takes the state and returns the next one; its child modules hold the proofs, named for what they prove,
-- and a module Tests with runs at concrete inputs. A `Map` of JavaScript keeps the order of insertion,
-- which the eviction of the oldest key depends on: `set` on a key that is there leaves it in its
-- place, and a deletion with an insertion behind it moves it to the end, as in the source. An
-- exception is a value, returned with the state at the throw where the state has changed. Times are
-- whole milliseconds, read from an argument; a random identifier is an argument. Objects that a
-- closure keeps (the family entries of the rotation store) live on a heap.
--
-- The loops of eviction recurse on the number of entries as fuel, and each turn removes an entry, so
-- the fuel is enough: the limits stand among the results. Other loops recurse on a list, or on the
-- code's own limit.
--
-- Parameters of the model, for code outside the repository: `JSON.stringify` with
-- `Buffer.byteLength`, `JSON.parse`, `Date.parse`, `localeCompare`, `new URL`, Unicode normalization,
-- `new RegExp` and the test of a compiled expression, `fetch`, `setTimeout`, and `node:crypto`, from
-- which the digest of the rules comes. Parameters too, for parts of the repository outside the model,
-- are the requests of a level of a composite tool, the SSRF validator and the builder of cache keys.
-- Assumed of them is that what the cipher sealed can be opened with the same key and data, that a
-- payload survives JSON, and that `Promise.allSettled` gives one reply for each request; each stands
-- as a hypothesis of the theorems that use it. The file of consents is a list of records, one for each
-- line: how a line is written and parsed is left out.
--
-- Not modelled: the HTTP transport and the MCP server that call these parts, the OAuth provider and
-- its encrypted envelopes, the loading of profiles and OpenAPI documents, how a tool call becomes an
-- HTTP request, the stores of consents in a database, the resolution of cache policies from a
-- profile, logging and metrics, the runners of the automation and the tests.
pub mod Prelude
pub mod Cache
pub mod Clients
pub mod Composite
pub mod Consent
pub mod Dag
pub mod InboundTokens
pub mod PendingConsent
pub mod Reconsent
pub mod Redirects
pub mod RefreshRotation
pub mod Requests
pub mod ResponseCache
pub mod ToolFilter
pub mod Upstream
pub mod Workflow
